-- ===== src/Columns/Whole.antt =====
-- list.c: the line of a job against the memory that is asked for it, and against the terminal.
use mathlib.Core.List.{append_assoc}
use task_spooler.Base.{
  ◌≡◌, sym, ap, ℕ, ◌+◌, ◌-◌, ◌≤◌, List, [], ◌∷◌, ◌++◌, some, length, Bool-cases, inl, inr, arith,
}
use task_spooler.Base.Run.{ok}
use task_spooler.State.{Text, Job}
use task_spooler.Jobs.Find.{is_finished}
use task_spooler.Printing.{concat}
use task_spooler.Printing.Numbers.{concat-append, snprintf_whole}
use task_spooler.Columns.{shorten, ofilename_shown}
use task_spooler.Columns.Widths.{shorten-Fits, ofilename_shown-Fits}
use task_spooler.Columns.Lines.{
  Floats, time_rep, depend_text, depend_size, base_size, maxlen, max, cmd_len, newline,
  noresult_columns, result_columns, cut_line, print_noresult, print_result, joblist_line,
}
use task_spooler.Columns.Sizes.{
  total, length-concat, length-unit, Fits-some, shorten_le, depend_fits, noresult_width,
  result_width, label_column_fits, cmd_len_le, length-line, dependstr_fits,
}

-- A line that is not cut: what stands before the command, the command as it was shortened, and the end;
-- and not wider than the terminal, or than the columns with 20 characters of the command.
pub record IsWhole (term_width : ℕ) (p : Job) (line : Text) : Type 0 where
  pub front : Text
  pub cmd : Text
  pub shortened : shorten p.command (cmd_len term_width p) ≡ some cmd
  pub parts : line ≡ front ++ (cmd ++ newline)
  pub width : length line ≤ max term_width (base_size p + 20)

width_le :
    (len base c w k : ℕ)
    → len ≤ base + c
    → c ≤ max (k + w - (base + k)) 20
    → len ≤ max w (base + 20)
width_le len base c w k h e = ground arith

cut_line-IsWhole :
    (term_width : ℕ) (p : Job) (columns : List Text)
    → total columns ≤ 91 + depend_size p.depend_on
    → (line : Text) × (cut_line term_width p columns ≡ ok line) × IsWhole term_width p line
unfolding cut_line maxlen base_size
cut_line-IsWhole term_width p columns h =
    let (label, e, n) = label_column_fits p.label in
    let (cmd, e', n') =
      Fits-some (cmd_len term_width p) (shorten p.command (cmd_len term_width p))
        (shorten-Fits p.command (cmd_len term_width p) (cmd_len_le term_width p)) in
    let line = concat columns ++ (label ++ (cmd ++ newline)) in
    let size = length-line (concat columns) label cmd in
    let short = shorten_le p.command (cmd_len term_width p) e' (cmd_len_le term_width p) in
    (
      line,
      rw (e, e', concat-append columns (label ∷ cmd ∷ newline ∷ []))
          (ap ok (
            snprintf_whole (maxlen p) line
              (omega (arith, size, short, n, h, length-concat columns)))),
      record {
        front = concat columns ++ label;
        cmd = cmd;
        shortened = e';
        parts = sym (append_assoc (concat columns) label (cmd ++ newline));
        width =
            width_le (length line) (base_size p) (length cmd) term_width (length p.command)
              (omega (arith, size, n, h, length-concat columns)) n';
      },
    )

-- If the dependencies of a job fill at most 19 characters and its time at most 20, its line in a
-- list is made and is not cut: it ends with the command, shortened as cmd_len says, and a newline,
-- and it is no wider than the terminal, or than its memory without the command and 20 characters of
-- it.
pub joblist_line-IsWhole :
    (fl : Floats) (term_width : ℕ) (p : Job)
    → length (depend_text p.depend_on) ≤ 19
    → length (fl.fixed (time_rep fl p.result.real_ms).0) ≤ 20
    → (line : Text) × (joblist_line fl term_width p ≡ ok line) × IsWhole term_width p line
unfolding joblist_line print_result print_noresult
joblist_line-IsWhole fl term_width p deps time =
    let (output, e, n) = Fits-some 20 (ofilename_shown p) (ofilename_shown-Fits p) in
    let (t, unit) = time_rep fl p.result.real_ms in
    let d = depend_text p.depend_on in
    let fits = depend_fits p.depend_on deps in
    elim (Bool-cases (is_finished p.state)) [
      | inl ended ↦
          (let (line, eq, whole) =
              cut_line-IsWhole term_width p (result_columns p output (fl.fixed t) unit d) (
                omega (
                  arith,
                  fits,
                  result_width p output (fl.fixed t) unit d n time
                      (length-unit fl p.result.real_ms),
                )) in
            (line, rw (ended, e, dependstr_fits p.depend_on deps) eq, whole))
      | inr going ↦
          (let (line, eq, whole) =
              cut_line-IsWhole term_width p (noresult_columns p output d)
                (omega (arith, fits, noresult_width p output d n)) in
            (line, rw (going, e, dependstr_fits p.depend_on deps) eq, whole))
    ]
