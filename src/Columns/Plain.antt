-- ===== src/Columns/Plain.antt =====
-- list.c: the line of a job with tabs, against the memory that is asked for it.
use mathlib.Core.List.{append_assoc}
use task_spooler.Base.{
  ◌≡◌, sym, ◌∙◌, ap, ◌+◌, ◌≤◌, List, [], ◌∷◌, ◌++◌, Option, none, some, length, length-append,
  Bool-cases, inl, inr, arith,
}
use task_spooler.Base.Run.{ok}
use task_spooler.State.{Text, Job}
use task_spooler.Jobs.Find.{is_finished}
use task_spooler.Printing.{concat, snprintf}
use task_spooler.Printing.Numbers.{length-decimal, concat-append, snprintf_whole}
use task_spooler.Columns.{ofilename_shown}
use task_spooler.Columns.Widths.{ofilename_shown-Fits}
use task_spooler.Columns.Lines.{
  Floats, time_rep, depend_text, label_size, depend_size, base_size, maxlen, tabulator, newline,
  in_brackets, plain_noresult_columns, plain_result_columns, plain_label, plain_line,
  plainprint_noresult, plainprint_result, joblist_line_plain,
}
use task_spooler.Columns.Sizes.{
  total, length-concat, length-jstate_string, length-unit, Fits-some, length-in_brackets,
  depend_fits, length-line, dependstr_fits,
}

plain_noresult_width :
    (p : Job) (output dependencies : Text)
    → length output ≤ 20
    → total (plain_noresult_columns p output dependencies) ≤ 92 + length dependencies
unfolding plain_noresult_columns
plain_noresult_width p output dependencies h =
    omega (arith, length-decimal p.jobid, length-jstate_string p.state, length-decimal p.num_gpus)

plain_result_width :
    (p : Job) (output time unit dependencies : Text)
    → length output ≤ 20
    → length time ≤ 20
    → length unit ≡ 1
    → total (plain_result_columns p output time unit dependencies) ≤ 92 + length dependencies
unfolding plain_result_columns
plain_result_width p output time unit dependencies h k e = omega (
  arith,
  length-decimal p.jobid,
  length-jstate_string p.state,
  length-decimal p.result.errorlevel,
  length-decimal p.num_gpus,
)

length-plain_label : (label : Option Text) → length (plain_label label) ≤ label_size label + 1
unfolding plain_label
length-plain_label none = omega arith
length-plain_label (some label) =
    omega (arith, length-in_brackets label, length-append (in_brackets label) tabulator)

plain_line_whole :
    (p : Job) (columns : List Text)
    → total columns ≤ 92 + depend_size p.depend_on
    → plain_line p columns ≡ (concat columns ++ plain_label p.label) ++ (p.command ++ newline)
unfolding plain_line maxlen base_size
plain_line_whole p columns h =
    let line = concat columns ++ (plain_label p.label ++ (p.command ++ newline)) in
    ap (snprintf (maxlen p))
      (concat-append columns (plain_label p.label ∷ p.command ∷ newline ∷ []))
    ∙ (snprintf_whole (maxlen p) line (
          omega (
            arith,
            h,
            length-line (concat columns) (plain_label p.label) p.command,
            length-plain_label p.label,
            length-concat columns,
          ))
        ∙ sym (append_assoc (concat columns) (plain_label p.label) (p.command ++ newline)))

-- The line of the format with tabs carries the label and the command in full.
pub joblist_line_plain_whole :
    (fl : Floats) (p : Job)
    → length (depend_text p.depend_on) ≤ 19
    → length (fl.fixed (time_rep fl p.result.real_ms).0) ≤ 20
    → (front : Text) × (joblist_line_plain fl p
        ≡ ok ((front ++ plain_label p.label) ++ (p.command ++ newline)))
unfolding joblist_line_plain plainprint_result plainprint_noresult
joblist_line_plain_whole fl p deps time =
    let (output, e, n) = Fits-some 20 (ofilename_shown p) (ofilename_shown-Fits p) in
    let (t, unit) = time_rep fl p.result.real_ms in
    let d = depend_text p.depend_on in
    let fits = depend_fits p.depend_on deps in
    elim (Bool-cases (is_finished p.state)) [
      | inl ended ↦
          (let columns = plain_result_columns p output (fl.fixed t) unit d in
            let eq = plain_line_whole p columns (
              omega (
                arith,
                fits,
                plain_result_width p output (fl.fixed t) unit d n time
                    (length-unit fl p.result.real_ms),
              )) in
            (concat columns, rw (ended, e, dependstr_fits p.depend_on deps) (ap ok eq)))
      | inr going ↦
          (let columns = plain_noresult_columns p output d in
            let eq =
              plain_line_whole p columns (omega (arith, fits, plain_noresult_width p output d n)) in
            (concat columns, rw (going, e, dependstr_fits p.depend_on deps) (ap ok eq)))
    ]
