-- ===== src/Columns/Sizes.antt =====
-- list.c: how wide the columns of a line are.
use task_spooler.Base.{
  ◌≡◌, refl, ℕ, ◌+◌, ◌≤◌, List, [], ◌∷◌, ◌++◌, Option, none, some, length, length-append, arith,
}
use task_spooler.Base.Int.{ℤ}
use task_spooler.Base.Run.{ok}
use task_spooler.State.{
  Text, Job, JobState, queued, allocating, running, finished, skipped, holding_client,
}
use task_spooler.Printing.{decimal, concat}
use task_spooler.Printing.Numbers.{length-decimal, length-on_left, length-on_right}
use task_spooler.Columns.{shorten}
use task_spooler.Columns.Widths.{length-dots_behind, Fits, shorten-Fits}
use task_spooler.Columns.Lines.{
  Floats, jstate_string, time_rep, depend_text, dependstr, label_size, depend_size, cmd_len,
  newline, in_brackets, noresult_columns, result_columns, label_column,
}

abbrev pub total : List Text → ℕ
total [] = 0
total (piece ∷ rest) = length piece + total rest

pub length-concat : (pieces : List Text) → length (concat pieces) ≡ total pieces
unfolding concat
length-concat [] = refl
length-concat (piece ∷ rest) = omega (arith, length-append piece (concat rest), length-concat rest)

pub length-jstate_string : (s : JobState) → length (jstate_string s) ≤ 10
unfolding jstate_string
length-jstate_string queued = omega arith
length-jstate_string allocating = omega arith
length-jstate_string running = omega arith
length-jstate_string finished = omega arith
length-jstate_string skipped = omega arith
length-jstate_string holding_client = omega arith

pub length-unit : (fl : Floats) (t : ℕ) → length (time_rep fl t).1 ≡ 1
unfolding time_rep
length-unit fl t = ground arith

pub Fits-some : (n : ℕ) (o : Option Text) → Fits n o → (s : Text) × (o ≡ some s) × (length s ≤ n)
unfolding Fits
Fits-some n none h = absurd h
Fits-some n (some s) h = (s, refl, h)

pub shorten_le :
    (line : Text) (n : ℕ) {s : Text} → shorten line n ≡ some s → 5 ≤ n → length s ≤ length line
unfolding shorten
shorten_le line n e h = ground (arith, length-dots_behind n line h)

pub length-in_brackets : (s : Text) → length (in_brackets s) ≡ length s + 2
length-in_brackets s = omega (arith, length-append s (b']' ∷ []))

pub depend_fits :
    (ids : List ℤ) → length (depend_text ids) ≤ 19 → length (depend_text ids) ≤ depend_size ids
unfolding depend_text
depend_fits [] h = omega arith
depend_fits (d ∷ rest) h = omega arith

pub noresult_width :
    (p : Job) (output dependencies : Text)
    → length output ≤ 20
    → total (noresult_columns p output dependencies) ≤ 73 + length dependencies
unfolding noresult_columns
noresult_width p output dependencies h = omega (
  arith,
  length-on_left 4 11 (decimal p.jobid) (omega arith) (length-decimal p.jobid),
  length-on_left 10 10 (jstate_string p.state) (omega arith) (length-jstate_string p.state),
  length-on_left 20 20 output (omega arith) h,
  length-on_left 8 8 [] (omega arith) (omega arith),
  length-on_right 6 6 [] (omega arith) (omega arith),
  length-on_left 5 11 (decimal p.num_gpus) (omega arith) (length-decimal p.num_gpus),
)

pub result_width :
    (p : Job) (output time unit dependencies : Text)
    → length output ≤ 20
    → length time ≤ 20
    → length unit ≡ 1
    → total (result_columns p output time unit dependencies) ≤ 91 + length dependencies
unfolding result_columns
result_width p output time unit dependencies h k e = omega (
  arith,
  length-on_left 4 11 (decimal p.jobid) (omega arith) (length-decimal p.jobid),
  length-on_left 10 10 (jstate_string p.state) (omega arith) (length-jstate_string p.state),
  length-on_left 20 20 output (omega arith) h,
  length-on_left 8 11 (decimal p.result.errorlevel) (omega arith)
      (length-decimal p.result.errorlevel),
  length-on_right 5 20 time (omega arith) k,
  length-on_left 5 11 (decimal p.num_gpus) (omega arith) (length-decimal p.num_gpus),
)

pub label_column_fits :
    (label : Option Text)
    → (text : Text) × (label_column label ≡ ok text) × (length text ≤ label_size label)
unfolding label_column
label_column_fits none = ([], refl, omega arith)
label_column_fits (some label) =
    let (s, e, n) = Fits-some 20 (shorten label 20) (shorten-Fits label 20 (omega arith)) in
    (
      in_brackets s,
      rw e refl,
      omega (arith, length-in_brackets s, shorten_le label 20 e (omega arith)),
    )

pub cmd_len_le : (term_width : ℕ) (p : Job) → 5 ≤ cmd_len term_width p
unfolding cmd_len
cmd_len_le term_width p = ground arith

pub length-line :
    (a b c : Text) → length (a ++ (b ++ (c ++ newline))) ≡ length a + length b + length c + 1
length-line a b c = omega (
  arith,
  length-append a (b ++ (c ++ newline)),
  length-append b (c ++ newline),
  length-append c newline,
)

pub dependstr_fits :
    (ids : List ℤ) → length (depend_text ids) ≤ 19 → dependstr ids ≡ ok (depend_text ids)
unfolding dependstr
dependstr_fits ids h = ground arith
