-- ===== src/Columns/Widths.antt =====
-- list.c: the widths of the columns.
use task_spooler.Base.{
  ℕ, zero, suc, ◌≤◌, ◌-◌, [], ◌∷◌, ◌++◌, Option, none, some, length, take, length-append, arith,
}
use task_spooler.State.{
  Text, Job, JobState, queued, allocating, running, finished, skipped, holding_client,
}
use task_spooler.Columns.{dots, shorten, stored_shown, ofilename_shown}

-- A text is there, and has at most `n` characters.
unfoldable pub Fits : ℕ → Option Text → Type 0
Fits n none = ⊥
Fits n (some s) = length s ≤ n

length-take_le : (n : ℕ) (xs : Text) → length (take n xs) ≤ n
length-take_le zero xs = omega arith
length-take_le (suc n) [] = omega arith
length-take_le (suc n) (x ∷ xs) = omega (arith, length-take_le n xs)

pub length-dots_behind : (n : ℕ) (s : Text) → 5 ≤ n → length (take (n - 5) s ++ dots) ≤ n
length-dots_behind n s h =
    omega (arith, length-append (take (n - 5) s) dots, length-take_le (n - 5) s)

pub shorten-Fits : (line : Text) (len : ℕ) → 5 ≤ len → Fits len (shorten line len)
unfolding Fits shorten
shorten-Fits line len h = ground (arith, length-dots_behind len line h)

stored_shown-Fits : (s : JobState) (name : Option Text) → Fits 20 (stored_shown s name)
unfolding Fits stored_shown
stored_shown-Fits queued name = omega arith
stored_shown-Fits allocating name = omega arith
stored_shown-Fits running none = omega arith
stored_shown-Fits running (some name) = shorten-Fits name 20 (omega arith)
stored_shown-Fits finished none = omega arith
stored_shown-Fits finished (some name) = shorten-Fits name 20 (omega arith)
stored_shown-Fits skipped none = omega arith
stored_shown-Fits skipped (some name) = shorten-Fits name 20 (omega arith)
stored_shown-Fits holding_client none = omega arith
stored_shown-Fits holding_client (some name) = shorten-Fits name 20 (omega arith)

pub ofilename_shown-Fits : (p : Job) → Fits 20 (ofilename_shown p)
unfolding Fits ofilename_shown
ofilename_shown-Fits p = ground (arith, stored_shown-Fits p.state p.output_filename)
