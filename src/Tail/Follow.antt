-- ===== src/Tail/Follow.antt =====
-- tail.c: tail_file, which shows a file until its job has ended.
use task_spooler.Base.{
  ℕ, Bool, true, false, not, ◌&&◌, ◌||◌, List, [], ◌∷◌, Option, none, some, length, ◌==◌,
  if◌then◌else◌,
}
use task_spooler.Base.Int.{ℤ, pos}
use task_spooler.State.{Text}
use task_spooler.Printing.{write_loop}

-- What read() gives: bytes, none of them at the end of the file, nothing for now, or an error.
pub data Reading : Type 0 where
  bytes : Text → Reading
  again failed : Reading

-- A round of the loop: what c_wait_job_recv gives if the server's socket can be read, the reading,
-- whether stdout has an error, and what each call of write takes.
pub record Round : Type 0 where
  pub job_end : Option ℤ
  pub reading : Reading
  pub stdout_error : Bool
  pub rooms : List (Option ℕ)

-- The variables of the loop, and what was written.
pub record Follow : Type 0 where
  pub waiting_end : Bool
  pub end_res : ℤ
  pub endfile_reached : Bool
  pub could_write : Bool
  pub written : Text

-- tail_file returns, ends in tail_error, or goes on when the rounds that are looked at are over.
pub data Followed : Type 0 where
  returned still : Follow → Followed
  tail_error : Followed

-- The socket is only looked at while the end of the job is waited for.
unfoldable pub hear_end : Option ℤ → Follow → Follow
hear_end none f = f
hear_end (some e) f = if f.waiting_end then record f { end_res = e; waiting_end = false } else f

abbrev pub is_empty : Text → Bool
is_empty [] = true
is_empty (c ∷ text) = false

unfoldable pub show_bytes : Text → Bool → List (Option ℕ) → Follow → Follow
unfolding write_loop
show_bytes buf stdout_error rooms f =
    if stdout_error
    then record f { endfile_reached = is_empty buf; could_write = false }
    else (let (left, written) = write_loop rooms buf (length buf) f.written in
        record f { endfile_reached = is_empty buf; could_write = left == 0; written = written })

-- The condition of the loop.
abbrev pub goes_on : Follow → Bool
goes_on f = (not f.endfile_reached || f.waiting_end) && f.could_write

unfoldable pub follow_loop : List Round → Follow → Followed
unfolding hear_end show_bytes
follow_loop [] f = still f
follow_loop (r ∷ rounds) f =
    let heard = hear_end r.job_end f in
    elim r.reading [
      | failed ↦ tail_error
      | again ↦
          (let rest = follow_loop rounds heard in if goes_on heard then rest else returned heard)
      | bytes buf ↦
          (let shown = show_bytes buf r.stdout_error r.rooms heard in
            let rest = follow_loop rounds shown in if goes_on shown then rest else returned shown)
    ]

abbrev pub at_start : Follow
at_start = record {
  waiting_end = true;
  end_res = pos 0;
  endfile_reached = false;
  could_write = true;
  written = [];
}

unfoldable pub tail_file : List Round → Followed
unfolding follow_loop
tail_file rounds = follow_loop rounds at_start
