-- ===== src/Columns.antt =====
-- list.c: the pieces of a job's line that are cut to a width.
pub mod Widths
pub mod Lines
pub mod Sizes
pub mod Whole
pub mod Plain
pub mod Dump
use task_spooler.Base.{
  ℕ, ◌-◌, List, [], ◌∷◌, ◌++◌, Option, none, some, length, take, leb, if◌then◌else◌,
}
use task_spooler.Jobs.Notices.{is_true}
use task_spooler.State.{
  Text, Job, JobState, queued, allocating, running, finished, skipped, holding_client,
}

abbrev pub dots : Text
dots = b'.' ∷ b'.' ∷ b'.' ∷ []

-- A line cut to `len` characters: snprintf writes one character less than its size, len - 4. None
-- where that size is not positive: strcat then goes on behind whatever the buffer held.
unfoldable pub shorten : Text → ℕ → Option Text
shorten line len =
    if leb (length line) len
    then some line
    else (if leb len 4 then none else some (take (len - 5) line ++ dots))

abbrev pub no_output : Text
no_output = b'(' ∷ b'n' ∷ b'o' ∷ b' ' ∷ b'o' ∷ b'u' ∷ b't' ∷ b'p' ∷ b'u' ∷ b't' ∷ b')' ∷ []

abbrev pub file_to_come : Text
file_to_come = b'(' ∷ b'f' ∷ b'i' ∷ b'l' ∷ b'e' ∷ b')' ∷ []

abbrev pub no_name : Text
no_name = b'(' ∷ b'.' ∷ b'.' ∷ b'.' ∷ b')' ∷ []

abbrev pub to_stdout : Text
to_stdout = b's' ∷ b't' ∷ b'd' ∷ b'o' ∷ b'u' ∷ b't' ∷ []

unfoldable pub stored_shown : JobState → Option Text → Option Text
unfolding shorten
stored_shown queued name = some file_to_come
stored_shown allocating name = some file_to_come
stored_shown _ none = some no_name
stored_shown _ (some name) = shorten name 20

-- The column of the output's file.
unfoldable pub ofilename_shown : Job → Option Text
unfolding stored_shown
ofilename_shown p = elim p.state [
  | skipped ↦ some no_output
  | _ ↦ if is_true p.store_output then stored_shown p.state p.output_filename else some to_stdout
]
