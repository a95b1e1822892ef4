-- ===== src/Columns/Lines.antt =====
-- list.c: the lines of a job in a list.
use task_spooler.Base.{
  ℕ, ◌+◌, ◌-◌, Bool, List, [], ◌∷◌, ◌++◌, map, Option, none, some, length, take, ltb, leb, ite,
  if◌then◌else◌,
}
use task_spooler.Base.Int.{ℤ, minus_one, ℤ_discrete, pos_part}
use task_spooler.Base.Run.{Run, ok, fault, ◌>>=◌, or_fault}
use task_spooler.Base.Strings.{codes}
use task_spooler.State.{
  Text, Job, JobState, queued, allocating, running, finished, skipped, holding_client,
}
use task_spooler.Jobs.Find.{is_finished}
use task_spooler.Printing.{decimal, on_left, on_right, concat, snprintf, ints_to_chars}
use task_spooler.Columns.{shorten, ofilename_shown}

-- The operations on a float, given by its bits: `t > k`, `t / k`, and "%.2f".
pub record Floats : Type 0 where
  pub above : ℕ → ℕ → Bool
  pub divided : ℕ → ℕ → ℕ
  pub fixed : ℕ → Text

unfoldable pub jstate_string : JobState → Text
jstate_string queued = codes "queued"
jstate_string allocating = codes "allocating"
jstate_string running = codes "running"
jstate_string finished = codes "finished"
jstate_string skipped = codes "skipped"
jstate_string holding_client = codes "skipped"

abbrev days_of : Floats → ℕ → ℕ × Text
days_of fl t = if fl.above t 24 then (fl.divided t 24, codes "d") else (t, codes "h")

abbrev hours_of : Floats → ℕ → ℕ × Text
hours_of fl t = if fl.above t 60 then days_of fl (fl.divided t 60) else (t, codes "m")

-- A time in seconds, in the unit that it is shown in.
unfoldable pub time_rep : Floats → ℕ → ℕ × Text
time_rep fl t = if fl.above t 60 then hours_of fl (fl.divided t 60) else (t, codes "s")

unfoldable pub first_depend : ℤ → Text
unfolding decimal
first_depend d = ite (ℤ_discrete d minus_one) (codes "[ ") (b'[' ∷ decimal d)

unfoldable pub next_depend : ℤ → Text
unfolding decimal
next_depend d = ite (ℤ_discrete d minus_one) (codes ", ") (b',' ∷ decimal d)

-- The dependencies of a job, as dependstr shows them.
unfoldable pub depend_text : List ℤ → Text
unfolding first_depend next_depend concat
depend_text [] = []
depend_text (d ∷ rest) = first_depend d ++ (concat (map next_depend rest) ++ codes "]&& ")

-- The array has 20 bytes, and each snprintf is allowed as many from where it writes.
unfoldable pub dependstr : List ℤ → Run Text
unfolding depend_text
dependstr ids = if leb (length (depend_text ids)) 19 then ok (depend_text ids) else fault

abbrev pub label_size : Option Text → ℕ
label_size none = 0
label_size (some label) = 3 + length label

abbrev pub depend_size : List ℤ → ℕ
depend_size [] = 0
depend_size (d ∷ rest) = 20

-- The memory of a line, the command aside.
unfoldable pub base_size : Job → ℕ
base_size p = 98 + (label_size p.label + depend_size p.depend_on)

unfoldable pub maxlen : Job → ℕ
unfolding base_size
maxlen p = base_size p + length p.command

abbrev pub max : ℕ → ℕ → ℕ
max a b = if ltb b a then a else b

-- A width that is smaller than the rest of the line makes a negative number in C, and gives 20 too.
unfoldable pub cmd_len : ℕ → Job → ℕ
unfolding maxlen
cmd_len term_width p = max (length p.command + term_width - maxlen p) 20

abbrev pub space : Text
space = b' ' ∷ []

abbrev pub tabulator : Text
tabulator = b'\t' ∷ []

abbrev pub newline : Text
newline = b'\n' ∷ []

abbrev pub in_brackets : Text → Text
in_brackets text = b'[' ∷ (text ++ b']' ∷ [])

-- The columns before the label and the command, in the formats of the source.
unfoldable pub noresult_columns : Job → Text → Text → List Text
unfolding on_left on_right decimal jstate_string
noresult_columns p output dependencies =
    on_left 4 (decimal p.jobid)
    ∷ space
    ∷ on_left 10 (jstate_string p.state)
    ∷ space
    ∷ on_left 20 output
    ∷ space
    ∷ on_left 8 []
    ∷ space
    ∷ on_right 6 []
    ∷ space
    ∷ on_left 5 (decimal p.num_gpus)
    ∷ space
    ∷ dependencies
    ∷ []

unfoldable pub result_columns : Job → Text → Text → Text → Text → List Text
unfolding on_left on_right decimal jstate_string
result_columns p output time unit dependencies =
    on_left 4 (decimal p.jobid)
    ∷ space
    ∷ on_left 10 (jstate_string p.state)
    ∷ space
    ∷ on_left 20 output
    ∷ space
    ∷ on_left 8 (decimal p.result.errorlevel)
    ∷ space
    ∷ on_right 5 time
    ∷ unit
    ∷ space
    ∷ on_left 5 (decimal p.num_gpus)
    ∷ space
    ∷ dependencies
    ∷ []

unfoldable pub plain_noresult_columns : Job → Text → Text → List Text
unfolding decimal jstate_string
plain_noresult_columns p output dependencies =
    decimal p.jobid
    ∷ tabulator
    ∷ jstate_string p.state
    ∷ tabulator
    ∷ output
    ∷ tabulator
    ∷ tabulator
    ∷ tabulator
    ∷ decimal p.num_gpus
    ∷ tabulator
    ∷ dependencies
    ∷ tabulator
    ∷ []

unfoldable pub plain_result_columns : Job → Text → Text → Text → Text → List Text
unfolding decimal jstate_string
plain_result_columns p output time unit dependencies =
    decimal p.jobid
    ∷ tabulator
    ∷ jstate_string p.state
    ∷ tabulator
    ∷ output
    ∷ tabulator
    ∷ decimal p.result.errorlevel
    ∷ tabulator
    ∷ time
    ∷ tabulator
    ∷ unit
    ∷ tabulator
    ∷ decimal p.num_gpus
    ∷ tabulator
    ∷ dependencies
    ∷ tabulator
    ∷ []

unfoldable pub label_column : Option Text → Run Text
unfolding shorten
label_column none = ok []
label_column (some label) = do text ← or_fault (shorten label 20); ok (in_brackets text)

unfoldable pub plain_label : Option Text → Text
plain_label none = tabulator
plain_label (some label) = in_brackets label ++ tabulator

-- What the four functions do with their columns.
unfoldable pub cut_line : ℕ → Job → List Text → Run Text
unfolding label_column cmd_len shorten snprintf maxlen concat
cut_line term_width p columns = do
  label ← label_column p.label
  cmd ← or_fault (shorten p.command (cmd_len term_width p))
  ok (snprintf (maxlen p) (concat (columns ++ label ∷ cmd ∷ newline ∷ [])))

unfoldable pub plain_line : Job → List Text → Text
unfolding plain_label snprintf maxlen concat
plain_line p columns =
    snprintf (maxlen p) (concat (columns ++ plain_label p.label ∷ p.command ∷ newline ∷ []))

unfoldable pub print_noresult : ℕ → Job → Run Text
print_noresult term_width p = do
  output ← or_fault (ofilename_shown p)
  dependencies ← dependstr p.depend_on
  cut_line term_width p (noresult_columns p output dependencies)

unfoldable pub print_result : Floats → ℕ → Job → Run Text
print_result fl term_width p = do
  let (t, unit) = time_rep fl p.result.real_ms
  output ← or_fault (ofilename_shown p)
  dependencies ← dependstr p.depend_on
  cut_line term_width p (result_columns p output (fl.fixed t) unit dependencies)

unfoldable pub plainprint_noresult : Job → Run Text
plainprint_noresult p = do
  output ← or_fault (ofilename_shown p)
  dependencies ← dependstr p.depend_on
  ok (plain_line p (plain_noresult_columns p output dependencies))

unfoldable pub plainprint_result : Floats → Job → Run Text
plainprint_result fl p = do
  let (t, unit) = time_rep fl p.result.real_ms
  output ← or_fault (ofilename_shown p)
  dependencies ← dependstr p.depend_on
  ok (plain_line p (plain_result_columns p output (fl.fixed t) unit dependencies))

unfoldable pub joblist_line : Floats → ℕ → Job → Run Text
joblist_line fl term_width p =
    if is_finished p.state then print_result fl term_width p else print_noresult term_width p

unfoldable pub joblist_line_plain : Floats → Job → Run Text
joblist_line_plain fl p =
    if is_finished p.state then plainprint_result fl p else plainprint_noresult p

-- A line of a dump, which queues the job again.
unfoldable pub joblistdump_torun : Job → Text
unfolding snprintf
joblistdump_torun p = snprintf (10 + length p.command + 20) (codes "ts " ++ (p.command ++ newline))

-- The memory of the line has 1024 bytes.
unfoldable pub print_gpu : Job → Run Text
unfolding ints_to_chars on_left decimal
print_gpu p = do
  ids ← ints_to_chars (take (pos_part p.num_gpus) p.gpu_ids) space
  let line = on_left 4 (decimal p.jobid) ++ (space ++ (ids ++ newline))
  if ltb (length line) 1024 then ok line else fault
