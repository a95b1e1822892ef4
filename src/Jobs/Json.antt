-- ===== src/Jobs/Json.antt =====
-- jobs.c: the jobs as JSON. cJSON, which makes the text, is a parameter.
use task_spooler.Base.{ℕ, List, [], ◌∷◌, ◌++◌, Option, some, if◌then◌else◌}
use task_spooler.Base.Int.{ℤ}
use task_spooler.Base.Run.{Run, ok, ◌>>=◌, or_exits}
use task_spooler.Base.Strings.{codes}
use task_spooler.State.{Text, Job, Server}
use task_spooler.Jobs.Find.{is_finished}
use task_spooler.Jobs.Query.{shown}
use task_spooler.Columns.Lines.{jstate_string, newline}

-- cJSON: its values, the calls that create them or fail, the two that add to a value, and the printing.
-- `create_time` takes the bits of a float.
pub record CJson : Type 1 where
  pub Node : Type 0
  pub create_array : Option Node
  pub create_object : Option Node
  pub create_number : ℤ → Option Node
  pub create_time : ℕ → Option Node
  pub create_string_reference : Option Text → Option Node
  pub create_null : Option Node
  pub add_item_to_object : Node → Text → Node → Node
  pub add_item_to_array : Node → Node → Node
  pub print_unformatted : Node → Option Text

module _ (c : CJson) where
  open c use {Node}

  -- A field is created, or error() ends the server, and added.
  abbrev with_field : Text → Option Node → Node → Run Node
  with_field name field job = do node ← or_exits field; ok (c.add_item_to_object job name node)

  abbrev errorlevel_field : Job → Option Node
  errorlevel_field p =
      if is_finished p.state then c.create_number p.result.errorlevel else c.create_null

  abbrev time_field : Job → Option Node
  time_field p = if is_finished p.state then c.create_time p.result.real_ms else c.create_null

  -- The fields of a job, in their order.
  unfoldable pub job_fields : Job → List (Text × Option Node)
  unfolding jstate_string
  job_fields p =
      (codes "ID", c.create_number p.jobid)
      ∷ (codes "State", c.create_string_reference (some (jstate_string p.state)))
      ∷ (codes "Output", c.create_string_reference p.output_filename)
      ∷ (codes "E-Level", errorlevel_field p)
      ∷ (codes "Time_ms", time_field p)
      ∷ (codes "GPUs", c.create_number p.num_gpus)
      ∷ (codes "Command", c.create_string_reference (some p.command))
      ∷ []

  unfoldable pub add_fields : List (Text × Option Node) → Node → Run Node
  add_fields [] job = ok job
  add_fields ((name, field) ∷ rest) job = with_field name field job >>= add_fields rest

  -- The object is filled after it is in the array; the array keeps a pointer to it.
  unfoldable pub add_job_to_json_array : Job → Node → Run Node
  unfolding job_fields add_fields
  add_job_to_json_array p jobs = do
    job ← or_exits c.create_object
    full ← add_fields (job_fields p) job
    ok (c.add_item_to_array jobs full)

  -- The two loops of s_list over jobs.
  unfoldable pub add_jobs : List Job → Node → Run Node
  unfolding add_job_to_json_array
  add_jobs [] jobs = ok jobs
  add_jobs (p ∷ rest) jobs = add_job_to_json_array p jobs >>= add_jobs rest

  -- The text of a list in JSON.
  unfoldable pub json_text : Server → Run Text
  unfolding shown add_jobs
  json_text s = do
    jobs ← or_exits c.create_array
    with_queue ← add_jobs (shown s.jobs) jobs
    all ← add_jobs s.first_finished with_queue
    buffer ← or_exits (c.print_unformatted all)
    ok (buffer ++ newline)
