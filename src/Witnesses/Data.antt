-- ===== src/Witnesses/Data.antt =====
-- A server with a few jobs, and messages for it.
use task_spooler.Base.{List, [], ◌∷◌, none, some, true, false}
use task_spooler.Base.Int.{ℤ, pos}
use task_spooler.State.{JobState, running, queued, finished, holding_client, Result, Job, Server}
use task_spooler.Jobs.Schedule.{Machine}
use task_spooler.Jobs.NewJob.{NewJobMsg}
use task_spooler.Connections.Requests.{World}
use task_spooler.Connections.Reach.{Setting}

abbrev pub failed : Result
failed = record {
  errorlevel = pos 3;
  died_by_signal = pos 0;
  signal = pos 0;
  user_ms = 0;
  system_ms = 0;
  real_ms = 0;
  skipped = pos 0;
}

-- A job by its jobid, state and slots, and whom it tells; it is kept when it ends.
abbrev pub a_job : ℤ → JobState → ℤ → List ℤ → Job
a_job id state slots tells = record {
  jobid = id;
  command = b'l' ∷ b's' ∷ [];
  state = state;
  result = failed;
  output_filename = none;
  store_output = pos 1;
  pid = pos 0;
  should_keep_finished = pos 1;
  depend_on = [];
  notify_errorlevel_to = tells;
  dependency_errorlevel = pos 0;
  label = none;
  num_slots = slots;
  num_gpus = pos 0;
  gpu_ids = [];
  wait_free_gpus = pos 1;
}

-- Job 4 runs on two of three slots, job 5 waits for it, job 6 can run, and job 7 holds its client.
abbrev pub queue : List Job
queue =
    a_job (pos 4) running (pos 2) (pos 5 ∷ [])
    ∷ record (a_job (pos 5) queued (pos 1) []) { depend_on = pos 4 ∷ [] }
    ∷ a_job (pos 6) queued (pos 1) []
    ∷ a_job (pos 7) holding_client (pos 1) []
    ∷ []

abbrev pub busy_server : Server
busy_server = record {
  jobs = queue;
  first_finished = a_job (pos 1) finished (pos 1) [] ∷ [];
  jobids = pos 8;
  last_errorlevel = pos 0;
  last_finished_jobid = pos 1;
  notifies = record { socket = pos 20; jobid = pos 4 } ∷ [];
  busy_slots = pos 2;
  max_slots = pos 3;
  max_jobs = pos 3;
  env = [];
  used_gpus = [];
  conns =
      record { socket = pos 10; hasjob = true; jobid = pos 4 }
      ∷ record { socket = pos 20; hasjob = false; jobid = pos 0 }
      ∷ record { socket = pos 11; hasjob = true; jobid = pos 6 }
      ∷ record { socket = pos 12; hasjob = true; jobid = pos 7 }
      ∷ [];
  logdir = [];
  free_percentage = pos 90;
  sent = [];
}

abbrev pub no_gpus : Machine
no_gpus = record { rand_max = 32767; rand = λ seed i. 0; gpu_list = some [] }

-- atoi as 2 for every text.
abbrev pub a_world : World
a_world = record { atoi = λ t. pos 2; raw = a_job (pos 0) queued (pos 0) [] }

abbrev pub a_setting : Setting
a_setting = record {
  max_slots = pos 2;
  max_jobs = pos 10;
  env = [];
  num_total_gpus = 0;
  logdir = [];
}

-- `ts -D 4 ls`.
abbrev pub new_ls : NewJobMsg
new_ls = record {
  store_output = pos 1;
  should_keep_finished = pos 1;
  wait_enqueuing = pos 0;
  num_slots = pos 1;
  gpus = pos 0;
  wait_free_gpus = pos 1;
  gpu_ids = [];
  depend_on = pos 4 ∷ [];
  command = b'l' ∷ b's' ∷ [];
  label = none;
}
