-- ===== src/State.antt =====
-- The data of main.h, jobs.c and server.c: jobs, waiting clients, connections, what the server
-- sends, and the server's globals as one record.
use task_spooler.Base.{ℕ, Bool, List, Option}
use task_spooler.Base.Int.{ℤ}

-- The bytes of a C string, without the NUL.
abbrev pub Text : Type 0
Text = List ℕ

-- enum Jobstate.
pub data JobState : Type 0 where
  queued allocating running finished skipped holding_client : JobState

-- struct Result; the three floats are carried as their bit patterns.
pub record Result : Type 0 where
  pub errorlevel : ℤ
  pub died_by_signal : ℤ
  pub signal : ℤ
  pub user_ms : ℕ
  pub system_ms : ℕ
  pub real_ms : ℕ
  pub skipped : ℤ

-- struct Job. `next` is the job's place in the list that holds it, and an array and its size are
-- one list.
pub record Job : Type 0 where
  pub jobid : ℤ
  pub command : Text
  pub state : JobState
  pub result : Result
  pub output_filename : Option Text
  pub store_output : ℤ
  pub pid : ℤ
  pub should_keep_finished : ℤ
  pub depend_on : List ℤ
  pub notify_errorlevel_to : List ℤ
  pub dependency_errorlevel : ℤ
  pub label : Option Text
  pub num_slots : ℤ
  pub num_gpus : ℤ
  pub gpu_ids : List ℤ
  pub wait_free_gpus : ℤ

-- enum ListFormat.
pub data ListFormat : Type 0 where
  default_format json tab : ListFormat

-- struct Notify: a client that waits for a job.
pub record Notify : Type 0 where
  pub socket : ℤ
  pub jobid : ℤ

-- struct Client_conn.
pub record ClientConn : Type 0 where
  pub socket : ℤ
  pub hasjob : Bool
  pub jobid : ℤ

-- A line of text for a client: its format and arguments.
pub data Line : Type 0 where
  job_not_finished job_not_found job_cannot_be_removed job_cannot_be_waited : ℤ → Line
  job_cannot_be_urged job_cannot_be_stated job_was_skipped : ℤ → Line
  no_jobs last_cannot_be_removed last_cannot_be_waited last_cannot_be_urged : Line
  last_cannot_be_stated last_not_finished last_was_skipped : Line
  cannot_be_swapped : ℤ → ℤ → Line
  command_line : Text → Line
  headers gpu_headers : Line
  job_line job_gpu_line : Job → Line
  label_line : Option Text → Line

-- What the server writes to a socket; `closed` ends it. A list in JSON is the text that cJSON makes of
-- the jobs.
pub data Reply : Type 0 where
  list_line : Line → Reply
  urgent_ok swap_jobs_ok removejob_ok newjob_nok info_data : Reply
  count_running : ℕ → Reply
  running_pid last_id waitjob_ok get_max_slots_ok newjob_ok : ℤ → Reply
  answer_state : JobState → Reply
  answer_output : ℤ → ℤ → Option Text → Reply
  runjob : ℤ → List ℤ → Reply
  job_info : Job → Reply
  version free_percentage_reply : ℤ → Reply
  env_value : Option Text → Reply
  list_json : List Job → Reply
  closed : Reply

-- The globals of jobs.c, server.c and gpu.c, and, newest first, what was sent to which socket.
pub record Server : Type 0 where
  pub jobs : List Job
  pub first_finished : List Job
  pub jobids : ℤ
  pub last_errorlevel : ℤ
  pub last_finished_jobid : ℤ
  pub notifies : List Notify
  pub busy_slots : ℤ
  pub max_slots : ℤ
  pub max_jobs : ℤ
  pub env : List (Text × Text)
  pub used_gpus : List ℤ
  pub conns : List ClientConn
  pub logdir : Text
  pub free_percentage : ℤ
  pub sent : List (ℤ × Reply)
