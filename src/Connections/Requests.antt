-- ===== src/Connections/Requests.antt =====
-- server.c: client_read, one message of a client.
use mathlib.Core.Option
use task_spooler.Base.{
  ℕ_discrete, get_elem?, ℕ, zero, suc, ◌+◌, Bool, true, false, not, List, [], ◌∷◌, Option, none,
  some, ite, ◌&&◌, if◌then◌else◌, length,
}
use task_spooler.Base.Int.{ℤ, pos, ℤ_discrete, ltb_ℤ}
use task_spooler.Base.Run.{Run, ok, fault, ◌>>=◌}
use task_spooler.State.{
  Text, Job, Result, ListFormat, ClientConn, Server, version, free_percentage_reply, env_value,
  closed, list_line, command_line,
}
use task_spooler.Jobs.Find.{findjob, is_holding}
use task_spooler.Jobs.Notices.{send_msg, is_true}
use task_spooler.Jobs.Finish.{s_clear_finished, get_max_finished_jobs}
use task_spooler.Jobs.NewJob.{NewJobMsg, s_newjob}
use task_spooler.Jobs.Order.{s_move_urgent, s_swap_jobs}
use task_spooler.Jobs.Remove.{s_remove_job}
use task_spooler.Jobs.Wait.{s_wait_job, s_wait_running_job}
use task_spooler.Jobs.Query.{
  s_count_running_jobs, s_kill_all_jobs, s_list, s_list_gpu, s_job_info, s_send_last_id,
  s_send_label, s_send_cmd, s_send_output, s_send_state, s_process_runjob_ok, s_set_max_slots,
  s_get_max_slots,
}
use task_spooler.Connections.{
  conn_at, set_conn, remove_connection, end_job, clean_after_client_disappeared, s_newjob_ok,
  s_newjob_nok,
}

-- What comes in on a connection: a message, or `gone`, for which recv gave 0 or -1. A SET_ENV message
-- comes as the two strings that strtok cuts at '='.
pub data Request : Type 0 where
  gone kill_server kill_all list_gpu_request last_id_request clear_finished count_running_request :
      Request
  get_max_slots get_version get_free_perc get_logdir unknown : Request
  newjob : NewJobMsg → Request
  runjob_ok : ℤ → Text → ℤ → Request
  list_request : ListFormat → Request
  info get_label get_cmd ask_output removejob waitjob wait_running_job urgent get_state :
      ℤ → Request
  set_max_slots set_free_perc : ℤ → Request
  endjob : Result → Request
  swap_jobs : ℤ → ℤ → Request
  get_env unset_env set_logdir : Text → Request
  set_env : Option Text → Option Text → Request

pub data Break : Type 0 where
  brk nobreak close : Break

-- libc's atoi, and the memory that malloc gives for a new job.
pub record World : Type 0 where
  pub atoi : Text → ℤ
  pub raw : Job

abbrev pub text_discrete : Discrete Text
text_discrete = hlevel ℕ_discrete

-- getenv, setenv and unsetenv on the server's environment.
unfoldable pub getenv : Text → List (Text × Text) → Option Text
getenv name [] = none
getenv name ((k, v) ∷ env) = ite (text_discrete k name) (some v) (getenv name env)

unfoldable pub unsetenv : Text → List (Text × Text) → List (Text × Text)
unsetenv name [] = []
unsetenv name ((k, v) ∷ env) =
    ite (text_discrete k name) (unsetenv name env) ((k, v) ∷ unsetenv name env)

abbrev pub setenv : Text → Text → List (Text × Text) → List (Text × Text)
setenv name value env = (name, value) ∷ unsetenv name env

-- "TS_MAXFINISHED".
abbrev ts_maxfinished : Text
ts_maxfinished =
    b'T' ∷ b'S' ∷ b'_' ∷ b'M' ∷ b'A' ∷ b'X' ∷ b'F' ∷ b'I' ∷ b'N' ∷ b'I' ∷ b'S' ∷ b'H' ∷ b'E' ∷ b'D'
    ∷ []

unfoldable pub max_finished : World → Server → ℤ
unfolding getenv
max_finished w s = get_max_finished_jobs (Option.map w.atoi (getenv ts_maxfinished s.env))

-- `close(s); remove_connection(index)`.
unfoldable pub close_connection : ℤ → ℕ → Server → Run Server
unfolding remove_connection send_msg
close_connection socket index s = remove_connection index (send_msg socket closed s)

unfoldable pub job_is_holding_client : ℤ → Server → Bool
job_is_holding_client jobid s = elim (findjob jobid s.jobs) [
  | none ↦ false
  | some p ↦ is_holding p.state
]

-- The connection of a new job: the client hears at once whether it may wait.
unfoldable pub answer_newjob : World → ℤ → ℕ → ℤ → ℤ → Server → Run Server
unfolding job_is_holding_client s_newjob_ok s_newjob_nok clean_after_client_disappeared
answer_newjob w socket index jobid wait_enqueuing s =
    if not (job_is_holding_client jobid s)
    then s_newjob_ok index s
    else if not (is_true wait_enqueuing)
    then (s_newjob_nok index s >>= clean_after_client_disappeared (max_finished w s) socket index)
    else ok s

unfoldable pub read_newjob : World → ℕ → NewJobMsg → Server → Run Server
unfolding s_newjob answer_newjob
read_newjob w index m s = do
  c ← conn_at index s
  (jobid, s') ← s_newjob w.raw m s
  answer_newjob w c.socket index jobid m.wait_enqueuing
      (set_conn index (record c { hasjob = true; jobid = jobid }) s')

-- A connection whose job has been removed is closed.
abbrev is_of_job : ℤ → ClientConn → Bool
is_of_job jobid c = c.hasjob && ite (ℤ_discrete c.jobid jobid) true false

unfoldable pub close_if_of_job : ℤ → ℕ → ClientConn → Server → Run Server
unfolding close_connection
close_if_of_job jobid i c s =
    if is_of_job jobid c
    then close_connection c.socket i (set_conn i (record c { hasjob = false }) s)
    else ok s

-- The loop over the connections in REMOVEJOB, from `i`: removing a connection moves the next one to
-- its place, which the loop passes over.
unfoldable pub close_of_job : ℤ → ℕ → ℕ → Server → Run Server
unfolding close_if_of_job
close_of_job jobid zero i s = ok s
close_of_job jobid (suc rounds) i s =
    elim (get_elem? s.conns i) [ none ↦ ok s | some c ↦ close_if_of_job jobid i c s ]
    >>= close_of_job jobid rounds (i + 1)

unfoldable pub read_removejob : ℤ → ℤ → Server → Run Server
unfolding s_remove_job close_of_job
read_removejob socket jobid s = do
  (removed, s') ← s_remove_job socket jobid s
  elim removed [ none ↦ ok s' | some id ↦ close_of_job id (length s'.conns) 0 s' ]

-- RUNJOB_OK carries the name of the output file if the output is stored.
abbrev pub stored_filename : ℤ → Text → Option Text
stored_filename store_output oname = if is_true store_output then some oname else none

-- The switch of client_read.
unfoldable pub handle : World → ℤ → ℕ → Request → Server → Run Server
unfolding read_newjob read_removejob end_job close_connection clean_after_client_disappeared
    max_finished send_msg
handle w socket index gone s = clean_after_client_disappeared (max_finished w s) socket index s
handle w socket index (newjob m) s = read_newjob w index m s
handle w socket index (runjob_ok store_output oname pid) s = do
  c ← conn_at index s
  s_process_runjob_ok c.jobid (stored_filename store_output oname) pid s
handle w socket index kill_all s = ok (s_kill_all_jobs socket s)
handle w socket index (list_request format) s =
    close_connection socket index (s_list socket format s)
handle w socket index list_gpu_request s = close_connection socket index (s_list_gpu socket s)
handle w socket index (info jobid) s = s_job_info socket jobid s >>= close_connection socket index
handle w socket index last_id_request s = ok (s_send_last_id socket s)
handle w socket index (get_label jobid) s = ok (s_send_label socket jobid s)
handle w socket index (get_cmd jobid) s = ok (s_send_cmd socket jobid s)
handle w socket index (endjob r) s = end_job (max_finished w s) r index s
handle w socket index clear_finished s = ok (s_clear_finished s)
handle w socket index (ask_output jobid) s = s_send_output socket jobid s
handle w socket index (removejob jobid) s = read_removejob socket jobid s
handle w socket index (waitjob jobid) s = ok (s_wait_job socket jobid s)
handle w socket index (wait_running_job jobid) s = s_wait_running_job socket jobid s
handle w socket index count_running_request s = ok (s_count_running_jobs socket s)
handle w socket index (urgent jobid) s = s_move_urgent socket jobid s
handle w socket index (set_max_slots n) s = ok (s_set_max_slots n s)
handle w socket index get_max_slots s = ok (s_get_max_slots socket s)
handle w socket index (swap_jobs a b) s = ok (s_swap_jobs socket a b s)
handle w socket index (get_state jobid) s = ok (s_send_state socket jobid s)
handle w socket index (get_env name) s = ok (send_msg socket (env_value (getenv name s.env)) s)
handle w socket index (set_env (some name) (some value)) s =
    ok (record s { env = setenv name value s.env })
handle w socket index (set_env (some name) none) s = fault
handle w socket index (set_env none value) s = fault
handle w socket index (unset_env name) s = ok (record s { env = unsetenv name s.env })
handle w socket index (set_free_perc n) s =
    ok (if ltb_ℤ (pos 0) n then record s { free_percentage = n } else s)
handle w socket index get_free_perc s =
    ok (send_msg socket (free_percentage_reply s.free_percentage) s)
handle w socket index get_version s = ok (send_msg socket (version (pos 730)) s)
handle w socket index get_logdir s = ok (send_msg socket (list_line (command_line s.logdir)) s)
handle w socket index (set_logdir path) s =
    close_connection socket index (record s { logdir = path })
handle w socket index kill_server s = ok s
handle w socket index unknown s = ok s

abbrev pub break_of : Request → Break
break_of kill_server = brk
break_of unknown = close
break_of r = nobreak

unfoldable pub client_read : World → ℕ → Request → Server → Run (Break × Server)
unfolding handle
client_read w index r s = do
  c ← conn_at index s
  s' ← handle w c.socket index r s
  ok (break_of r, s')
