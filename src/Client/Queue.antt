-- ===== src/Client/Queue.antt =====
-- client.c and execute.c: a client that queues a job, waits for its turn and runs it. What fork, exec and
-- wait give is a parameter; a job's environment is not modelled.
use task_spooler.Base.{
  ◌-◌, ◌%◌, ℕ, ◌+◌, Bool, List, [], ◌∷◌, ◌++◌, Option, none, some, not, ◌&&◌, length, leb, take,
  if◌then◌else◌,
}
use task_spooler.Base.Int.{negsuc, ℤ, pos, minus_one}
use task_spooler.Base.Run.{Run, ok, fault, exits}
use task_spooler.State.{
  Text, Reply, Result, newjob_ok, newjob_nok, runjob, closed, running_pid, job_info,
}
use task_spooler.Jobs.Notices.{is_true}
use task_spooler.Jobs.NewJob.{NewJobMsg}
use task_spooler.Connections.Requests
use task_spooler.Connections.Requests.{stored_filename}
use task_spooler.CommandLine.{CommandLine}
use task_spooler.Client.Ask.{get_logdir}
use task_spooler.Client.{
  goes_on, waits, lost, Talk, ◌>>=◌, ◌>>◌, done, exit, error, send, print, recv_msg, Received,
  message, queue_full,
}

-- What is counted for malloc: a byte more for each argument.
unfoldable pub command_size : List Text → ℕ
command_size [] = 0
command_size (a ∷ rest) = length a + 1 + command_size rest

unfoldable pub append_arguments : Text → List Text → Text
append_arguments text [] = text
append_arguments text (a ∷ rest) = append_arguments (text ++ b' ' ∷ a) rest

-- The first argument is read even if there is none.
unfoldable pub build_command_string : List Text → Run Text
unfolding append_arguments
build_command_string [] = fault
build_command_string (a ∷ rest) = ok (append_arguments a rest)

-- The ids that send_ints sends: as many as `gpus` says, which must be there.
unfoldable pub sent_gpu_ids : CommandLine → Run (List ℤ)
sent_gpu_ids cl = if is_true cl.wait_free_gpus then ok [] else (elim cl.gpus [
  | pos n ↦ if leb n (length cl.gpu_nums) then ok (take n cl.gpu_nums) else fault
  | negsuc n ↦ fault
])

-- The NEWJOB message and what follows it.
unfoldable pub newjob_of : CommandLine → Text → List ℤ → NewJobMsg
newjob_of cl text gpu_ids = record {
  store_output = cl.store_output;
  should_keep_finished = cl.should_keep_finished;
  wait_enqueuing = cl.wait_enqueuing;
  num_slots = cl.num_slots;
  gpus = cl.gpus;
  wait_free_gpus = cl.wait_free_gpus;
  gpu_ids = gpu_ids;
  depend_on = cl.depend_on;
  command = text;
  label = cl.label;
}

abbrev of_run {ℓ} : {A : Type ℓ} → Run A → Talk A
of_run (ok a) = done a
of_run exits = error
of_run fault = lost

unfoldable pub c_new_job : CommandLine → Talk (Unit {0})
unfolding build_command_string sent_gpu_ids newjob_of
c_new_job cl = do
  text ← of_run (build_command_string cl.command)
  gpu_ids ← of_run (sent_gpu_ids cl)
  send (Requests.newjob (newjob_of cl text gpu_ids))

abbrev newjob_answer : Received → Talk ℤ
newjob_answer (message (newjob_ok jobid)) = done jobid
newjob_answer (message newjob_nok) = print queue_full >> exit (pos 2)
newjob_answer r = error

unfoldable pub c_wait_newjob_ok : Talk ℤ
unfolding recv_msg
c_wait_newjob_ok = do r ← recv_msg; newjob_answer r

-- How the child that runs the command ended: its pid, the name of its output file, and what wait and
-- the clocks say.
pub data Status : Type 0 where
  exited signaled : ℤ → Status
  other : Status

pub record Child : Type 0 where
  pub pid : ℤ
  pub ofname : Text
  pub status : Status
  pub user_ms : ℕ
  pub system_ms : ℕ
  pub real_ms : ℕ

-- `ofname` is a null pointer where nothing was run.
unfoldable pub c_send_runjob_ok : CommandLine → Option Text → ℤ → Talk (Unit {0})
c_send_runjob_ok cl none pid = send (Requests.runjob_ok (pos 0) [] pid)
c_send_runjob_ok cl (some ofname) pid =
    send (Requests.runjob_ok cl.store_output (if is_true cl.store_output then ofname else []) pid)

unfoldable pub c_end_of_job : Result → Talk (Unit {0})
c_end_of_job result = send (Requests.endjob result)

abbrev pub default_result : Result
default_result = record {
  errorlevel = pos 0;
  died_by_signal = pos 0;
  signal = pos 0;
  user_ms = 0;
  system_ms = 0;
  real_ms = 0;
  skipped = pos 0;
}

-- WEXITSTATUS and WTERMSIG go through a signed char.
unfoldable pub signed_char : ℤ → ℤ
signed_char (pos n) = if leb (n % 256) 127 then pos (n % 256) else negsuc (255 - n % 256)
signed_char (negsuc n) = if leb (n % 256) 127 then negsuc (n % 256) else pos (255 - n % 256)

abbrev pub with_status : Status → Result → Result
with_status (exited n) r = record r { errorlevel = signed_char n; died_by_signal = pos 0 }
with_status (signaled n) r = record r {
  signal = signed_char n;
  errorlevel = minus_one;
  died_by_signal = pos 1;
}
with_status other r = record r { died_by_signal = pos 0; errorlevel = minus_one }

-- run_parent: the file name comes only from a child that stores its output.
unfoldable pub run_parent : CommandLine → Child → Result → Talk Result
unfolding c_send_runjob_ok signed_char
run_parent cl child r = do
  c_send_runjob_ok cl (stored_filename cl.store_output child.ofname) child.pid
  done (record (with_status child.status r) {
    user_ms = child.user_ms;
    system_ms = child.system_ms;
    real_ms = child.real_ms;
  })

-- A job of `-W` is not run if a job that it depends on failed.
abbrev pub is_skipped_for : CommandLine → ℤ → Bool
is_skipped_for cl last_errorlevel =
    not (leb (length cl.depend_on) 0) && (is_true cl.require_elevel && is_true last_errorlevel)

abbrev skipped_result : Result
skipped_result = record default_result { errorlevel = minus_one; skipped = pos 1 }

-- run_job asks for the directory of the output file, which the child uses.
unfoldable pub run_job : CommandLine → Child → Result → Talk Result
unfolding get_logdir run_parent
run_job cl child r = do tmpdir ← get_logdir; run_parent cl child r

-- What a client does on RUNJOB; the error level is what it returns.
unfoldable pub on_runjob : CommandLine → Child → ℤ → Talk ℤ
unfolding c_send_runjob_ok run_job c_end_of_job
on_runjob cl child last_errorlevel =
    if is_skipped_for cl last_errorlevel
    then (do c_send_runjob_ok cl none minus_one; c_end_of_job skipped_result; done minus_one)
    else (do r ← run_job cl child default_result; c_end_of_job r; done r.errorlevel)

-- The loop of c_wait_server_commands; a message of another type is passed over.
unfoldable pub server_commands : CommandLine → Child → List Reply → Talk ℤ
unfolding on_runjob
server_commands cl child [] c = waits (record c { inbox = [] })
server_commands cl child (closed ∷ rest) c = goes_on minus_one (record c { inbox = closed ∷ rest })
server_commands cl child (running_pid pid ∷ rest) c =
    lost (record c { inbox = running_pid pid ∷ rest })
server_commands cl child (job_info p ∷ rest) c = lost (record c { inbox = job_info p ∷ rest })
server_commands cl child (runjob last_errorlevel gpu_ids ∷ rest) c =
    on_runjob cl child last_errorlevel (record c { inbox = rest })
server_commands cl child (m ∷ rest) c = server_commands cl child rest c

unfoldable pub c_wait_server_commands : CommandLine → Child → Talk ℤ
unfolding server_commands
c_wait_server_commands cl child c = server_commands cl child c.inbox c
