-- ===== src/Client/Ask.antt =====
-- client.c: the requests that the server answers with one message, and those that it does not answer.
use task_spooler.Base.{ℕ, zero, suc, Option, none, some, ite, if◌then◌else◌, List, [], ◌∷◌}
use task_spooler.Base.Int.{ℤ, pos, minus_one, ℤ_discrete, sub_int}
use task_spooler.State.{
  Text, Reply, urgent_ok, swap_jobs_ok, removejob_ok, count_running, running_pid, last_id,
  waitjob_ok, get_max_slots_ok, answer_state, answer_output, version, closed,
}
use task_spooler.Jobs.Notices.{is_true}
use task_spooler.Connections.Requests
use task_spooler.Connections.Requests.{Request}
use task_spooler.CommandLine.{CommandLine}
use task_spooler.Client.{
  Talk, ◌>>=◌, ◌>>◌, done, exit, error, warning, send, print, kill, recv_msg, recv_whole, waits,
  lost, goes_on, is_list_line, refused_or_warning, server_line, number, count, state_name,
  file_name, last_lines, not_stored, strange_pid, wrong_version, message, nothing,
}

-- Two requests, so that an old server answers at least one.
unfoldable pub c_check_version : Talk (Unit {0})
unfolding recv_msg
c_check_version = do
  send Requests.get_version
  send Requests.get_version
  r ← recv_msg
  (elim r [
    | nothing ↦ print wrong_version >> error
    | message m ↦ elim m [
      | version v ↦ ite (ℤ_discrete v (pos 730)) (done tt) (print wrong_version >> error)
      | _ ↦ print wrong_version >> error
    ]
  ])
  second ← recv_msg
  done tt

-- The switch on the type of a LAST_ID answer: its case has no break.
unfoldable pub c_show_last_id : Talk (Unit {0})
unfolding recv_whole
c_show_last_id = do
  send Requests.last_id_request
  m ← recv_whole
  (elim m [ last_id jobid ↦ print (number jobid) >> warning | _ ↦ warning ])

-- ASK_OUTPUT: the name of the file, if there is one, and what stands behind `pid` afterwards.
unfoldable pub get_output_file : CommandLine → ℤ → Talk (Option Text × ℤ)
unfolding recv_whole
get_output_file cl pid = do
  send (Requests.ask_output cl.jobid)
  m ← recv_whole
  (elim m [
    | answer_output store_output of_pid name ↦
        done (if is_true store_output then name else none, of_pid)
    | other ↦ refused_or_warning other >> done (none, pid)
  ])

-- `if (str == 0) { fprintf(...); exit(-1); }`.
abbrev stored : Option Text → Talk Text
stored none = print not_stored >> exit minus_one
stored (some name) = done name

-- c_wait_job_recv: the error level.
unfoldable pub c_wait_job_recv : Talk ℤ
unfolding recv_whole
c_wait_job_recv = do
  m ← recv_whole
  (elim m [
    | waitjob_ok errorlevel ↦ done errorlevel
    | other ↦ refused_or_warning other >> done minus_one
  ])

-- tail_file writes the last lines of the file, all if `lines` is -1, and what is added until the server
-- tells that the job has ended. `raw` is the memory of a variable that is not set.
unfoldable pub tail_output : CommandLine → ℤ → ℤ → Talk ℤ
unfolding get_output_file c_wait_job_recv
tail_output cl lines raw = do
  (str, pid) ← get_output_file cl raw
  name ← stored str
  send (Requests.wait_running_job cl.jobid)
  print (last_lines name lines)
  c_wait_job_recv

unfoldable pub c_tail : CommandLine → ℤ → Talk ℤ
unfolding tail_output
c_tail cl raw = tail_output cl (pos 10) raw

unfoldable pub c_cat : CommandLine → ℤ → Talk ℤ
unfolding tail_output
c_cat cl raw = tail_output cl minus_one raw

unfoldable pub c_show_output_file : CommandLine → ℤ → Talk (Unit {0})
unfolding get_output_file
c_show_output_file cl raw = do
  (str, pid) ← get_output_file cl raw
  name ← stored str
  print (file_name name)

unfoldable pub c_show_pid : CommandLine → ℤ → Talk (Unit {0})
unfolding get_output_file
c_show_pid cl raw = do (str, pid) ← get_output_file cl raw; print (number pid)

-- SIGTERM goes to the process group.
unfoldable pub c_kill_job : CommandLine → Talk (Unit {0})
unfolding get_output_file
c_kill_job cl = do
  (str, pid) ← get_output_file cl (pos 0)
  ite (ℤ_discrete pid minus_one) (print (strange_pid pid) >> exit minus_one) (
      ite (ℤ_discrete pid (pos 0)) (print (strange_pid pid) >> exit minus_one)
        (kill (sub_int (pos 0) pid)))

-- recv of sizeof(int) bytes; any other message would be read in the middle.
abbrev receive_pid : List Reply → Talk ℤ
receive_pid [] c = waits c
receive_pid (running_pid pid ∷ rest) c = goes_on pid (record c { inbox = rest })
receive_pid (closed ∷ rest) c = error c
receive_pid (m ∷ rest) c = lost c

unfoldable pub recv_pid : Talk ℤ
recv_pid c = receive_pid c.inbox c

-- The loop of c_kill_all_jobs.
unfoldable pub kill_pids : ℕ → Talk (Unit {0})
unfolding recv_pid
kill_pids zero = done tt
kill_pids (suc n) = do pid ← recv_pid; kill (sub_int (pos 0) pid); kill_pids n

unfoldable pub c_kill_all_jobs : Talk (Unit {0})
unfolding recv_whole kill_pids
c_kill_all_jobs = do
  send Requests.kill_all
  m ← recv_whole
  (elim m [ count_running n ↦ kill_pids n | _ ↦ warning ])

unfoldable pub c_remove_job : CommandLine → Talk (Unit {0})
unfolding recv_whole
c_remove_job cl = do
  send (Requests.removejob cl.jobid)
  m ← recv_whole
  (elim m [ removejob_ok ↦ done tt | other ↦ refused_or_warning other ])

unfoldable pub c_wait_job : CommandLine → Talk ℤ
unfolding c_wait_job_recv
c_wait_job cl = do send (Requests.waitjob cl.jobid); c_wait_job_recv

-- The same, for a job that may be the one that runs now.
unfoldable pub c_wait_running_job : CommandLine → Talk ℤ
unfolding c_wait_job_recv
c_wait_running_job cl = do send (Requests.wait_running_job cl.jobid); c_wait_job_recv

unfoldable pub c_get_max_slots : Talk (Unit {0})
unfolding recv_whole
c_get_max_slots = do
  send Requests.get_max_slots
  m ← recv_whole
  (elim m [ get_max_slots_ok n ↦ print (number n) | _ ↦ warning ])

unfoldable pub c_move_urgent : CommandLine → Talk (Unit {0})
unfolding recv_whole
c_move_urgent cl = do
  send (Requests.urgent cl.jobid)
  m ← recv_whole
  (elim m [ urgent_ok ↦ done tt | other ↦ refused_or_warning other ])

unfoldable pub c_get_state : CommandLine → Talk (Unit {0})
unfolding recv_whole
c_get_state cl = do
  send (Requests.get_state cl.jobid)
  m ← recv_whole
  (elim m [ answer_state state ↦ print (state_name state) | other ↦ refused_or_warning other ])

unfoldable pub c_swap_jobs : CommandLine → Talk (Unit {0})
unfolding recv_whole
c_swap_jobs cl = do
  send (Requests.swap_jobs cl.jobid cl.jobid2)
  m ← recv_whole
  (elim m [ swap_jobs_ok ↦ done tt | other ↦ refused_or_warning other ])

unfoldable pub c_get_count_running : Talk (Unit {0})
unfolding recv_whole
c_get_count_running = do
  send Requests.count_running_request
  m ← recv_whole
  (elim m [ count_running n ↦ print (count n) | _ ↦ warning ])

-- The functions that print one line.
abbrev line_or_warning : Reply → Talk (Unit {0})
line_or_warning m = if is_list_line m then print (server_line m) else warning

unfoldable pub c_show_label : CommandLine → Talk (Unit {0})
unfolding recv_whole
c_show_label cl = do send (Requests.get_label cl.jobid); m ← recv_whole; line_or_warning m

unfoldable pub c_show_cmd : CommandLine → Talk (Unit {0})
unfolding recv_whole
c_show_cmd cl = do send (Requests.get_cmd cl.jobid); m ← recv_whole; line_or_warning m

-- The line, or a null pointer.
unfoldable pub get_logdir : Talk (Option Reply)
unfolding recv_whole
get_logdir = do
  send Requests.get_logdir
  m ← recv_whole
  (if is_list_line m then done (some m) else (warning >> done none))

unfoldable pub c_get_logdir : Talk (Unit {0})
unfolding get_logdir
c_get_logdir = do
  path ← get_logdir
  (elim path [ none ↦ lost | some line ↦ print (server_line line) ])
