-- ===== src/Connections.antt =====
-- server.c: the connections of the server, and what it does with the messages that come in.
pub mod Requests
pub mod Rounds
pub mod Sound
pub mod Messages
pub mod Waking
pub mod Starting
pub mod Reach
pub mod Closing
pub mod Turn
pub mod Queued
pub mod Ended
use task_spooler.Base.{
  ℕ, zero, suc, ◌+◌, ◌-◌, Bool, true, false, List, [], ◌∷◌, Option, none, some, ite, ◌&&◌,
  if◌then◌else◌, get_elem?, set, length, take,
}
use task_spooler.Base.Int.{ℤ, pos, negsuc, ℤ_discrete, minus_one}
use task_spooler.Base.Run.{Run, ok, exits, fault, ◌>>=◌, or_fault}
use task_spooler.State.{Text, Job, Result, ClientConn, Server, newjob_ok, newjob_nok, closed}
use task_spooler.Jobs.Notices.{send_msg, check_notify_list, s_remove_notification}
use task_spooler.Jobs.Finish.{job_finished}
use task_spooler.Jobs.Remove.{s_removejob}
use task_spooler.Jobs.Query.{s_send_runjob}

-- The loop of get_conn_of_jobid from the index `i`; none stands for -1.
unfoldable pub find_conn : ℤ → ℕ → List ClientConn → Option ℕ
find_conn jobid i [] = none
find_conn jobid i (c ∷ rest) =
    if c.hasjob && ite (ℤ_discrete c.jobid jobid) true false
    then some i
    else find_conn jobid (suc i) rest

unfoldable pub get_conn_of_jobid : ℤ → Server → Option ℕ
unfolding find_conn
get_conn_of_jobid jobid s = find_conn jobid 0 s.conns

-- `for (i = index; i < n - 1; ++i) client_cs[i] = client_cs[i + 1]`, over the rounds left.
unfoldable pub shift_loop : ℕ → ℕ → List ClientConn → Run (List ClientConn)
shift_loop zero i conns = ok conns
shift_loop (suc rounds) i conns = do
  c ← or_fault (get_elem? conns (i + 1))
  shift_loop rounds (i + 1) (set conns i c)

-- client_cs[index], and a write to it.
abbrev pub conn_at : ℕ → Server → Run ClientConn
conn_at index s = or_fault (get_elem? s.conns index)

abbrev pub set_conn : ℕ → ClientConn → Server → Server
set_conn index c s = record s { conns = set s.conns index c }

unfoldable pub remove_connection : ℕ → Server → Run Server
unfolding shift_loop s_removejob
remove_connection index s = do
  c ← conn_at index s
  s' ← if c.hasjob then s_removejob c.jobid s else ok s
  let n = length s'.conns
  conns ← shift_loop (n - 1 - index) index s'.conns
  ok (record s' { conns = take (n - 1) conns })

-- The result of a job whose client is gone: killed by SIGKILL.
abbrev pub killed : Result
killed = record {
  errorlevel = minus_one;
  died_by_signal = pos 1;
  signal = pos 9;
  user_ms = 0;
  system_ms = 0;
  real_ms = 0;
  skipped = pos 0;
}

-- The end of the job of a connection, in ENDJOB and when the client disappears.
unfoldable pub end_job : ℤ → Result → ℕ → Server → Run Server
unfolding job_finished check_notify_list
end_job max r index s = do
  c ← conn_at index s
  s1 ← job_finished max r c.jobid s
  s2 ← check_notify_list c.jobid s1
  ok (set_conn index (record c { hasjob = false }) s2)

unfoldable pub clean_after_client_disappeared : ℤ → ℤ → ℕ → Server → Run Server
unfolding end_job remove_connection s_remove_notification send_msg
clean_after_client_disappeared max socket index s = do
  c ← conn_at index s
  s' ← if c.hasjob then end_job max killed index s else ok (s_remove_notification socket s)
  remove_connection index (send_msg socket closed s')

unfoldable pub s_newjob_ok : ℕ → Server → Run Server
unfolding send_msg
s_newjob_ok index s = do
  c ← conn_at index s
  if c.hasjob then ok (send_msg c.socket (newjob_ok c.jobid) s) else exits

unfoldable pub s_newjob_nok : ℕ → Server → Run Server
unfolding send_msg
s_newjob_nok index s = do
  c ← conn_at index s
  if c.hasjob then ok (send_msg c.socket newjob_nok s) else exits

unfoldable pub s_runjob : ℤ → ℕ → Server → Run Server
unfolding s_send_runjob
s_runjob jobid index s = do
  c ← conn_at index s
  if c.hasjob then s_send_runjob c.socket jobid s else exits
