-- ===== src/Connections/Rounds.antt =====
-- server.c: one round of server_loop.
use task_spooler.Base.{ℕ, zero, suc, Bool, true, false, [], ◌∷◌, ◌++◌, none, some, length}
use task_spooler.Base.Int.{ℤ}
use task_spooler.Base.Run.{Run, ok, fault, ◌>>=◌, or_exits, or_fault}
use task_spooler.State.{Server}
use task_spooler.Jobs.Schedule.{Machine, next_run_job, s_mark_job_running, wake_hold_client}
use task_spooler.Connections.{
  conn_at, get_conn_of_jobid, clean_after_client_disappeared, s_newjob_ok, s_runjob,
}
use task_spooler.Connections.Requests.{
  World, Request, brk, nobreak, close, client_read, max_finished,
}

-- accept: a new connection, which has no job. The `jobid` is what the array held there.
unfoldable pub accept : ℤ → ℤ → Server → Server
accept socket jobid s = record s {
  conns = s.conns ++ record { socket = socket; hasjob = false; jobid = jobid } ∷ [];
}

-- A connection that can be read, and whether the loop goes on. An unknown message closes the
-- connection.
unfoldable pub read_one : World → ℕ → Request → Server → Run (Bool × Server)
unfolding client_read
read_one w index r s = client_read w index r s >>= λ (b, s'). elim b [
  | brk ↦ ok (false, s')
  | nobreak ↦ ok (true, s')
  | close ↦ do
    c ← conn_at index s'
    s'' ← clean_after_client_disappeared (max_finished w s') c.socket index s'
    ok (true, s'')
]

-- `while ((awaken_job = wake_hold_client()) != -1)`, on fuel.
unfoldable pub wake_loop : ℕ → Server → Run Server
unfolding wake_hold_client get_conn_of_jobid s_newjob_ok
wake_loop zero s = fault
wake_loop (suc fuel) s = elim (wake_hold_client s) [
  | none ↦ ok s
  | some (jobid, s') ↦ do
    conn ← or_exits (get_conn_of_jobid jobid s')
    s'' ← s_newjob_ok conn s'
    wake_loop fuel s''
]

-- The end of a round: at most one job starts. A job with no connection is a read of client_cs[-1].
unfoldable pub start_next : Machine → Server → Run Server
unfolding next_run_job s_mark_job_running s_runjob wake_loop get_conn_of_jobid
start_next m s = next_run_job m s >>= λ (newjob, s1). elim newjob [
  | none ↦ ok s1
  | some jobid ↦ do
    s2 ← s_mark_job_running jobid s1
    conn ← or_fault (get_conn_of_jobid jobid s1)
    s3 ← s_runjob jobid conn s2
    wake_loop (suc (length s3.jobs)) s3
]
