-- ===== src/Jobs/Wait.antt =====
-- jobs.c: clients that wait for a job to end.
use task_spooler.Base.{Option, none, some, ite, ◌||◌, if◌then◌else◌, List, [], ◌∷◌}
use task_spooler.Base.Int.{ℤ, pos, ℤ_discrete, minus_one, ltb_ℤ}
use task_spooler.Base.Run.{Run, ok, ◌>>=◌, or_exits}
use task_spooler.State.{
  Job, Server, Reply, list_line, waitjob_ok, no_jobs, last_cannot_be_waited, job_cannot_be_waited,
}
use task_spooler.Jobs.Find.{get_job, last_job, or_else, is_finished, is_skipped}
use task_spooler.Jobs.Notices.{send_msg, add_to_notify_list}

abbrev wait_refused : ℤ → Reply
wait_refused jobid =
    list_line (ite (ℤ_discrete jobid minus_one) last_cannot_be_waited (job_cannot_be_waited jobid))

-- The answer to a client that waits, once the job is known.
unfoldable pub wait_for : ℤ → ℤ → Option Job → Server → Server
unfolding send_msg add_to_notify_list
wait_for socket jobid none s = send_msg socket (wait_refused jobid) s
wait_for socket jobid (some p) s =
    if is_finished p.state || is_skipped p.state
    then send_msg socket (waitjob_ok p.result.errorlevel) s
    else add_to_notify_list socket p.jobid s

-- The last job added, or else the last one that ended.
unfoldable pub last_added : Server → Option Job
last_added s = or_else (last_job s.jobs) (last_job s.first_finished)

unfoldable pub s_wait_job : ℤ → ℤ → Server → Server
unfolding wait_for last_added
s_wait_job socket jobid s =
    wait_for socket jobid (ite (ℤ_discrete jobid minus_one) (last_added s) (get_job jobid s)) s

abbrev pub first_job : List Job → Option Job
first_job [] = none
first_job (p ∷ rest) = some p

unfoldable pub wait_last_run : ℤ → Server → Run Server
unfolding wait_for
wait_last_run socket s =
    if ltb_ℤ (pos 0) s.busy_slots
    then (do p ← or_exits (first_job s.jobs); ok (wait_for socket minus_one (some p) s))
    else ok (elim (last_job s.first_finished) [
      | none ↦ send_msg socket (list_line no_jobs) s
      | some p ↦ wait_for socket minus_one (some p) s
    ])

unfoldable pub s_wait_running_job : ℤ → ℤ → Server → Run Server
unfolding wait_last_run wait_for
s_wait_running_job socket jobid s =
    ite (ℤ_discrete jobid minus_one) (wait_last_run socket s)
      (ok (wait_for socket jobid (get_job jobid s) s))
