-- ===== src/Jobs/Remove.antt =====
-- jobs.c: taking a job out of the lists.
use task_spooler.Base.{
  Bool, true, false, Option, none, some, ite, ◌||◌, ◌&&◌, if◌then◌else◌, List, [], ◌∷◌,
}
use task_spooler.Base.Int.{ℤ, pos, ℤ_discrete, minus_one}
use task_spooler.Base.Run.{Run, ok, exits, fault, ◌>>=◌, or_fault}
use task_spooler.State.{
  finished, Job, Server, Reply, list_line, removejob_ok, last_cannot_be_removed,
  job_cannot_be_removed,
}
use task_spooler.Jobs.Find.{findjob, last_job, update_job, unlink, is_running, is_some}
use task_spooler.Jobs.Notices.{send_msg, notify_errorlevel, check_notify_list}

-- The list that holds a job, and whether the job is the first of it.
pub record Target : Type 0 where
  pub queued : Bool
  pub job : Job
  pub is_first : Bool

abbrev first_is : Job → List Job → Bool
first_is p [] = false
first_is p (q ∷ rest) = ite (ℤ_discrete q.jobid p.jobid) true false

abbrev target : Bool → List Job → Option Job → Option Target
target queued jobs none = none
target queued jobs (some p) = some (record { queued = queued; job = p; is_first = first_is p jobs })

abbrev or_target : Option Target → Option Target → Option Target
or_target none o = o
or_target (some t) o = some t

-- The job to remove: for -1 the last one added, or else the last one that ended.
unfoldable pub remove_target : ℤ → Server → Option Target
remove_target jobid s =
    ite (ℤ_discrete jobid minus_one)
      (or_target (target true s.jobs (last_job s.jobs))
        (target false s.first_finished (last_job s.first_finished)))
      (or_target (target true s.jobs (findjob jobid s.jobs))
        (target false s.first_finished (findjob jobid s.first_finished)))

abbrev remove_refused : ℤ → Reply
remove_refused jobid =
    list_line
      (ite (ℤ_discrete jobid minus_one) last_cannot_be_removed (job_cannot_be_removed jobid))

-- "Tricks for the check_notify_list".
abbrev pub mark_removed : Job → Job
mark_removed p = record p { state = finished; result = record p.result { errorlevel = minus_one } }

unfoldable pub mark_target : Target → Server → Server
mark_target t s =
    if t.queued
    then record s { jobs = update_job t.job.jobid mark_removed s.jobs }
    else record s { first_finished = update_job t.job.jobid mark_removed s.first_finished }

-- The pointers round the job, which must still be there.
unfoldable pub unlink_target : Target → Server → Run Server
unlink_target t s = if t.queued then ok (record s { jobs = unlink t.job.jobid s.jobs }) else (do
  p ← or_fault (findjob t.job.jobid s.first_finished)
  ok (record s { first_finished = unlink t.job.jobid s.first_finished }))

-- The jobid that check_notify_list is called with is that of a message that default_msg() has
-- filled with zeros.
unfoldable pub remove_found : ℤ → Target → Server → Run Server
unfolding mark_target unlink_target notify_errorlevel check_notify_list send_msg
remove_found socket t s = do
  s' ← check_notify_list (pos 0) (notify_errorlevel (mark_removed t.job) (mark_target t s))
  s'' ← unlink_target t s'
  ok (send_msg socket removejob_ok s'')

-- The jobid removed, or none where the source returns 0.
unfoldable pub s_remove_job : ℤ → ℤ → Server → Run (Option ℤ × Server)
unfolding remove_target remove_found
s_remove_job socket jobid s = elim (remove_target jobid s) [
  | none ↦ ok (none, send_msg socket (remove_refused jobid) s)
  | some t ↦
      if is_running t.job.state || (t.queued && t.is_first)
      then ok (none, send_msg socket (remove_refused jobid) s)
      else (do s' ← remove_found socket t s; ok (some t.job.jobid, s'))
]

-- "This assumes the jobid exists": an empty queue is a null pointer.
unfoldable pub s_removejob : ℤ → Server → Run Server
s_removejob jobid s = elim s.jobs [
  | [] ↦ fault
  | p ∷ rest ↦
      if is_some (findjob jobid s.jobs) then ok (record s { jobs = unlink jobid s.jobs }) else exits
]
