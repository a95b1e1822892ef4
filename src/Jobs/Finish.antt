-- ===== src/Jobs/Finish.antt =====
-- jobs.c: how a job leaves the queue when it ends, and the list of finished jobs.
pub mod Store
pub mod Links
pub mod Notify
pub mod Effect
pub mod Outcome
pub mod Waiters
use task_spooler.Base.{List, [], ◌∷◌, ◌++◌, Option, none, some, length, ◌||◌, if◌then◌else◌}
use task_spooler.Base.Int.{ℤ, pos, leb_ℤ, ltb_ℤ, sub_int, abs}
use task_spooler.Base.Run.{Run, ok, exits, fault, ◌>>=◌, or_fault, or_exits}
use task_spooler.State.{JobState, finished, skipped, Result, Job, Server}
use task_spooler.Gpu.{broadcast_free_gpus}
use task_spooler.Jobs.Find.{findjob, update_job, unlink, is_running}
use task_spooler.Jobs.Notices.{is_true, in_notify_list, notify_errorlevel}

-- 1000, or what atoi makes of TS_MAXFINISHED.
unfoldable pub get_max_finished_jobs : Option ℤ → ℤ
get_max_finished_jobs none = pos 1000
get_max_finished_jobs (some limit) = abs limit

-- Behind a list of finished jobs that is full, the first is freed; if it was the only one, the new
-- job is then linked to a freed node.
unfoldable drop_first {ℓ} : {A : Type ℓ} → List A → A → Run (List A)
drop_first [] j = fault
drop_first (p ∷ rest) j = ok (p ∷ rest ++ j ∷ [])

unfoldable pub new_finished_job {ℓ} : {A : Type ℓ} → ℤ → A → List A → Run (List A)
unfolding drop_first
new_finished_job max j [] = if ltb_ℤ (pos 0) max then ok (j ∷ []) else fault
new_finished_job max j (p ∷ rest) =
    if leb_ℤ max (pos (length (p ∷ rest))) then drop_first rest j else ok (p ∷ rest ++ j ∷ [])

-- The state of a job that ended with the result.
abbrev pub end_state : Result → JobState
end_state r = if is_true r.skipped then skipped else finished

abbrev pub mark_ended : Result → Job → Job
mark_ended r p = record p { state = end_state r; result = r }

-- The globals and the job itself, before notify_errorlevel.
unfoldable pub mark_end : Result → Job → List ℤ → Server → Server
mark_end r p used s = record s {
  used_gpus = used;
  busy_slots = if is_running p.state then sub_int s.busy_slots p.num_slots else s.busy_slots;
  jobs = update_job p.jobid (mark_ended r) s.jobs;
  last_finished_jobid = p.jobid;
}

unfoldable pub record_end : Result → Job → List ℤ → Server → Server
unfolding mark_end notify_errorlevel
record_end r p used s = notify_errorlevel (mark_ended r p) (mark_end r p used s)

-- From the queue to the finished jobs, if the job is to be kept there or a client waits for it.
unfoldable pub move_finished : ℤ → ℤ → Server → Run Server
unfolding new_finished_job in_notify_list
move_finished max jobid s = do
  p ← or_fault (findjob jobid s.jobs)
  kept ←
      if is_true p.should_keep_finished || in_notify_list p.jobid s.notifies
      then new_finished_job max p s.first_finished
      else ok s.first_finished
  ok (record s { first_finished = kept; jobs = unlink jobid s.jobs })

-- `max` is the value of get_max_finished_jobs at the time of the call.
unfoldable pub job_finished : ℤ → Result → ℤ → Server → Run Server
unfolding record_end move_finished broadcast_free_gpus
job_finished max r jobid s = if leb_ℤ s.busy_slots (pos 0) then exits else do
  p ← or_exits (findjob jobid s.jobs)
  used ← broadcast_free_gpus p.num_gpus p.gpu_ids s.used_gpus
  move_finished max jobid (record_end r p used s)

unfoldable pub s_clear_finished : Server → Server
s_clear_finished s = record s { first_finished = [] }
