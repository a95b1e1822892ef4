-- ===== src/Jobs/Finish/Outcome.antt =====
-- job_finished: when it succeeds, and where the job and the news of it are then.
use mathlib.Core.Option
use task_spooler.Base.{
  ◌≡◌, ◌≢◌, refl, ◌∙◌, ap, ◌||◌, true, List, [], ◌∷◌, ◌++◌, some, length, if◌then◌else◌, arith,
}
use task_spooler.Base.Int.{ℤ, pos, ◌≤ℤ◌, ◌<ℤ◌, leb_ℤ, sub_int}
use task_spooler.Base.Run.{ok}
use task_spooler.State.{Result, Job, Server}
use task_spooler.Gpu.{broadcast_free_gpus}
use task_spooler.Jobs.Find.{findjob, unlink, last_job, is_running}
use task_spooler.Jobs.Notices.{is_true, in_notify_list, notify_errorlevel}
use task_spooler.Jobs.Lookup.{
  findjob-update_other, findjob-unlink_other, findjob-notify_loop, count, told,
}
use task_spooler.Jobs.Finish.Notify.{SameGlobals, notify_loop-SameGlobals}
use task_spooler.Jobs.Finish.Store.{tail, new_finished_job_ok, last_job-snoc}
use task_spooler.Jobs.Finish.Effect.{record_end-found, told-fields}
use task_spooler.Jobs.Finish.{mark_ended, mark_end, record_end, move_finished, job_finished}

-- The job as it ends: its state, its result, and what it told itself.
abbrev pub ended : Result → Job → Job
ended r p = told (count p.jobid p.notify_errorlevel_to) r.errorlevel (mark_ended r p)

-- What the end of the job `p` makes of the server.
pub record IsEnded (r : Result) (p : Job) (s s' : Server) : Type 0 where
  pub last_errorlevel : s'.last_errorlevel ≡ r.errorlevel
  pub last_finished_jobid : s'.last_finished_jobid ≡ p.jobid
  pub busy_slots :
      s'.busy_slots
      ≡ (if is_running p.state then sub_int s.busy_slots p.num_slots else s.busy_slots)
  pub notifies : s'.notifies ≡ s.notifies
  pub conns : s'.conns ≡ s.conns
  pub sent : s'.sent ≡ s.sent
  pub dependents :
      (id : ℤ)
      → id ≢ p.jobid
      → findjob id s'.jobs
        ≡ Option.map (told (count id p.notify_errorlevel_to) r.errorlevel) (findjob id s.jobs)
  pub kept :
      (is_true p.should_keep_finished || in_notify_list p.jobid s.notifies) ≡ true
      → last_job s'.first_finished ≡ some (ended r p)

module _ (r : Result) (p : Job) (used : List ℤ) (s : Server)
    (e : findjob p.jobid s.jobs ≡ some p) where
  record_end-SameGlobals :
      SameGlobals
        (record (mark_end r p used s) { last_errorlevel = r.errorlevel })
        (record_end r p used s)
  unfolding record_end notify_errorlevel mark_end
  record_end-SameGlobals = notify_loop-SameGlobals r.errorlevel p.notify_errorlevel_to _

  record_end-other :
      (id : ℤ)
      → id ≢ p.jobid
      → findjob id (record_end r p used s).jobs
        ≡ Option.map (told (count id p.notify_errorlevel_to) r.errorlevel) (findjob id s.jobs)
  unfolding record_end notify_errorlevel mark_end
  record_end-other id ne =
      findjob-notify_loop id r.errorlevel p.notify_errorlevel_to _
      ∙ ap (Option.map (told (count id p.notify_errorlevel_to) r.errorlevel))
          (findjob-update_other id p.jobid (mark_ended r) (λ q. refl) ne s.jobs)

  -- What move_finished keeps, given room for two.
  kept_jobs : ℤ → List Job
  kept_jobs max =
      let old = (record_end r p used s).first_finished in
      if is_true p.should_keep_finished || in_notify_list p.jobid s.notifies
      then (if leb_ℤ max (pos (length old)) then tail old else old) ++ ended r p ∷ []
      else old

  after_end : ℤ → Server
  after_end max = record (record_end r p used s) {
    first_finished = kept_jobs max;
    jobs = unlink p.jobid (record_end r p used s).jobs;
  }

  move_finished-ok :
      (max : ℤ)
      → pos 2 ≤ℤ max
      → move_finished max p.jobid (record_end r p used s) ≡ ok (after_end max)
  unfolding move_finished kept_jobs after_end mark_end
  move_finished-ok max room = ground (
    arith,
    record_end-found r p.jobid p used s e,
    told-fields (count p.jobid p.notify_errorlevel_to) r.errorlevel (mark_ended r p),
    record_end-SameGlobals.notifies,
    new_finished_job_ok max (ended r p) (record_end r p used s).first_finished room,
  )

  after_end-IsEnded : (max : ℤ) → IsEnded r p s (after_end max)
  unfolding after_end kept_jobs mark_end
  after_end-IsEnded max = record {
    last_errorlevel = record_end-SameGlobals.last_errorlevel;
    last_finished_jobid = record_end-SameGlobals.last_finished_jobid;
    busy_slots = record_end-SameGlobals.busy_slots;
    notifies = record_end-SameGlobals.notifies;
    conns = record_end-SameGlobals.conns;
    sent = record_end-SameGlobals.sent;
    dependents = λ id ne. findjob-unlink_other id p.jobid ne _ ∙ record_end-other id ne;
    kept = λ keep. rw keep (last_job-snoc _ (ended r p));
  }

-- With a slot taken, the job in the queue, its GPUs in range and room for two finished jobs,
-- job_finished succeeds. Then the last error level and the last finished jobid are those of the
-- job, its slots are free if it was running, each other job of the queue has been told the error
-- level as often as it is listed, and the job is the last of the finished ones if it is to be kept.
pub job_finished-IsEnded :
    (max : ℤ) (r : Result) (p : Job) (used : List ℤ) (s : Server)
    → pos 0 <ℤ s.busy_slots
    → findjob p.jobid s.jobs ≡ some p
    → broadcast_free_gpus p.num_gpus p.gpu_ids s.used_gpus ≡ ok used
    → pos 2 ≤ℤ max
    → (s' : Server) × (job_finished max r p.jobid s ≡ ok s') × IsEnded r p s s'
unfolding job_finished
job_finished-IsEnded max r p used s busy e freed room = (
  after_end r p used s e max,
  ground (arith, e, freed, move_finished-ok r p used s e max),
  after_end-IsEnded r p used s e max,
)
