-- ===== src/Jobs/Keep/Removal.antt =====
-- s_remove_job: what the removal of a job keeps.
use task_spooler.Base.{
  ◌≤◌, ◌≡◌, refl, sym, ◌∙◌, ap, Bool-cases, inl, inr, true, false, ◌&&◌, ◌||◌, List, [], ◌∷◌, ◌++◌,
  Option, some, none, arith, if◌then◌else◌,
}
use task_spooler.Base.Int.{ℤ, minus_one, pos}
use task_spooler.Base.Run.{ok, ◌>>=◌, Ensures, Ensures-step, Ensures-ok, or_fault}
use task_spooler.State.{Reply, Job, Server}
use task_spooler.Jobs.Find.{findjob, unlink, last_job, is_running}
use task_spooler.Jobs.Notices.{send_msg, notify_errorlevel, check_notify_list}
use task_spooler.Jobs.Lookup.{count, told, findjob-jobid, findjob-update_self, findjob-notify_loop}
use task_spooler.Jobs.Slots.{slots_in_use-update_idle, slots_in_use-unlink}
use task_spooler.Jobs.Ids.{ids, IsDistinct, ids-update_job, findjob-middle}
use task_spooler.Jobs.Finish.Effect.{told-fields}
use task_spooler.Jobs.Remove.{
  Target, remove_target, mark_removed, mark_target, unlink_target, remove_found, s_remove_job,
}
use task_spooler.Jobs.Keep.{Keeps, Keeps-trans, SameJobs, SameJobs-Keeps}
use task_spooler.Jobs.Keep.Ending.{check_notify_list-Keeps, notify_errorlevel-SameJobs}
use task_spooler.Jobs.Keep.Waiters.{check_notify_list-SameQueued}

count-unlink_le :
    (id jobid : ℤ) (jobs : List Job) → count id (ids (unlink jobid jobs)) ≤ count id (ids jobs)
unfolding count unlink
count-unlink_le id jobid [] = omega arith
count-unlink_le id jobid (p ∷ rest) = ground (arith, count-unlink_le id jobid rest)

-- A job that does not run and leaves the queue.
drop_idle-Keeps :
    (jobid : ℤ) (p : Job) (s : Server)
    → findjob jobid s.jobs ≡ some p
    → is_running p.state ≡ false
    → Keeps s (record s { jobs = unlink jobid s.jobs })
drop_idle-Keeps jobid p s e idle = record {
  accounted = λ a. a ∙ sym (slots_in_use-unlink jobid p s.jobs e idle);
  no_more = λ id. omega (arith, count-unlink_le id jobid s.jobs);
  counter = refl;
}

drop_finished-Keeps :
    (jobid : ℤ) (s : Server) → Keeps s (record s { first_finished = unlink jobid s.first_finished })
drop_finished-Keeps jobid s = record {
  accounted = λ a. a;
  no_more = λ id. omega (arith, count-unlink_le id jobid s.first_finished);
  counter = refl;
}

-- The marks, and the news to the dependents.
abbrev told_removed : Target → Server → Server
told_removed t s = notify_errorlevel (mark_removed t.job) (mark_target t s)

mark_target-SameJobs :
    (t : Target) (s : Server)
    → (t.queued ≡ true → findjob t.job.jobid s.jobs ≡ some t.job)
    → is_running t.job.state ≡ false
    → SameJobs s (mark_target t s)
unfolding mark_target
mark_target-SameJobs t s at idle = elim (Bool-cases t.queued) [
  | inl q ↦ rw q (record {
    busy = refl;
    slots = slots_in_use-update_idle t.job.jobid mark_removed {p = t.job} s.jobs (at q) idle refl;
    queue_ids = ids-update_job t.job.jobid mark_removed (λ p. refl) s.jobs;
    finished_ids = refl;
    counter = refl;
  })
  | inr f ↦ rw f (record {
    busy = refl;
    slots = refl;
    queue_ids = refl;
    finished_ids = ids-update_job t.job.jobid mark_removed (λ p. refl) s.first_finished;
    counter = refl;
  })
]

-- The job as it stands in the queue before it is unlinked.
told_removed-findjob :
    (t : Target) (s : Server)
    → t.queued ≡ true
    → findjob t.job.jobid s.jobs ≡ some t.job
    → findjob t.job.jobid (told_removed t s).jobs
      ≡ some (told (count t.job.jobid t.job.notify_errorlevel_to) minus_one (mark_removed t.job))
unfolding mark_target notify_errorlevel
told_removed-findjob t s q e = rw q (
    findjob-notify_loop t.job.jobid minus_one t.job.notify_errorlevel_to _
    ∙ rw (findjob-update_self t.job.jobid mark_removed (λ p. refl) s.jobs, e) refl)

unlink_target-Keeps :
    (t : Target) (u : Server)
    → (t.queued ≡ true
        → (p : Job) × (findjob t.job.jobid u.jobs ≡ some p) × (is_running p.state ≡ false))
    → Ensures (Keeps u) (unlink_target t u)
unfolding unlink_target
unlink_target-Keeps t u at = elim (Bool-cases t.queued) [
  | inl q ↦ let (p, e, idle) = at q in rw q (drop_idle-Keeps t.job.jobid p u e idle)
  | inr f ↦ rw f (
      Ensures-step (Keeps u) (or_fault (findjob t.job.jobid u.first_finished)) _
        λ p e. drop_finished-Keeps t.job.jobid u)
]

remove_found-Keeps :
    (socket : ℤ) (t : Target) (s : Server)
    → (t.queued ≡ true → findjob t.job.jobid s.jobs ≡ some t.job)
    → is_running t.job.state ≡ false
    → Ensures (Keeps s) (remove_found socket t s)
unfolding remove_found send_msg
remove_found-Keeps socket t s at idle =
    let marked = SameJobs-Keeps (mark_target-SameJobs t s at idle) in
    let told_k =
      SameJobs-Keeps (notify_errorlevel-SameJobs (mark_removed t.job) (mark_target t s)) in
    Ensures-step (Keeps s) (check_notify_list (pos 0) (told_removed t s)) _ λ u e.
      let checked = Ensures-ok _ _ (check_notify_list-Keeps (pos 0) (told_removed t s)) e in
      let same : u.jobs ≡ (told_removed t s).jobs =
        Ensures-ok _ _ (check_notify_list-SameQueued (pos 0) (told_removed t s)) e in
      Ensures-step (Keeps s) (unlink_target t u) _ λ v e'.
        let dropped =
          Ensures-ok _ _
            (unlink_target-Keeps t u λ q. (
              told (count t.job.jobid t.job.notify_errorlevel_to) minus_one (mark_removed t.job),
              rw same (told_removed-findjob t s q (at q)),
              rw
                  ((told-fields (count t.job.jobid t.job.notify_errorlevel_to) minus_one
                    (mark_removed t.job)).0)
                  refl,
            ))
            e' in
        let k = Keeps-trans marked (Keeps-trans told_k (Keeps-trans checked dropped)) in
        record { accounted = k.accounted; no_more = k.no_more; counter = k.counter }

last_job-end :
    (jobs : List Job) (p : Job)
    → last_job jobs ≡ some p
    → (before : List Job) × (jobs ≡ before ++ p ∷ [])
unfolding last_job
last_job-end [] p e = cc
last_job-end (q ∷ []) p e = ([], ground arith)
last_job-end (q ∷ r ∷ rest) p e =
    let (before, k) = last_job-end (r ∷ rest) p e in (q ∷ before, ap (λ x. q ∷ x) k)

last_job-findjob :
    (s : Server) (p : Job)
    → IsDistinct s
    → last_job s.jobs ≡ some p
    → findjob p.jobid s.jobs ≡ some p
last_job-findjob s p d e =
    let (before, k) = last_job-end s.jobs p e in
    rw k (findjob-middle before p [] (rw (← k) (omega (arith, d p.jobid))))

remove_target-findjob :
    (jobid : ℤ) (s : Server) (t : Target)
    → IsDistinct s
    → remove_target jobid s ≡ some t
    → t.queued ≡ true
    → findjob t.job.jobid s.jobs ≡ some t.job
unfolding remove_target
remove_target-findjob jobid s t d e q =
    ground (arith, last_job-findjob s t.job d, findjob-jobid jobid s.jobs t.job)

removal-Keeps :
    (socket : ℤ) (refused : Reply) (s : Server) (o : Option Target)
    → ((t : Target) → o ≡ some t → t.queued ≡ true → findjob t.job.jobid s.jobs ≡ some t.job)
    → Ensures
        (λ (id, u). Keeps s u)
        (elim o [
          | none ↦ ok (none, send_msg socket refused s)
          | some t ↦
              if is_running t.job.state || (t.queued && t.is_first)
              then ok (none, send_msg socket refused s)
              else (do s' ← remove_found socket t s; ok (some t.job.jobid, s'))
        ])
unfolding send_msg
removal-Keeps socket refused s none at = record {
  accounted = λ a. a;
  no_more = λ id. omega arith;
  counter = refl;
}
removal-Keeps socket refused s (some t) at =
    elim (Bool-cases (is_running t.job.state || (t.queued && t.is_first))) [
      | inl refuse ↦
          rw refuse (record { accounted = λ a. a; no_more = λ id. omega arith; counter = refl })
      | inr remove ↦ rw remove (
          Ensures-step _ (remove_found socket t s) _
            λ u e. Ensures-ok _ _ (remove_found-Keeps socket t s (at t refl) (ground arith)) e)
    ]

-- If no two jobs have the same jobid, the removal of a job, or its refusal, keeps the account of
-- the slots and the counter of the jobids and adds no job, where the server goes on.
pub s_remove_job-Keeps :
    (socket jobid : ℤ) (s : Server)
    → IsDistinct s
    → Ensures (λ (id, t). Keeps s t) (s_remove_job socket jobid s)
unfolding s_remove_job
s_remove_job-Keeps socket jobid s d =
    removal-Keeps socket _ s (remove_target jobid s) λ t e. remove_target-findjob jobid s t d e
