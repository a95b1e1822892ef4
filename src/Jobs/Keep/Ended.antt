-- ===== src/Jobs/Keep/Ended.antt =====
-- The operations that end a job, for the jobs of Jobs/Keep/Others.antt.
use task_spooler.Base.{
  Option, ◌≡◌, ◌∙◌, ap, true, false, not, ◌&&◌, ◌||◌, Bool, Bool-cases, inl, inr, ℕ, suc, ◌≤◌, List,
  [], ◌∷◌, ◌++◌, some, arith, ite, if◌then◌else◌, All, subst,
}
use task_spooler.Base.Int.{ℤ, pos, leb_ℤ, ℤ_discrete}
use task_spooler.Base.Run.{
  ok, ◌>>=◌, Ensures, Ensures-step, Ensures-ok, Ensures-ite, or_fault, or_exits, or_exits-eq_ok,
}
use task_spooler.State.{Text, Result, Job, Notify, Server, waitjob_ok}
use task_spooler.Gpu.{broadcast_free_gpus}
use task_spooler.Jobs.Find.{findjob, get_job, is_some, is_running, is_finished, is_skipped}
use task_spooler.Jobs.Notices.{
  send_msg, in_notify_list, is_true, add_errorlevel, notify_errorlevel, destroy_finished_job,
  answer_waiter, check_notify_loop, check_notify_list, s_remove_notification,
}
use task_spooler.Jobs.Lookup.{told, findjob-jobid, count}
use task_spooler.Jobs.Ids.{ids, count-unlink}
use task_spooler.Jobs.Keep.Ending.{record_end-ids}
use task_spooler.Jobs.Query.{started, s_process_runjob_ok}
use task_spooler.Jobs.Finish.{
  new_finished_job, mark_ended, mark_end, record_end, move_finished, job_finished,
}
use task_spooler.Jobs.Finish.Outcome.{ended}
use task_spooler.Jobs.Finish.Effect.{record_end-found, told-fields}
use task_spooler.Jobs.Schedule.Progress.{HasEnded}
use task_spooler.Jobs.Keep.Others.{All-unlink, length-unlink, Others, updated, notify_loop-Others}

All-snoc :
    (jobs : List Job) (p : Job) → All HasEnded jobs → HasEnded p → All HasEnded (jobs ++ p ∷ [])
All-snoc [] p h k = (k, tt)
All-snoc (q ∷ jobs) p (h, hs) k = (h, All-snoc jobs p hs k)

new_finished_job-HasEnded :
    (max : ℤ) (j : Job) (old : List Job)
    → HasEnded j
    → All HasEnded old
    → Ensures (All HasEnded) (new_finished_job max j old)
unfolding new_finished_job
new_finished_job-HasEnded max j [] k h = ground arith
new_finished_job-HasEnded max j (p ∷ []) k h = ground arith
new_finished_job-HasEnded max j (p ∷ q ∷ rest) k h = ground (arith, All-snoc rest j h.1.1 k)

kept-HasEnded :
    (max : ℤ) (j : Job) (wanted : Bool) (old : List Job)
    → HasEnded j
    → All HasEnded old
    → Ensures (All HasEnded) (if wanted then new_finished_job max j old else ok old)
kept-HasEnded max j true old k h = new_finished_job-HasEnded max j old k h
kept-HasEnded max j false old k h = h

destroy_finished_job-HasEnded :
    (queued : Bool) (id : ℤ) (jobs : List Job)
    → All HasEnded jobs
    → Ensures (All HasEnded) (destroy_finished_job queued id jobs)
unfolding destroy_finished_job
destroy_finished_job-HasEnded queued id [] h = tt
destroy_finished_job-HasEnded true id (f ∷ rest) h = tt
destroy_finished_job-HasEnded false id (f ∷ []) h = ground arith
destroy_finished_job-HasEnded false id (f ∷ g ∷ rest) h = ground arith

ended-HasEnded : (r : Result) (p : Job) → HasEnded (ended r p)
ended-HasEnded r p =
    ground (arith, told-fields (count p.jobid p.notify_errorlevel_to) r.errorlevel (mark_ended r p))

module _ {X : Job → Type 0} {n : ℕ} {m : ℤ} {vars : List (Text × Text)} where
  move_finished-Others :
      (max id : ℤ) (p : Job) (s : Server)
      → findjob id s.jobs ≡ some p
      → HasEnded p
      → Others X (suc n) m vars s
      → Ensures (Others X n m vars) (move_finished max id s)
  unfolding move_finished
  move_finished-Others max id p s e over h =
      let wanted = is_true p.should_keep_finished || in_notify_list p.jobid s.notifies in
      rw e (
        Ensures-step (Others X n m vars)
          (if wanted then new_finished_job max p s.first_finished else ok s.first_finished) _
          λ kept k. record {
            jobs = All-unlink X id s.jobs h.jobs;
            size = omega (arith, length-unlink id s.jobs p e, h.size);
            finished =
                Ensures-ok (All HasEnded) _
                  (kept-HasEnded max p wanted s.first_finished over h.finished) k;
            max_slots = h.max_slots;
            env = h.env;
          })

  -- The property is kept by a change of dependency_errorlevel.
  module _ (tells : (e : ℤ) (p : Job) → X p → X (add_errorlevel e p)) where
    record_end-Others :
        (r : Result) (p : Job) (used : List ℤ) (s : Server)
        → ((q : Job) → q.jobid ≡ p.jobid → X (mark_ended r q))
        → Others X n m vars s
        → Others X n m vars (record_end r p used s)
    unfolding record_end mark_end notify_errorlevel
    record_end-Others r p used s marks h =
        let k = updated p.jobid (mark_ended r) s (λ q e _. marks q e) h in
        notify_loop-Others tells r.errorlevel p.notify_errorlevel_to _ (record {
          jobs = k.jobs;
          size = k.size;
          finished = k.finished;
          max_slots = k.max_slots;
          env = k.env;
        })

  answer_waiter-Others :
      (w : Notify) (j : Job) (s : Server)
      → Others X n m vars s
      → Ensures (Others X n m vars) (answer_waiter w j s)
  unfolding answer_waiter s_remove_notification send_msg
  answer_waiter-Others w j s h =
      let s' =
        s_remove_notification w.socket (send_msg w.socket (waitjob_ok j.result.errorlevel) s) in
      elim (Bool-cases
        (not (in_notify_list w.jobid s'.notifies) && not (is_true j.should_keep_finished))) [
          | inl last ↦ rw last (
              Ensures-step (Others X n m vars)
                (destroy_finished_job (is_some (findjob w.jobid s.jobs)) w.jobid s.first_finished) _
                λ rest e. record {
                  jobs = h.jobs;
                  size = h.size;
                  finished =
                      Ensures-ok (All HasEnded) _
                        (destroy_finished_job-HasEnded (is_some (findjob w.jobid s.jobs)) w.jobid
                          s.first_finished h.finished)
                        e;
                  max_slots = h.max_slots;
                  env = h.env;
                })
          | inr more ↦ rw more (record {
            jobs = h.jobs;
            size = h.size;
            finished = h.finished;
            max_slots = h.max_slots;
            env = h.env;
          })
        ]

  check_one-Others :
      (id : ℤ) (w : Notify) (s : Server)
      → Others X n m vars s
      → Ensures (Others X n m vars) (
          ite
            (ℤ_discrete w.jobid id)
            (or_fault (get_job id s) >>= λ j.
              if is_finished j.state || is_skipped j.state then answer_waiter w j s else ok s)
            (ok s))
  check_one-Others id w s h =
      Ensures-ite (Others X n m vars) (ℤ_discrete w.jobid id) _ _
        (λ hit. Ensures-step (Others X n m vars) (or_fault (get_job id s)) _ λ j e.
          elim (Bool-cases (is_finished j.state || is_skipped j.state)) [
            | inl over ↦ rw over (answer_waiter-Others w j s h)
            | inr still ↦ rw still h
          ])
        λ miss. h

  check_notify_loop-Others :
      (id : ℤ) (ns : List Notify) (s : Server)
      → Others X n m vars s
      → Ensures (Others X n m vars) (check_notify_loop id ns s)
  unfolding check_notify_loop
  check_notify_loop-Others id [] s h = h
  check_notify_loop-Others id (w ∷ ns) s h =
      Ensures-step (Others X n m vars) _ (check_notify_loop id ns) λ t e.
        check_notify_loop-Others id ns t
          (Ensures-ok (Others X n m vars) _ (check_one-Others id w s h) e)

  pub check_notify_list-Others :
      (id : ℤ) (s : Server)
      → Others X n m vars s
      → Ensures (Others X n m vars) (check_notify_list id s)
  unfolding check_notify_list
  check_notify_list-Others id s h = check_notify_loop-Others id s.notifies s h

  pub s_process_runjob_ok-Others :
      (id : ℤ) (oname : Option Text) (pid : ℤ) (s : Server)
      → ((p : Job) → p.jobid ≡ id → X (started oname pid p))
      → Others X n m vars s
      → Ensures (Others X n m vars) (s_process_runjob_ok id oname pid s)
  unfolding s_process_runjob_ok
  s_process_runjob_ok-Others id oname pid s marks h =
      Ensures-step (Others X n m vars) (or_exits (findjob id s.jobs)) _ λ p e.
        elim (Bool-cases (is_running p.state)) [
          | inl runs ↦ rw runs (updated id (started oname pid) s (λ q k _. marks q k) h)
          | inr idle ↦ rw idle tt
        ]

pub job_finished-Others :
    {X : Job → Type 0} {n : ℕ} {m : ℤ} {vars : List (Text × Text)} (max : ℤ) (r : Result) (id : ℤ)
    (s : Server)
    → ((e : ℤ) (p : Job) → X p → X (add_errorlevel e p))
    → ((q : Job) → q.jobid ≡ id → X (mark_ended r q))
    → Others X (suc n) m vars s
    → Ensures (Others X n m vars) (job_finished max r id s)
unfolding job_finished
job_finished-Others {X} {n} {m} {vars} max r id s tells marks h =
    elim (Bool-cases (leb_ℤ s.busy_slots (pos 0))) [
      | inl stop ↦ rw stop tt
      | inr go ↦ rw go (
          Ensures-step (Others X n m vars) (or_exits (findjob id s.jobs)) _ λ p found.
            let e = or_exits-eq_ok (findjob id s.jobs) found in
            let same = findjob-jobid id s.jobs p e in
            Ensures-step (Others X n m vars) (broadcast_free_gpus p.num_gpus p.gpu_ids s.used_gpus)
              _
              λ used freed.
                let t = record_end r p used s in
                move_finished-Others max id _ t (record_end-found r id p used s e)
                  (subst
                    (λ i.
                      HasEnded
                        (told (count i p.notify_errorlevel_to) r.errorlevel (mark_ended r p)))
                    same (ended-HasEnded r p))
                  (record_end-Others tells r p used s (λ q k. marks q (k ∙ same)) h))
    ]

-- A job that ends does not stand in the queue any more.
pub job_finished-gone :
    (max : ℤ) (r : Result) (id : ℤ) (s : Server)
    → count id (ids s.jobs) ≤ 1
    → Ensures (λ t. count id (ids t.jobs) ≡ 0) (job_finished max r id s)
unfolding job_finished move_finished
job_finished-gone max r id s once = elim (Bool-cases (leb_ℤ s.busy_slots (pos 0))) [
  | inl stop ↦ rw stop tt
  | inr go ↦ rw go (
      Ensures-step _ (or_exits (findjob id s.jobs)) _ λ p found.
        let e = or_exits-eq_ok (findjob id s.jobs) found in
        Ensures-step _ (broadcast_free_gpus p.num_gpus p.gpu_ids s.used_gpus) _ λ used freed.
          let t = record_end r p used s in
          let at = record_end-found r id p used s e in
          Ensures-step _ (or_fault (findjob id t.jobs)) _ λ q k.
            Ensures-step _
              (if is_true q.should_keep_finished || in_notify_list q.jobid t.notifies
                then new_finished_job max q t.first_finished
                else ok t.first_finished)
              _
              λ kept k2. ground (
                arith,
                count-unlink id id t.jobs _ at,
                ap (count id) (record_end-ids r p used s).0,
                once,
              ))
]
