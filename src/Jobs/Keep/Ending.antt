-- ===== src/Jobs/Keep/Ending.antt =====
-- The operations that end a job.
use task_spooler.Base.{
  ◌+◌, ◌≤◌, ◌≡◌, refl, ◌∙◌, true, false, not, ◌&&◌, ◌||◌, List, [], ◌∷◌, ◌++◌, some, arith, ite,
  if◌then◌else◌, Bool, Bool-cases, inl, inr, if_pos, if_neg,
}
use task_spooler.Base.Int.{ℤ, pos, leb_ℤ, ℤ_discrete}
use task_spooler.Base.Run.{
  Ensures-of_ok, ◌>>=◌, ok, Ensures, Ensures-step, Ensures-ok, Ensures-mono, or_fault, or_exits,
  or_exits-eq_ok,
}
use task_spooler.State.{Result, Job, Notify, Server, waitjob_ok}
use task_spooler.Gpu.{broadcast_free_gpus}
use task_spooler.Jobs.Find.{findjob, get_job, update_any, is_some, is_finished, is_skipped}
use task_spooler.Jobs.Notices.{
  send_msg, in_notify_list, is_true, add_errorlevel, notify_loop, notify_errorlevel,
  destroy_finished_job, answer_waiter, check_notify_loop, check_notify_list, s_remove_notification,
}
use task_spooler.Jobs.Slots.{Accounted}
use task_spooler.Jobs.Lookup.{count, findjob-jobid}
use task_spooler.Jobs.Ids.{ids, ids-append, count-append, copies, ids-update_job, count-unlink}
use task_spooler.Jobs.Finish.{
  new_finished_job, mark_ended, mark_end, record_end, move_finished, job_finished,
}
use task_spooler.Jobs.Finish.Notify.{notify_loop-SameGlobals, slots_in_use-notify_loop}
use task_spooler.Jobs.Finish.Effect.{job_finished-Accounted, record_end-found}
use task_spooler.Jobs.Keep.{Keeps, Keeps-refl, Keeps-trans, SameJobs}

destroy_finished_job-count :
    (queued : Bool) (jobid id : ℤ) (jobs : List Job)
    → Ensures
        (λ rest. count id (ids rest) ≤ count id (ids jobs))
        (destroy_finished_job queued jobid jobs)
unfolding destroy_finished_job count
destroy_finished_job-count queued jobid id [] = tt
destroy_finished_job-count true jobid id (f ∷ rest) = tt
destroy_finished_job-count false jobid id (f ∷ []) = ground arith
destroy_finished_job-count false jobid id (f ∷ g ∷ rest) = ground arith

answer_waiter-Keeps : (n : Notify) (j : Job) (s : Server) → Ensures (Keeps s) (answer_waiter n j s)
unfolding answer_waiter s_remove_notification send_msg
answer_waiter-Keeps n j s =
    let s' =
      s_remove_notification n.socket (send_msg n.socket (waitjob_ok j.result.errorlevel) s) in
    elim (Bool-cases
      (not (in_notify_list n.jobid s'.notifies) && not (is_true j.should_keep_finished))) [
        | inl last ↦ rw last (
            Ensures-step (Keeps s)
              (destroy_finished_job (is_some (findjob n.jobid s.jobs)) n.jobid s.first_finished) _
              λ rest e. record {
                accounted = λ a. a;
                no_more = λ id. omega (
                  arith,
                  Ensures-ok _ _
                      (destroy_finished_job-count (is_some (findjob n.jobid s.jobs)) n.jobid id
                        s.first_finished)
                      e,
                );
                counter = refl;
              })
        | inr more ↦
            rw more (record { accounted = λ a. a; no_more = λ id. omega arith; counter = refl })
      ]

check_one-Keeps :
    (jobid : ℤ) (n : Notify) (s : Server)
    → Ensures (Keeps s) (
        ite
          (ℤ_discrete n.jobid jobid)
          (or_fault (get_job jobid s) >>= λ j.
            if is_finished j.state || is_skipped j.state then answer_waiter n j s else ok s)
          (ok s))
check_one-Keeps jobid n s = elim (ℤ_discrete n.jobid jobid) [
  | yes hit ↦ rw (if_pos _ hit) (
      Ensures-step (Keeps s) (or_fault (get_job jobid s)) _ λ j e.
        elim (Bool-cases (is_finished j.state || is_skipped j.state)) [
          | inl over ↦ rw over (answer_waiter-Keeps n j s)
          | inr still ↦ rw still (Keeps-refl s)
        ])
  | no miss ↦ rw (if_neg _ miss) (Keeps-refl s)
]

check_notify_loop-Keeps :
    (jobid : ℤ) (ns : List Notify) (s : Server) → Ensures (Keeps s) (check_notify_loop jobid ns s)
unfolding check_notify_loop
check_notify_loop-Keeps jobid [] s = Keeps-refl s
check_notify_loop-Keeps jobid (n ∷ ns) s =
    Ensures-step (Keeps s) _ (check_notify_loop jobid ns) λ t e.
      Ensures-mono (check_notify_loop jobid ns t) (check_notify_loop-Keeps jobid ns t)
        λ u k. Keeps-trans (Ensures-ok (Keeps s) _ (check_one-Keeps jobid n s) e) k

-- To answer the clients that wait for a job keeps the account of the slots and the counter of the
-- jobids and adds no job, where the server goes on.
pub check_notify_list-Keeps :
    (jobid : ℤ) (s : Server) → Ensures (Keeps s) (check_notify_list jobid s)
unfolding check_notify_list
check_notify_list-Keeps jobid s = check_notify_loop-Keeps jobid s.notifies s

notify_step-ids :
    (errorlevel jobid : ℤ) (s : Server)
    → let t =
        if is_some (get_job jobid s) then update_any jobid (add_errorlevel errorlevel) s else s in
      (ids t.jobs ≡ ids s.jobs) × (ids t.first_finished ≡ ids s.first_finished)
unfolding update_any
notify_step-ids errorlevel jobid s = ground (
  arith,
  ids-update_job jobid (add_errorlevel errorlevel) (λ p. refl) s.jobs,
  ids-update_job jobid (add_errorlevel errorlevel) (λ p. refl) s.first_finished,
)

notify_loop-ids :
    (errorlevel : ℤ) (jobids : List ℤ) (s : Server)
    → (ids (notify_loop errorlevel jobids s).jobs ≡ ids s.jobs)
      × (ids (notify_loop errorlevel jobids s).first_finished ≡ ids s.first_finished)
unfolding notify_loop
notify_loop-ids errorlevel [] s = (refl, refl)
notify_loop-ids errorlevel (jobid ∷ jobids) s =
    let here = notify_step-ids errorlevel jobid s in
    let rest =
      notify_loop-ids errorlevel jobids
        (if is_some (get_job jobid s) then update_any jobid (add_errorlevel errorlevel) s else s) in
    (rest.0 ∙ here.0, rest.1 ∙ here.1)

pub notify_errorlevel-SameJobs : (p : Job) (s : Server) → SameJobs s (notify_errorlevel p s)
unfolding notify_errorlevel
notify_errorlevel-SameJobs p s =
    let t = record s { last_errorlevel = p.result.errorlevel } in
    let same = notify_loop-SameGlobals p.result.errorlevel p.notify_errorlevel_to t in
    let both = notify_loop-ids p.result.errorlevel p.notify_errorlevel_to t in
    record {
      busy = same.busy_slots;
      slots = slots_in_use-notify_loop p.result.errorlevel p.notify_errorlevel_to t;
      queue_ids = both.0;
      finished_ids = both.1;
      counter = same.jobids;
    }

ids-count-snoc :
    (id : ℤ) (jobs : List Job) (p : Job)
    → count id (ids (jobs ++ p ∷ [])) ≡ count id (ids jobs) + ite (ℤ_discrete p.jobid id) 1 0
unfolding count
ids-count-snoc id jobs p =
    rw (ids-append jobs (p ∷ []), count-append id (ids jobs) (p.jobid ∷ [])) (ground arith)

new_finished_job-count :
    (max : ℤ) (j : Job) (id : ℤ) (old : List Job)
    → Ensures
        (λ kept. count id (ids kept) ≤ count id (ids old) + ite (ℤ_discrete j.jobid id) 1 0)
        (new_finished_job max j old)
unfolding new_finished_job count
new_finished_job-count max j id [] = ground arith
new_finished_job-count max j id (p ∷ []) = ground arith
new_finished_job-count max j id (p ∷ q ∷ rest) = ground (arith, ids-count-snoc id rest j)

kept_count :
    (max : ℤ) (p : Job) (id : ℤ) (wanted : Bool) (old : List Job)
    → Ensures
        (λ kept. count id (ids kept) ≤ count id (ids old) + ite (ℤ_discrete p.jobid id) 1 0)
        (if wanted then new_finished_job max p old else ok old)
kept_count max p id true old = new_finished_job-count max p id old
kept_count max p id false old = omega arith

-- A job that moves to the finished ones, or is dropped, is counted at most once more there.
abbrev MovedFrom : Server → Server → Type 0
MovedFrom s t = ((id : ℤ) → copies id t ≤ copies id s) × (t.jobids ≡ s.jobids)

move_finished-MovedFrom :
    (max jobid : ℤ) (p : Job) (s : Server)
    → findjob jobid s.jobs ≡ some p
    → Ensures (MovedFrom s) (move_finished max jobid s)
unfolding move_finished
move_finished-MovedFrom max jobid p s e =
    let wanted = is_true p.should_keep_finished || in_notify_list p.jobid s.notifies in
    rw e (
      Ensures-step (MovedFrom s)
        (if wanted then new_finished_job max p s.first_finished else ok s.first_finished) _
        λ kept k. (
          λ id. ground (
            arith,
            findjob-jobid jobid s.jobs p e,
            count-unlink id jobid s.jobs p e,
            Ensures-ok _ _ (kept_count max p id wanted s.first_finished) k,
          ),
          refl,
        ))

mark_end-ids :
    (r : Result) (p : Job) (used : List ℤ) (s : Server)
    → (ids (mark_end r p used s).jobs ≡ ids s.jobs)
      × (ids (mark_end r p used s).first_finished ≡ ids s.first_finished)
      × ((mark_end r p used s).jobids ≡ s.jobids)
unfolding mark_end
mark_end-ids r p used s = (ids-update_job p.jobid (mark_ended r) (λ q. refl) s.jobs, refl, refl)

pub record_end-ids :
    (r : Result) (p : Job) (used : List ℤ) (s : Server)
    → (ids (record_end r p used s).jobs ≡ ids s.jobs)
      × (ids (record_end r p used s).first_finished ≡ ids s.first_finished)
      × ((record_end r p used s).jobids ≡ s.jobids)
unfolding record_end
record_end-ids r p used s =
    let same = notify_errorlevel-SameJobs (mark_ended r p) (mark_end r p used s) in
    let here = mark_end-ids r p used s in
    (same.queue_ids ∙ here.0, same.finished_ids ∙ here.1, same.counter ∙ here.2)

job_finished-MovedFrom :
    (max : ℤ) (r : Result) (jobid : ℤ) (s : Server)
    → Ensures (MovedFrom s) (job_finished max r jobid s)
unfolding job_finished
job_finished-MovedFrom max r jobid s = elim (Bool-cases (leb_ℤ s.busy_slots (pos 0))) [
  | inl stop ↦ rw stop tt
  | inr go ↦ rw go (
      Ensures-step (MovedFrom s) (or_exits (findjob jobid s.jobs)) _ λ p found.
        let e = or_exits-eq_ok (findjob jobid s.jobs) found in
        Ensures-step (MovedFrom s) (broadcast_free_gpus p.num_gpus p.gpu_ids s.used_gpus) _
          λ used freed.
            let t = record_end r p used s in
            let same = record_end-ids r p used s in
            Ensures-mono (move_finished max jobid t)
              (move_finished-MovedFrom max jobid _ t (record_end-found r jobid p used s e))
              λ u h. (λ id. rw (same.0, same.1) at (h.0 id), h.1 ∙ same.2))
]

-- The end of a job keeps the account of the slots and the counter of the jobids and adds no job: it
-- is dropped or moves from the queue to the finished jobs, where the server goes on.
pub job_finished-Keeps :
    (max : ℤ) (r : Result) (jobid : ℤ) (s : Server) → Ensures (Keeps s) (job_finished max r jobid s)
job_finished-Keeps max r jobid s = Ensures-of_ok (Keeps s) _ λ t e.
    let moved = Ensures-ok (MovedFrom s) _ (job_finished-MovedFrom max r jobid s) e in
    record {
      accounted = λ a. Ensures-ok Accounted _ (job_finished-Accounted max r jobid s a) e;
      no_more = moved.0;
      counter = moved.1;
    }
