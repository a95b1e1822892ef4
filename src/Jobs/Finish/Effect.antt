-- ===== src/Jobs/Finish/Effect.antt =====
-- job_finished: what the end of a job does to the server.
use task_spooler.Base.{
  ◌≡◌, refl, sym, ◌∙◌, inl, inr, false, List, some, ℕ, zero, suc, arith, Bool-cases,
}
use task_spooler.Base.Int.{ℤ, pos, leb_ℤ}
use task_spooler.Base.Run.{Ensures, Ensures-step, or_exits-eq_ok, or_exits}
use task_spooler.State.{Result, Job, Server}
use task_spooler.Gpu.{broadcast_free_gpus}
use task_spooler.Jobs.Find.{findjob, is_running}
use task_spooler.Jobs.Notices.{notify_errorlevel}
use task_spooler.Jobs.Slots.{
  Accounted, slots_in_use-update_stop, slots_in_use-update_idle, slots_in_use-unlink,
}
use task_spooler.Jobs.Lookup.{findjob-update_self, findjob-notify_loop, findjob-jobid, count, told}
use task_spooler.Jobs.Finish.Notify.{notify_loop-SameGlobals, slots_in_use-notify_loop}
use task_spooler.Jobs.Finish.{
  mark_ended, end_state, mark_end, record_end, move_finished, job_finished,
}

end_state_idle : (r : Result) → is_running (end_state r) ≡ false
end_state_idle r = ground arith

pub told-fields :
    (n : ℕ) (e : ℤ) (p : Job)
    → ((told n e p).state ≡ p.state)
      × ((told n e p).jobid ≡ p.jobid)
      × ((told n e p).should_keep_finished ≡ p.should_keep_finished)
unfolding told
told-fields zero e p = (refl, refl, refl)
told-fields (suc n) e p = told-fields n e _

notify_errorlevel-Accounted :
    (p : Job) (s : Server) → Accounted s → Accounted (notify_errorlevel p s)
unfolding notify_errorlevel
notify_errorlevel-Accounted p s a =
    let s0 = record s { last_errorlevel = p.result.errorlevel } in
    (notify_loop-SameGlobals p.result.errorlevel p.notify_errorlevel_to s0).busy_slots
    ∙ a
    ∙ sym (slots_in_use-notify_loop p.result.errorlevel p.notify_errorlevel_to s0)

module _ (r : Result) (jobid : ℤ) (p : Job) (used : List ℤ) (s : Server)
    (e : findjob jobid s.jobs ≡ some p) where
  mark_end-Accounted : Accounted s → Accounted (mark_end r p used s)
  unfolding mark_end
  mark_end-Accounted a = ground (
    arith,
    findjob-jobid jobid s.jobs p e,
    slots_in_use-update_stop jobid (mark_ended r) {p = p} s.jobs e,
    slots_in_use-update_idle jobid (mark_ended r) {p = p} s.jobs e,
    end_state_idle r,
  )

  record_end-Accounted : Accounted s → Accounted (record_end r p used s)
  unfolding record_end
  record_end-Accounted a =
      notify_errorlevel-Accounted (mark_ended r p) (mark_end r p used s) (mark_end-Accounted a)

  mark_end-found : findjob jobid (mark_end r p used s).jobs ≡ some (mark_ended r p)
  unfolding mark_end
  mark_end-found = ground (
    arith,
    findjob-jobid jobid s.jobs p e,
    findjob-update_self jobid (mark_ended r) (λ q. refl) s.jobs,
  )

  pub record_end-found :
      findjob jobid (record_end r p used s).jobs
      ≡ some (told (count jobid p.notify_errorlevel_to) r.errorlevel (mark_ended r p))
  unfolding record_end notify_errorlevel
  record_end-found =
      findjob-notify_loop jobid r.errorlevel p.notify_errorlevel_to _ ∙ rw mark_end-found

move_finished-Accounted :
    (max jobid : ℤ) (p : Job) (s : Server)
    → findjob jobid s.jobs ≡ some p
    → is_running p.state ≡ false
    → Accounted s
    → Ensures Accounted (move_finished max jobid s)
unfolding move_finished
move_finished-Accounted max jobid p s e n a =
    ground (arith, e, slots_in_use-unlink jobid p s.jobs e n)

-- However a job ends, busy_slots stays the sum of the slots of the running jobs.
pub job_finished-Accounted :
    (max : ℤ) (r : Result) (jobid : ℤ) (s : Server)
    → Accounted s
    → Ensures Accounted (job_finished max r jobid s)
unfolding job_finished
job_finished-Accounted max r jobid s a = elim (Bool-cases (leb_ℤ s.busy_slots (pos 0))) [
  | inl stop ↦ rw stop tt
  | inr go ↦ rw go (
      Ensures-step Accounted (or_exits (findjob jobid s.jobs)) _ λ p found.
        let e = or_exits-eq_ok (findjob jobid s.jobs) found in
        Ensures-step Accounted (broadcast_free_gpus p.num_gpus p.gpu_ids s.used_gpus) _
          λ used freed.
            let marked =
              told-fields (count jobid p.notify_errorlevel_to) r.errorlevel (mark_ended r p) in
            move_finished-Accounted max jobid _ (record_end r p used s)
              (record_end-found r jobid p used s e) (rw marked.0 (end_state_idle r))
              (record_end-Accounted r jobid p used s e a))
]
