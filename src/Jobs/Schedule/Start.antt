-- ===== src/Jobs/Schedule/Start.antt =====
-- The start of the job that next_run_job chose, as server_loop does it.
use task_spooler.Base.{
  ◌≤◌, ◌≡◌, refl, sym, ◌∙◌, ap, subst, true, false, ◌||◌, List, [], ◌∷◌, ◌++◌, some, All, arith,
}
use task_spooler.Base.Int.{ℤ, pos, ◌≤ℤ◌, ◌<ℤ◌, IsInt, add_int, sub_int}
use task_spooler.Base.Run.{ok, Ensures-ok}
use task_spooler.State.{JobState, running, Job, Server}
use task_spooler.Jobs.Find.{findjob, update_job, is_running, is_queued, is_allocating}
use task_spooler.Jobs.Slots.{Accounted, slots_in_use-update_start}
use task_spooler.Jobs.Ids.{ids, IsDistinct, findjob-middle}
use task_spooler.Jobs.Lookup.{count}
use task_spooler.Jobs.Schedule.Choice.{IsChosen, Next, next_run_job-Next}
use task_spooler.Jobs.Schedule.{Machine, next_run_job, s_mark_job_running, set_state}

-- A waiting job does not run.
waiting_idle : (st : JobState) → (is_queued st || is_allocating st) ≡ true → is_running st ≡ false
waiting_idle st h = ground arith

module _ {s t : Server} {id : ℤ} (c : IsChosen s id t) where
  open c use {choice, first}

  -- The chosen job is the one that a search for its jobid finds.
  pub chosen-findjob : IsDistinct s → findjob choice.jobid t.jobs ≡ some choice
  chosen-findjob d =
      let once : count choice.jobid (ids (first.before' ++ choice ∷ first.after)) ≤ 1 =
        rw (← first.place', c.searched.same_ids) (omega (arith, d choice.jobid)) in
      rw first.place' (findjob-middle first.before' choice first.after once)

  chosen_idle : is_running choice.state ≡ false
  chosen_idle =
      waiting_idle _ (ground (arith, ap (λ (j : Job). j.state) first.same, first.runnable.waiting))

  chosen-slots : choice.num_slots ≡ first.job.num_slots
  chosen-slots = ap (λ (j : Job). j.num_slots) first.same

-- If next_run_job chose a job in a server whose jobids are distinct and whose busy_slots is the sum
-- of the slots of the running jobs, the job can be marked as running, and then busy_slots is that
-- sum once more.
pub start-Accounted :
    (m : Machine) (s t : Server) (id : ℤ)
    → next_run_job m s ≡ ok (some id, t)
    → IsDistinct s
    → Accounted s
    → (u : Server) × (s_mark_job_running id t ≡ ok u) × Accounted u
unfolding s_mark_job_running
start-Accounted m s t id e d a =
    let c : IsChosen s id t = Ensures-ok (Next m s) _ (next_run_job-Next m s) e in
    let at : findjob id t.jobs ≡ some c.choice = rw c.jobid (chosen-findjob c d) in
    let sum =
      slots_in_use-update_start id (set_state running) {p = c.choice} t.jobs at (chosen_idle c) refl
        refl in
    (
      record t { jobs = update_job id (set_state running) t.jobs },
      rw at refl,
      c.busy ∙ ap (λ x. add_int x c.choice.num_slots) (a ∙ sym c.searched.same_slots) ∙ sym sum,
    )

All-middle :
    (P : Job → Type 0) (p : Job) (after before : List Job) → All P (before ++ p ∷ after) → P p
All-middle P p after [] h = h.0
All-middle P p after (q ∷ before) h = All-middle P p after before h.1

within :
    (max busy slots : ℤ)
    → IsInt max
    → IsInt busy
    → IsInt slots
    → pos 0 ≤ℤ max
    → pos 0 ≤ℤ busy
    → pos 0 <ℤ sub_int max busy
    → slots ≤ℤ sub_int max busy
    → add_int busy slots ≤ℤ max
unfolding add_int sub_int
within max busy slots m b k p q left fits = ground arith

-- If a job is chosen, the slots in use do not exceed max_slots afterwards: for slots that are ints,
-- with max_slots and busy_slots not negative before.
pub next_run_job_within :
    (m : Machine) (s t : Server) (id : ℤ)
    → next_run_job m s ≡ ok (some id, t)
    → IsInt s.max_slots
    → IsInt s.busy_slots
    → pos 0 ≤ℤ s.max_slots
    → pos 0 ≤ℤ s.busy_slots
    → All (λ p. IsInt p.num_slots) s.jobs
    → t.busy_slots ≤ℤ t.max_slots
next_run_job_within m s t id e im ib pm pb slots =
    let c : IsChosen s id t = Ensures-ok (Next m s) _ (next_run_job-Next m s) e in
    let slot : IsInt c.first.job.num_slots =
      All-middle (λ p. IsInt p.num_slots) c.first.job c.first.after c.first.before
        (subst (All (λ p. IsInt p.num_slots)) c.first.place slots) in
    rw (c.searched.same_max, c.busy, chosen-slots c)
      (within s.max_slots s.busy_slots c.first.job.num_slots im ib slot pm pb c.slots_left
        c.first.runnable.fits)
