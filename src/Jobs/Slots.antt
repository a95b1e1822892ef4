-- ===== src/Jobs/Slots.antt =====
-- The slots that running jobs take, and how each change of the queue moves that sum.
use task_spooler.Base.{
  ◌≡◌, refl, sym, ◌∙◌, ap, true, false, List, [], ◌∷◌, some, if◌then◌else◌, arith,
}
use task_spooler.Base.Int.{
  ℤ, pos, ℤ_discrete, IsInt, add_int, sub_int, add_int-IsInt, sub_int-add_int, add_int_assoc,
  add_int_comm,
}
use task_spooler.State.{Job, Server}
use task_spooler.Jobs.Find.{findjob, update_job, unlink, is_running}

-- The sum of `num_slots` over the jobs in state RUNNING, as an `int`.
unfoldable pub slots_in_use : List Job → ℤ
slots_in_use [] = pos 0
slots_in_use (p ∷ rest) =
    if is_running p.state then add_int p.num_slots (slots_in_use rest) else slots_in_use rest

-- busy_slots is what the running jobs take.
abbrev pub Accounted : Server → Type 0
Accounted s = s.busy_slots ≡ slots_in_use s.jobs

pub slots_in_use-IsInt : (jobs : List Job) → IsInt (slots_in_use jobs)
unfolding slots_in_use
slots_in_use-IsInt [] = omega arith
slots_in_use-IsInt (p ∷ rest) =
    ground (arith, slots_in_use-IsInt rest, add_int-IsInt p.num_slots (slots_in_use rest))

pub swap_first : (a b c : ℤ) → add_int a (add_int b c) ≡ add_int b (add_int a c)
swap_first a b c =
    sym (add_int_assoc a b c) ∙ ap (λ x. add_int x c) (add_int_comm a b) ∙ add_int_assoc b a c

-- A change that keeps state and slots.
pub slots_in_use-update_keep :
    (jobid : ℤ) (f : Job → Job)
    → ((p : Job) → ((f p).state ≡ p.state) × ((f p).num_slots ≡ p.num_slots))
    → (jobs : List Job) → slots_in_use (update_job jobid f jobs) ≡ slots_in_use jobs
unfolding slots_in_use update_job
slots_in_use-update_keep jobid f keep [] = refl
slots_in_use-update_keep jobid f keep (p ∷ rest) =
    ground (arith, keep p, slots_in_use-update_keep jobid f keep rest)

module _ (jobid : ℤ) (f : Job → Job) {p : Job} where
  -- A running job that stops: its slots were part of the sum.
  split-stop :
      (jobs : List Job)
      → findjob jobid jobs ≡ some p
      → is_running p.state ≡ true
      → is_running (f p).state ≡ false
      → slots_in_use jobs ≡ add_int p.num_slots (slots_in_use (update_job jobid f jobs))
  unfolding slots_in_use update_job findjob
  split-stop [] e r n = cc
  split-stop (q ∷ rest) e r n = elim (ℤ_discrete q.jobid jobid) [
    | yes hit ↦ ground arith
    | no miss ↦ ground (
      arith,
      split-stop rest (ground arith) r n,
      swap_first p.num_slots q.num_slots (slots_in_use (update_job jobid f rest)),
    )
  ]

  pub slots_in_use-update_stop :
      (jobs : List Job)
      → findjob jobid jobs ≡ some p
      → is_running p.state ≡ true
      → is_running (f p).state ≡ false
      → sub_int (slots_in_use jobs) p.num_slots ≡ slots_in_use (update_job jobid f jobs)
  slots_in_use-update_stop jobs e r n =
      ap (λ x. sub_int x p.num_slots) (split-stop jobs e r n)
      ∙ sub_int-add_int p.num_slots _ (slots_in_use-IsInt _)

  -- A job that was not running, and is not afterwards.
  pub slots_in_use-update_idle :
      (jobs : List Job)
      → findjob jobid jobs ≡ some p
      → is_running p.state ≡ false
      → is_running (f p).state ≡ false
      → slots_in_use (update_job jobid f jobs) ≡ slots_in_use jobs
  unfolding slots_in_use update_job findjob
  slots_in_use-update_idle [] e r n = cc
  slots_in_use-update_idle (q ∷ rest) e r n = elim (ℤ_discrete q.jobid jobid) [
    | yes hit ↦ ground arith
    | no miss ↦ ground (arith, slots_in_use-update_idle rest (ground arith) r n)
  ]

  -- A job that starts to run takes its slots.
  pub slots_in_use-update_start :
      (jobs : List Job)
      → findjob jobid jobs ≡ some p
      → is_running p.state ≡ false
      → is_running (f p).state ≡ true
      → (f p).num_slots ≡ p.num_slots
      → slots_in_use (update_job jobid f jobs) ≡ add_int (slots_in_use jobs) p.num_slots
  unfolding slots_in_use update_job findjob
  slots_in_use-update_start [] e r n k = cc
  slots_in_use-update_start (q ∷ rest) e r n k = elim (ℤ_discrete q.jobid jobid) [
    | yes hit ↦ ground (arith, add_int_comm (slots_in_use rest) p.num_slots)
    | no miss ↦ ground (
      arith,
      slots_in_use-update_start rest (ground arith) r n k,
      add_int_assoc q.num_slots (slots_in_use rest) p.num_slots,
    )
  ]

-- Taking a job that does not run out of the queue.
pub slots_in_use-unlink :
    (jobid : ℤ) (p : Job) (jobs : List Job)
    → findjob jobid jobs ≡ some p
    → is_running p.state ≡ false
    → slots_in_use (unlink jobid jobs) ≡ slots_in_use jobs
unfolding slots_in_use unlink findjob
slots_in_use-unlink jobid p [] e n = cc
slots_in_use-unlink jobid p (q ∷ rest) e n = elim (ℤ_discrete q.jobid jobid) [
  | yes hit ↦ ground arith
  | no miss ↦ ground (arith, slots_in_use-unlink jobid p rest (ground arith) n)
]
