-- ===== src/Jobs/Keep/Others.antt =====
-- The operations that end a job: what they leave of the other jobs.
use task_spooler.Base.{
  ◌≡◌, refl, ◌∙◌, Bool-cases, inl, inr, ℕ, suc, List, [], ◌∷◌, some, arith, if_pos, if_neg,
  if◌then◌else◌, All, length,
}
use task_spooler.Base.Int.{ℤ, ℤ_discrete}
use task_spooler.State.{Text, Job, Server}
use task_spooler.Jobs.Find.{findjob, get_job, update_job, update_any, unlink, is_some}
use task_spooler.Jobs.Notices.{add_errorlevel, notify_loop}
use task_spooler.Jobs.Ids.{ids}
use task_spooler.Jobs.Schedule.Progress.{HasEnded}

pub All-update :
    (X : Job → Type 0) (id : ℤ) (f : Job → Job) (jobs : List Job)
    → ((p : Job) → p.jobid ≡ id → X p → X (f p))
    → All X jobs
    → All X (update_job id f jobs)
unfolding update_job
All-update X id f [] k h = tt
All-update X id f (p ∷ rest) k (h, hs) = elim (ℤ_discrete p.jobid id) [
  | yes hit ↦ rw (if_pos _ hit) (k p hit h, hs)
  | no miss ↦ rw (if_neg _ miss) (h, All-update X id f rest k hs)
]

pub All-unlink : (X : Job → Type 0) (id : ℤ) (jobs : List Job) → All X jobs → All X (unlink id jobs)
unfolding unlink
All-unlink X id [] h = tt
All-unlink X id (p ∷ rest) (h, hs) = elim (ℤ_discrete p.jobid id) [
  | yes hit ↦ rw (if_pos _ hit) hs
  | no miss ↦ rw (if_neg _ miss) (h, All-unlink X id rest hs)
]

pub length-update_job :
    (id : ℤ) (f : Job → Job) (jobs : List Job) → length (update_job id f jobs) ≡ length jobs
unfolding update_job
length-update_job id f [] = refl
length-update_job id f (p ∷ rest) = ground (arith, length-update_job id f rest)

pub length-unlink :
    (id : ℤ) (jobs : List Job) (p : Job)
    → findjob id jobs ≡ some p
    → length jobs ≡ suc (length (unlink id jobs))
unfolding unlink findjob
length-unlink id [] p e = cc
length-unlink id (q ∷ rest) p e = ground (arith, length-unlink id rest p)

-- The jobs of the queue have a property, the finished jobs have ended, and the settings are given.
pub record Others (X : Job → Type 0) (n : ℕ) (m : ℤ) (vars : List (Text × Text)) (s : Server)
    : Type 0 where
  pub jobs : All X s.jobs
  pub size : length s.jobs ≡ n
  pub finished : All HasEnded s.first_finished
  pub max_slots : s.max_slots ≡ m
  pub env : s.env ≡ vars

module _ {X : Job → Type 0} {n : ℕ} {m : ℤ} {vars : List (Text × Text)} where
  pub updated :
      (id : ℤ) (f : Job → Job) (s : Server)
      → ((p : Job) → p.jobid ≡ id → X p → X (f p))
      → Others X n m vars s
      → Others X n m vars (record s { jobs = update_job id f s.jobs })
  updated id f s k h = record {
    jobs = All-update X id f s.jobs k h.jobs;
    size = length-update_job id f s.jobs ∙ h.size;
    finished = h.finished;
    max_slots = h.max_slots;
    env = h.env;
  }

  -- The property is one that does not change with dependency_errorlevel.
  module _ (tells : (e : ℤ) (p : Job) → X p → X (add_errorlevel e p)) where
    notify_step-Others :
        (e id : ℤ) (s : Server)
        → Others X n m vars s
        → Others X n m vars
            (if is_some (get_job id s) then update_any id (add_errorlevel e) s else s)
    unfolding update_any
    notify_step-Others e id s h = elim (Bool-cases (is_some (get_job id s))) [
      | inr gone ↦ rw gone h
      | inl here ↦ rw here (elim (Bool-cases (is_some (findjob id s.jobs))) [
        | inl queued ↦ rw queued (updated id (add_errorlevel e) s (λ p _. tells e p) h)
        | inr over ↦ rw over (record {
          jobs = h.jobs;
          size = h.size;
          finished =
              All-update HasEnded id (add_errorlevel e) s.first_finished (λ p _ k. k) h.finished;
          max_slots = h.max_slots;
          env = h.env;
        })
      ])
    ]

    pub notify_loop-Others :
        (e : ℤ) (ids : List ℤ) (s : Server)
        → Others X n m vars s
        → Others X n m vars (notify_loop e ids s)
    unfolding notify_loop
    notify_loop-Others e [] s h = h
    notify_loop-Others e (id ∷ ids) s h =
        notify_loop-Others e ids
          (if is_some (get_job id s) then update_any id (add_errorlevel e) s else s)
          (notify_step-Others e id s h)
