-- ===== src/Jobs/Schedule/Choice.antt =====
-- next_run_job: which job it chooses, and that it leaves the slots accounted for.
use task_spooler.Base.{
  ◌≡◌, refl, ap, List, [], ◌∷◌, ◌++◌, Option, some, none, ◌⊎◌, inl, inr, All, arith, Bool-cases,
  if◌then◌else◌,
}
use task_spooler.Base.Int.{ℤ, pos, ◌≤ℤ◌, ◌<ℤ◌, leb_ℤ, add_int, sub_int}
use task_spooler.Base.Run.{ok, Ensures, Ensures-step, Ensures-mono, Ensures-ok}
use task_spooler.State.{Job, Server}
use task_spooler.Gpu.{broadcast_used_gpus}
use task_spooler.Jobs.Notices.{is_true}
use task_spooler.Jobs.Slots.{slots_in_use}
use task_spooler.Jobs.Ids.{ids}
use task_spooler.Jobs.Schedule.Scan.{
  SameBarGpus, IsRunnable, IsPassed, Scan, end, found, pass, next_run_loop-Scan,
}
use task_spooler.Jobs.Schedule.{Machine, next_run_loop, search_queue, start_job, next_run_job}

-- Where the job found stands, before and after the walk.
pub record IsFirst (s : Server) (free_slots : ℤ) (jobs jobs' : List Job) (q : Job) : Type 0 where
  pub before : List Job
  pub job : Job
  pub after : List Job
  pub place : jobs ≡ before ++ job ∷ after
  pub passed : All (IsPassed s free_slots) before
  pub runnable : IsRunnable s free_slots job
  pub same : SameBarGpus job q
  pub before' : List Job
  pub place' : jobs' ≡ before' ++ q ∷ after

module _ {s : Server} {free_slots : ℤ} where
  -- The walk changes no jobid and no state.
  Scan-ids :
      {jobs jobs' : List Job} {o : Option Job}
      → Scan s free_slots jobs jobs' o
      → ids jobs' ≡ ids jobs
  Scan-ids end = refl
  Scan-ids (found h r) = ground (arith, ap (λ (j : Job). j.jobid) h)
  Scan-ids (pass h n rest) = ground (arith, ap (λ (j : Job). j.jobid) h, Scan-ids rest)

  Scan-slots :
      {jobs jobs' : List Job} {o : Option Job}
      → Scan s free_slots jobs jobs' o
      → slots_in_use jobs' ≡ slots_in_use jobs
  unfolding slots_in_use
  Scan-slots end = refl
  Scan-slots (found h r) =
      ground (arith, ap (λ (j : Job). j.state) h, ap (λ (j : Job). j.num_slots) h)
  Scan-slots (pass h n rest) =
      ground (arith, ap (λ (j : Job). j.state) h, ap (λ (j : Job). j.num_slots) h, Scan-slots rest)

  Scan-none :
      {jobs jobs' : List Job} {o : Option Job}
      → Scan s free_slots jobs jobs' o
      → o ≡ none
      → All (IsPassed s free_slots) jobs
  Scan-none end e = tt
  Scan-none (found h r) e = cc
  Scan-none (pass h n rest) e = (n, Scan-none rest e)

  Scan-IsFirst :
      {jobs jobs' : List Job} {o : Option Job} (q : Job)
      → Scan s free_slots jobs jobs' o
      → o ≡ some q
      → IsFirst s free_slots jobs jobs' q
  Scan-IsFirst q end e = cc
  Scan-IsFirst q (found {p} {q = q'} {rest} h r) e = record {
    before = [];
    job = p;
    after = rest;
    place = refl;
    passed = tt;
    runnable = r;
    same = ground arith;
    before' = [];
    place' = ground arith;
  }
  Scan-IsFirst q (pass {p} {q = q'} h n rest) e =
      let f = Scan-IsFirst q rest e in
      record {
        before = p ∷ f.before;
        job = f.job;
        after = f.after;
        place = ap (◌∷◌ p) f.place;
        passed = (n, f.passed);
        runnable = f.runnable;
        same = f.same;
        before' = q' ∷ f.before';
        place' = ap (◌∷◌ q') f.place';
      }

-- The slots that are free when the search begins.
abbrev pub free_slots_of : Server → ℤ
free_slots_of s = sub_int s.max_slots s.busy_slots

-- What the search changes: nothing but the GPUs of jobs.
pub record IsSearched (s t : Server) : Type 0 where
  pub same_ids : ids t.jobs ≡ ids s.jobs
  pub same_slots : slots_in_use t.jobs ≡ slots_in_use s.jobs
  pub same_finished : t.first_finished ≡ s.first_finished
  pub same_max : t.max_slots ≡ s.max_slots

-- The job chosen is the first of the queue that may run, GPUs aside, and its slots are taken.
pub record IsChosen (s : Server) (id : ℤ) (t : Server) : Type 0 where
  pub searched : IsSearched s t
  pub slots_left : pos 0 <ℤ free_slots_of s
  pub choice : Job
  pub jobid : id ≡ choice.jobid
  pub first : IsFirst s (free_slots_of s) s.jobs t.jobs choice
  pub busy : t.busy_slots ≡ add_int s.busy_slots choice.num_slots

-- Why no job is chosen.
abbrev pub WhyIdle : Machine → Server → Type 0
WhyIdle m s =
    (free_slots_of s ≤ℤ pos 0) ⊎ (m.gpu_list ≡ none) ⊎ All (IsPassed s (free_slots_of s)) s.jobs

pub record IsIdle (m : Machine) (s t : Server) : Type 0 where
  pub searched : IsSearched s t
  pub busy : t.busy_slots ≡ s.busy_slots
  pub why : WhyIdle m s

abbrev pub Next : Machine → Server → Option ℤ × Server → Type 0
Next m s (none, t) = IsIdle m s t
Next m s (some id, t) = IsChosen s id t

-- What the search of the queue gives.
abbrev Searched : Option (List ℤ) → Server → List Job × Option Job → Type 0
Searched gpus s (jobs, o) =
    (ids jobs ≡ ids s.jobs)
    × (slots_in_use jobs ≡ slots_in_use s.jobs)
    × ((o ≡ none) → (gpus ≡ none) ⊎ All (IsPassed s (free_slots_of s)) s.jobs)
    × ((q : Job) → o ≡ some q → IsFirst s (free_slots_of s) s.jobs jobs q)

search_queue-Searched :
    (m : Machine) (gpus : Option (List ℤ)) (s : Server)
    → Ensures (Searched gpus s) (search_queue m gpus s (free_slots_of s))
unfolding search_queue
search_queue-Searched m none s = (refl, refl, λ _. inl refl, λ q x. cc)
search_queue-Searched m (some free) s =
    Ensures-mono (next_run_loop m s (free_slots_of s) free s.jobs)
      (next_run_loop-Scan m s (free_slots_of s) free s.jobs)
      λ (jobs, o) scan.
        (Scan-ids scan, Scan-slots scan, λ e. inr (Scan-none scan e), λ q e. Scan-IsFirst q scan e)

start_job-Next :
    (m : Machine) (s : Server) (jobs : List Job) (o : Option Job)
    → pos 0 <ℤ free_slots_of s
    → Searched m.gpu_list s (jobs, o)
    → Ensures (Next m s) (start_job o (record s { jobs = jobs }))
unfolding start_job
start_job-Next m s jobs none left h = record {
  searched = record { same_ids = h.0; same_slots = h.1; same_finished = refl; same_max = refl };
  busy = refl;
  why = inr (h.2 refl);
}
start_job-Next m s jobs (some q) left h =
    Ensures-step (Next m s)
      (if is_true q.num_gpus
        then broadcast_used_gpus q.num_gpus q.gpu_ids s.used_gpus
        else ok s.used_gpus)
      _
      λ used e. record {
        searched = record {
          same_ids = h.0;
          same_slots = h.1;
          same_finished = refl;
          same_max = refl;
        };
        slots_left = left;
        choice = q;
        jobid = refl;
        first = h.3 q refl;
        busy = refl;
      }

-- Where next_run_job returns, it has chosen the first job of the queue that may run, GPUs aside,
-- and taken its slots; or it has chosen none, because no slot is free, because there is no list of
-- GPUs, or because every job of the queue is passed over.
pub next_run_job-Next : (m : Machine) (s : Server) → Ensures (Next m s) (next_run_job m s)
unfolding next_run_job
next_run_job-Next m s = elim (Bool-cases (leb_ℤ (free_slots_of s) (pos 0))) [
  | inl full ↦ rw full (record {
    searched = record { same_ids = refl; same_slots = refl; same_finished = refl; same_max = refl };
    busy = refl;
    why = inl (ground arith);
  })
  | inr room ↦ rw room (
      Ensures-step (Next m s) (search_queue m m.gpu_list s (free_slots_of s)) _ λ (jobs, o) e.
        start_job-Next m s jobs o (ground arith)
          (Ensures-ok (Searched m.gpu_list s) _ (search_queue-Searched m m.gpu_list s) e))
]
