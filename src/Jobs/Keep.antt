-- ===== src/Jobs/Keep.antt =====
-- What the operations of jobs.c keep: the account of the slots, and the jobids.
pub mod Ending
pub mod Ordering
pub mod Answers
pub mod Waiters
pub mod Removal
pub mod Others
pub mod Ended
use task_spooler.Base.{ℕ, ◌+◌, ◌≤◌, ◌≡◌, refl, sym, ◌∙◌, arith, List, [], ◌∷◌, ◌++◌}
use task_spooler.Base.Int.{ℤ}
use task_spooler.State.{Job, Server}
use task_spooler.Jobs.Slots.{Accounted, slots_in_use}
use task_spooler.Jobs.Lookup.{count}
use task_spooler.Jobs.Ids.{ids, copies, IsDistinct, IsBelow}

-- No job is added, and busy_slots stays right if it was.
pub record Keeps (s t : Server) : Type 0 where
  pub accounted : Accounted s → Accounted t
  pub no_more : (id : ℤ) → copies id t ≤ copies id s
  pub counter : t.jobids ≡ s.jobids

pub Keeps-refl : (s : Server) → Keeps s s
Keeps-refl s = record { accounted = λ a. a; no_more = λ id. omega arith; counter = refl }

pub Keeps-trans : {s t u : Server} → Keeps s t → Keeps t u → Keeps s u
Keeps-trans h k = record {
  accounted = λ a. k.accounted (h.accounted a);
  no_more = λ id. omega (arith, h.no_more id, k.no_more id);
  counter = k.counter ∙ h.counter;
}

-- The jobs are those of before, up to what Keeps does not see.
pub record SameJobs (s t : Server) : Type 0 where
  pub busy : t.busy_slots ≡ s.busy_slots
  pub slots : slots_in_use t.jobs ≡ slots_in_use s.jobs
  pub queue_ids : ids t.jobs ≡ ids s.jobs
  pub finished_ids : ids t.first_finished ≡ ids s.first_finished
  pub counter : t.jobids ≡ s.jobids

pub SameJobs-trans : {s t u : Server} → SameJobs s t → SameJobs t u → SameJobs s u
SameJobs-trans h k = ground arith

pub SameJobs-Keeps : {s t : Server} → SameJobs s t → Keeps s t
SameJobs-Keeps h = record {
  accounted = λ a. h.busy ∙ a ∙ sym h.slots;
  no_more = λ id. rw (h.queue_ids, h.finished_ids) (omega arith);
  counter = h.counter;
}

pub Keeps-IsDistinct : {s t : Server} → Keeps s t → IsDistinct s → IsDistinct t
Keeps-IsDistinct k d id = omega (arith, k.no_more id, d id)

pub Keeps-IsBelow : {s t : Server} → Keeps s t → IsBelow s → IsBelow t
Keeps-IsBelow k b id h = rw k.counter (b id (omega (arith, k.no_more id)))

-- What holds between two messages: busy_slots is the sum of the slots of the running jobs, no jobid
-- stands twice, and each was given out by the counter.
abbrev pub IsSound : Server → Type 0
IsSound s = Accounted s × IsDistinct s × IsBelow s

pub Keeps-IsSound : {s t : Server} → Keeps s t → IsSound s → IsSound t
Keeps-IsSound k h = (k.accounted h.0, Keeps-IsDistinct k h.1, Keeps-IsBelow k h.2)
