-- ===== src/Jobs/Schedule/Progress.antt =====
-- next_run_job: the queue does not get stuck.
use task_spooler.Base.{
  ◌≡◌, refl, sym, ap, ◌∙◌, subst, ℕ, zero, suc, ◌+◌, ◌-◌, ◌<◌, ◌^◌, ◌&&◌, ◌||◌, true, false, List,
  [], ◌∷◌, Option, some, none, arith, Bool, Bool-cases, inl, inr, All,
}
use task_spooler.Base.Int.{
  ℤ, pos, negsuc, ◌≤ℤ◌, ◌<ℤ◌, leb_ℤ, IsInt, pos_part, neg_part, sub_int, sub_int-zero, add_int,
  ℤ_discrete,
}
use task_spooler.Base.Run.{Run, ok}
use task_spooler.State.{Job, Server}
use task_spooler.Jobs.Find.{is_queued, is_allocating, is_running, findjob, get_job}
use task_spooler.Jobs.Lookup.{findjob-jobid}
use task_spooler.Jobs.Schedule.{
  Machine, claim_gpus, is_pending, deps_ready, try_job, next_run_loop, search_queue, start_job,
  next_run_job,
}

-- A job of the queue that does not run, wants no GPUs and no more slots than there are, and depends on
-- earlier jobs only.
pub record IsPlain (slots : ℤ) (p : Job) : Type 0 where
  pub idle : is_running p.state ≡ false
  pub no_gpus : p.num_gpus ≡ pos 0
  pub fits : p.num_slots ≤ℤ slots
  pub earlier : All (λ id. id <ℤ p.jobid) p.depend_on
  pub int : IsInt p.jobid

abbrev pub is_waiting : Job → Bool
is_waiting p = is_queued p.state || is_allocating p.state

abbrev may_run : Server → ℤ → Job → Bool
may_run s slots p = is_waiting p && (deps_ready s p.depend_on && leb_ℤ p.num_slots slots)

unfoldable any_may_run : Server → ℤ → List Job → Bool
any_may_run s slots [] = false
any_may_run s slots (p ∷ rest) = may_run s slots p || any_may_run s slots rest

try_job-plain :
    (m : Machine) (s : Server) (slots : ℤ) (free : List ℤ) (p : Job)
    → p.num_gpus ≡ pos 0
    → try_job m s slots free p ≡ ok (free, p, may_run s slots p)
unfolding try_job claim_gpus
try_job-plain m s slots free p e = ground arith

-- A job that asks for no GPU is found, and the queue stays as it is.
abbrev Finds : List Job → Run (List Job × Option Job) → Type 0
Finds jobs r = (q : Job) × ((r ≡ ok (jobs, some q)) × (q.num_gpus ≡ pos 0))

next_run_loop-Finds :
    (m : Machine) (s : Server) (slots : ℤ) (free : List ℤ) (jobs : List Job)
    → All (IsPlain slots) jobs
    → any_may_run s slots jobs ≡ true
    → Finds jobs (next_run_loop m s slots free jobs)
unfolding next_run_loop any_may_run
next_run_loop-Finds m s slots free [] h e = cc
next_run_loop-Finds m s slots free (p ∷ rest) (h, hs) e = elim (Bool-cases (may_run s slots p)) [
  | inl go ↦ (p, (rw (try_job-plain m s slots free p h.no_gpus, go) refl, h.no_gpus))
  | inr stay ↦
      let (q, (k, g)) = next_run_loop-Finds m s slots free rest hs (ground arith) in
      (q, (rw (try_job-plain m s slots free p h.no_gpus, stay, k) refl, g))
]

pub findjob-All :
    (P : Job → Type 0) (id : ℤ) (jobs : List Job) (p : Job)
    → All P jobs
    → findjob id jobs ≡ some p
    → P p
unfolding findjob
findjob-All P id [] p h e = cc
findjob-All P id (q ∷ rest) p (h, hs) e = elim (ℤ_discrete q.jobid id) [
  | yes hit ↦ subst P (ground arith) h
  | no miss ↦ findjob-All P id rest p hs (ground arith)
]

findjob-any :
    (s : Server) (slots id : ℤ) (jobs : List Job) (p : Job)
    → findjob id jobs ≡ some p
    → may_run s slots p ≡ true
    → any_may_run s slots jobs ≡ true
unfolding findjob any_may_run
findjob-any s slots id [] p e r = cc
findjob-any s slots id (q ∷ rest) p e r = elim (ℤ_discrete q.jobid id) [
  | yes hit ↦ ground arith
  | no miss ↦ ground (arith, findjob-any s slots id rest p (ground arith) r)
]

-- A dependency that is still to end.
not_ready :
    {Q : ℤ → Type 0} (s : Server) (ids : List ℤ)
    → All Q ids
    → deps_ready s ids ≡ false
    → (id : ℤ) × ((is_pending (get_job id s) ≡ true) × Q id)
unfolding deps_ready
not_ready s [] h e = cc
not_ready s (id ∷ ids) (h, hs) e = elim (Bool-cases (is_pending (get_job id s))) [
  | inl pending ↦ (id, (pending, h))
  | inr over ↦ not_ready s ids hs (ground arith)
]

-- The jobs that have ended are not to end any more.
abbrev pub HasEnded : Job → Type 0
HasEnded p = is_pending (some p) ≡ false

pending_found :
    (s : Server) (id : ℤ) (o p : Option Job)
    → findjob id s.jobs ≡ o
    → findjob id s.first_finished ≡ p
    → All HasEnded s.first_finished
    → is_pending (get_job id s) ≡ true
    → (q : Job) × ((findjob id s.jobs ≡ some q) × (is_pending (some q) ≡ true))
unfolding get_job
pending_found s id (some q) p e f h k = (q, (e, ground arith))
pending_found s id none (some q) e f h k =
    absurd (ground (arith, findjob-All HasEnded id s.first_finished q h f))
pending_found s id none none e f h k = absurd (ground arith)

-- Jobids counted from the least `int`.
abbrev rank : ℤ → ℕ
rank a = pos_part a + 2 ^ 31 - neg_part a

rank_lt : (a b : ℤ) → IsInt a → a <ℤ b → rank a < rank b
rank_lt (pos m) (pos n) h k = omega arith
rank_lt (pos m) (negsuc n) h k = omega arith
rank_lt (negsuc m) (pos n) h k = omega arith
rank_lt (negsuc m) (negsuc n) h k = omega arith

-- Of the waiting jobs, one of those that a job depends on, or the job itself, may run.
waiting-may_run :
    (s : Server) (slots : ℤ)
    → All (IsPlain slots) s.jobs
    → All HasEnded s.first_finished
    → (n : ℕ) (id : ℤ) (p : Job) → findjob id s.jobs ≡ some p
    → is_waiting p ≡ true
    → rank p.jobid < n
    → any_may_run s slots s.jobs ≡ true
waiting-may_run s slots h f zero id p e w r = absurd (omega arith)
waiting-may_run s slots h f (suc n) id p e w r =
    let plain = findjob-All (IsPlain slots) id s.jobs p h e in
    elim (Bool-cases (deps_ready s p.depend_on)) [
      | inl ready ↦ findjob-any s slots id s.jobs p e (ground (arith, plain.fits))
      | inr not_yet ↦
          let (dep, (pending, before)) =
            not_ready {Q = λ d. d <ℤ p.jobid} s p.depend_on plain.earlier not_yet in
          let (q, (k, waits)) = pending_found s dep _ _ refl refl f pending in
          let plain' = findjob-All (IsPlain slots) dep s.jobs q h k in
          let same = findjob-jobid dep s.jobs q k in
          waiting-may_run s slots h f n dep q k (ground (arith, plain'.idle)) (
            omega (
              arith,
              rank_lt q.jobid p.jobid plain'.int (subst (λ d. d <ℤ p.jobid) (sym same) before),
            ))
    ]

-- A server in which nothing runs, and whose waiting jobs are plain.
pub record IsIdleServer (s : Server) : Type 0 where
  pub no_slots_taken : s.busy_slots ≡ pos 0
  pub some_slots : pos 1 ≤ℤ s.max_slots
  pub int : IsInt s.max_slots
  pub plain : All (IsPlain s.max_slots) s.jobs
  pub ended : All HasEnded s.first_finished

abbrev pub Starts : Run (Option ℤ × Server) → Type 0
Starts r = (id : ℤ) × ((t : Server) × (r ≡ ok (some id, t)))

start_job-plain :
    (q : Job) (s : Server)
    → q.num_gpus ≡ pos 0
    → start_job (some q) s
      ≡ ok (some q.jobid, record s { busy_slots = add_int s.busy_slots q.num_slots })
unfolding start_job
start_job-plain q s e = ground arith

-- The server in which the slots of the job are taken.
abbrev pub taken : Job → Server → Server
taken q s = record s { busy_slots = add_int s.busy_slots q.num_slots }

-- A job is chosen, and nothing but busy_slots changes.
abbrev pub Takes : Server → Run (Option ℤ × Server) → Type 0
Takes s r = (q : Job) × (r ≡ ok (some q.jobid, taken q s))

search_queue-Takes :
    (m : Machine) (s : Server) (q : Job)
    → leb_ℤ (sub_int s.max_slots s.busy_slots) (pos 0) ≡ false
    → search_queue m m.gpu_list s (sub_int s.max_slots s.busy_slots) ≡ ok (s.jobs, some q)
    → q.num_gpus ≡ pos 0
    → Takes s (next_run_job m s)
unfolding next_run_job
search_queue-Takes m s q room found e = (q, rw (room, found) (start_job-plain q s e))

pub next_run_job-Takes :
    (m : Machine) (s : Server) (free : List ℤ) (id : ℤ) (p : Job)
    → IsIdleServer s
    → m.gpu_list ≡ some free
    → findjob id s.jobs ≡ some p
    → is_waiting p ≡ true
    → Takes s (next_run_job m s)
unfolding search_queue
next_run_job-Takes m s free id p h g e w =
    let slots : sub_int s.max_slots s.busy_slots ≡ s.max_slots =
      rw h.no_slots_taken (sub_int-zero s.max_slots h.int) in
    let (q, (k, no_gpus)) =
      next_run_loop-Finds m s s.max_slots free s.jobs h.plain (
        waiting-may_run s s.max_slots h.plain h.ended (suc (rank p.jobid)) id p e w
          (omega arith)) in
    search_queue-Takes m s q (rw slots (ground (arith, h.some_slots)))
      (ap (λ l. search_queue m l s (sub_int s.max_slots s.busy_slots)) g
        ∙ ap (λ n. next_run_loop m s n free s.jobs) slots
        ∙ k)
      no_gpus

-- If no slot is taken, at least one slot exists, there is a list of GPUs, no job runs, each job of
-- the queue wants no GPUs and no more slots than there are and depends on earlier jobs only, with
-- jobids that are ints, the finished jobs have ended, and a job waits in the queue, then
-- next_run_job succeeds and chooses a job.
pub next_run_job-Starts :
    (m : Machine) (s : Server) (free : List ℤ) (id : ℤ) (p : Job)
    → IsIdleServer s
    → m.gpu_list ≡ some free
    → findjob id s.jobs ≡ some p
    → is_waiting p ≡ true
    → Starts (next_run_job m s)
next_run_job-Starts m s free id p h g e w =
    let (q, k) = next_run_job-Takes m s free id p h g e w in (q.jobid, (taken q s, k))
