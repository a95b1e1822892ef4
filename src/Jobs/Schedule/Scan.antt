-- ===== src/Jobs/Schedule/Scan.antt =====
-- The walk of next_run_job through the queue, as a relation between the queue before it, the queue
-- after it and the job found.
use task_spooler.Base.{
  ◌≡◌, refl, ap, ◌&&◌, ◌||◌, true, false, List, [], ◌∷◌, Option, some, none, ltb, length, arith,
  Bool, Bool-cases, inl, inr, All,
}
use task_spooler.Base.Int.{ℤ, pos, ◌≤ℤ◌, leb_ℤ, ltb_ℤ, negsuc}
use task_spooler.Base.Run.{ok, Ensures, Ensures-step, Ensures-ok, ◌>>=◌}
use task_spooler.State.{Job, Server}
use task_spooler.Jobs.Find.{is_queued, is_allocating, get_job}
use task_spooler.Jobs.Notices.{is_true}
use task_spooler.Jobs.Schedule.{
  Machine, claim_gpus, is_pending, deps_ready, try_job, next_run_loop, shuffle, assign_gpus,
  pick_gpus, copy_ints,
}

-- The same job, but for its GPUs.
abbrev pub SameBarGpus : Job → Job → Type 0
SameBarGpus p q = q ≡ record p { gpu_ids = q.gpu_ids }

-- A job that may run now: it waits in the queue, none of the jobs that it depends on is still to end,
-- and its slots are free.
pub record IsRunnable (s : Server) (free_slots : ℤ) (p : Job) : Type 0 where
  pub waiting : (is_queued p.state || is_allocating p.state) ≡ true
  pub ready : All (λ id. is_pending (get_job id s) ≡ false) p.depend_on
  pub fits : p.num_slots ≤ℤ free_slots

-- The job asks for no GPU that must be free first.
abbrev pub WaitsForNoGpu : Job → Type 0
WaitsForNoGpu p = (is_true p.num_gpus && is_true p.wait_free_gpus) ≡ false

abbrev pub IsPassed : Server → ℤ → Job → Type 0
IsPassed s free_slots p = WaitsForNoGpu p → ¬ IsRunnable s free_slots p

pub data Scan (s : Server) (free_slots : ℤ) : List Job → List Job → Option Job → Type 0 where
  end : Scan s free_slots [] [] none
  found :
      {p q : Job} {rest : List Job}
      → SameBarGpus p q
      → IsRunnable s free_slots p
      → Scan s free_slots (p ∷ rest) (q ∷ rest) (some q)
  pass :
      {p q : Job} {rest rest' : List Job} {o : Option Job}
      → SameBarGpus p q
      → IsPassed s free_slots p
      → Scan s free_slots rest rest' o
      → Scan s free_slots (p ∷ rest) (q ∷ rest') o

deps_ready-All :
    (s : Server) (ids : List ℤ)
    → deps_ready s ids ≡ true
    → All (λ id. is_pending (get_job id s) ≡ false) ids
unfolding deps_ready
deps_ready-All s [] e = tt
deps_ready-All s (id ∷ ids) e = elim (Bool-cases (is_pending (get_job id s))) [
  | inl pending ↦ ground arith
  | inr over ↦ (over, deps_ready-All s ids (ground arith))
]

All-deps_ready :
    (s : Server) (ids : List ℤ)
    → All (λ id. is_pending (get_job id s) ≡ false) ids
    → deps_ready s ids ≡ true
unfolding deps_ready
All-deps_ready s [] h = refl
All-deps_ready s (id ∷ ids) h = rw h.0 (All-deps_ready s ids h.1)

-- What a claim leaves of the job.
abbrev ClaimPost : Job → List ℤ × Option Job → Type 0
ClaimPost p (free, none) = ¬ WaitsForNoGpu p
ClaimPost p (free, some q) = SameBarGpus p q

assign_gpus-ClaimPost :
    (used free : List ℤ) (p : Job) (num : ℤ)
    → ¬ WaitsForNoGpu p
    → Ensures (ClaimPost p) (assign_gpus used free p num)
unfolding assign_gpus
assign_gpus-ClaimPost used free p (negsuc n) w = tt
assign_gpus-ClaimPost used free p (pos n) w =
    Ensures-step (ClaimPost p) (pick_gpus n free used) _ λ gpu_ids picked.
      elim (Bool-cases (ltb (length gpu_ids) n)) [
        | inl few ↦ rw few w
        | inr enough ↦
            rw enough
              (Ensures-step (ClaimPost p) (copy_ints gpu_ids p.gpu_ids) _ λ ids copied. refl)
      ]

claim_gpus-ClaimPost :
    (m : Machine) (used free : List ℤ) (p : Job) → Ensures (ClaimPost p) (claim_gpus m used free p)
unfolding claim_gpus
claim_gpus-ClaimPost m used free p =
    elim (Bool-cases (is_true p.num_gpus && is_true p.wait_free_gpus)) [
      | inl wants ↦
          let waits : ¬ WaitsForNoGpu p = λ e. cc in
          rw wants (elim (Bool-cases (ltb_ℤ (pos (length free)) p.num_gpus)) [
            | inl few ↦ rw few waits
            | inr enough ↦ rw enough (
                Ensures-step (ClaimPost p) (shuffle m.rand_max (m.rand p.jobid) free) _
                  λ free' e. assign_gpus-ClaimPost used free' p p.num_gpus waits)
          ])
      | inr plain ↦ rw plain refl
    ]

abbrev TryPost : Server → ℤ → Job → List ℤ × Job × Bool → Type 0
TryPost s free_slots p (free, q, true) = SameBarGpus p q × IsRunnable s free_slots p
TryPost s free_slots p (free, q, false) = SameBarGpus p q × IsPassed s free_slots p

try_job-claimed :
    (s : Server) (free_slots : ℤ) (p : Job) (free : List ℤ) (claimed : Option Job)
    → (is_queued p.state || is_allocating p.state) ≡ true
    → ClaimPost p (free, claimed)
    → Ensures (TryPost s free_slots p) (elim claimed [
      | none ↦ ok (free, p, false)
      | some q ↦ ok (free, q, deps_ready s q.depend_on && leb_ℤ q.num_slots free_slots)
    ])
try_job-claimed s free_slots p free none w h = (refl, λ n r. h n)
try_job-claimed s free_slots p free (some q) w h =
    let deps : q.depend_on ≡ p.depend_on = ap (λ (j : Job). j.depend_on) h in
    let slots : q.num_slots ≡ p.num_slots = ap (λ (j : Job). j.num_slots) h in
    elim (Bool-cases (deps_ready s q.depend_on && leb_ℤ q.num_slots free_slots)) [
      | inl go ↦ rw go (
        h,
        record {
          waiting = w;
          ready = deps_ready-All s p.depend_on (rw (← deps) (ground arith));
          fits = ground arith;
        },
      )
      | inr stay ↦ rw stay (h, λ n r. ground (arith, All-deps_ready s p.depend_on r.ready, r.fits))
    ]

try_job-TryPost :
    (m : Machine) (s : Server) (free_slots : ℤ) (free : List ℤ) (p : Job)
    → Ensures (TryPost s free_slots p) (try_job m s free_slots free p)
unfolding try_job
try_job-TryPost m s free_slots free p =
    elim (Bool-cases (is_queued p.state || is_allocating p.state)) [
      | inl waits ↦ rw waits (
          Ensures-step (TryPost s free_slots p) (claim_gpus m s.used_gpus free p) _ λ c e.
            try_job-claimed s free_slots p c.0 c.1 waits
              (Ensures-ok (ClaimPost p) _ (claim_gpus-ClaimPost m s.used_gpus free p) e))
      | inr other ↦ rw other (refl, λ n r. ground (arith, r.waiting))
    ]

pub next_run_loop-Scan :
    (m : Machine) (s : Server) (free_slots : ℤ) (free : List ℤ) (jobs : List Job)
    → Ensures
        (λ (jobs', o). Scan s free_slots jobs jobs' o)
        (next_run_loop m s free_slots free jobs)
unfolding next_run_loop
next_run_loop-Scan m s free_slots free [] = end
next_run_loop-Scan m s free_slots free (p ∷ rest) =
    Ensures-step (λ (jobs', o). Scan s free_slots (p ∷ rest) jobs' o)
      (try_job m s free_slots free p) _
      λ (free', q, go) e.
        round free' q go (next_run_loop-Scan m s free_slots free' rest)
          (Ensures-ok (TryPost s free_slots p) _ (try_job-TryPost m s free_slots free p) e)
  where
    round :
        (free' : List ℤ) (q : Job) (go : Bool)
        → Ensures
            (λ (jobs', o). Scan s free_slots rest jobs' o)
            (next_run_loop m s free_slots free' rest)
        → TryPost s free_slots p (free', q, go)
        → Ensures
            (λ (jobs', o). Scan s free_slots (p ∷ rest) jobs' o)
            (elim go [
              | true ↦ ok (q ∷ rest, some q)
              | false ↦ next_run_loop m s free_slots free' rest >>= λ (rest', o). ok (q ∷ rest', o)
            ])
    round free' q true ih (h, r) = found h r
    round free' q false ih (h, r) =
        Ensures-step (λ (jobs', o). Scan s free_slots (p ∷ rest) jobs' o)
          (next_run_loop m s free_slots free' rest) _
          λ (rest', o) e.
            pass h r (Ensures-ok (λ (jobs', o). Scan s free_slots rest jobs' o) _ ih e)
