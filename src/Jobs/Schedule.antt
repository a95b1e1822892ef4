-- ===== src/Jobs/Schedule.antt =====
-- jobs.c: which job runs next.
pub mod Scan
pub mod Choice
pub mod Start
pub mod Claim
pub mod Shuffle
pub mod Progress
use task_spooler.Base.{
  ℕ, zero, suc, ◌+◌, ◌-◌, ◌/◌, Bool, true, false, List, [], ◌∷◌, Option, none, some, length,
  get_elem?, set, not, ◌&&◌, ◌||◌, ltb, if◌then◌else◌,
}
use task_spooler.Base.Int.{ℤ, pos, negsuc, leb_ℤ, ltb_ℤ, add_int, sub_int}
use task_spooler.Base.Run.{Run, ok, exits, fault, ◌>>=◌, or_fault}
use task_spooler.State.{JobState, allocating, queued, running, Job, Server}
use task_spooler.Gpu.{is_in_use, broadcast_used_gpus}
use task_spooler.Jobs.Find.{
  findjob, get_job, update_job, is_queued, is_allocating, is_running, is_holding,
  findjob_holding_client, is_some,
}
use task_spooler.Jobs.Notices.{is_true}

-- What the scheduler asks of the machine: RAND_MAX, the numbers that rand() gives after srand() in
-- the shuffle for a job, and the list of getGpuList.
pub record Machine : Type 0 where
  pub rand_max : ℕ
  pub rand : ℤ → ℕ → ℕ
  pub gpu_list : Option (List ℤ)

-- `t = array[j]; array[j] = array[i]; array[i] = t`.
unfoldable pub exchange : ℕ → ℕ → List ℤ → Run (List ℤ)
exchange i j array = do
  t ← or_fault (get_elem? array j)
  u ← or_fault (get_elem? array i)
  ok (set (set array j u) i t)

-- The loop of shuffle from `i`, with `rounds` left, `n` the array's size.
unfoldable pub shuffle_loop : ℕ → (ℕ → ℕ) → ℕ → ℕ → ℕ → List ℤ → Run (List ℤ)
unfolding exchange
shuffle_loop rand_max rand n zero i array = ok array
shuffle_loop rand_max rand n (suc rounds) i array =
    exchange i (i + rand i / (rand_max / (n - i) + 1)) array
    >>= shuffle_loop rand_max rand n rounds (i + 1)

-- For `n <= 1` the loop has no round.
unfoldable pub shuffle : ℕ → (ℕ → ℕ) → List ℤ → Run (List ℤ)
unfolding shuffle_loop
shuffle rand_max rand array = shuffle_loop rand_max rand (length array) (length array - 1) 0 array

-- The first GPUs of the list, up to `needed`, that no job has claimed.
unfoldable pub pick_gpus : ℕ → List ℤ → List ℤ → Run (List ℤ)
pick_gpus zero free used = ok []
pick_gpus (suc needed) [] used = ok []
pick_gpus (suc needed) (g ∷ free) used = is_in_use g used >>= λ u. elim (is_true u) [
  | true ↦ pick_gpus (suc needed) free used
  | false ↦ pick_gpus needed free used >>= λ rest. ok (g ∷ rest)
]

-- memcpy to the front of an array.
unfoldable pub copy_ints : List ℤ → List ℤ → Run (List ℤ)
copy_ints [] target = ok target
copy_ints (x ∷ source) [] = fault
copy_ints (x ∷ source) (y ∷ target) = copy_ints source target >>= λ rest. ok (x ∷ rest)

-- The first `num_gpus` unclaimed GPUs of the list go to the job; none if there are too few.
unfoldable pub assign_gpus : List ℤ → List ℤ → Job → ℤ → Run (List ℤ × Option Job)
unfolding pick_gpus copy_ints
assign_gpus used free p (negsuc n) = fault
assign_gpus used free p (pos n) = do
  gpu_ids ← pick_gpus n free used
  if ltb (length gpu_ids) n
      then ok (free, none)
      else do ids ← copy_ints gpu_ids p.gpu_ids; ok (free, some (record p { gpu_ids = ids }))

-- For a job that waits for free GPUs: the shuffled list, and the job with its gpu_ids, or none.
unfoldable pub claim_gpus : Machine → List ℤ → List ℤ → Job → Run (List ℤ × Option Job)
unfolding shuffle assign_gpus
claim_gpus m used free p =
    if is_true p.num_gpus && is_true p.wait_free_gpus
    then (if ltb_ℤ (pos (length free)) p.num_gpus then ok (free, none) else (do
      free' ← shuffle m.rand_max (m.rand p.jobid) free
      assign_gpus used free' p p.num_gpus))
    else ok (free, some p)

-- Whether a job that another depends on is still to end.
abbrev pub is_pending : Option Job → Bool
is_pending none = false
is_pending (some p) = is_queued p.state || is_running p.state || is_allocating p.state

unfoldable pub deps_ready : Server → List ℤ → Bool
deps_ready s [] = true
deps_ready s (jobid ∷ rest) = not (is_pending (get_job jobid s)) && deps_ready s rest

-- One round of the walk: the list of free GPUs, the job as it is left, and whether it is to run.
unfoldable pub try_job : Machine → Server → ℤ → List ℤ → Job → Run (List ℤ × Job × Bool)
unfolding claim_gpus deps_ready
try_job m s free_slots free p =
    if is_queued p.state || is_allocating p.state
    then (claim_gpus m s.used_gpus free p >>= λ (free', claimed). elim claimed [
      | none ↦ ok (free', p, false)
      | some p' ↦ ok (free', p', deps_ready s p'.depend_on && leb_ℤ p'.num_slots free_slots)
    ])
    else ok (free, p, false)

unfoldable pub next_run_loop :
    Machine → Server → ℤ → List ℤ → List Job → Run (List Job × Option Job)
unfolding try_job
next_run_loop m s free_slots free [] = ok ([], none)
next_run_loop m s free_slots free (p ∷ rest) = try_job m s free_slots free p >>= λ (free', p', go).
    elim go [
      | true ↦ ok (p' ∷ rest, some p')
      | false ↦ next_run_loop m s free_slots free' rest >>= λ (rest', found). ok (p' ∷ rest', found)
    ]

-- Without a list of GPUs every job is passed over.
unfoldable pub search_queue : Machine → Option (List ℤ) → Server → ℤ → Run (List Job × Option Job)
unfolding next_run_loop
search_queue m none s free_slots = ok (s.jobs, none)
search_queue m (some free) s free_slots = next_run_loop m s free_slots free s.jobs

-- The slots and GPUs of the job that is to run.
unfoldable pub start_job : Option Job → Server → Run (Option ℤ × Server)
unfolding broadcast_used_gpus
start_job none s = ok (none, s)
start_job (some p) s = do
  used ←
      if is_true p.num_gpus
      then broadcast_used_gpus p.num_gpus p.gpu_ids s.used_gpus
      else ok s.used_gpus
  ok (some p.jobid, record s { busy_slots = add_int s.busy_slots p.num_slots; used_gpus = used })

-- `none` stands for -1.
unfoldable pub next_run_job : Machine → Server → Run (Option ℤ × Server)
unfolding search_queue start_job
next_run_job m s =
    let free_slots = sub_int s.max_slots s.busy_slots in
    if leb_ℤ free_slots (pos 0) then ok (none, s) else do
      (jobs, found) ← search_queue m m.gpu_list s free_slots
      start_job found (record s { jobs = jobs })

abbrev pub set_state : JobState → Job → Job
set_state st p = record p { state = st }

unfoldable pub s_mark_job_running : ℤ → Server → Run Server
s_mark_job_running jobid s =
    if is_some (findjob jobid s.jobs)
    then ok (record s { jobs = update_job jobid (set_state running) s.jobs })
    else exits

abbrev pub wake_state : Job → JobState
wake_state p = if is_true p.num_gpus then allocating else queued

-- The write through the pointer that findjob_holding_client returns.
unfoldable pub wake_first : List Job → List Job
wake_first [] = []
wake_first (p ∷ rest) =
    if is_holding p.state then set_state (wake_state p) p ∷ rest else p ∷ wake_first rest

-- `none` stands for -1.
unfoldable pub wake_hold_client : Server → Option (ℤ × Server)
unfolding wake_first
wake_hold_client s = elim (findjob_holding_client s.jobs) [
  | none ↦ none
  | some p ↦ some (p.jobid, record s { jobs = wake_first s.jobs })
]
