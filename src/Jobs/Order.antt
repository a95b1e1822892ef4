-- ===== src/Jobs/Order.antt =====
-- jobs.c: changes of the order of the queue. `Links` has the same two functions over the `next`
-- pointers of the queue, and shows that they do what the lists here say.
pub mod Links
pub mod Exchange
use task_spooler.Base.{
  Bool, true, false, List, [], ◌∷◌, ◌++◌, Option, none, some, ite, ◌||◌, if◌then◌else◌,
}
use task_spooler.Base.Int.{ℤ, ℤ_discrete, minus_one}
use task_spooler.Base.Run.{Run, ok, exits, fault, ◌>>=◌}
use task_spooler.State.{
  Job, Server, Reply, list_line, urgent_ok, swap_jobs_ok, last_cannot_be_urged, job_cannot_be_urged,
  cannot_be_swapped,
}
use task_spooler.Jobs.Notices.{send_msg}
use Links.{urge, exchange_before, exchange_behind}

-- A list taken apart at one of its items.
pub record Place {ℓ} (A : Type ℓ) : Type ℓ where
  pub before : List A
  pub item : A
  pub after : List A

abbrev pub behind {ℓ} : {A : Type ℓ} → A → Option (Place A) → Option (Place A)
behind p none = none
behind p (some c) = some (record c { before = p ∷ c.before })

-- Where findjob stops.
unfoldable pub place_of : ℤ → List Job → Option (Place Job)
place_of jobid [] = none
place_of jobid (p ∷ rest) =
    ite (ℤ_discrete p.jobid jobid) (some (record { before = []; item = p; after = rest }))
      (behind p (place_of jobid rest))

-- The last job added.
unfoldable pub place_of_last : List Job → Option (Place Job)
place_of_last [] = none
place_of_last (p ∷ []) = some (record { before = []; item = p; after = [] })
place_of_last (p ∷ q ∷ rest) = behind p (place_of_last (q ∷ rest))

abbrev pub is_single {ℓ} : {A : Type ℓ} → List A → Bool
is_single (p ∷ []) = true
is_single _ = false

abbrev pub urge_refused : ℤ → Reply
urge_refused jobid =
    list_line (ite (ℤ_discrete jobid minus_one) last_cannot_be_urged (job_cannot_be_urged jobid))

unfoldable pub urge_place : ℤ → ℤ → Option (Place Job) → Server → Run Server
unfolding send_msg
urge_place socket jobid none s = ok (send_msg socket (urge_refused jobid) s)
urge_place socket jobid (some c) s =
    if is_single s.jobs then ok (send_msg socket (urge_refused jobid) s) else (do
      jobs ← urge c.before c.item c.after
      ok (send_msg socket urgent_ok (record s { jobs = jobs })))

unfoldable pub s_move_urgent : ℤ → ℤ → Server → Run Server
unfolding urge_place place_of place_of_last
s_move_urgent socket jobid s =
    urge_place socket jobid
      (ite (ℤ_discrete jobid minus_one) (place_of_last s.jobs) (place_of jobid s.jobs)) s

-- The queue with a job `p`, between `a` and `b`, and the second job exchanged: the two places are
-- those of the second job in `a` and in `b`.
unfoldable pub swap_rest :
    List Job → Job → List Job → Option (Place Job) → Option (Place Job) → Option (List Job)
swap_rest a p b (some d) o = exchange_before d.before d.item d.after p b
swap_rest a p b none none = none
swap_rest a p b none (some d) = some (exchange_behind a p d.before d.item d.after)

-- None if the job `jobid1`, between `a` and `b`, is the first of the queue.
unfoldable pub swap_at : ℤ → ℤ → List Job → List Job → Job → List Job → Option (List Job)
unfolding place_of swap_rest
swap_at jobid1 jobid2 jobs [] p b = none
swap_at jobid1 jobid2 jobs (f ∷ a) p b =
    ite (ℤ_discrete jobid2 jobid1) (some jobs)
      (swap_rest (f ∷ a) p b (place_of jobid2 (f ∷ a)) (place_of jobid2 b))

unfoldable pub swap_from : ℤ → ℤ → List Job → Option (Place Job) → Option (List Job)
unfolding swap_at
swap_from jobid1 jobid2 jobs none = none
swap_from jobid1 jobid2 jobs (some c) = swap_at jobid1 jobid2 jobs c.before c.item c.after

-- The queue with two jobs exchanged; none if one of them is missing or the first of the queue.
unfoldable pub swap_list : ℤ → ℤ → List Job → Option (List Job)
unfolding swap_from place_of
swap_list jobid1 jobid2 jobs = swap_from jobid1 jobid2 jobs (place_of jobid1 jobs)

unfoldable pub answer_swap : ℤ → ℤ → ℤ → Option (List Job) → Server → Server
unfolding send_msg
answer_swap socket jobid1 jobid2 none s =
    send_msg socket (list_line (cannot_be_swapped jobid1 jobid2)) s
answer_swap socket jobid1 jobid2 (some jobs) s =
    send_msg socket swap_jobs_ok (record s { jobs = jobs })

unfoldable pub s_swap_jobs : ℤ → ℤ → ℤ → Server → Server
unfolding swap_list answer_swap
s_swap_jobs socket jobid1 jobid2 s =
    answer_swap socket jobid1 jobid2 (swap_list jobid1 jobid2 s.jobs) s
