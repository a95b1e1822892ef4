-- ===== src/Jobs/Find.antt =====
-- jobs.c: the searches through the two lists of jobs, and the writes through the pointer that a
-- search returns. A job is named by its list and its jobid: the first one with that jobid.
use task_spooler.Base.{
  ℕ, suc, Bool, true, false, List, [], ◌∷◌, Option, none, some, ite, if◌then◌else◌,
}
use task_spooler.Base.Int.{ℤ, ℤ_discrete, ltb_ℤ}
use task_spooler.State.{
  JobState, queued, allocating, running, finished, skipped, holding_client, Job, Server,
}

-- The tests on `p->state`.
abbrev pub is_queued : JobState → Bool
is_queued queued = true
is_queued _ = false

abbrev pub is_allocating : JobState → Bool
is_allocating allocating = true
is_allocating _ = false

abbrev pub is_running : JobState → Bool
is_running running = true
is_running _ = false

abbrev pub is_finished : JobState → Bool
is_finished finished = true
is_finished _ = false

abbrev pub is_skipped : JobState → Bool
is_skipped skipped = true
is_skipped _ = false

abbrev pub is_holding : JobState → Bool
is_holding holding_client = true
is_holding _ = false

-- findjob and find_finished_job, each over its list.
unfoldable pub findjob : ℤ → List Job → Option Job
findjob jobid [] = none
findjob jobid (p ∷ rest) = ite (ℤ_discrete p.jobid jobid) (some p) (findjob jobid rest)

-- A write through the pointer that findjob returns.
unfoldable pub update_job : ℤ → (Job → Job) → List Job → List Job
update_job jobid f [] = []
update_job jobid f (p ∷ rest) =
    ite (ℤ_discrete p.jobid jobid) (f p ∷ rest) (p ∷ update_job jobid f rest)

-- The list without the job that findjob returns.
unfoldable pub unlink : ℤ → List Job → List Job
unlink jobid [] = []
unlink jobid (p ∷ rest) = ite (ℤ_discrete p.jobid jobid) rest (p ∷ unlink jobid rest)

abbrev pub is_some {ℓ} : {A : Type ℓ} → Option A → Bool
is_some none = false
is_some (some a) = true

abbrev pub or_else {ℓ} : {A : Type ℓ} → Option A → Option A → Option A
or_else none o = o
or_else (some a) o = some a

unfoldable pub get_job : ℤ → Server → Option Job
get_job jobid s = or_else (findjob jobid s.jobs) (findjob jobid s.first_finished)

-- A write through the pointer that get_job returns.
unfoldable pub update_any : ℤ → (Job → Job) → Server → Server
update_any jobid f s =
    if is_some (findjob jobid s.jobs)
    then record s { jobs = update_job jobid f s.jobs }
    else record s { first_finished = update_job jobid f s.first_finished }

unfoldable pub findjob_holding_client : List Job → Option Job
findjob_holding_client [] = none
findjob_holding_client (p ∷ rest) =
    if is_holding p.state then some p else findjob_holding_client rest

unfoldable pub count_not_finished_jobs : List Job → ℕ
count_not_finished_jobs [] = 0
count_not_finished_jobs (p ∷ rest) = suc (count_not_finished_jobs rest)

-- The walk `while (p->next != 0) p = p->next`.
unfoldable pub last_job : List Job → Option Job
last_job [] = none
last_job (p ∷ []) = some p
last_job (p ∷ q ∷ rest) = last_job (q ∷ rest)

unfoldable pub find_last_jobid_in_queue : ℤ → ℤ → List Job → ℤ
find_last_jobid_in_queue neglect last_jobid [] = last_jobid
find_last_jobid_in_queue neglect last_jobid (p ∷ rest) =
    find_last_jobid_in_queue neglect
      (ite (ℤ_discrete p.jobid neglect) last_jobid
        (if ltb_ℤ last_jobid p.jobid then p.jobid else last_jobid))
      rest

unfoldable pub find_last_stored_jobid_finished : ℤ → List Job → ℤ
find_last_stored_jobid_finished last_jobid [] = last_jobid
find_last_stored_jobid_finished last_jobid (p ∷ rest) =
    find_last_stored_jobid_finished (if ltb_ℤ last_jobid p.jobid then p.jobid else last_jobid) rest
