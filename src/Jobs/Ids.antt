-- ===== src/Jobs/Ids.antt =====
-- The jobids of a list of jobs, and what their being distinct gives a search.
use task_spooler.Base.{ℕ, ◌+◌, ◌≤◌, ◌<◌, ◌≡◌, refl, List, [], ◌∷◌, ◌++◌, some, none, arith, ite}
use task_spooler.Base.Int.{ℤ, ℤ_discrete, pos, ◌≤ℤ◌, ◌<ℤ◌}
use task_spooler.State.{Job, Server}
use task_spooler.Jobs.Find.{findjob, update_job, unlink}
use task_spooler.Jobs.Lookup.{count, KeepsId}

abbrev pub ids : List Job → List ℤ
ids [] = []
ids (p ∷ rest) = p.jobid ∷ ids rest

-- No two jobs of the server share a jobid.
abbrev pub IsDistinct : Server → Type 0
IsDistinct s = (id : ℤ) → count id (ids s.jobs) + count id (ids s.first_finished) ≤ 1

-- How many of the server's jobs have the jobid.
abbrev pub copies : ℤ → Server → ℕ
copies id s = count id (ids s.jobs) + count id (ids s.first_finished)

-- Each jobid in use was given out, by a counter that has not wrapped.
abbrev pub IsBelow : Server → Type 0
IsBelow s = (id : ℤ) → 0 < copies id s → (pos 0 ≤ℤ id) × (id <ℤ s.jobids)

pub ids-append : (xs ys : List Job) → ids (xs ++ ys) ≡ ids xs ++ ids ys
ids-append [] ys = refl
ids-append (x ∷ xs) ys = rw (ids-append xs ys)

pub count-append : (id : ℤ) (xs ys : List ℤ) → count id (xs ++ ys) ≡ count id xs + count id ys
unfolding count
count-append id [] ys = omega arith
count-append id (x ∷ xs) ys = ground (arith, count-append id xs ys)

pub ids-update_job :
    (jobid : ℤ) (f : Job → Job)
    → KeepsId f
    → (jobs : List Job) → ids (update_job jobid f jobs) ≡ ids jobs
unfolding update_job
ids-update_job jobid f keep [] = refl
ids-update_job jobid f keep (p ∷ rest) = ground (arith, keep p, ids-update_job jobid f keep rest)

-- A search finds nothing exactly when the jobid does not stand in the list.
pub findjob-none : (id : ℤ) (jobs : List Job) → count id (ids jobs) ≡ 0 → findjob id jobs ≡ none
unfolding count findjob
findjob-none id [] e = refl
findjob-none id (p ∷ rest) e = ground (arith, findjob-none id rest)

pub count-findjob : (id : ℤ) (jobs : List Job) → findjob id jobs ≡ none → count id (ids jobs) ≡ 0
unfolding count findjob
count-findjob id [] e = refl
count-findjob id (p ∷ rest) e = ground (arith, count-findjob id rest)

pub findjob-pos :
    (id : ℤ) (jobs : List Job) (p : Job) → findjob id jobs ≡ some p → 0 < count id (ids jobs)
unfolding count findjob
findjob-pos id [] p e = cc
findjob-pos id (q ∷ rest) p e = ground (arith, findjob-pos id rest p)

-- The job in the middle is the one that a search for its jobid finds.
pub findjob-middle :
    (before : List Job) (p : Job) (after : List Job)
    → count p.jobid (ids (before ++ p ∷ after)) ≤ 1
    → findjob p.jobid (before ++ p ∷ after) ≡ some p
unfolding count findjob
findjob-middle [] p after h = ground arith
findjob-middle (q ∷ before) p after h =
    ground (arith, findjob-middle before p after, count-middle p.jobid before p after refl)
  where
    count-middle :
        (id : ℤ) (before : List Job) (p : Job) (after : List Job)
        → p.jobid ≡ id
        → 0 < count id (ids (before ++ p ∷ after))
    count-middle id [] p after e = ground arith
    count-middle id (q ∷ before) p after e = ground (arith, count-middle id before p after e)

pub count-unlink :
    (id jobid : ℤ) (jobs : List Job) (p : Job)
    → findjob jobid jobs ≡ some p
    → count id (ids jobs) ≡ ite (ℤ_discrete jobid id) 1 0 + count id (ids (unlink jobid jobs))
unfolding count unlink findjob
count-unlink id jobid [] p e = cc
count-unlink id jobid (q ∷ rest) p e = elim (ℤ_discrete q.jobid jobid) [
  | yes hit ↦ ground arith
  | no miss ↦ ground (arith, count-unlink id jobid rest p)
]
