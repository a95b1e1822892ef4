-- ===== src/Jobs/Finish/Store.antt =====
-- new_finished_job: where an ended job is kept, and how many are kept.
use task_spooler.Base.{
  ◌≡◌, refl, List, [], ◌∷◌, ◌++◌, some, length, length-append, if◌then◌else◌, arith,
}
use task_spooler.Base.Int.{ℤ, pos, ◌≤ℤ◌, leb_ℤ}
use task_spooler.Base.Run.{ok}
use task_spooler.State.{Job}
use task_spooler.Jobs.Find.{last_job}
use task_spooler.Jobs.Finish.{new_finished_job}

last_job-append : (p : Job) (rest : List Job) (j : Job) → last_job (p ∷ rest ++ j ∷ []) ≡ some j
unfolding last_job
last_job-append p [] j = refl
last_job-append p (q ∷ rest) j = last_job-append q rest j

pub last_job-snoc : (old : List Job) (j : Job) → last_job (old ++ j ∷ []) ≡ some j
unfolding last_job
last_job-snoc [] j = refl
last_job-snoc (p ∷ rest) j = last_job-append p rest j

-- The list without its head.
abbrev pub tail {ℓ} : {A : Type ℓ} → List A → List A
tail [] = []
tail (x ∷ xs) = xs

-- With room for two, an ended job is kept at the end, and the oldest one is freed if the list is
-- full.
pub new_finished_job_ok :
    (max : ℤ) (j : Job) (old : List Job)
    → pos 2 ≤ℤ max
    → new_finished_job max j old
      ≡ ok ((if leb_ℤ max (pos (length old)) then tail old else old) ++ j ∷ [])
unfolding new_finished_job
new_finished_job_ok max j [] h = ground arith
new_finished_job_ok max j (p ∷ []) h = ground arith
new_finished_job_ok max j (p ∷ q ∷ rest) h = ground arith

-- Where the new job is kept, a list of finished jobs that is within the limit stays within it.
pub length-new_finished_job :
    (max : ℤ) (j : Job) (old : List Job) {kept : List Job}
    → new_finished_job max j old ≡ ok kept
    → pos (length old) ≤ℤ max
    → pos (length kept) ≤ℤ max
unfolding new_finished_job
length-new_finished_job max j [] e h = ground arith
length-new_finished_job max j (p ∷ []) e h = ground arith
length-new_finished_job max j (p ∷ q ∷ rest) e h = ground (arith, length-append rest (j ∷ []))
