-- ===== src/Jobs/Lookup.antt =====
-- What the searches of jobs.c find after a write and after a removal.
use mathlib.Core.Option
use task_spooler.Base.{
  ℕ, zero, suc, ◌≡◌, ◌≢◌, refl, sym, ◌∙◌, List, [], ◌∷◌, some, ite, if◌then◌else◌, arith,
}
use task_spooler.Base.Int.{ℤ, ℤ_discrete}
use task_spooler.State.{Job, Server}
use task_spooler.Jobs.Find.{findjob, update_job, unlink, get_job, update_any, is_some}
use task_spooler.Jobs.Notices.{add_errorlevel, notify_loop}

-- A write that keeps the jobid.
abbrev pub KeepsId : (Job → Job) → Type 0
KeepsId f = (p : Job) → (f p).jobid ≡ p.jobid

pub findjob-update_self :
    (jobid : ℤ) (f : Job → Job)
    → KeepsId f
    → (jobs : List Job)
    → findjob jobid (update_job jobid f jobs) ≡ Option.map f (findjob jobid jobs)
unfolding findjob update_job
findjob-update_self jobid f keep [] = refl
findjob-update_self jobid f keep (p ∷ rest) =
    ground (arith, keep p, findjob-update_self jobid f keep rest)

pub findjob-update_other :
    (id jobid : ℤ) (f : Job → Job)
    → KeepsId f
    → id ≢ jobid
    → (jobs : List Job) → findjob id (update_job jobid f jobs) ≡ findjob id jobs
unfolding findjob update_job
findjob-update_other id jobid f keep ne [] = refl
findjob-update_other id jobid f keep ne (p ∷ rest) =
    ground (arith, keep p, findjob-update_other id jobid f keep ne rest)

pub findjob-unlink_other :
    (id jobid : ℤ)
    → id ≢ jobid
    → (jobs : List Job) → findjob id (unlink jobid jobs) ≡ findjob id jobs
unfolding findjob unlink
findjob-unlink_other id jobid ne [] = refl
findjob-unlink_other id jobid ne (p ∷ rest) = ground (arith, findjob-unlink_other id jobid ne rest)

-- The job found has the jobid looked for.
pub findjob-jobid :
    (jobid : ℤ) (jobs : List Job) (p : Job) → findjob jobid jobs ≡ some p → p.jobid ≡ jobid
unfolding findjob
findjob-jobid jobid [] p e = cc
findjob-jobid jobid (q ∷ rest) p e = elim (ℤ_discrete q.jobid jobid) [
  | yes hit ↦ ground arith
  | no miss ↦ findjob-jobid jobid rest p (ground arith)
]

-- How often a jobid stands in a list.
unfoldable pub count : ℤ → List ℤ → ℕ
count id [] = 0
count id (x ∷ xs) = ite (ℤ_discrete x id) (suc (count id xs)) (count id xs)

-- A job that was told of the error level `n` times.
unfoldable pub told : ℕ → ℤ → Job → Job
told zero errorlevel p = p
told (suc n) errorlevel p = told n errorlevel (add_errorlevel errorlevel p)

findjob-told_step :
    (id jobid errorlevel : ℤ) (s : Server)
    → findjob id
        (if is_some (get_job jobid s)
          then update_any jobid (add_errorlevel errorlevel) s
          else s).jobs
      ≡ ite
          (ℤ_discrete jobid id)
          (Option.map (add_errorlevel errorlevel) (findjob id s.jobs))
          (findjob id s.jobs)
unfolding get_job update_any
findjob-told_step id jobid errorlevel s = elim (ℤ_discrete jobid id) [
  | yes hit ↦
      ground (arith, findjob-update_self jobid (add_errorlevel errorlevel) (λ p. refl) s.jobs)
  | no miss ↦ ground (
    arith,
    findjob-update_other id jobid (add_errorlevel errorlevel) (λ p. refl) (λ e. miss (sym e))
        s.jobs,
  )
]

-- After the loop of notify_errorlevel each job of the queue has been told the error level as often
-- as its jobid is listed.
pub findjob-notify_loop :
    (id errorlevel : ℤ) (ids : List ℤ) (s : Server)
    → findjob id (notify_loop errorlevel ids s).jobs
      ≡ Option.map (told (count id ids) errorlevel) (findjob id s.jobs)
unfolding notify_loop count told
findjob-notify_loop id errorlevel [] s = ground arith
findjob-notify_loop id errorlevel (jobid ∷ ids) s =
    findjob-notify_loop id errorlevel ids _
    ∙ ground (arith, findjob-told_step id jobid errorlevel s)
