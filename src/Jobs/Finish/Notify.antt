-- ===== src/Jobs/Finish/Notify.antt =====
-- notify_errorlevel: what it changes and what it leaves.
use task_spooler.Base.{◌≡◌, refl, ◌∙◌, List, [], ◌∷◌, length, if◌then◌else◌, arith}
use task_spooler.Base.Int.{ℤ}
use task_spooler.State.{Job, Server}
use task_spooler.Jobs.Find.{get_job, update_any, update_job, is_some}
use task_spooler.Jobs.Notices.{add_errorlevel, notify_loop}
use task_spooler.Jobs.Slots.{slots_in_use, slots_in_use-update_keep}

-- The globals that two states share when only jobs differ.
pub record SameGlobals (s t : Server) : Type 0 where
  pub jobids : t.jobids ≡ s.jobids
  pub last_errorlevel : t.last_errorlevel ≡ s.last_errorlevel
  pub last_finished_jobid : t.last_finished_jobid ≡ s.last_finished_jobid
  pub notifies : t.notifies ≡ s.notifies
  pub busy_slots : t.busy_slots ≡ s.busy_slots
  pub max_slots : t.max_slots ≡ s.max_slots
  pub max_jobs : t.max_jobs ≡ s.max_jobs
  pub env : t.env ≡ s.env
  pub used_gpus : t.used_gpus ≡ s.used_gpus
  pub conns : t.conns ≡ s.conns
  pub logdir : t.logdir ≡ s.logdir
  pub free_percentage : t.free_percentage ≡ s.free_percentage
  pub sent : t.sent ≡ s.sent

pub SameGlobals-trans : {s t u : Server} → SameGlobals s t → SameGlobals t u → SameGlobals s u
SameGlobals-trans h k = ground arith

length-update_job :
    (jobid : ℤ) (f : Job → Job) (jobs : List Job) → length (update_job jobid f jobs) ≡ length jobs
unfolding update_job
length-update_job jobid f [] = refl
length-update_job jobid f (p ∷ rest) = ground (arith, length-update_job jobid f rest)

notify_step-SameGlobals :
    (errorlevel jobid : ℤ) (s : Server)
    → SameGlobals s
        (if is_some (get_job jobid s) then update_any jobid (add_errorlevel errorlevel) s else s)
unfolding update_any
notify_step-SameGlobals errorlevel jobid s = ground arith

pub notify_loop-SameGlobals :
    (errorlevel : ℤ) (ids : List ℤ) (s : Server) → SameGlobals s (notify_loop errorlevel ids s)
unfolding notify_loop
notify_loop-SameGlobals errorlevel [] s = ground arith
notify_loop-SameGlobals errorlevel (jobid ∷ ids) s =
    SameGlobals-trans (notify_step-SameGlobals errorlevel jobid s)
      (notify_loop-SameGlobals errorlevel ids _)

notify_step-slots :
    (errorlevel jobid : ℤ) (s : Server)
    → slots_in_use
        (if is_some (get_job jobid s)
          then update_any jobid (add_errorlevel errorlevel) s
          else s).jobs
      ≡ slots_in_use s.jobs
unfolding update_any
notify_step-slots errorlevel jobid s =
    ground
      (arith, slots_in_use-update_keep jobid (add_errorlevel errorlevel) (λ p. (refl, refl)) s.jobs)

pub slots_in_use-notify_loop :
    (errorlevel : ℤ) (ids : List ℤ) (s : Server)
    → slots_in_use (notify_loop errorlevel ids s).jobs ≡ slots_in_use s.jobs
unfolding notify_loop
slots_in_use-notify_loop errorlevel [] s = refl
slots_in_use-notify_loop errorlevel (jobid ∷ ids) s =
    slots_in_use-notify_loop errorlevel ids _ ∙ notify_step-slots errorlevel jobid s

notify_step-finished :
    (errorlevel jobid : ℤ) (s : Server)
    → length
        (if is_some (get_job jobid s)
          then update_any jobid (add_errorlevel errorlevel) s
          else s).first_finished
      ≡ length s.first_finished
unfolding update_any
notify_step-finished errorlevel jobid s =
    ground (arith, length-update_job jobid (add_errorlevel errorlevel) s.first_finished)

pub length-notify_loop :
    (errorlevel : ℤ) (ids : List ℤ) (s : Server)
    → length (notify_loop errorlevel ids s).first_finished ≡ length s.first_finished
unfolding notify_loop
length-notify_loop errorlevel [] s = refl
length-notify_loop errorlevel (jobid ∷ ids) s =
    length-notify_loop errorlevel ids _ ∙ notify_step-finished errorlevel jobid s
