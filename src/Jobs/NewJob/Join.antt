-- ===== src/Jobs/NewJob/Join.antt =====
-- s_newjob: the new job's place and state, and the invariants that it keeps.
use task_spooler.Base.{
  ◌-◌, ℕ, ◌+◌, ◌^◌, ◌≡◌, refl, sym, ◌∙◌, false, List, [], ◌∷◌, ◌++◌, none, ite, arith,
}
use task_spooler.Base.Int.{add_int-one, pos_part, ℤ, pos, ℤ_discrete, ◌≤ℤ◌, ◌<ℤ◌, add_int}
use task_spooler.Base.Run.{Ensures, Ensures-step, Ensures-ok, Ensures-mono}
use task_spooler.State.{Job, Server}
use task_spooler.Jobs.Find.{count_not_finished_jobs, is_running}
use task_spooler.Jobs.Slots.{Accounted, slots_in_use}
use task_spooler.Jobs.Lookup.{count}
use task_spooler.Jobs.Keep.{IsSound}
use task_spooler.Jobs.Ids.{ids, ids-append, count-append, copies, IsDistinct, IsBelow}
use task_spooler.Jobs.NewJob.Depend.{SameQueue, depend_loop-KeepsQueue}
use task_spooler.Jobs.NewJob.{NewJobMsg, Deps, depend_loop, new_state, new_gpu_ids, s_newjob}

slots_in_use-snoc :
    (jobs : List Job) (p : Job)
    → is_running p.state ≡ false
    → slots_in_use (jobs ++ p ∷ []) ≡ slots_in_use jobs
unfolding slots_in_use
slots_in_use-snoc [] p idle = ground arith
slots_in_use-snoc (q ∷ jobs) p idle = ground (arith, slots_in_use-snoc jobs p idle)

pub copies-snoc :
    (id : ℤ) (jobs : List Job) (p : Job)
    → count id (ids (jobs ++ p ∷ [])) ≡ count id (ids jobs) + ite (ℤ_discrete p.jobid id) 1 0
unfolding count
copies-snoc id jobs p =
    rw (ids-append jobs (p ∷ []), count-append id (ids jobs) (p.jobid ∷ [])) (ground arith)

new_state_idle : (gpus max_jobs : ℤ) (n : ℕ) → is_running (new_state gpus max_jobs n) ≡ false
new_state_idle gpus max_jobs n = ground arith

-- The server with one more job at the end of the queue.
pub record IsJoined (m : NewJobMsg) (s : Server) (id : ℤ) (t : Server) : Type 0 where
  pub server : Server
  pub job : Job
  pub queue : SameQueue s server
  pub joined :
      t ≡ record server { jobs = server.jobs ++ job ∷ []; jobids = add_int s.jobids (pos 1) }
  pub given : id ≡ s.jobids
  pub jobid : job.jobid ≡ s.jobids
  pub state : job.state ≡ new_state m.gpus s.max_jobs (count_not_finished_jobs s.jobs + 1)
  pub command : job.command ≡ m.command
  pub slots : job.num_slots ≡ m.num_slots
  pub kept : job.should_keep_finished ≡ m.should_keep_finished
  pub tells_none : job.notify_errorlevel_to ≡ []
  pub no_output : job.output_filename ≡ none

pub s_newjob-IsJoined :
    (raw : Job) (m : NewJobMsg) (s : Server)
    → Ensures (λ (id, t). IsJoined m s id t) (s_newjob raw m s)
unfolding s_newjob
s_newjob-IsJoined raw m s =
    Ensures-step (λ (id, t). IsJoined m s id t) (new_gpu_ids m) _
      λ gpu_ids e.
        let d0 : Deps = record { server = s; depend_on = []; errorlevel = pos 0 } in
        Ensures-step (λ (id, t). IsJoined m s id t) (depend_loop s.jobids m.depend_on d0) _
          λ d e'. record {
            server = d.server;
            job = _;
            queue = Ensures-ok _ _ (depend_loop-KeepsQueue s.jobids m.depend_on d0) e';
            joined = refl;
            given = refl;
            jobid = refl;
            state = refl;
            command = refl;
            slots = refl;
            kept = refl;
            tells_none = refl;
            no_output = refl;
          }

module _ {m : NewJobMsg} {s t : Server} {id : ℤ} (j : IsJoined m s id t) where
  open j use {server, job, queue}

  joined-Accounted : Accounted s → Accounted t
  joined-Accounted a = rw j.joined (
      queue.globals.busy_slots
      ∙ a
      ∙ sym queue.same_slots
      ∙ sym (slots_in_use-snoc server.jobs job (rw j.state (new_state_idle m.gpus s.max_jobs _))))

  joined-copies : (x : ℤ) → copies x t ≡ copies x s + ite (ℤ_discrete s.jobids x) 1 0
  joined-copies x =
      rw (j.joined, copies-snoc x server.jobs job, queue.same_ids, queue.same_finished, j.jobid)
        (omega arith)

  joined-IsDistinct : IsBelow s → IsDistinct s → IsDistinct t
  joined-IsDistinct b d x = ground (arith, joined-copies x, b x, d x)

  joined-IsBelow : pos 0 ≤ℤ s.jobids → s.jobids <ℤ pos (2 ^ 31 - 1) → IsBelow s → IsBelow t
  joined-IsBelow p q b x h =
      let next : t.jobids ≡ pos (pos_part s.jobids + 1) = rw j.joined (add_int-one s.jobids p q) in
      rw next (ground (arith, joined-copies x, b x))

-- A new job keeps the server sound, where it goes on, as long as the counter of the jobids has not
-- reached its end.
pub s_newjob-IsSound :
    (raw : Job) (m : NewJobMsg) (s : Server)
    → pos 0 ≤ℤ s.jobids
    → s.jobids <ℤ pos (2 ^ 31 - 1)
    → IsSound s
    → Ensures (λ (id, t). IsSound t) (s_newjob raw m s)
s_newjob-IsSound raw m s p q h =
    Ensures-mono (s_newjob raw m s) (s_newjob-IsJoined raw m s)
      λ (id, t) j. (joined-Accounted j h.0, joined-IsDistinct j h.2 h.1, joined-IsBelow j p q h.2)
