-- ===== src/Connections/Starting.antt =====
-- The end of a round of server_loop: the start of a job keeps the server sound.
use task_spooler.Base.{
  ℕ, suc, ◌≡◌, refl, sym, ◌∙◌, ap, subst, Bool-cases, inl, inr, Option, some, none, arith,
  if◌then◌else◌, length,
}
use task_spooler.Base.Int.{ℤ, pos, leb_ℤ, sub_int}
use task_spooler.Base.Run.{
  ok, ◌>>=◌, Ensures, Ensures-step, Ensures-ok, Ensures-mono, or_exits, or_fault,
}
use task_spooler.State.{Job, running, Server}
use task_spooler.Gpu.{broadcast_used_gpus}
use task_spooler.Jobs.Find.{findjob, is_some}
use task_spooler.Jobs.Notices.{send_msg, is_true}
use task_spooler.Jobs.Slots.{Accounted}
use task_spooler.Jobs.Ids.{ids, ids-update_job}
use task_spooler.Jobs.Schedule.{
  Machine, search_queue, start_job, next_run_job, set_state, s_mark_job_running,
}
use task_spooler.Jobs.Schedule.Choice.{IsChosen, IsIdle, Next, next_run_job-Next}
use task_spooler.Jobs.Schedule.Start.{start-Accounted}
use task_spooler.Jobs.Query.{s_send_runjob}
use task_spooler.Jobs.Keep.{Keeps, Keeps-trans, IsSound, Keeps-IsSound}
use task_spooler.Connections.{get_conn_of_jobid, conn_at, s_runjob}
use task_spooler.Connections.Rounds.{wake_loop, start_next}
use task_spooler.Connections.Waking.{wake_loop-AllWoken, held-length}

start_job-counter :
    (o : Option Job) (s : Server) → Ensures (λ (id, t). t.jobids ≡ s.jobids) (start_job o s)
unfolding start_job
start_job-counter none s = refl
start_job-counter (some p) s =
    Ensures-step _
      (if is_true p.num_gpus
        then broadcast_used_gpus p.num_gpus p.gpu_ids s.used_gpus
        else ok s.used_gpus)
      _ λ used e. refl

next_run_job-counter :
    (m : Machine) (s : Server) → Ensures (λ (id, t). t.jobids ≡ s.jobids) (next_run_job m s)
unfolding next_run_job
next_run_job-counter m s = elim (Bool-cases (leb_ℤ (sub_int s.max_slots s.busy_slots) (pos 0))) [
  | inl full ↦ rw full refl
  | inr room ↦ rw room (
      Ensures-step _ (search_queue m m.gpu_list s (sub_int s.max_slots s.busy_slots)) _
        λ (jobs, found) e. start_job-counter found (record s { jobs = jobs }))
]

-- The jobs of the two servers have the same jobids.
pub record SameIds (s t : Server) : Type 0 where
  pub queue_ids : ids t.jobs ≡ ids s.jobs
  pub finished_ids : ids t.first_finished ≡ ids s.first_finished
  pub counter : t.jobids ≡ s.jobids

SameIds-trans : {s t u : Server} → SameIds s t → SameIds t u → SameIds s u
SameIds-trans h k = ground arith

SameIds-IsSound : (s t : Server) → SameIds s t → Accounted t → IsSound s → IsSound t
SameIds-IsSound s t h a (_, d, b) = (
  a,
  λ id. rw (h.queue_ids, h.finished_ids) (d id),
  λ id. rw (h.queue_ids, h.finished_ids, h.counter) (b id),
)

s_mark_job_running-SameIds :
    (jobid : ℤ) (s : Server) → Ensures (SameIds s) (s_mark_job_running jobid s)
unfolding s_mark_job_running
s_mark_job_running-SameIds jobid s = elim (Bool-cases (is_some (findjob jobid s.jobs))) [
  | inl here ↦ rw here (record {
    queue_ids = ids-update_job jobid (set_state running) (λ p. refl) s.jobs;
    finished_ids = refl;
    counter = refl;
  })
  | inr gone ↦ rw gone tt
]

s_send_runjob-Keeps :
    (socket jobid : ℤ) (s : Server) → Ensures (Keeps s) (s_send_runjob socket jobid s)
unfolding s_send_runjob send_msg
s_send_runjob-Keeps socket jobid s =
    Ensures-step (Keeps s) (or_exits (findjob jobid s.jobs)) _
      λ p e. record { accounted = λ a. a; no_more = λ id. omega arith; counter = refl }

s_runjob-Keeps : (jobid : ℤ) (index : ℕ) (s : Server) → Ensures (Keeps s) (s_runjob jobid index s)
unfolding s_runjob
s_runjob-Keeps jobid index s = Ensures-step (Keeps s) (conn_at index s) _ λ c e.
    elim (Bool-cases c.hasjob) [
      | inl job ↦ rw job (s_send_runjob-Keeps c.socket jobid s)
      | inr free ↦ rw free tt
    ]

-- No job is chosen.
idle-IsSound :
    {m : Machine} {s t : Server} → IsIdle m s t → t.jobids ≡ s.jobids → IsSound s → IsSound t
idle-IsSound {s = s} {t = t} i c h =
    SameIds-IsSound s t
      (record {
        queue_ids = i.searched.same_ids;
        finished_ids = ap ids i.searched.same_finished;
        counter = c;
      })
      (i.busy ∙ h.0 ∙ sym i.searched.same_slots) h

-- The end of a round, in which a job starts or none does, keeps the server sound, where it goes on.
pub start_next-IsSound : (m : Machine) (s : Server) → IsSound s → Ensures IsSound (start_next m s)
unfolding start_next
start_next-IsSound m s h =
    Ensures-step IsSound (next_run_job m s) _ λ (newjob, s1) e. go newjob s1 e
  where
    go :
        (newjob : Option ℤ) (s1 : Server)
        → next_run_job m s ≡ ok (newjob, s1)
        → Ensures IsSound (elim newjob [
          | none ↦ ok s1
          | some jobid ↦ do
            s2 ← s_mark_job_running jobid s1
            conn ← or_fault (get_conn_of_jobid jobid s1)
            s3 ← s_runjob jobid conn s2
            wake_loop (suc (length s3.jobs)) s3
        ])
    go none s1 e =
        idle-IsSound (Ensures-ok (Next m s) _ (next_run_job-Next m s) e)
          (Ensures-ok _ _ (next_run_job-counter m s) e) h
    go (some jobid) s1 e =
        let c : IsChosen s jobid s1 = Ensures-ok (Next m s) _ (next_run_job-Next m s) e in
        let searched : SameIds s s1 = record {
          queue_ids = c.searched.same_ids;
          finished_ids = ap ids c.searched.same_finished;
          counter = Ensures-ok _ _ (next_run_job-counter m s) e;
        } in
        Ensures-step IsSound (s_mark_job_running jobid s1) _ λ s2 e2.
          let (u, same, a) = start-Accounted m s s1 jobid e h.1 h.0 in
          let a2 : Accounted s2 =
            Ensures-ok Accounted _ (subst (Ensures Accounted) (sym same) a) e2 in
          let marked = Ensures-ok _ _ (s_mark_job_running-SameIds jobid s1) e2 in
          let sound = SameIds-IsSound s s2 (SameIds-trans searched marked) a2 h in
          Ensures-step IsSound (or_fault (get_conn_of_jobid jobid s1)) _ λ conn e3.
            Ensures-step IsSound (s_runjob jobid conn s2) _ λ s3 e4.
              let k3 = Ensures-ok _ _ (s_runjob-Keeps jobid conn s2) e4 in
              Ensures-mono (wake_loop (suc (length s3.jobs)) s3)
                (wake_loop-AllWoken (suc (length s3.jobs)) s3 (held-length s3.jobs)).1
                λ s4 k. Keeps-IsSound (Keeps-trans k3 k.0) sound
