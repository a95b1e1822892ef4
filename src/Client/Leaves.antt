-- ===== src/Client/Leaves.antt =====
-- client_read: what the messages of a client whose job runs leave of the other jobs.
use task_spooler.Base.{
  sym, ℕ, zero, suc, ◌≡◌, ◌≢◌, refl, ◌∙◌, ap, false, List, [], ◌∷◌, Option, some, arith, All,
  get_elem?, set, Bool-cases, inl, inr,
}
use task_spooler.Base.Int.{ℤ}
use task_spooler.Base.Run.{Ensures, Ensures-step, Ensures-ok, Ensures-mono, Ensures-both, or_exits}
use task_spooler.State.{Text, Result, Job, ClientConn, Server, list_line, command_line}
use task_spooler.Jobs.Find.{findjob, is_running}
use task_spooler.Jobs.Notices.{send_msg, add_errorlevel}
use task_spooler.Jobs.Query.{s_process_runjob_ok}
use task_spooler.Jobs.Schedule.Progress.{IsPlain}
use task_spooler.Jobs.Keep.{IsSound, Keeps-IsSound}
use task_spooler.Jobs.Keep.Others.{Others}
use task_spooler.Jobs.Keep.Ended.{s_process_runjob_ok-Others}
use task_spooler.Connections.{end_job, find_conn, get_conn_of_jobid}
use task_spooler.Connections.Requests
use task_spooler.Connections.Requests.{Request, World, handle, max_finished, stored_filename}
use task_spooler.Connections.Messages.{handle-Keeps}
use task_spooler.Connections.Turn.{IsReady}
use task_spooler.Connections.Ended.{Bar, Without, end_job-Others}
use task_spooler.Client.Served.{handle_all}

-- A job of a queue whose jobs await their turns.
abbrev pub Fine : Server → Job → Type 0
Fine s p = IsPlain s.max_slots p × IsReady s p

pub Fine-tells : (s : Server) (e : ℤ) (p : Job) → Fine s p → Fine s (add_errorlevel e p)
Fine-tells s e p (h, k) = (
  record { idle = h.idle; no_gpus = h.no_gpus; fits = h.fits; earlier = h.earlier; int = h.int },
  record {
    waits = k.waits;
    all_slots = k.all_slots;
    kept = k.kept;
    index = k.index;
    client = k.client;
  },
)

All-both :
    {P Q R : Job → Type 0} (f : (p : Job) → P p → Q p → R p) (jobs : List Job)
    → All P jobs
    → All Q jobs
    → All R jobs
All-both f [] h k = tt
All-both f (p ∷ rest) (h, hs) (k, ks) = (f p h k, All-both f rest hs ks)

-- The connection of another job is found where it was.
find_conn-other :
    (id : ℤ) (i k : ℕ) (conns : List ClientConn) (c : ClientConn)
    → get_elem? conns k ≡ some c
    → id ≢ c.jobid
    → find_conn id i (set conns k (record c { hasjob = false })) ≡ find_conn id i conns
unfolding find_conn
find_conn-other id i k [] c e n = refl
find_conn-other id i zero (d ∷ rest) c e n = ground arith
find_conn-other id i (suc k) (d ∷ rest) c e n =
    ground (arith, find_conn-other id (suc i) k rest c e n)

pub IsReady-other :
    (s t : Server) (k : ℕ) (c : ClientConn) (p : Job)
    → get_elem? s.conns k ≡ some c
    → t.conns ≡ set s.conns k (record c { hasjob = false })
    → t.max_slots ≡ s.max_slots
    → p.jobid ≢ c.jobid
    → IsReady s p
    → IsReady t p
unfolding get_conn_of_jobid
IsReady-other s t k c p at e slots n h = record {
  waits = h.waits;
  all_slots = h.all_slots ∙ sym slots;
  kept = h.kept;
  index = h.index;
  client = ap (find_conn p.jobid 0) e ∙ find_conn-other p.jobid 0 k s.conns c at n ∙ h.client;
}

s_process_runjob_ok-conns :
    (id : ℤ) (oname : Option Text) (pid : ℤ) (s : Server)
    → Ensures (λ t. t.conns ≡ s.conns) (s_process_runjob_ok id oname pid s)
unfolding s_process_runjob_ok
s_process_runjob_ok-conns id oname pid s = Ensures-step _ (or_exits (findjob id s.jobs)) _ λ p e.
    elim (Bool-cases (is_running p.state)) [ inl runs ↦ rw runs refl | inr idle ↦ rw idle tt ]

module _ {P : Job → Type 0} {n : ℕ} {m : ℤ} {vars : List (Text × Text)} (w : World) (socket : ℤ)
    (index : ℕ) (a pid : ℤ) (b : Text) (r : Result) (c : ClientConn)
    (tells : (e : ℤ) (p : Job) → P p → P (add_errorlevel e p)) where
  -- The job runs, with its output file.
  runjob_ok-Others :
      (s : Server)
      → get_elem? s.conns index ≡ some c
      → Others (Bar c.jobid P) (suc n) m vars s
      → Ensures
          (λ t. Others (Bar c.jobid P) (suc n) m vars t × (t.conns ≡ s.conns))
          (handle w socket index (Requests.runjob_ok a b pid) s)
  unfolding handle
  runjob_ok-Others s at h = rw at (
      Ensures-both _ _ (s_process_runjob_ok c.jobid (stored_filename a b) pid s)
        (s_process_runjob_ok-Others c.jobid (stored_filename a b) pid s
          (λ q same bar. absurd (bar same)) h)
        (s_process_runjob_ok-conns c.jobid (stored_filename a b) pid s))

  -- What the server makes of the messages: the file, the child, and the end of the job.
  pub messages-Others :
      (s : Server)
      → get_elem? s.conns index ≡ some c
      → IsSound s
      → Others (Bar c.jobid P) (suc n) m vars s
      → Ensures
          (λ t. Others (Without c.jobid P) n m vars t × IsSound t)
          (handle_all w socket index
            (Requests.endjob r ∷ Requests.runjob_ok a b pid ∷ Requests.get_logdir ∷ [])
            s)
  unfolding handle_all handle send_msg
  messages-Others s at sound h =
      let s1 = send_msg socket (list_line (command_line s.logdir)) s in
      let h1 : Others (Bar c.jobid P) (suc n) m vars s1 = record {
        jobs = h.jobs;
        size = h.size;
        finished = h.finished;
        max_slots = h.max_slots;
        env = h.env;
      } in
      let sound1 : IsSound s1 = sound in
      Ensures-step _ (handle w socket index (Requests.runjob_ok a b pid) s1) _ λ s2 e2.
        let (h2, conns) = Ensures-ok _ _ (runjob_ok-Others s1 at h1) e2 in
        let sound2 =
          Keeps-IsSound
            (Ensures-ok _ _
              (handle-Keeps w socket index (Requests.runjob_ok a b pid) s1 refl (λ e. cc) sound1)
              e2)
            sound1 in
        Ensures-both _ _ (end_job (max_finished w s2) r index s2)
          (end_job-Others (max_finished w s2) r index s2 c tells
            (ap (λ x. get_elem? x index) conns ∙ at) (omega (arith, sound2.1 c.jobid)) h2)
          (Ensures-mono (end_job (max_finished w s2) r index s2)
            (handle-Keeps w socket index (Requests.endjob r) s2 refl (λ e. cc) sound2)
            λ t k. Keeps-IsSound k sound2)
