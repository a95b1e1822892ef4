-- ===== src/Connections/Ended.antt =====
-- ENDJOB: what the end of a job leaves of the other jobs.
use task_spooler.Base.{ℕ, suc, ◌≡◌, ◌≢◌, List, [], ◌∷◌, some, All, arith, get_elem?, ◌≤◌}
use task_spooler.Base.Int.{ℤ, ℤ_discrete}
use task_spooler.Base.Run.{Ensures, Ensures-step, Ensures-ok}
use task_spooler.State.{Text, Result, Job, ClientConn, Server}
use task_spooler.Jobs.Notices.{add_errorlevel, check_notify_list}
use task_spooler.Jobs.Lookup.{count}
use task_spooler.Jobs.Ids.{ids}
use task_spooler.Jobs.Finish.{job_finished}
use task_spooler.Jobs.Keep.Others.{Others}
use task_spooler.Jobs.Keep.Ended.{job_finished-Others, job_finished-gone, check_notify_list-Others}
use task_spooler.Connections.{end_job}

-- A property of all jobs but the one with the jobid.
abbrev pub Bar : ℤ → (Job → Type 0) → Job → Type 0
Bar id P p = p.jobid ≢ id → P p

-- The same where that job is gone.
abbrev pub Without : ℤ → (Job → Type 0) → Job → Type 0
Without id P p = P p × (p.jobid ≢ id)

pub All-mono :
    (P Q : Job → Type 0) (jobs : List Job) → ((p : Job) → P p → Q p) → All P jobs → All Q jobs
All-mono P Q [] f h = tt
All-mono P Q (p ∷ rest) f (h, hs) = (f p h, All-mono P Q rest f hs)

pub All-Without :
    (P : Job → Type 0) (id : ℤ) (jobs : List Job)
    → count id (ids jobs) ≡ 0
    → All (Bar id P) jobs
    → All (Without id P) jobs
unfolding count
All-Without P id [] e h = tt
All-Without P id (p ∷ rest) e (h, hs) = elim (ℤ_discrete p.jobid id) [
  | yes hit ↦ absurd (ground arith)
  | no miss ↦ ((h miss, miss), All-Without P id rest (ground arith) hs)
]

pub end_job-Others :
    {P : Job → Type 0} {n : ℕ} {m : ℤ} {vars : List (Text × Text)} (max : ℤ) (r : Result)
    (index : ℕ) (s : Server) (c : ClientConn)
    → ((e : ℤ) (p : Job) → P p → P (add_errorlevel e p))
    → get_elem? s.conns index ≡ some c
    → count c.jobid (ids s.jobs) ≤ 1
    → Others (Bar c.jobid P) (suc n) m vars s
    → Ensures (Others (Without c.jobid P) n m vars) (end_job max r index s)
unfolding end_job
end_job-Others {P} {n} {m} {vars} max r index s c tells at once h =
    let id = c.jobid in
    rw at (
      Ensures-step (Others (Without id P) n m vars) (job_finished max r id s) _ λ s1 e1.
        let k =
          Ensures-ok (Others (Bar id P) n m vars) _
            (job_finished-Others {X = Bar id P} max r id s (λ e p f b. tells e p (f b))
              (λ q same b. absurd (b same)) h)
            e1 in
        let gone = Ensures-ok _ _ (job_finished-gone max r id s once) e1 in
        let k' : Others (Without id P) n m vars s1 = record {
          jobs = All-Without P id s1.jobs gone k.jobs;
          size = k.size;
          finished = k.finished;
          max_slots = k.max_slots;
          env = k.env;
        } in
        Ensures-step (Others (Without id P) n m vars) (check_notify_list id s1) _ λ s2 e2.
          let l =
            Ensures-ok (Others (Without id P) n m vars) _ (check_notify_list-Others id s1 k') e2 in
          record {
            jobs = l.jobs;
            size = l.size;
            finished = l.finished;
            max_slots = l.max_slots;
            env = l.env;
          })
