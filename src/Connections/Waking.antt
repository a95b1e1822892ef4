-- ===== src/Connections/Waking.antt =====
-- The loop that wakes the clients whose jobs did not fit in the queue.
use task_spooler.Base.{
  Option-cases, length, ℕ, zero, suc, ◌+◌, ◌<◌, ◌≡◌, ◌≢◌, refl, ◌∙◌, ap, Bool-cases, inl, inr, true,
  false, ◌&&◌, List, [], ◌∷◌, Option, some, none, ite, arith, if◌then◌else◌, get_elem?,
}
use task_spooler.Base.Int.{ℤ, ℤ_discrete}
use task_spooler.Base.Run.{
  or_exits-eq_ok, Settles-step, Settles, fault, Ensures, Ensures-step, Ensures-ok, Ensures-mono,
  or_exits,
}
use task_spooler.State.{Job, JobState, ClientConn, Server}
use task_spooler.Jobs.Find.{findjob_holding_client, is_holding, is_running}
use task_spooler.Jobs.Notices.{send_msg}
use task_spooler.Jobs.Slots.{slots_in_use}
use task_spooler.Jobs.Ids.{ids}
use task_spooler.Jobs.Schedule.{wake_state, wake_first, wake_hold_client}
use task_spooler.Jobs.Keep.{Keeps, Keeps-refl, Keeps-trans, SameJobs-Keeps}
use task_spooler.Connections.{find_conn, get_conn_of_jobid, s_newjob_ok, conn_at}
use task_spooler.Connections.Sound.{s_newjob_ok-Keeps}
use task_spooler.Connections.Rounds.{wake_loop}

-- How many jobs hold their client.
unfoldable pub held : List Job → ℕ
held [] = 0
held (p ∷ rest) = if is_holding p.state then suc (held rest) else held rest

woken_idle : (p : Job) → (is_holding (wake_state p) ≡ false) × (is_running (wake_state p) ≡ false)
woken_idle p = ground arith

holding_idle : (st : JobState) → is_holding st ≡ true → is_running st ≡ false
holding_idle st h = ground arith

wake_first-held :
    (jobs : List Job) (p : Job)
    → findjob_holding_client jobs ≡ some p
    → held jobs ≡ suc (held (wake_first jobs))
unfolding held findjob_holding_client wake_first
wake_first-held [] p e = cc
wake_first-held (q ∷ rest) p e = ground (arith, woken_idle q, wake_first-held rest p)

wake_first-slots : (jobs : List Job) → slots_in_use (wake_first jobs) ≡ slots_in_use jobs
unfolding slots_in_use wake_first
wake_first-slots [] = refl
wake_first-slots (q ∷ rest) =
    ground (arith, woken_idle q, holding_idle q.state, wake_first-slots rest)

wake_first-ids : (jobs : List Job) → ids (wake_first jobs) ≡ ids jobs
unfolding wake_first
wake_first-ids [] = refl
wake_first-ids (q ∷ rest) = ground (arith, wake_first-ids rest)

pub held-length : (jobs : List Job) → held jobs < suc (length jobs)
unfolding held
held-length [] = omega arith
held-length (q ∷ rest) = ground (arith, held-length rest)

-- A connection that the search finds is there, and has a job.
pub find_conn-found :
    (jobid : ℤ) (i : ℕ) (conns : List ClientConn) (k : ℕ)
    → find_conn jobid i conns ≡ some k
    → (j : ℕ) × (c : ClientConn) × (k ≡ i + j)
      × (get_elem? conns j ≡ some c)
      × (c.hasjob ≡ true)
      × (c.jobid ≡ jobid)
unfolding find_conn
find_conn-found jobid i [] k e = cc
find_conn-found jobid i (c ∷ rest) k e =
    elim (Bool-cases (c.hasjob && ite (ℤ_discrete c.jobid jobid) true false)) [
      | inl here ↦ (0, c, ground arith, refl, ground arith, ground arith)
      | inr later ↦
          let (j, d, at, el, has, of_job) = find_conn-found jobid (suc i) rest k (rw later at e) in
          (suc j, d, omega (arith, at), el, has, of_job)
    ]

s_newjob_ok-defined :
    (jobid : ℤ) (conn : ℕ) (s : Server)
    → get_conn_of_jobid jobid s ≡ some conn
    → s_newjob_ok conn s ≢ fault
unfolding get_conn_of_jobid s_newjob_ok
s_newjob_ok-defined jobid conn s e f =
    let (j, c, at, el, has, of_job) = find_conn-found jobid 0 s.conns conn e in
    let at' : conn ≡ j = omega (arith, at) in
    let el' : get_elem? s.conns conn ≡ some c = ap (get_elem? s.conns) at' ∙ el in
    ground (arith, el', has)

or_exits-defined {ℓ} : {A : Type ℓ} (o : Option A) → or_exits o ≢ fault
or_exits-defined none e = cc
or_exits-defined (some a) e = cc

s_newjob_ok-jobs : (conn : ℕ) (s : Server) → Ensures (λ t. t.jobs ≡ s.jobs) (s_newjob_ok conn s)
unfolding s_newjob_ok send_msg
s_newjob_ok-jobs conn s =
    Ensures-step _ (conn_at conn s) _
      λ c e. elim (Bool-cases c.hasjob) [ inl job ↦ rw job refl | inr free ↦ rw free tt ]

wake_first-Keeps : (s : Server) → Keeps s (record s { jobs = wake_first s.jobs })
wake_first-Keeps s = SameJobs-Keeps (record {
  busy = refl;
  slots = wake_first-slots s.jobs;
  queue_ids = wake_first-ids s.jobs;
  finished_ids = refl;
  counter = refl;
})

-- The jobs are kept, and none of them holds its client any more.
abbrev pub AllWoken : Server → Server → Type 0
AllWoken s t = Keeps s t × (findjob_holding_client t.jobs ≡ none)

pub wake_loop-AllWoken :
    (fuel : ℕ) (s : Server) → held s.jobs < fuel → Settles (AllWoken s) (wake_loop fuel s)
unfolding wake_loop wake_hold_client
wake_loop-AllWoken zero s h = absurd (omega (arith, h))
wake_loop-AllWoken (suc fuel) s h = elim (Option-cases (findjob_holding_client s.jobs)) [
  | inl e ↦ rw (wake_loop, wake_hold_client, e) ((λ f. cc), (Keeps-refl s, e))
  | inr (p, e) ↦
      let t = record s { jobs = wake_first s.jobs } in
      rw (wake_loop, wake_hold_client, e)
        (Settles-step (AllWoken s) (or_exits (get_conn_of_jobid p.jobid t)) _
          (or_exits-defined (get_conn_of_jobid p.jobid t))
          λ conn c.
            let found : get_conn_of_jobid p.jobid t ≡ some conn = or_exits-eq_ok _ c in
            Settles-step (AllWoken s) (s_newjob_ok conn t) _
              (s_newjob_ok-defined p.jobid conn t found)
              λ u k.
                let same = Ensures-ok _ _ (s_newjob_ok-jobs conn t) k in
                let less : held u.jobs < fuel =
                  rw same (omega (arith, wake_first-held s.jobs p e, h)) in
                let (defined, woken) = wake_loop-AllWoken fuel u less in
                let so_far =
                  Keeps-trans (wake_first-Keeps s) (Ensures-ok _ _ (s_newjob_ok-Keeps conn t) k) in
                (
                  defined,
                  Ensures-mono (wake_loop fuel u) woken λ v w. (Keeps-trans so_far w.0, w.1),
                ))
]
