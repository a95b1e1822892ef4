-- ===== src/Connections/Queued.antt =====
-- NEWJOB: a new job of a server whose jobs await their turns.
use task_spooler.Base.{
  sym, ℕ, zero, suc, ◌+◌, ◌-◌, ◌^◌, ◌≡◌, ◌≢◌, refl, ◌∙◌, ap, true, false, List, [], ◌∷◌, ◌++◌, some,
  none, arith, All, get_elem?, set, ite, ℕ_discrete, Bool-cases, inl, inr, ◌&&◌,
}
use task_spooler.Base.Int.{ltb_ℤ, ℤ, pos, ◌≤ℤ◌, ◌<ℤ◌, ℤ_discrete, minus_one, add_int}
use task_spooler.Base.Run.{ok}
use task_spooler.State.{Job, ClientConn, Server, newjob_ok, queued}
use task_spooler.Jobs.Find.{findjob, count_not_finished_jobs}
use task_spooler.Jobs.Notices.{is_true, send_msg}
use task_spooler.Jobs.Lookup.{count}
use task_spooler.Jobs.Ids.{ids, findjob-middle, IsBelow}
use task_spooler.Jobs.NewJob.{NewJobMsg, s_newjob, depend_loop, new_gpu_ids}
use task_spooler.Jobs.NewJob.Join.{copies-snoc}
use task_spooler.Jobs.Schedule.Progress.{IsPlain}
use task_spooler.Connections.{find_conn, get_conn_of_jobid, s_newjob_ok}
use task_spooler.Connections.Requests
use task_spooler.Connections.Requests.{
  World, handle, read_newjob, answer_newjob, job_is_holding_client,
}
use task_spooler.Connections.Turn.{IsReady}
use task_spooler.Connections.Ended.{Bar, Without, All-Without, All-mono}

-- A message for a job that depends on none, wants no GPUs takes all the slots that there are, and is to
-- be kept.
pub record IsSimple (m : NewJobMsg) (s : Server) : Type 0 where
  pub no_deps : m.depend_on ≡ []
  pub no_gpus : m.gpus ≡ pos 0
  pub free_gpus : is_true m.wait_free_gpus ≡ true
  pub all_slots : m.num_slots ≡ s.max_slots
  pub kept : is_true m.should_keep_finished ≡ true
  pub room : pos (count_not_finished_jobs s.jobs + 1) <ℤ s.max_jobs
  pub not_negative : pos 0 ≤ℤ s.jobids
  pub counter_left : s.jobids <ℤ pos (2 ^ 31 - 1)

abbrev pub new_job : World → NewJobMsg → Server → Job
new_job w m s = record w.raw {
  jobid = s.jobids;
  command = m.command;
  state = queued;
  output_filename = none;
  store_output = m.store_output;
  should_keep_finished = m.should_keep_finished;
  depend_on = [];
  notify_errorlevel_to = [];
  dependency_errorlevel = pos 0;
  label = m.label;
  num_slots = m.num_slots;
  num_gpus = pos 0;
  gpu_ids = minus_one ∷ [];
  wait_free_gpus = m.wait_free_gpus;
}

-- The server with the new job, whose client has been told its jobid.
abbrev pub with_job : World → NewJobMsg → ℕ → ClientConn → Server → Server
with_job w m index c s = record s {
  jobs = s.jobs ++ new_job w m s ∷ [];
  jobids = add_int s.jobids (pos 1);
  conns = set s.conns index (record c { hasjob = true; jobid = s.jobids });
  sent = (c.socket, newjob_ok s.jobids) ∷ s.sent;
}

get_elem?-set_self :
    (index : ℕ) (conns : List ClientConn) (c d : ClientConn)
    → get_elem? conns index ≡ some c
    → get_elem? (set conns index d) index ≡ some d
get_elem?-set_self index [] c d e = cc
get_elem?-set_self zero (x ∷ rest) c d e = refl
get_elem?-set_self (suc index) (x ∷ rest) c d e = get_elem?-set_self index rest c d e

pub unused : (s : Server) → IsBelow s → count s.jobids (ids s.jobs) ≡ 0
unused s b = ground (arith, b s.jobids)

new_found :
    (w : World) (m : NewJobMsg) (s : Server)
    → IsBelow s
    → findjob s.jobids (s.jobs ++ new_job w m s ∷ []) ≡ some (new_job w m s)
new_found w m s b =
    findjob-middle s.jobs (new_job w m s) []
      (ground (arith, copies-snoc s.jobids s.jobs (new_job w m s), unused s b))

pub find_conn-new :
    (id : ℤ) (i k : ℕ) (conns : List ClientConn) (c : ClientConn)
    → get_elem? conns k ≡ some c
    → (j : ℕ) × (find_conn id i (set conns k (record c { hasjob = true; jobid = id })) ≡ some j)
unfolding find_conn
find_conn-new id i k [] c e = cc
find_conn-new id i zero (d ∷ rest) c e = (i, ground arith)
find_conn-new id i (suc k) (d ∷ rest) c e =
    elim (Bool-cases (d.hasjob && ite (ℤ_discrete d.jobid id) true false)) [
      | inl here ↦ (i, rw here refl)
      | inr later ↦ let (j, f) = find_conn-new id (suc i) k rest c e in (j, rw later f)
    ]

pub find_conn-kept :
    (id jobid : ℤ) (i k : ℕ) (conns : List ClientConn) (c : ClientConn)
    → get_elem? conns k ≡ some c
    → c.hasjob ≡ false
    → id ≢ jobid
    → find_conn id i (set conns k (record c { hasjob = true; jobid = jobid }))
      ≡ find_conn id i conns
unfolding find_conn
find_conn-kept id jobid i k [] c e f n = refl
find_conn-kept id jobid i zero (d ∷ rest) c e f n = ground arith
find_conn-kept id jobid i (suc k) (d ∷ rest) c e f n =
    ground (arith, find_conn-kept id jobid (suc i) k rest c e f n)

module _ (w : World) (m : NewJobMsg) (s : Server) (h : IsSimple m s) where
  s_newjob_lem :
      s_newjob w.raw m s
      ≡ ok (
        s.jobids,
        record s { jobs = s.jobs ++ new_job w m s ∷ []; jobids = add_int s.jobids (pos 1) },
      )
  unfolding s_newjob new_gpu_ids depend_loop ℤ_discrete ℕ_discrete
  s_newjob_lem =
      let room : ltb_ℤ (pos (count_not_finished_jobs s.jobs + 1)) s.max_jobs ≡ true =
        ground (arith, h.room) in
      rw (h.free_gpus, h.no_gpus, h.no_deps, room) refl

  pub newjob_lem :
      (index : ℕ) (c : ClientConn)
      → IsBelow s
      → get_elem? s.conns index ≡ some c
      → handle w c.socket index (Requests.newjob m) s ≡ ok (with_job w m index c s)
  unfolding handle read_newjob answer_newjob job_is_holding_client s_newjob_ok send_msg
  newjob_lem index c b at =
      rw (read_newjob, at, s_newjob_lem, answer_newjob, job_is_holding_client, new_found w m s b)
        (rw
          (
            s_newjob_ok,
            get_elem?-set_self index s.conns c (record c { hasjob = true; jobid = s.jobids }) at,
          )
          refl)

IsReady-kept :
    (s t : Server) (k : ℕ) (c : ClientConn) (jobid : ℤ) (p : Job)
    → get_elem? s.conns k ≡ some c
    → c.hasjob ≡ false
    → t.conns ≡ set s.conns k (record c { hasjob = true; jobid = jobid })
    → t.max_slots ≡ s.max_slots
    → p.jobid ≢ jobid
    → IsReady s p
    → IsReady t p
unfolding get_conn_of_jobid
IsReady-kept s t k c jobid p at free e slots n h = record {
  waits = h.waits;
  all_slots = h.all_slots ∙ sym slots;
  kept = h.kept;
  index = h.index;
  client =
      ap (find_conn p.jobid 0) e ∙ find_conn-kept p.jobid jobid 0 k s.conns c at free n ∙ h.client;
}

module _ (w : World) (m : NewJobMsg) (s : Server) (h : IsSimple m s) (index : ℕ) (c : ClientConn)
    (at : get_elem? s.conns index ≡ some c) where
  new_job-IsPlain : IsPlain s.max_slots (new_job w m s)
  new_job-IsPlain = record {
    idle = refl;
    no_gpus = refl;
    fits = ground (arith, h.all_slots);
    earlier = tt;
    int = ground (arith, h.not_negative, h.counter_left);
  }

  new_job-IsReady : IsReady (with_job w m index c s) (new_job w m s)
  unfolding get_conn_of_jobid
  new_job-IsReady =
      let (j, e) = find_conn-new s.jobids 0 index s.conns c at in
      record { waits = refl; all_slots = h.all_slots; kept = h.kept; index = j; client = e }

  All-snoc :
      (P : Job → Type 0) (p : Job) (jobs : List Job) → All P jobs → P p → All P (jobs ++ p ∷ [])
  All-snoc P p [] k x = (x, tt)
  All-snoc P p (q ∷ jobs) (k, ks) x = (k, All-snoc P p jobs ks x)

  -- The new job is as ready as the others.
  pub with_job-IsReady :
      c.hasjob ≡ false
      → IsBelow s
      → All (IsPlain s.max_slots) s.jobs
      → All (IsReady s) s.jobs
      → All (IsPlain s.max_slots) (with_job w m index c s).jobs
        × All (IsReady (with_job w m index c s)) (with_job w m index c s).jobs
  with_job-IsReady free b plain ready =
      let t = with_job w m index c s in
      let others =
        All-Without (IsReady s) s.jobids s.jobs (unused s b)
          (All-mono (IsReady s) (Bar s.jobids (IsReady s)) s.jobs (λ p k _. k) ready) in
      (
        All-snoc (IsPlain s.max_slots) (new_job w m s) s.jobs plain new_job-IsPlain,
        All-snoc (IsReady t) (new_job w m s) s.jobs
            (All-mono (Without s.jobids (IsReady s)) (IsReady t) s.jobs
              (λ p k. IsReady-kept s t index c s.jobids p at free refl refl k.1 k.0) others)
            new_job-IsReady,
      )
