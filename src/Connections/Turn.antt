-- ===== src/Connections/Turn.antt =====
-- start_next: the turn of a job of an idle server.
use task_spooler.Base.{
  ℕ, suc, ◌≡◌, refl, ◌∙◌, ap, true, List, [], ◌∷◌, some, none, arith, get_elem?, take, All,
}
use task_spooler.Base.Int.{ℤ, pos_part, add_int}
use task_spooler.Base.Run.{ok, Ensures-ok}
use task_spooler.State.{Job, ClientConn, Server, running, runjob}
use task_spooler.Jobs.Find.{findjob, update_job, findjob_holding_client}
use task_spooler.Jobs.Notices.{send_msg, is_true}
use task_spooler.Jobs.Ids.{IsDistinct}
use task_spooler.Jobs.Lookup.{findjob-update_self}
use task_spooler.Jobs.Query.{s_send_runjob}
use task_spooler.Jobs.Schedule.{
  Machine, next_run_job, set_state, s_mark_job_running, wake_hold_client,
}
use task_spooler.Jobs.Schedule.Choice.{IsChosen, Next, next_run_job-Next}
use task_spooler.Jobs.Schedule.Start.{chosen-findjob}
use task_spooler.Jobs.Schedule.Progress.{
  IsPlain, is_waiting, IsIdleServer, taken, findjob-All, next_run_job-Takes,
}
use task_spooler.Connections.{get_conn_of_jobid, s_runjob}
use task_spooler.Connections.Rounds.{start_next, wake_loop}
use task_spooler.Connections.Waking.{find_conn-found}

-- The server that has told the client of the job to run it.
abbrev pub told_to_run : ClientConn → Job → Server → Server
told_to_run c q s = record (taken q s) {
  jobs = update_job q.jobid (set_state running) s.jobs;
  sent = (c.socket, runjob q.dependency_errorlevel (take (pos_part q.num_gpus) q.gpu_ids)) ∷ s.sent;
}

none_held :
    (id : ℤ) (jobs : List Job)
    → findjob_holding_client jobs ≡ none
    → findjob_holding_client (update_job id (set_state running) jobs) ≡ none
unfolding findjob_holding_client update_job
none_held id [] e = refl
none_held id (p ∷ rest) e = ground (arith, none_held id rest)

pub running_found :
    (q : Job) (jobs : List Job)
    → findjob q.jobid jobs ≡ some q
    → findjob q.jobid (update_job q.jobid (set_state running) jobs) ≡ some (set_state running q)
running_found q jobs e =
    findjob-update_self q.jobid (set_state running) (λ p. refl) jobs ∙ rw e refl

wake_loop-none :
    (fuel : ℕ) (s : Server) → findjob_holding_client s.jobs ≡ none → wake_loop (suc fuel) s ≡ ok s
unfolding wake_loop wake_hold_client
wake_loop-none fuel s e = rw (wake_loop, wake_hold_client, e) refl

-- A chosen job with a connection is started.
start_next_lem :
    (m : Machine) (s : Server) (q : Job) (index : ℕ) (c : ClientConn)
    → next_run_job m s ≡ ok (some q.jobid, taken q s)
    → findjob q.jobid s.jobs ≡ some q
    → get_conn_of_jobid q.jobid s ≡ some index
    → get_elem? s.conns index ≡ some c
    → c.hasjob ≡ true
    → findjob_holding_client s.jobs ≡ none
    → start_next m s ≡ ok (told_to_run c q s)
unfolding start_next s_mark_job_running s_runjob s_send_runjob send_msg get_conn_of_jobid
start_next_lem m s q index c next at conn el has held =
    let here = running_found q s.jobs at in
    rw (next, at, conn, el, has, here)
      (wake_loop-none _ (told_to_run c q s) (none_held q.jobid s.jobs held))

-- The connection of a job.
pub record HasClient (s : Server) (id : ℤ) : Type 0 where
  pub index : ℕ
  pub conn : ClientConn
  pub search : get_conn_of_jobid id s ≡ some index
  pub at_index : get_elem? s.conns index ≡ some conn
  pub hasjob : conn.hasjob ≡ true
  pub of_job : conn.jobid ≡ id

get_conn_of_jobid-HasClient :
    (id : ℤ) (s : Server) (index : ℕ) → get_conn_of_jobid id s ≡ some index → HasClient s id
unfolding get_conn_of_jobid
get_conn_of_jobid-HasClient id s index e =
    let (j, c, at, el, has, of_job) = find_conn-found id 0 s.conns index e in
    record {
      index = index;
      conn = c;
      search = e;
      at_index = ap (get_elem? s.conns) (omega (arith, at)) ∙ el;
      hasjob = has;
      of_job = of_job;
    }

-- What is asked of a job whose turn may come: it waits, it takes all the slots that there are, it is to
-- be kept in the list of finished jobs, and it has a connection.
pub record IsReady (s : Server) (p : Job) : Type 0 where
  pub waits : is_waiting p ≡ true
  pub all_slots : p.num_slots ≡ s.max_slots
  pub kept : is_true p.should_keep_finished ≡ true
  pub index : ℕ
  pub client : get_conn_of_jobid p.jobid s ≡ some index

-- The job whose turn it is, and its client.
pub record HasTurn (m : Machine) (s : Server) : Type 0 where
  pub job : Job
  pub known : findjob job.jobid s.jobs ≡ some job
  pub plain : IsPlain s.max_slots job
  pub ready : IsReady s job
  pub client : HasClient s job.jobid
  pub starts : start_next m s ≡ ok (told_to_run client.conn job s)

waiting_none_held :
    (s : Server) (jobs : List Job) → All (IsReady s) jobs → findjob_holding_client jobs ≡ none
unfolding findjob_holding_client
waiting_none_held s [] h = refl
waiting_none_held s (p ∷ rest) (h, hs) = ground (arith, h.waits, waiting_none_held s rest hs)

pub start_next-HasTurn :
    (m : Machine) (s : Server) (free : List ℤ) (id : ℤ) (p : Job)
    → IsIdleServer s
    → IsDistinct s
    → All (IsReady s) s.jobs
    → m.gpu_list ≡ some free
    → findjob id s.jobs ≡ some p
    → HasTurn m s
start_next-HasTurn m s free id p idle distinct ready gpus found =
    let waits = (findjob-All (IsReady s) id s.jobs p ready found).waits in
    let (q, next) = next_run_job-Takes m s free id p idle gpus found waits in
    let c : IsChosen s q.jobid (taken q s) = Ensures-ok (Next m s) _ (next_run_job-Next m s) next in
    let known = chosen-findjob c distinct in
    let r = findjob-All (IsReady s) c.choice.jobid s.jobs c.choice ready known in
    let k = get_conn_of_jobid-HasClient c.choice.jobid s r.index r.client in
    record {
      job = c.choice;
      known = known;
      plain = findjob-All (IsPlain s.max_slots) c.choice.jobid s.jobs c.choice idle.plain known;
      ready = r;
      client = k;
      starts =
          start_next_lem m s c.choice k.index k.conn
            (next
              ∙ ap (λ x. ok (some x, record s { busy_slots = add_int s.busy_slots q.num_slots }))
                  c.jobid
              ∙ ap (λ b. ok (some c.choice.jobid, record s { busy_slots = b })) c.busy)
            known k.search k.at_index k.hasjob (waiting_none_held s s.jobs ready);
    }
