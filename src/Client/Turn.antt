-- ===== src/Client/Turn.antt =====
-- server.c with client.c: the turn of a job of an idle server, from the end of a round to the end of
-- the job.
use task_spooler.Base.{sym, ◌≡◌, refl, ◌∙◌, ap, false, List, [], ◌∷◌, some, arith, All, take}
use task_spooler.Base.Int.{ℤ, pos, ◌≤ℤ◌, pos_part, IsInt, add_int, sub_int}
use task_spooler.Base.Run.{ok, Ensures-ok}
use task_spooler.State.{Job, Server, running, runjob, list_line, command_line}
use task_spooler.Gpu.{broadcast_free_gpus, mark_gpus}
use task_spooler.Jobs.Find.{findjob}
use task_spooler.Jobs.Notices.{is_true}
use task_spooler.Jobs.Query.{started}
use task_spooler.Jobs.Schedule.{Machine, set_state}
use task_spooler.Jobs.Schedule.Progress.{IsIdleServer}
use task_spooler.Jobs.Keep.{IsSound}
use task_spooler.Connections.Requests.{World, max_finished}
use task_spooler.Connections.Starting.{start_next-IsSound}
use task_spooler.Connections.Turn.{told_to_run, running_found, IsReady, HasTurn, start_next-HasTurn}
use task_spooler.CommandLine.{CommandLine}
use task_spooler.Client.{Client, goes_on}
use task_spooler.Client.Answers.{fresh}
use task_spooler.Client.Queue.{Child, c_wait_server_commands}
use task_spooler.Client.Rounds.{read_rounds, read_rounds_full, IsFull, not_skipped, client_asked}
use task_spooler.Client.Served.{handle_all, IsServed, result_of, stored_of, run_job-IsServed}

-- What is asked of a server before its rounds: it is sound, nothing runs, the jobs of its queue are
-- ready, and two finished jobs may be kept.
pub record AwaitsTurn (w : World) (s : Server) : Type 0 where
  pub idle : IsIdleServer s
  pub sound : IsSound s
  pub ready : All (IsReady s) s.jobs
  pub room : pos 2 ≤ℤ max_finished w s

-- A job has had its turn: the server told its client to run it, the client ran its child and ended with
-- the child's error level, the server took what the client sent, a message in each round, and no slot is taken.
pub record HadTurn (m : Machine) (w : World) (cl : Job → CommandLine) (child : Job → Child)
    (s : Server) : Type 0 where
  pub turn : HasTurn m s
  pub client : Client
  pub runs :
      c_wait_server_commands (cl turn.job) (child turn.job) (
        fresh (
          runjob turn.job.dependency_errorlevel (take (pos_part turn.job.num_gpus) turn.job.gpu_ids)
          ∷ list_line (command_line s.logdir)
          ∷ []))
      ≡ goes_on (result_of (child turn.job)).errorlevel client
  pub server : Server
  pub takes :
      read_rounds m w turn.client.conn.socket turn.client.index client.asked
        (told_to_run turn.client.conn turn.job s)
      ≡ ok server
  pub served :
      IsServed turn.client.conn.socket turn.client.index turn.client.conn
        (set_state running turn.job)
        (result_of (child turn.job))
        (started
          (stored_of (cl turn.job) (child turn.job))
          (child turn.job).pid
          (set_state running turn.job))
        (told_to_run turn.client.conn turn.job s)
        server
  pub idle_again : server.busy_slots ≡ pos 0

slots_taken : (n max : ℤ) → pos 1 ≤ℤ n → n ≤ℤ max → IsInt max → add_int (pos 0) n ≡ n
unfolding add_int
slots_taken n max a b i = ground arith

slots_given_back : (n max : ℤ) → pos 1 ≤ℤ n → n ≤ℤ max → IsInt max → sub_int n n ≡ pos 0
unfolding sub_int
slots_given_back n max a b i = ground arith

no_gpus_freed :
    (gpus : ℤ) (ids used : List ℤ) → gpus ≡ pos 0 → broadcast_free_gpus gpus ids used ≡ ok used
unfolding broadcast_free_gpus mark_gpus
no_gpus_freed gpus ids used e = rw e refl

module _ (m : Machine) (w : World) (cl : Job → CommandLine) (child : Job → Child) (s : Server)
    (h : AwaitsTurn w s) (always : (q : Job) → is_true (cl q).require_elevel ≡ false) where
  turn_slots : (t : HasTurn m s) → pos 1 ≤ℤ t.job.num_slots
  turn_slots t = rw t.ready.all_slots h.idle.some_slots

  taken_slots : (t : HasTurn m s) → (told_to_run t.client.conn t.job s).busy_slots ≡ t.job.num_slots
  taken_slots t =
      ap (λ b. add_int b t.job.num_slots) h.idle.no_slots_taken
      ∙ slots_taken t.job.num_slots s.max_slots (turn_slots t) t.plain.fits h.idle.int

  pub told_IsFull : (t : HasTurn m s) → IsFull (told_to_run t.client.conn t.job s)
  told_IsFull t = taken_slots t ∙ t.ready.all_slots

  HasTurn-HadTurn : HasTurn m s → HadTurn m w cl child s
  unfolding max_finished
  HasTurn-HadTurn t =
      let q = t.job in
      let u = told_to_run t.client.conn q s in
      let sound : IsSound u = Ensures-ok IsSound _ (start_next-IsSound m s h.sound) t.starts in
      let slots = taken_slots t in
      let (c', e, s', e', k) =
        run_job-IsServed w t.client.conn.socket t.client.index (cl q) (child q) u t.client.conn
          (set_state running q) u.used_gpus t.client.at_index t.client.of_job
          (running_found q s.jobs t.known) refl t.ready.kept (ground (arith, slots, (turn_slots t)))
          (no_gpus_freed q.num_gpus q.gpu_ids u.used_gpus t.plain.no_gpus) h.room sound.1
          q.dependency_errorlevel (take (pos_part q.num_gpus) q.gpu_ids)
          (not_skipped (cl q) q.dependency_errorlevel (always q)) in
      record {
        turn = t;
        client = c';
        runs = e;
        server = s';
        takes =
            let (a, b, asked) =
              client_asked (cl q) (child q) q.dependency_errorlevel
                (take (pos_part q.num_gpus) q.gpu_ids) s.logdir c' (always q) e in
            ap (λ x. read_rounds m w t.client.conn.socket t.client.index x u) asked
            ∙ read_rounds_full m w t.client.conn.socket t.client.index a (child q).pid b
                (result_of (child q)) u (told_IsFull t)
            ∙ sym (ap (λ x. handle_all w t.client.conn.socket t.client.index x u) asked)
            ∙ e';
        served = k;
        idle_again =
            k.busy_slots
            ∙ ap (λ b. sub_int b q.num_slots) slots
            ∙ slots_given_back q.num_slots s.max_slots (turn_slots t) t.plain.fits h.idle.int;
      }

  pub start_next-HadTurn :
      (free : List ℤ) (id : ℤ) (p : Job)
      → m.gpu_list ≡ some free
      → findjob id s.jobs ≡ some p
      → HadTurn m w cl child s
  start_next-HadTurn free id p gpus found =
      HasTurn-HadTurn (start_next-HasTurn m s free id p h.idle h.sound.1 h.ready gpus found)
