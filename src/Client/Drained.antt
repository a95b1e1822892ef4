-- ===== src/Client/Drained.antt =====
-- server.c with client.c: the turns of all the jobs of a queue.
use task_spooler.Base.{
  false, ℕ, zero, suc, ◌≡◌, refl, sym, ◌∙◌, ap, List, [], ◌∷◌, some, arith, All, length, take,
}
use task_spooler.Base.Int.{ℤ, pos_part}
use task_spooler.Base.Run.{Ensures-ok}
use task_spooler.State.{Job, Server, running}
use task_spooler.Jobs.Find.{findjob}
use task_spooler.Jobs.Notices.{is_true}
use task_spooler.Jobs.Schedule.{Machine, set_state}
use task_spooler.Jobs.Schedule.Progress.{IsPlain}
use task_spooler.Jobs.Keep.{IsSound}
use task_spooler.Jobs.Keep.Others.{Others, All-update, length-update_job}
use task_spooler.Connections.Requests.{World, max_finished}
use task_spooler.Connections.Starting.{start_next-IsSound}
use task_spooler.Connections.Turn.{told_to_run, IsReady, HasTurn}
use task_spooler.Connections.Ended.{All-mono, Bar, Without}
use task_spooler.CommandLine.{CommandLine}
use task_spooler.Client.Queue.{Child}
use task_spooler.Client.Served.{result_of}
use task_spooler.Client.Rounds.{read_rounds, read_rounds_full, client_asked}
use task_spooler.Client.Leaves.{Fine, Fine-tells, IsReady-other, messages-Others}
use task_spooler.Client.Turn.{AwaitsTurn, HadTurn, told_IsFull, start_next-HadTurn}

All-both :
    (P Q R : Job → Type 0) (jobs : List Job)
    → ((p : Job) → P p → Q p → R p)
    → All P jobs
    → All Q jobs
    → All R jobs
All-both P Q R [] f h k = tt
All-both P Q R (p ∷ rest) f (h, hs) (k, ks) = (f p h k, All-both P Q R rest f hs ks)

no_jobs : (jobs : List Job) → length jobs ≡ 0 → jobs ≡ []
no_jobs [] e = refl
no_jobs (p ∷ rest) e = absurd (omega arith)

first_found :
    {n : ℕ} (jobs : List Job) → length jobs ≡ suc n → (p : Job) × (findjob p.jobid jobs ≡ some p)
unfolding findjob
first_found [] e = absurd (omega arith)
first_found (p ∷ rest) e = (p, ground arith)

-- `n` jobs of a queue have their turns, one after the other, each with its own client; the queue is empty
-- then.
pub data Drains (m : Machine) (w : World) (cl : Job → CommandLine) (child : Job → Child)
    : ℕ → Server → Type 0 where
  over : {s : Server} → s.jobs ≡ [] → Drains m w cl child 0 s
  turn :
      {n : ℕ} {s : Server} (h : HadTurn m w cl child s)
      → Drains m w cl child n h.server
      → Drains m w cl child (suc n) s

module _ (m : Machine) (w : World) (cl : Job → CommandLine) (child : Job → Child)
    (always : (q : Job) → is_true (cl q).require_elevel ≡ false) where
  -- The jobs when the client of one has been told to run it.
  told-Others :
      (s : Server) (n : ℕ) (t : HasTurn m s)
      → length s.jobs ≡ suc n
      → AwaitsTurn w s
      → Others
          (Bar t.client.conn.jobid (Fine s))
          (suc n)
          s.max_slots
          s.env
          (told_to_run t.client.conn t.job s)
  told-Others s n t size h = record {
    jobs =
        All-update (Bar t.client.conn.jobid (Fine s)) t.job.jobid (set_state running) s.jobs
          (λ p same _ miss. absurd (miss (same ∙ sym t.client.of_job)))
          (All-both (IsPlain s.max_slots) (IsReady s) (Bar t.client.conn.jobid (Fine s)) s.jobs
            (λ p a b _. (a, b)) h.idle.plain h.ready);
    size = length-update_job t.job.jobid (set_state running) s.jobs ∙ size;
    finished = h.idle.ended;
    max_slots = refl;
    env = refl;
  }

  after_turn :
      (s : Server) (n : ℕ) (k : HadTurn m w cl child s)
      → length s.jobs ≡ suc n
      → AwaitsTurn w s
      → Others (Without k.turn.client.conn.jobid (Fine s)) n s.max_slots s.env k.server
        × IsSound k.server
  after_turn s n k size h =
      let q = k.turn.job in
      let c = k.turn.client.conn in
      let u = told_to_run c q s in
      let (a, b, asked) =
        client_asked (cl q) (child q) q.dependency_errorlevel (take (pos_part q.num_gpus) q.gpu_ids)
          s.logdir k.client (always q) k.runs in
      Ensures-ok _ _
        (messages-Others w c.socket k.turn.client.index a (child q).pid b (result_of (child q)) c
          (Fine-tells s) u k.turn.client.at_index
          (Ensures-ok IsSound _ (start_next-IsSound m s h.sound) k.turn.starts)
          (told-Others s n k.turn size h))
        (sym (
            read_rounds_full m w c.socket k.turn.client.index a (child q).pid b
              (result_of (child q)) u (told_IsFull m w cl child s h always k.turn))
          ∙ sym (ap (λ x. read_rounds m w c.socket k.turn.client.index x u) asked)
          ∙ k.takes)

  -- The server awaits the next turn.
  after_turn-AwaitsTurn :
      (s : Server) (n : ℕ) (k : HadTurn m w cl child s)
      → length s.jobs ≡ suc n
      → AwaitsTurn w s
      → AwaitsTurn w k.server × (length k.server.jobs ≡ n)
  unfolding max_finished
  after_turn-AwaitsTurn s n k size h =
      let (o, sound) = after_turn s n k size h in
      let c = k.turn.client.conn in
      (
        record {
          idle = record {
            no_slots_taken = k.idle_again;
            some_slots = rw o.max_slots h.idle.some_slots;
            int = rw o.max_slots h.idle.int;
            plain = rw o.max_slots (
                All-mono (Without c.jobid (Fine s)) (IsPlain s.max_slots) k.server.jobs
                  (λ p x. x.0.0) o.jobs);
            ended = o.finished;
          };
          sound = sound;
          ready =
              All-mono (Without c.jobid (Fine s)) (IsReady k.server) k.server.jobs
                (λ p x.
                  IsReady-other s k.server k.turn.client.index c p k.turn.client.at_index
                    k.served.conns o.max_slots x.1 x.0.1)
                o.jobs;
          room = rw o.env h.room;
        },
        o.size,
      )

  -- The queue of an idle server is emptied, one job at a time, in rounds of server_loop in which no
  -- other message comes in and no connection ends. There is a list of GPUs, and no client asks to
  -- skip its job after an error. The server is sound, no slot is taken, at least one exists, room
  -- is left for two finished jobs, and those there are have ended. Each job of the queue waits,
  -- wants no GPUs, takes all the slots that there are, is to be kept, has an int as its jobid and a
  -- connection, and depends on earlier jobs only. Then, once for each job of the queue, the end of
  -- a round succeeds and tells the client of a job to run it; the client runs its child and ends
  -- with the error level of its child; and the server reads the messages that the client sent in
  -- rounds that go on, one message in each, and looks for a job to start at the end of each round.
  -- After the last message the job has ended with the child's result, each client that waits for it
  -- has been told, and no slot is taken; the end of that round is the one that starts the next job.
  -- After the last job the queue is empty.
  pub queue-Drains :
      (s : Server) (free : List ℤ)
      → m.gpu_list ≡ some free
      → AwaitsTurn w s
      → Drains m w cl child (length s.jobs) s
  queue-Drains s free gpus h = go (length s.jobs) s refl h
    where
      go : (n : ℕ) (s : Server) → length s.jobs ≡ n → AwaitsTurn w s → Drains m w cl child n s
      go zero s e h = over (no_jobs s.jobs e)
      go (suc n) s e h =
          let (p, found) = first_found s.jobs e in
          let k = start_next-HadTurn m w cl child s h always free p.jobid p gpus found in
          let (h', size) = after_turn-AwaitsTurn s n k e h in turn k (go n k.server size h')
