-- ===== src/Client/Enqueued.antt =====
-- client.c with server.c: a client that queues a job on an idle server.
use task_spooler.Base.{
  true, ℕ, suc, ◌≡◌, refl, subst, false, List, [], ◌∷◌, some, arith, length, length-append,
  get_elem?,
}
use task_spooler.Base.Int.{ℤ}
use task_spooler.Base.Run.{ok, Ensures-ok}
use task_spooler.State.{Text, Job, ClientConn, Server, newjob_ok}
use task_spooler.Jobs.Notices.{is_true}
use task_spooler.Jobs.NewJob.{NewJobMsg}
use task_spooler.Jobs.Schedule.{Machine}
use task_spooler.Jobs.Keep.{IsSound}
use task_spooler.Connections.Requests
use task_spooler.Connections.Requests.{World, handle, max_finished}
use task_spooler.Connections.Sound.{read_newjob-IsSound}
use task_spooler.Connections.Queued.{IsSimple, with_job, newjob_lem, with_job-IsReady}
use task_spooler.CommandLine.{CommandLine}
use task_spooler.Client.{Client, goes_on, ◌>>◌, recv_msg}
use task_spooler.Client.Answers.{fresh}
use task_spooler.Client.Queue.{
  Child, append_arguments, build_command_string, sent_gpu_ids, newjob_of, c_new_job,
  c_wait_newjob_ok,
}
use task_spooler.Client.Turn.{AwaitsTurn}
use task_spooler.Client.Drained.{Drains, queue-Drains}

-- What the client sends for a command.
abbrev pub message_of : CommandLine → Text → List Text → NewJobMsg
message_of cl a rest = newjob_of cl (append_arguments a rest) []

client_queues :
    (cl : CommandLine) (a : Text) (rest : List Text) (jobid : ℤ)
    → cl.command ≡ a ∷ rest
    → is_true cl.wait_free_gpus ≡ true
    → (c_new_job cl >> c_wait_newjob_ok) (fresh (newjob_ok jobid ∷ []))
      ≡ goes_on jobid (record (fresh []) { asked = Requests.newjob (message_of cl a rest) ∷ [] })
unfolding c_new_job c_wait_newjob_ok build_command_string sent_gpu_ids recv_msg
client_queues cl a rest jobid e f = rw (e, f) refl

length-with_job :
    (w : World) (m : NewJobMsg) (s : Server) (index : ℕ) (c : ClientConn)
    → length (with_job w m index c s).jobs ≡ suc (length s.jobs)
length-with_job w m s index c = omega (arith, length-append s.jobs _)

module _ (w : World) (m : NewJobMsg) (s : Server) (h : IsSimple m s) (index : ℕ) (c : ClientConn)
    (at : get_elem? s.conns index ≡ some c) (free : c.hasjob ≡ false)
    (awaits : AwaitsTurn w s) where
  with_job-IsSound : IsSound (with_job w m index c s)
  unfolding handle
  with_job-IsSound =
      Ensures-ok IsSound _
        (read_newjob-IsSound w index m s h.not_negative h.counter_left awaits.sound)
        (newjob_lem w m s h index c awaits.sound.2 at)

  with_job-AwaitsTurn : AwaitsTurn w (with_job w m index c s)
  unfolding max_finished
  with_job-AwaitsTurn =
      let (plain, ready) =
        with_job-IsReady w m s h index c at free awaits.sound.2 awaits.idle.plain awaits.ready in
      record {
        idle = record {
          no_slots_taken = awaits.idle.no_slots_taken;
          some_slots = awaits.idle.some_slots;
          int = awaits.idle.int;
          plain = plain;
          ended = awaits.idle.ended;
        };
        sound = with_job-IsSound;
        ready = ready;
        room = awaits.room;
      }

-- A client that asks for a job, and what comes of it: it is told the jobid, and the queue with its job is
-- emptied.
pub record IsQueued (m : Machine) (w : World) (run : Job → CommandLine) (child : Job → Child)
    (cl : CommandLine) (a : Text) (rest : List Text) (index : ℕ) (c : ClientConn) (s : Server)
    : Type 0 where
  pub server : Server
  pub client : Client
  pub told :
      (c_new_job cl >> c_wait_newjob_ok) (fresh (newjob_ok s.jobids ∷ [])) ≡ goes_on s.jobids client
  pub asked : client.asked ≡ Requests.newjob (message_of cl a rest) ∷ []
  pub takes : handle w c.socket index (Requests.newjob (message_of cl a rest)) s ≡ ok server
  pub sent : server.sent ≡ (c.socket, newjob_ok s.jobids) ∷ s.sent
  pub drains : Drains m w run child (suc (length s.jobs)) server

-- A client with a command, whose job depends on none, wants no GPUs, is to be kept and takes all
-- the slots that there are, asks for it on a connection without a job. There is a list of GPUs, and
-- no client asks to skip its job after an error. The server is sound, no slot is taken, at least
-- one exists, room is left for two finished jobs, and those there are have ended. Each job of its
-- queue waits, wants no GPUs, takes all the slots that there are, is to be kept, has an int as its
-- jobid and a connection, and depends on earlier jobs only; it has room for one more job in its
-- queue, and the counter of the jobids is not negative and below the greatest int. Then the client
-- sends the NEWJOB message, which the server handles; the client is told the jobid, and returns it;
-- and the server empties its queue with the new job in it, in one turn more than it had jobs
-- before. A turn is the start of a job at the end of a round, and the rounds in which the messages
-- of its client are read, with no other message and no end of a connection in between.
pub newjob-Drains :
    (m : Machine) (w : World) (run : Job → CommandLine) (child : Job → Child) (cl : CommandLine)
    (a : Text) (rest : List Text) (index : ℕ) (c : ClientConn) (s : Server) (gpus : List ℤ)
    → ((q : Job) → is_true (run q).require_elevel ≡ false)
    → m.gpu_list ≡ some gpus
    → cl.command ≡ a ∷ rest
    → is_true cl.wait_free_gpus ≡ true
    → IsSimple (message_of cl a rest) s
    → get_elem? s.conns index ≡ some c
    → c.hasjob ≡ false
    → AwaitsTurn w s
    → IsQueued m w run child cl a rest index c s
newjob-Drains m w run child cl a rest index c s gpus always list command waits h at free awaits =
    let msg = message_of cl a rest in
    let t = with_job w msg index c s in
    record {
      server = t;
      client = record (fresh []) { asked = Requests.newjob msg ∷ [] };
      told = client_queues cl a rest s.jobids command waits;
      asked = refl;
      takes = newjob_lem w msg s h index c awaits.sound.2 at;
      sent = refl;
      drains =
          subst (λ n. Drains m w run child n t) (length-with_job w msg s index c)
            (queue-Drains m w run child always t gpus list
              (with_job-AwaitsTurn w msg s h index c at free awaits));
    }
