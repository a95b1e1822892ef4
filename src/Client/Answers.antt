-- ===== src/Client/Answers.antt =====
-- client.c with server.c: a client against what the server answers to its request.
use task_spooler.Base.{true, Bool, false, ◌≡◌, ℕ, List, [], ◌∷◌, some, ite, arith}
use task_spooler.Base.Int.{ℤ, minus_one, ℤ_discrete}
use task_spooler.Base.Run.{Run, ok, ◌>>=◌, Ensures, Ensures-mono}
use task_spooler.State.{closed, Text, Reply, Server}
use task_spooler.Jobs.Notices.{send_msg}
use task_spooler.Connections.Requests
use task_spooler.Connections.Requests.{Request, World, handle, getenv}
use task_spooler.CommandLine.{CommandLine}
use task_spooler.Client.{
  Printed, request_error, not_stored, strange_pid, Talk, Client, Ended, goes_on, exits_with, waits,
  lost, recv_msg, recv_whole,
}
use task_spooler.Client.Ask.{
  c_show_label, c_show_cmd, c_get_state, get_output_file, c_show_output_file, c_show_pid,
  c_kill_job, c_move_urgent, c_swap_jobs, c_get_count_running, c_get_max_slots, get_logdir,
  c_get_logdir,
}
use task_spooler.Client.Main.{quietly}
use task_spooler.Client.Settings.{c_get_free_percentage, c_get_env}
use task_spooler.Jobs.Query.{
  s_send_state, s_send_label, s_send_cmd, s_send_output, last_run, tell_output,
  s_count_running_jobs, s_get_max_slots,
}
use task_spooler.Jobs.Order.{s_move_urgent, urge_place, s_swap_jobs, answer_swap}
use task_spooler.Jobs.Wait.{last_added}

-- What was sent to a socket, in the order in which it is read.
unfoldable pub inbox_of : ℤ → List (ℤ × Reply) → List Reply → List Reply
inbox_of socket [] later = later
inbox_of socket ((t, m) ∷ sent) later =
    inbox_of socket sent (ite (ℤ_discrete t socket) (m ∷ later) later)

-- What the server sends to a client for one request.
unfoldable pub answers : World → ℤ → ℕ → Request → Server → Run (List Reply)
unfolding handle inbox_of
answers w socket index r s =
    handle w socket index r (record s { sent = [] }) >>= λ s'. ok (inbox_of socket s'.sent [])

-- A client that has just connected.
abbrev pub fresh : List Reply → Client
fresh inbox = record { inbox = inbox; asked = []; printed = []; killed = []; warnings = 0 }

-- What the user was told of a request that came to nothing: the answer `m` itself, that the output is not
-- stored, or that the PID is none.
abbrev pub ToldOf : Reply → List Printed → Type 0
ToldOf m (request_error n ∷ []) = n ≡ m
ToldOf m (not_stored ∷ []) = Unit
ToldOf m (strange_pid pid ∷ []) = Unit
ToldOf m printed = ⊥

-- The client sent this request alone, read the answer `m`, which is of a kind that it knows, and got a
-- result, or told its user of the refusal.
abbrev pub SettledBy {ℓ} : {A : Type ℓ} → Request → Reply → Ended A → Type 0
SettledBy r m (goes_on a c) = (c.asked ≡ r ∷ []) × (c.warnings ≡ 0) × (c.inbox ≡ [])
SettledBy r m (exits_with code c) =
    (code ≡ minus_one) × (c.asked ≡ r ∷ []) × (c.warnings ≡ 0) × (c.inbox ≡ []) × ToldOf m c.printed
SettledBy r m (waits c) = ⊥
SettledBy r m (lost c) = ⊥

abbrev pub is_closed : Reply → Bool
is_closed closed = true
is_closed m = false

-- The server sent one message, which is not the end of the connection.
abbrev pub Settled {ℓ} : {A : Type ℓ} → Request → List Reply → Talk A → Type 0
Settled r (m ∷ []) t = (is_closed m ≡ false) × SettledBy r m (t (fresh (m ∷ [])))
Settled r [] t = ⊥
Settled r (m ∷ n ∷ rest) t = ⊥

SettledBy-quietly :
    (r : Request) (m : Reply) (t : Talk (Unit {0})) (c : Client)
    → SettledBy r m (t c)
    → SettledBy r m (quietly t c)
SettledBy-quietly r m t c h = ground arith

Settled-quietly :
    (r : Request) (t : Talk (Unit {0})) (inbox : List Reply)
    → Settled r inbox t
    → Settled r inbox (quietly t)
Settled-quietly r t [] h = h
Settled-quietly r t (m ∷ []) h = (h.0, SettledBy-quietly r m t (fresh (m ∷ [])) h.1)
Settled-quietly r t (m ∷ n ∷ rest) h = h

module _ (w : World) (cl : CommandLine) (raw socket : ℤ) (index : ℕ) (s : Server) where
  -- The client `t` against the answers to `r`.
  abbrev pub Answered {ℓ} : {A : Type ℓ} → Request → Talk A → Type 0
  Answered r t = Ensures (λ inbox. Settled r inbox t) (answers w socket index r s)

  pub show_label-Settled : Answered (Requests.get_label cl.jobid) (c_show_label cl)
  unfolding answers inbox_of handle send_msg recv_whole recv_msg s_send_label last_added
      c_show_label
  show_label-Settled = ground arith

  pub show_cmd-Settled : Answered (Requests.get_cmd cl.jobid) (c_show_cmd cl)
  unfolding answers inbox_of handle send_msg recv_whole recv_msg s_send_cmd last_added c_show_cmd
  show_cmd-Settled = ground arith

  pub get_state-Settled : Answered (Requests.get_state cl.jobid) (c_get_state cl)
  unfolding answers inbox_of handle send_msg recv_whole recv_msg s_send_state last_added c_get_state
  get_state-Settled = ground arith

  pub show_output_file-Settled : Answered (Requests.ask_output cl.jobid) (c_show_output_file cl raw)
  unfolding answers inbox_of handle send_msg recv_whole recv_msg s_send_output last_run tell_output
      get_output_file c_show_output_file
  show_output_file-Settled = ground arith

  pub show_pid-Settled : Answered (Requests.ask_output cl.jobid) (c_show_pid cl raw)
  unfolding answers inbox_of handle send_msg recv_whole recv_msg s_send_output last_run tell_output
      get_output_file c_show_pid
  show_pid-Settled = ground arith

  pub kill_job-Settled : Answered (Requests.ask_output cl.jobid) (c_kill_job cl)
  unfolding answers inbox_of handle send_msg recv_whole recv_msg s_send_output last_run tell_output
      get_output_file c_kill_job
  kill_job-Settled = ground arith

  pub move_urgent-Settled : Answered (Requests.urgent cl.jobid) (c_move_urgent cl)
  unfolding answers inbox_of handle send_msg recv_whole recv_msg s_move_urgent urge_place
      c_move_urgent
  move_urgent-Settled = ground arith

  pub swap_jobs-Settled : Answered (Requests.swap_jobs cl.jobid cl.jobid2) (c_swap_jobs cl)
  unfolding answers inbox_of handle send_msg recv_whole recv_msg s_swap_jobs answer_swap c_swap_jobs
  swap_jobs-Settled = ground arith

  pub get_count_running-Settled : Answered Requests.count_running_request c_get_count_running
  unfolding answers inbox_of handle send_msg recv_whole recv_msg s_count_running_jobs
      c_get_count_running
  get_count_running-Settled = ground arith

  pub get_max_slots-Settled : Answered Requests.get_max_slots c_get_max_slots
  unfolding answers inbox_of handle send_msg recv_whole recv_msg s_get_max_slots c_get_max_slots
  get_max_slots-Settled = ground arith

  pub get_free_percentage-Settled : Answered Requests.get_free_perc c_get_free_percentage
  unfolding answers inbox_of handle send_msg recv_whole recv_msg c_get_free_percentage
  get_free_percentage-Settled = ground arith

  pub get_logdir-Settled : Answered Requests.get_logdir c_get_logdir
  unfolding answers inbox_of handle send_msg recv_whole recv_msg get_logdir c_get_logdir
  get_logdir-Settled = ground arith

  pub quietly-Settled : (r : Request) (t : Talk (Unit {0})) → Answered r t → Answered r (quietly t)
  quietly-Settled r t h =
      Ensures-mono (answers w socket index r s) h λ inbox. Settled-quietly r t inbox

  pub get_env-Settled :
      (text : Text) → cl.label ≡ some text → Answered (Requests.get_env text) (c_get_env cl)
  unfolding answers inbox_of handle send_msg recv_whole recv_msg c_get_env
  get_env-Settled text e = ground arith
