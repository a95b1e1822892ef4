-- ===== src/Client/Questions.antt =====
-- main.c and client.c with server.c: the requests that are one question, from the command line to the answer.
use mathlib.Core.Option
use task_spooler.Base.{◌≡◌, refl, subst, ℕ, true, Option, none, some}
use task_spooler.Base.Int.{ℤ}
use task_spooler.State.{Text, Server}
use task_spooler.Jobs.Notices.{is_true}
use task_spooler.Connections.Requests
use task_spooler.Connections.Requests.{Request, World}
use task_spooler.CommandLine.{
  ClientRequest, CommandLine, c_get_env, c_get_label, c_show_cmd, c_get_state, c_show_output_file,
  c_show_pid, c_kill_job, c_urgent, c_swap_jobs, c_count_running, c_get_max_slots, c_get_free_perc,
  c_get_logdir,
}
use task_spooler.Client.{Talk}
use task_spooler.Client.Ask
use task_spooler.Client.Settings
use task_spooler.Client.Main.{quietly, with_server, serve, serve_request}
use task_spooler.Client.Queue.{Child}
use task_spooler.Client.Answers
use task_spooler.Client.Answers.{Answered, Settled, answers, fresh}

-- The question that a command line asks, where it asks one.
unfoldable pub question : ClientRequest → CommandLine → Option Request
question c_get_label cl = some (Requests.get_label cl.jobid)
question c_show_cmd cl = some (Requests.get_cmd cl.jobid)
question c_get_state cl = some (Requests.get_state cl.jobid)
question c_show_output_file cl = some (Requests.ask_output cl.jobid)
question c_show_pid cl = some (Requests.ask_output cl.jobid)
question c_kill_job cl = some (Requests.ask_output cl.jobid)
question c_urgent cl = some (Requests.urgent cl.jobid)
question c_swap_jobs cl = some (Requests.swap_jobs cl.jobid cl.jobid2)
question c_count_running cl = some Requests.count_running_request
question c_get_max_slots cl = some Requests.get_max_slots
question c_get_free_perc cl = some Requests.get_free_perc
question c_get_logdir cl = some Requests.get_logdir
question c_get_env cl = Option.map Requests.get_env cl.label
question q cl = none

module _ (w : World) (cl : CommandLine) (raw socket : ℤ) (index : ℕ) (s : Server) where
  abbrev AnsweredIf : Option Request → Talk ℤ → Type 0
  AnsweredIf none t = Unit
  AnsweredIf (some r) t = Answered w cl raw socket index s r t

  with_server-Settled :
      (r : Request) (t : Talk (Unit {0}))
      → is_true cl.need_server ≡ true
      → Answered w cl raw socket index s r t
      → Answered w cl raw socket index s r (with_server cl (quietly t))
  with_server-Settled r t n h = rw n (Answers.quietly-Settled w cl raw socket index s r t h)

  get_env-AnsweredIf :
      is_true cl.need_server ≡ true
      → (o : Option Text) → cl.label ≡ o
      → AnsweredIf
          (Option.map Requests.get_env o)
          (with_server cl (quietly (Settings.c_get_env cl)))
  get_env-AnsweredIf n none e = tt
  get_env-AnsweredIf n (some text) e =
      with_server-Settled (Requests.get_env text) (Settings.c_get_env cl) n
        (Answers.get_env-Settled w cl raw socket index s text e)

  serve-AnsweredIf :
      (q : ClientRequest) (child : Child)
      → is_true cl.need_server ≡ true
      → AnsweredIf (question q cl) (serve q cl child raw)
  unfolding question serve
  serve-AnsweredIf c_get_label child n =
      with_server-Settled (Requests.get_label cl.jobid) (Ask.c_show_label cl) n
        (Answers.show_label-Settled w cl raw socket index s)
  serve-AnsweredIf c_show_cmd child n =
      with_server-Settled (Requests.get_cmd cl.jobid) (Ask.c_show_cmd cl) n
        (Answers.show_cmd-Settled w cl raw socket index s)
  serve-AnsweredIf c_get_state child n =
      with_server-Settled (Requests.get_state cl.jobid) (Ask.c_get_state cl) n
        (Answers.get_state-Settled w cl raw socket index s)
  serve-AnsweredIf c_show_output_file child n =
      with_server-Settled (Requests.ask_output cl.jobid) (Ask.c_show_output_file cl raw) n
        (Answers.show_output_file-Settled w cl raw socket index s)
  serve-AnsweredIf c_show_pid child n =
      with_server-Settled (Requests.ask_output cl.jobid) (Ask.c_show_pid cl raw) n
        (Answers.show_pid-Settled w cl raw socket index s)
  serve-AnsweredIf c_kill_job child n =
      with_server-Settled (Requests.ask_output cl.jobid) (Ask.c_kill_job cl) n
        (Answers.kill_job-Settled w cl raw socket index s)
  serve-AnsweredIf c_urgent child n =
      with_server-Settled (Requests.urgent cl.jobid) (Ask.c_move_urgent cl) n
        (Answers.move_urgent-Settled w cl raw socket index s)
  serve-AnsweredIf c_swap_jobs child n =
      with_server-Settled (Requests.swap_jobs cl.jobid cl.jobid2) (Ask.c_swap_jobs cl) n
        (Answers.swap_jobs-Settled w cl raw socket index s)
  serve-AnsweredIf c_count_running child n =
      with_server-Settled Requests.count_running_request Ask.c_get_count_running n
        (Answers.get_count_running-Settled w cl raw socket index s)
  serve-AnsweredIf c_get_max_slots child n =
      Answers.quietly-Settled w cl raw socket index s Requests.get_max_slots Ask.c_get_max_slots
        (Answers.get_max_slots-Settled w cl raw socket index s)
  serve-AnsweredIf c_get_free_perc child n =
      with_server-Settled Requests.get_free_perc Settings.c_get_free_percentage n
        (Answers.get_free_percentage-Settled w cl raw socket index s)
  serve-AnsweredIf c_get_logdir child n =
      Answers.quietly-Settled w cl raw socket index s Requests.get_logdir Ask.c_get_logdir
        (Answers.get_logdir-Settled w cl raw socket index s)
  serve-AnsweredIf c_get_env child n = get_env-AnsweredIf n cl.label refl
  serve-AnsweredIf q child n = tt

  -- A client that asks one question, with a server needed: where the server goes on, it sends one
  -- message, which is not the end of the connection. The client sends its request alone, reads that
  -- answer and waits for no more, and knows its kind, for it warns of none. It ends with a result;
  -- or with the error level -1, having told its user the answer that refuses the request, that the
  -- output is not stored, or that the PID is none. The questions are those for the label, the
  -- command, the state, the output file and the PID of a job, to kill, urge or swap jobs, and for
  -- the number of running jobs, the slots, the free percentage, the log directory and a variable of
  -- the environment.
  pub serve_request-Answered :
      (child : Child) (r : Request)
      → question cl.request cl ≡ some r
      → is_true cl.need_server ≡ true
      → Answered w cl raw socket index s r (serve_request cl child raw)
  unfolding serve_request
  serve_request-Answered child r e n =
      subst (λ o. AnsweredIf o (serve cl.request cl child raw)) e
        (serve-AnsweredIf cl.request child n)
