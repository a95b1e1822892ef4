-- ===== src/Witnesses/Clients.antt =====
-- The theorems on clients, the command line, the wire and the progress of the queue, at small data.
use task_spooler.Base.{
  ◌≡◌, refl, ℕ, ◌-◌, true, false, List, [], ◌∷◌, ◌++◌, map, some, arith, ℕ_discrete,
}
use task_spooler.Base.Int.{ℤ, pos, ℤ_discrete}
use task_spooler.Base.Run.{ok, Ensures, ◌>>=◌}
use task_spooler.State.{Text, Server, queued, closed}
use task_spooler.Jobs.Find.{findjob}
use task_spooler.Jobs.Schedule.{next_run_job}
use task_spooler.Jobs.Schedule.Progress.{IsIdleServer, Starts, next_run_job-Starts}
use task_spooler.Connections.Requests
use task_spooler.CommandLine.{CommandLine, default_command_line, c_get_state}
use task_spooler.CommandLine.Options
use task_spooler.CommandLine.Options.{Opt, parse_opts}
use task_spooler.CommandLine.Sound.{Usable, parse_opts-Usable}
use task_spooler.CommandLine.Arguments.{Queues, parse_opts-Queues}
use task_spooler.Client.{goes_on, ◌>>◌}
use task_spooler.Client.Ask.{c_kill_all_jobs}
use task_spooler.Client.Show.{c_list_jobs, c_wait_server_lines}
use task_spooler.Client.Queue.{Child, exited}
use task_spooler.Client.Main.{serve_request}
use task_spooler.Client.Answers.{answers, fresh, Answered}
use task_spooler.Client.Questions.{question, serve_request-Answered}
use task_spooler.Client.Kill.{pids, killed_on, kill_all-kills}
use task_spooler.Client.Listing.{listing, printed_on, list_jobs-prints}
use task_spooler.Wire.{returned}
use task_spooler.Wire.Bytes.{pass, pass-all}
use task_spooler.Wire.NewJob.{recv_newjob, header_of, sent_behind}
use task_spooler.Wire.Stream.{IsSendable, recv_newjob-sent_behind}
use task_spooler.Witnesses.Data.{a_job, busy_server, no_gpus, a_world, new_ls}

-- atoi on a text of one digit.
abbrev one_digit : Text → ℤ
one_digit [] = pos 0
one_digit (c ∷ rest) = pos (c - b'0')

-- `-n -U 1-2`.
abbrev swap_options : List Opt
swap_options = Options.no_store ∷ Options.swap (b'1' ∷ b'-' ∷ b'2' ∷ []) ∷ []

parse_opts-Usable_example :
    Ensures Usable (parse_opts one_digit swap_options [] default_command_line)
parse_opts-Usable_example = parse_opts-Usable one_digit swap_options []

-- `-W 1,2 -f ls -l`.
abbrev queue_options : List Opt
queue_options = Options.depend_on_well (b'1' ∷ b',' ∷ b'2' ∷ []) ∷ Options.foreground ∷ []

abbrev ls : Text
ls = b'l' ∷ b's' ∷ []

parse_opts-Queues_example :
    Queues ls
      ((b'-' ∷ b'l' ∷ []) ∷ [])
      (parse_opts one_digit queue_options (ls ∷ (b'-' ∷ b'l' ∷ []) ∷ []) default_command_line)
parse_opts-Queues_example =
    parse_opts-Queues one_digit queue_options ls ((b'-' ∷ b'l' ∷ []) ∷ []) (refl, (refl, tt))

-- `-s 4`.
abbrev ask_state : CommandLine
ask_state = record default_command_line {
  request = c_get_state;
  need_server = pos 1;
  jobid = pos 4;
}

abbrev a_child : Child
a_child = record {
  pid = pos 99;
  ofname = ls;
  status = exited (pos 0);
  user_ms = 0;
  system_ms = 0;
  real_ms = 0;
}

serve_request-Answered_example :
    Answered a_world ask_state
      (pos 0)
      (pos 20)
      1
      busy_server
      (Requests.get_state (pos 4))
      (serve_request ask_state a_child (pos 0))
unfolding question ℤ_discrete ℕ_discrete
serve_request-Answered_example =
    serve_request-Answered a_world ask_state (pos 0) (pos 20) 1 busy_server a_child
      (Requests.get_state (pos 4)) refl refl

kill_all-kills_example :
    (do
      inbox ← answers a_world (pos 20) 1 Requests.kill_all busy_server
      ok (c_kill_all_jobs (fresh inbox)))
    ≡ ok (
        goes_on tt (record (fresh []) {
          asked = Requests.kill_all ∷ [];
          killed = killed_on (pids busy_server.jobs) [];
        }))
kill_all-kills_example = kill_all-kills a_world (pos 20) 1 busy_server

list_jobs-prints_example :
    (do
      inbox ←
          answers a_world
            (pos 20)
            1
            (Requests.list_request default_command_line.list_format)
            busy_server
      ok ((c_list_jobs default_command_line >> c_wait_server_lines) (fresh inbox)))
    ≡ ok (
        goes_on tt (record (fresh (closed ∷ [])) {
          asked = Requests.list_request default_command_line.list_format ∷ [];
          printed = printed_on (listing default_command_line.list_format busy_server) [];
        }))
list_jobs-prints_example =
    list_jobs-prints a_world (pos 20) busy_server
      (record { socket = pos 10; hasjob = true; jobid = pos 4 } ∷ [])
      (record { socket = pos 20; hasjob = false; jobid = pos 0 })
      (record { socket = pos 11; hasjob = true; jobid = pos 6 }
        ∷ record { socket = pos 12; hasjob = true; jobid = pos 7 }
        ∷ [])
      default_command_line refl refl

-- Two bytes, then one at a time.
abbrev small_rooms : List ℕ
small_rooms = 2 ∷ 1 ∷ 1 ∷ 1 ∷ []

pass-all_example :
    (res : ℕ) × (pass (map some small_rooms) (map some small_rooms) (b'a' ∷ b'b' ∷ b'c' ∷ []) ls
      ≡ returned (record { res = some res; buffer = b'a' ∷ b'b' ∷ b'c' ∷ []; wire = ls }))
pass-all_example =
    pass-all small_rooms small_rooms (b'a' ∷ b'b' ∷ b'c' ∷ []) ls
      (omega arith, (omega arith, (omega arith, (omega arith, tt))))
      (omega arith, (omega arith, (omega arith, (omega arith, tt)))) (omega arith) (omega arith)

new_ls-IsSendable : IsSendable new_ls (some ls)
unfolding ℤ_discrete ℕ_discrete
new_ls-IsSendable = record {
  command = (omega arith, (omega arith, tt));
  label = tt;
  environment = (omega arith, (omega arith, tt));
  depend_on = (((omega arith, omega arith), tt), omega arith);
  gpu_ids = (tt, omega arith);
  no_gpu_ids = refl;
}

recv_newjob-sent_behind_example :
    recv_newjob (header_of new_ls (some ls)) (sent_behind new_ls (some ls) ++ ls)
    ≡ ok (new_ls, some ls, ls)
recv_newjob-sent_behind_example = recv_newjob-sent_behind new_ls (some ls) ls new_ls-IsSendable

-- Job 5 waits for job 6, which depends on job 1, and that has ended.
abbrev pub idle_server : Server
idle_server = record busy_server {
  jobs =
      record (a_job (pos 6) queued (pos 1) []) { depend_on = pos 5 ∷ [] }
      ∷ record (a_job (pos 5) queued (pos 1) []) { depend_on = pos 1 ∷ [] }
      ∷ [];
  busy_slots = pos 0;
  max_slots = pos 1;
  max_jobs = pos 10;
  conns =
      record { socket = pos 10; hasjob = true; jobid = pos 5 }
      ∷ record { socket = pos 20; hasjob = false; jobid = pos 0 }
      ∷ record { socket = pos 11; hasjob = true; jobid = pos 6 }
      ∷ [];
}

pub idle_server-IsIdleServer : IsIdleServer idle_server
idle_server-IsIdleServer = record {
  no_slots_taken = refl;
  some_slots = omega arith;
  int = (omega arith, omega arith);
  plain = (
    record {
      idle = refl;
      no_gpus = refl;
      fits = omega arith;
      earlier = (omega arith, tt);
      int = (omega arith, omega arith);
    },
    (
      record {
        idle = refl;
        no_gpus = refl;
        fits = omega arith;
        earlier = (omega arith, tt);
        int = (omega arith, omega arith);
      },
      tt,
    ),
  );
  ended = (refl, tt);
}

next_run_job-Starts_example : Starts (next_run_job no_gpus idle_server)
unfolding findjob
next_run_job-Starts_example =
    next_run_job-Starts no_gpus idle_server [] (pos 6)
      (record (a_job (pos 6) queued (pos 1) []) { depend_on = pos 5 ∷ [] }) idle_server-IsIdleServer
      refl (ground arith) refl
