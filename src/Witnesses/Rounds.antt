-- ===== src/Witnesses/Rounds.antt =====
-- The theorems on server_loop, at the data of Witnesses/Data.antt.
use task_spooler.Base.{ℕ_discrete, ◌≡◌, refl, Bool, List, [], ◌∷◌, arith, true, false}
use task_spooler.Base.Int.{ℤ_discrete, sub_int, pos}
use task_spooler.Base.Run.{Run, ok, exits, fault, Ensures}
use task_spooler.State.{ClientConn, Server}
use task_spooler.Jobs.Find.{findjob, count_not_finished_jobs, update_job, findjob_holding_client}
use task_spooler.Jobs.Keep.{IsSound}
use task_spooler.Connections.Requests.{newjob, endjob, client_read}
use task_spooler.Connections.Rounds.{accept, read_one, start_next}
use task_spooler.Connections.Messages.{client_read-IsSound}
use task_spooler.Connections.Starting.{start_next-IsSound}
use task_spooler.Connections.Reach.{
  initial, CounterLeft, accepts, reads, starts, started, stepped, reachable-IsSound,
}
use task_spooler.Witnesses.Data.{failed, busy_server, no_gpus, a_world, a_setting, new_ls}
use task_spooler.Witnesses.Queue.{busy_server-IsSound}

client_read-IsSound_example :
    Ensures (λ (b, t). IsSound t) (client_read a_world 0 (endjob failed) busy_server)
client_read-IsSound_example =
    client_read-IsSound a_world 0 (endjob failed) busy_server (omega arith) (omega arith) (λ e. cc)
      busy_server-IsSound

start_next-IsSound_example : Ensures IsSound (start_next no_gpus busy_server)
start_next-IsSound_example = start_next-IsSound no_gpus busy_server busy_server-IsSound

abbrev first_conn : ClientConn
first_conn = record { socket = pos 10; hasjob = true; jobid = pos 4 }

abbrev idle_conn : ClientConn
idle_conn = record { socket = pos 20; hasjob = false; jobid = pos 0 }

abbrev later_conns : List ClientConn
later_conns =
    record { socket = pos 11; hasjob = true; jobid = pos 6 }
    ∷ record { socket = pos 12; hasjob = true; jobid = pos 7 }
    ∷ []

-- A client connects, adds a job, and the job starts.
abbrev connected : Server
connected = accept (pos 10) (pos 0) (initial a_setting)

abbrev value : Server → Run Server → Server
value s (ok t) = t
value s exits = s
value s fault = s

abbrev value_1 : Server → Run (Bool × Server) → Server
value_1 s (ok (b, t)) = t
value_1 s exits = s
value_1 s fault = s

abbrev enqueued : Server
enqueued = value_1 connected (read_one a_world 0 (newjob new_ls) connected)

abbrev running_one : Server
running_one = value enqueued (start_next no_gpus enqueued)

connected-CounterLeft : CounterLeft connected
unfolding accept
connected-CounterLeft = (omega arith, omega arith)

reads_newjob : read_one a_world 0 (newjob new_ls) connected ≡ ok (true, enqueued)
unfolding read_one accept ℤ_discrete ℕ_discrete findjob count_not_finished_jobs
reads_newjob = refl

starts_job : start_next no_gpus enqueued ≡ ok running_one
unfolding start_next sub_int read_one accept ℤ_discrete ℕ_discrete findjob count_not_finished_jobs
    update_job findjob_holding_client
starts_job = refl

reachable-IsSound_example : IsSound running_one
reachable-IsSound_example =
    reachable-IsSound a_world a_setting running_one
      (stepped
        (stepped (stepped started (accepts (pos 10) (pos 0) (initial a_setting)))
          (reads 0 (newjob new_ls) true connected enqueued reads_newjob))
        (starts no_gpus enqueued running_one starts_job))
      (((tt, tt), (connected-CounterLeft, λ e. cc)), tt)
