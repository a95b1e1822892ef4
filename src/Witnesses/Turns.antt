-- ===== src/Witnesses/Turns.antt =====
-- The theorems on the turns of jobs, at the data of Witnesses/Clients.antt.
use task_spooler.Base.{◌∷◌, false, refl, [], arith, ℕ_discrete}
use task_spooler.Base.Int.{pos, ℤ_discrete, ◌≤ℤ◌}
use task_spooler.Base.Strings.{codes}
use task_spooler.State.{Job}
use task_spooler.Jobs.Slots.{Accounted, slots_in_use}
use task_spooler.Jobs.Lookup.{count}
use task_spooler.Jobs.Ids.{IsDistinct, IsBelow}
use task_spooler.Jobs.Finish.{get_max_finished_jobs}
use task_spooler.Connections.{get_conn_of_jobid, find_conn}
use task_spooler.Connections.Requests.{max_finished, getenv}
use task_spooler.CommandLine.{default_command_line}
use task_spooler.Client.Queue.{Child, exited}
use task_spooler.Client.Turn.{AwaitsTurn}
use task_spooler.CommandLine.{CommandLine}
use task_spooler.Jobs.Find.{count_not_finished_jobs}
use task_spooler.Client.Queue.{newjob_of, append_arguments}
use task_spooler.Connections.Queued.{IsSimple}
use task_spooler.Client.Enqueued.{message_of, IsQueued, newjob-Drains}
use task_spooler.Client.Drained.{Drains, queue-Drains}
use task_spooler.Witnesses.Data.{a_world, no_gpus}
use task_spooler.Witnesses.Clients.{idle_server, idle_server-IsIdleServer}

abbrev child_of : Job → Child
child_of q = record {
  pid = pos 99;
  ofname = codes "/tmp/ts-out.abcdef";
  status = exited (pos 3);
  user_ms = 0;
  system_ms = 0;
  real_ms = 7;
}

idle_server-Accounted : Accounted idle_server
unfolding slots_in_use
idle_server-Accounted = refl

idle_server-IsDistinct : IsDistinct idle_server
unfolding count
idle_server-IsDistinct id = ground arith

idle_server-IsBelow : IsBelow idle_server
unfolding count
idle_server-IsBelow id h = ground arith

idle_server-room : pos 2 ≤ℤ max_finished a_world idle_server
unfolding max_finished getenv get_max_finished_jobs
idle_server-room = omega arith

idle_server-AwaitsTurn : AwaitsTurn a_world idle_server
unfolding get_conn_of_jobid find_conn ℤ_discrete ℕ_discrete
idle_server-AwaitsTurn = record {
  idle = idle_server-IsIdleServer;
  sound = (idle_server-Accounted, idle_server-IsDistinct, idle_server-IsBelow);
  ready = (
    record { waits = refl; all_slots = refl; kept = refl; index = 2; client = refl },
    (record { waits = refl; all_slots = refl; kept = refl; index = 0; client = refl }, tt),
  );
  room = idle_server-room;
}

queue-Drains_example : Drains no_gpus a_world (λ q. default_command_line) child_of 2 idle_server
unfolding ℤ_discrete ℕ_discrete
queue-Drains_example =
    queue-Drains no_gpus a_world (λ q. default_command_line) child_of (λ q. refl) idle_server []
      refl idle_server-AwaitsTurn

-- `ts ls`, on a connection that is there.
abbrev ls_line : CommandLine
ls_line = record default_command_line { command = codes "ls" ∷ [] }

ls_line-IsSimple : IsSimple (message_of ls_line (codes "ls") []) idle_server
unfolding newjob_of append_arguments count_not_finished_jobs ℤ_discrete ℕ_discrete
ls_line-IsSimple = record {
  no_deps = refl;
  no_gpus = refl;
  free_gpus = refl;
  all_slots = refl;
  kept = refl;
  room = omega arith;
  not_negative = omega arith;
  counter_left = omega arith;
}

newjob-Drains_example :
    IsQueued no_gpus a_world
      (λ q. default_command_line)
      child_of
      ls_line
      (codes "ls")
      []
      1
      (record { socket = pos 20; hasjob = false; jobid = pos 0 })
      idle_server
unfolding ℤ_discrete ℕ_discrete
newjob-Drains_example =
    newjob-Drains no_gpus a_world (λ q. default_command_line) child_of ls_line (codes "ls") [] 1
      (record { socket = pos 20; hasjob = false; jobid = pos 0 }) idle_server [] (λ q. refl) refl
      refl refl ls_line-IsSimple refl refl idle_server-AwaitsTurn
