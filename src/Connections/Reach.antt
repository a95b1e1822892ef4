-- ===== src/Connections/Reach.antt =====
-- The states that server_loop can reach.
use task_spooler.Base.{ℕ, ◌^◌, ◌-◌, ◌≡◌, refl, Bool, true, false, List, [], arith, replicate}
use task_spooler.Base.Int.{ℤ, pos, ◌≤ℤ◌, ◌<ℤ◌}
use task_spooler.Base.Run.{ok, ◌>>=◌, Ensures, Ensures-step, Ensures-ok}
use task_spooler.State.{Text, Server}
use task_spooler.Jobs.Slots.{slots_in_use}
use task_spooler.Jobs.Lookup.{count}
use task_spooler.Jobs.Schedule.{Machine}
use task_spooler.Jobs.Keep.{IsSound, Keeps-IsSound}
use task_spooler.Connections.{conn_at, clean_after_client_disappeared}
use task_spooler.Connections.Requests.{
  World, Request, Break, brk, nobreak, close, max_finished, client_read,
}
use task_spooler.Connections.Sound.{IsIdleAt, conns-Keeps, clean_after_client_disappeared-Keeps}
use task_spooler.Connections.Messages.{closes, client_read-IsSound}
use task_spooler.Connections.Starting.{start_next-IsSound}
use task_spooler.Connections.Rounds.{accept, read_one, start_next}

-- What the environment and the command line give a server: TS_SLOTS, the limit of the queue, the
-- environment, the number of GPUs and the directory of the output files.
pub record Setting : Type 0 where
  pub max_slots : ℤ
  pub max_jobs : ℤ
  pub env : List (Text × Text)
  pub num_total_gpus : ℕ
  pub logdir : Text

-- The globals as a server starts, before any client.
abbrev pub initial : Setting → Server
initial c = record {
  jobs = [];
  first_finished = [];
  jobids = pos 0;
  last_errorlevel = pos 0;
  last_finished_jobid = pos 0;
  notifies = [];
  busy_slots = pos 0;
  max_slots = c.max_slots;
  max_jobs = c.max_jobs;
  env = c.env;
  used_gpus = replicate c.num_total_gpus (pos 0);
  conns = [];
  logdir = c.logdir;
  free_percentage = pos 90;
  sent = [];
}

-- The counter of the jobids has not come to the end of an int.
abbrev pub CounterLeft : Server → Type 0
CounterLeft s = (pos 0 ≤ℤ s.jobids) × (s.jobids <ℤ pos (2 ^ 31 - 1))

-- What a round of server_loop does, one part at a time: it accepts a client, it reads a message of
-- one, or it looks for a job to start.
pub data Step (w : World) : Server → Server → Type 0 where
  accepts : (socket jobid : ℤ) (s : Server) → Step w s (accept socket jobid s)
  reads :
      (index : ℕ) (r : Request) (go : Bool) (s t : Server)
      → read_one w index r s ≡ ok (go, t)
      → Step w s t
  starts : (m : Machine) (s t : Server) → start_next m s ≡ ok t → Step w s t

pub data Reachable (w : World) (c : Setting) : Server → Type 0 where
  started : Reachable w c (initial c)
  stepped : {s t : Server} → Reachable w c s → Step w s t → Reachable w c t

-- A message is read while the counter of the jobids has not come to its end, and one after which the
-- connection is closed comes on a connection without a job.
abbrev pub IsRegularStep : {w : World} {s t : Server} → Step w s t → Type 0
IsRegularStep (accepts socket jobid s) = Unit
IsRegularStep (reads index r go s t e) = CounterLeft s × (closes r ≡ true → IsIdleAt index s.conns)
IsRegularStep (starts m s t e) = Unit

-- Each message on the way was read so.
abbrev pub IsRegular : {w : World} {c : Setting} {s : Server} → Reachable w c s → Type 0
IsRegular started = Unit
IsRegular (stepped h k) = IsRegular h × IsRegularStep k

initial-IsSound : (c : Setting) → IsSound (initial c)
unfolding slots_in_use count
initial-IsSound c = (refl, (λ id. omega arith), λ id h. absurd (omega (arith, h)))

-- A message that comes in, and the end of the connection if it is unknown.
pub read_one-IsSound :
    (w : World) (index : ℕ) (r : Request) (s : Server)
    → CounterLeft s
    → (closes r ≡ true → IsIdleAt index s.conns)
    → IsSound s
    → Ensures (λ (go, t). IsSound t) (read_one w index r s)
unfolding read_one
read_one-IsSound w index r s left idle h =
    Ensures-step _ (client_read w index r s) _ λ (b, t) e.
      after b t (Ensures-ok _ _ (client_read-IsSound w index r s left.0 left.1 idle h) e)
  where
    after :
        (b : Break) (t : Server)
        → IsSound t
        → Ensures
            (λ (go, u). IsSound u)
            (elim b [
              | brk ↦ ok (false, t)
              | nobreak ↦ ok (true, t)
              | close ↦ do
                c ← conn_at index t
                u ← clean_after_client_disappeared (max_finished w t) c.socket index t
                ok (true, u)
            ])
    after brk t k = k
    after nobreak t k = k
    after close t k = Ensures-step _ (conn_at index t) _ λ c e.
        Ensures-step _ (clean_after_client_disappeared (max_finished w t) c.socket index t) _
          λ u e'.
            Keeps-IsSound
              (Ensures-ok _ _
                (clean_after_client_disappeared-Keeps (max_finished w t) c.socket index t) e')
              k

Step-IsSound : (w : World) (s t : Server) (k : Step w s t) → IsRegularStep k → IsSound s → IsSound t
unfolding accept
Step-IsSound w s t (accepts socket jobid _) regular h =
    Keeps-IsSound (conns-Keeps s (accept socket jobid s).conns) h
Step-IsSound w s t (reads index r go _ _ e) (left, idle) h =
    Ensures-ok _ _ (read_one-IsSound w index r s left idle h) e
Step-IsSound w s t (starts m _ _ e) regular h = Ensures-ok IsSound _ (start_next-IsSound m s h) e

-- In each state that the server reaches by accepting clients, reading messages and starting jobs,
-- in any order, busy_slots is the sum of the slots of the running jobs, no two jobs have the same
-- jobid, and each jobid was given out by the counter. This is so if on the way each message was
-- read while the counter of the jobids was not negative and below the greatest int, and each
-- message after which the connection is closed came on a connection without a job.
pub reachable-IsSound :
    (w : World) (c : Setting) (s : Server) (run : Reachable w c s) → IsRegular run → IsSound s
reachable-IsSound w c s started regular = initial-IsSound c
reachable-IsSound w c s (stepped {s = r} h k) (before, last) =
    Step-IsSound w r s k last (reachable-IsSound w c r h before)
