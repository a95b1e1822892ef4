-- ===== src/Start.antt =====
-- server.c: the settings that a server starts with, from its environment and the limits of the system.
pub mod Settings
pub mod Connect
use task_spooler.Base.{ℕ, ◌-◌, Option, none, some, List, [], ◌∷◌, if◌then◌else◌, ite}
use task_spooler.Base.Int.{ℤ, pos, sub_ℕ, wrap, abs, ltb_ℤ, leb_ℤ, sub_int, ◌≤ℤ◌}
use task_spooler.Base.Run.{Run, ok, exits, ◌>>=◌, Ensures}
use task_spooler.State.{Text, Server}
use task_spooler.Jobs.Query.{s_set_max_slots}
use task_spooler.Connections.Requests.{getenv}
use task_spooler.Connections.Reach.{Setting, initial}

abbrev pub ts_slots : Text
ts_slots = b'T' ∷ b'S' ∷ b'_' ∷ b'S' ∷ b'L' ∷ b'O' ∷ b'T' ∷ b'S' ∷ []

abbrev pub ts_maxconn : Text
ts_maxconn = b'T' ∷ b'S' ∷ b'_' ∷ b'M' ∷ b'A' ∷ b'X' ∷ b'C' ∷ b'O' ∷ b'N' ∷ b'N' ∷ []

abbrev pub tmpdir : Text
tmpdir = b'T' ∷ b'M' ∷ b'P' ∷ b'D' ∷ b'I' ∷ b'R' ∷ []

abbrev pub slash_tmp : Text
slash_tmp = b'/' ∷ b't' ∷ b'm' ∷ b'p' ∷ []

unfoldable pub set_default_maxslots : (Text → ℤ) → Server → Server
unfolding getenv s_set_max_slots abs
set_default_maxslots atoi s = elim (getenv ts_slots s.env) [
  | none ↦ s
  | some str ↦ s_set_max_slots (abs (atoi str)) s
]

unfoldable pub initialize_log_dir : Server → Server
unfolding getenv
initialize_log_dir s = elim (getenv tmpdir s.env) [
  | none ↦ record s { logdir = slash_tmp }
  | some dir ↦ record s { logdir = dir }
]

abbrev margin : ℕ
margin = 5

abbrev pub fd_setsize : ℕ
fd_setsize = 1024

-- The limit on open files, an unsigned long, goes into an `int`; none where getrlimit fails.
abbrev pub limit_of : Option ℕ → ℤ
limit_of none = pos 1000
limit_of (some rlim_cur) = wrap (sub_ℕ rlim_cur margin)

abbrev pub user_limit : (Text → ℤ) → Option Text → ℤ → ℤ
user_limit atoi none max = max
user_limit atoi (some str) max = if ltb_ℤ (abs (atoi str)) max then abs (atoi str) else max

abbrev pub select_limit : ℤ → ℤ
select_limit max = if ltb_ℤ (pos fd_setsize) max then pos (fd_setsize - margin) else max

unfoldable pub get_max_descriptors : (Text → ℤ) → List (Text × Text) → Option ℕ → Run ℤ
unfolding getenv wrap abs
get_max_descriptors atoi env rlimit =
    let max = select_limit (user_limit atoi (getenv ts_maxconn env) (limit_of rlimit)) in
    if ltb_ℤ max (pos 1) then exits else ok max

-- server_main up to its loop, for a machine of `total` GPUs. The globals begin with one slot.
unfoldable pub server_main : (Text → ℤ) → List (Text × Text) → Option ℕ → ℕ → Run Server
unfolding get_max_descriptors set_default_maxslots initialize_log_dir sub_int
server_main atoi env rlimit total = do
  max_descriptors ← get_max_descriptors atoi env rlimit
  let c : Setting = record {
    max_slots = pos 1;
    max_jobs = sub_int max_descriptors (pos 5);
    env = env;
    num_total_gpus = total;
    logdir = [];
  }
  ok (initialize_log_dir (set_default_maxslots atoi (initial c)))
