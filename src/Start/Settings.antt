-- ===== src/Start/Settings.antt =====
-- server.c: what server_main leaves for its loop.
use task_spooler.Base.{
  ◌≡◌, refl, ℕ, ◌-◌, Option, none, some, List, [], arith, ap, ◌∙◌, Bool-cases, inl, inr,
  if◌then◌else◌,
}
use task_spooler.Base.Int.{ℤ, pos, ◌≤ℤ◌, ltb_ℤ, sub_int, wrap, abs}
use task_spooler.Base.Run.{ok, exits, Ensures, Ensures-step, Ensures-ok}
use task_spooler.State.{Text, Server}
use task_spooler.Jobs.Query.{s_set_max_slots}
use task_spooler.Connections.Requests.{getenv}
use task_spooler.Connections.Reach.{Setting, initial}
use task_spooler.Start.{
  fd_setsize, ts_slots, ts_maxconn, tmpdir, slash_tmp, select_limit, user_limit, limit_of,
  get_max_descriptors, set_default_maxslots, initialize_log_dir, server_main,
}

-- A number of descriptors that select can watch.
abbrev IsWatchable : ℤ → Type 0
IsWatchable n = (pos 1 ≤ℤ n) × (n ≤ℤ pos fd_setsize)

select_limit-IsWatchable :
    (max : ℤ)
    → Ensures IsWatchable
        (if ltb_ℤ (select_limit max) (pos 1) then exits else ok (select_limit max))
select_limit-IsWatchable max = ground arith

get_max_descriptors-IsWatchable :
    (atoi : Text → ℤ) (env : List (Text × Text)) (rlimit : Option ℕ)
    → Ensures IsWatchable (get_max_descriptors atoi env rlimit)
unfolding get_max_descriptors
get_max_descriptors-IsWatchable atoi env rlimit =
    select_limit-IsWatchable (user_limit atoi (getenv ts_maxconn env) (limit_of rlimit))

max_jobs_within : (n : ℤ) → IsWatchable n → sub_int n (pos 5) ≤ℤ pos (fd_setsize - 5)
unfolding sub_int wrap
max_jobs_within n h = ground arith

-- The globals of a server before any client, at least one slot, and jobs for which there are
-- descriptors.
abbrev pub IsStarted : Server → Type 0
IsStarted s =
    (c : Setting) × ((s ≡ initial c)
      × ((pos 1 ≤ℤ c.max_slots) × (c.max_jobs ≤ℤ pos (fd_setsize - 5))))

slots_from :
    (atoi : Text → ℤ) (c : Setting) (o : Option Text)
    → getenv ts_slots c.env ≡ o
    → c.max_slots ≡ pos 1
    → (n : ℤ) × ((set_default_maxslots atoi (initial c) ≡ initial (record c { max_slots = n }))
        × (pos 1 ≤ℤ n))
unfolding set_default_maxslots s_set_max_slots
slots_from atoi c none e one = (c.max_slots, (rw (set_default_maxslots, e) refl, ground arith))
slots_from atoi c (some str) e one = elim (Bool-cases (ltb_ℤ (pos 0) (abs (atoi str)))) [
  | inl positive ↦
      (abs (atoi str), (rw (set_default_maxslots, s_set_max_slots, e, positive) refl, ground arith))
  | inr other ↦
      (c.max_slots, (rw (set_default_maxslots, s_set_max_slots, e, other) refl, ground arith))
]

dir_from :
    (c : Setting) (o : Option Text)
    → getenv tmpdir c.env ≡ o
    → (dir : Text) × (initialize_log_dir (initial c) ≡ initial (record c { logdir = dir }))
unfolding initialize_log_dir
dir_from c none e = (slash_tmp, rw (initialize_log_dir, e) refl)
dir_from c (some dir) e = (dir, rw (initialize_log_dir, e) refl)

-- Whatever the environment and the limit on open files are, where server_main comes to its loop,
-- its state is that of a server before any client, with at least one slot, and with max_jobs at
-- most five below the number of descriptors that select can watch.
pub server_main-IsStarted :
    (atoi : Text → ℤ) (env : List (Text × Text)) (rlimit : Option ℕ) (total : ℕ)
    → Ensures IsStarted (server_main atoi env rlimit total)
unfolding server_main
server_main-IsStarted atoi env rlimit total =
    Ensures-step IsStarted (get_max_descriptors atoi env rlimit) _ λ n e.
      let within =
        Ensures-ok IsWatchable (get_max_descriptors atoi env rlimit)
          (get_max_descriptors-IsWatchable atoi env rlimit) e in
      let c : Setting = record {
        max_slots = pos 1;
        max_jobs = sub_int n (pos 5);
        env = env;
        num_total_gpus = total;
        logdir = [];
      } in
      let (slots, (k, some_slots)) = slots_from atoi c (getenv ts_slots env) refl refl in
      let (dir, d) = dir_from (record c { max_slots = slots }) (getenv tmpdir env) refl in
      let started : initialize_log_dir (set_default_maxslots atoi (initial c))
          ≡ initial (record c { max_slots = slots; logdir = dir }) =
        ap (λ s. initialize_log_dir s) k ∙ d in
      (
        record c { max_slots = slots; logdir = dir },
        (started, (some_slots, max_jobs_within n within)),
      )
