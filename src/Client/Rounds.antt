-- ===== src/Client/Rounds.antt =====
-- server.c: the rounds of server_loop in which it reads the messages of a client whose job takes all
-- the slots.
use task_spooler.Base.{
  ℕ, ◌≡◌, refl, sym, ◌∙◌, ap, Bool-cases, inl, inr, false, List, [], ◌∷◌, Option, arith,
}
use task_spooler.Base.Int.{ℤ, pos, sub_int}
use task_spooler.Base.Run.{Run, ok, exits, fault, ◌>>=◌, Ensures, Ensures-step, or_exits}
use task_spooler.State.{Text, Result, Server, runjob, list_line, command_line}
use task_spooler.Jobs.Find.{findjob, is_running}
use task_spooler.Jobs.Notices.{is_true, send_msg}
use task_spooler.Jobs.Query.{s_process_runjob_ok}
use task_spooler.Jobs.Schedule.{Machine, next_run_job}
use task_spooler.Connections.{conn_at}
use task_spooler.Connections.Requests
use task_spooler.Connections.Requests.{Request, World, handle, stored_filename}
use task_spooler.Connections.Rounds.{start_next}
use task_spooler.CommandLine.{CommandLine}
use task_spooler.Client.{Client, goes_on}
use task_spooler.Client.Answers.{fresh}
use task_spooler.Client.Queue.{Child, is_skipped_for, c_wait_server_commands}
use task_spooler.Client.Served.{handle_all, result_of, runjob_ok_of, client_runs}

-- The rounds in which the messages of a client are read, given newest first: in each a message is handled
-- and then a job is looked for, but the end of the last round is left to what follows.
unfoldable pub rounds : Machine → World → ℤ → ℕ → List Request → Server → Run Server
unfolding handle start_next
rounds m w socket index [] s = ok s
rounds m w socket index (r ∷ rest) s =
    rounds m w socket index rest s >>= handle w socket index r >>= start_next m

unfoldable pub read_rounds : Machine → World → ℤ → ℕ → List Request → Server → Run Server
unfolding rounds
read_rounds m w socket index [] s = ok s
read_rounds m w socket index (r ∷ rest) s =
    rounds m w socket index rest s >>= handle w socket index r

-- All the slots are taken.
abbrev pub IsFull : Server → Type 0
IsFull s = s.busy_slots ≡ s.max_slots

-- No job starts then.
start_next_full : (m : Machine) (s : Server) → IsFull s → start_next m s ≡ ok s
unfolding start_next next_run_job sub_int
start_next_full m s h = rw (next_run_job, h) (ground arith)

s_process_runjob_ok-IsFull :
    (id : ℤ) (oname : Option Text) (pid : ℤ) (s : Server)
    → IsFull s
    → Ensures IsFull (s_process_runjob_ok id oname pid s)
unfolding s_process_runjob_ok
s_process_runjob_ok-IsFull id oname pid s h =
    Ensures-step IsFull (or_exits (findjob id s.jobs)) _
      λ p e. elim (Bool-cases (is_running p.state)) [ inl runs ↦ rw runs h | inr idle ↦ rw idle tt ]

-- The end of such a round changes nothing.
round_full : (m : Machine) (run : Run Server) → Ensures IsFull run → (run >>= start_next m) ≡ run
round_full m (ok s) h = start_next_full m s h
round_full m exits h = refl
round_full m fault h = refl

pub read_rounds_full :
    (m : Machine) (w : World) (socket : ℤ) (index : ℕ) (a pid : ℤ) (b : Text) (r : Result)
    (s : Server)
    → IsFull s
    → read_rounds m w socket index
        (Requests.endjob r ∷ Requests.runjob_ok a b pid ∷ Requests.get_logdir ∷ [])
        s
      ≡ handle_all w socket index
          (Requests.endjob r ∷ Requests.runjob_ok a b pid ∷ Requests.get_logdir ∷ [])
          s
unfolding read_rounds rounds handle_all handle send_msg
read_rounds_full m w socket index a pid b r s h =
    let s1 = send_msg socket (list_line (command_line s.logdir)) s in
    let first : start_next m s1 ≡ ok s1 = start_next_full m s1 h in
    let second : (handle w socket index (Requests.runjob_ok a b pid) s1 >>= start_next m)
        ≡ handle w socket index (Requests.runjob_ok a b pid) s1 =
      round_full m _ (
        Ensures-step IsFull (conn_at index s1) _
          λ c e. s_process_runjob_ok-IsFull c.jobid (stored_filename a b) pid s1 h) in
    ap
      (λ x.
        x
        >>= handle w socket index (Requests.runjob_ok a b pid)
        >>= start_next m
        >>= handle w socket index (Requests.endjob r))
      first
    ∙ ap (λ x. x >>= handle w socket index (Requests.endjob r)) second

pub not_skipped :
    (cl : CommandLine) (e : ℤ) → is_true cl.require_elevel ≡ false → is_skipped_for cl e ≡ false
not_skipped cl e h = ground arith

runjob_ok_form :
    (cl : CommandLine) (child : Child)
    → (a : ℤ) × (b : Text) × (runjob_ok_of cl child ≡ Requests.runjob_ok a b child.pid)
runjob_ok_form cl child = elim (Bool-cases (is_true cl.store_output)) [
  | inl stored ↦ (cl.store_output, child.ofname, rw stored refl)
  | inr not_stored ↦ (pos 0, [], rw not_stored refl)
]

goes_on_injective : {A : Type 0} {a b : A} {c d : Client} → goes_on a c ≡ goes_on b d → c ≡ d
goes_on_injective e = cc

-- What a client has sent that was told to run its job, and ended.
pub client_asked :
    (cl : CommandLine) (child : Child) (e : ℤ) (gpu_ids : List ℤ) (logdir : Text) (c : Client)
    → is_true cl.require_elevel ≡ false
    → c_wait_server_commands cl child
        (fresh (runjob e gpu_ids ∷ list_line (command_line logdir) ∷ []))
      ≡ goes_on (result_of child).errorlevel c
    → (a : ℤ) × (b : Text) × (c.asked
        ≡ Requests.endjob (result_of child)
          ∷ Requests.runjob_ok a b child.pid
          ∷ Requests.get_logdir
          ∷ [])
client_asked cl child e gpu_ids logdir c always h =
    let (a, b, form) = runjob_ok_form cl child in
    let same =
      goes_on_injective (sym h ∙ client_runs cl child e gpu_ids logdir (not_skipped cl e always)) in
    (
      a,
      b,
      ap (λ (x : Client). x.asked) same
          ∙ ap (λ x. Requests.endjob (result_of child) ∷ x ∷ Requests.get_logdir ∷ []) form,
    )
