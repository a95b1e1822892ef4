-- ===== src/CommandLine/Sound.antt =====
-- What main.c can rely on once parse_opts has returned.
use task_spooler.Base.{
  ◌≡◌, ◌≢◌, ◌⊎◌, true, false, List, [], ◌∷◌, Option, none, some, ◌&&◌, ◌||◌, not, arith,
}
use task_spooler.Base.Int.{ℤ, pos, ◌≤ℤ◌}
use task_spooler.Base.Run.{Ensures-ok, Ensures, Ensures-step}
use task_spooler.State.{Text}
use task_spooler.Jobs.Notices.{is_true}
use task_spooler.CommandLine.{
  c_show_help, c_show_version, ClientRequest, c_queue, c_swap_jobs, CommandLine,
  default_command_line, get_two_jobs,
}
use task_spooler.CommandLine.Options.{
  missing, swap, serialize, Missing, Opt, parse_missing, parse_swap, parse_format, parse_opt,
  parse_loop, parse_opts, finish_opts, take_command,
}

-- A request to swap names two jobs.
unfoldable pub SwapsTwo : ClientRequest → ℤ → ℤ → Type 0
SwapsTwo c_swap_jobs jobid jobid2 = jobid ≢ jobid2
SwapsTwo r jobid jobid2 = Unit

-- What holds of the fields however far the options are read; nothing is queued yet.
unfoldable pub Parsed : CommandLine → Type 0
unfolding SwapsTwo
Parsed c =
    (SwapsTwo c.request c.jobid c.jobid2)
    × (pos 1 ≤ℤ c.max_slots)
    × (pos 0 ≤ℤ c.num_slots)
    × (c.request ≢ c_queue)
    × (c.need_server ≡ pos 0)

parse_missing-Parsed :
    (m : Missing) (c : CommandLine) → Parsed c → Ensures Parsed (parse_missing m c)
unfolding Parsed parse_missing
parse_missing-Parsed m c h = ground arith

parse_swap-Parsed :
    (ids : Option (ℤ × ℤ)) (c : CommandLine) → Parsed c → Ensures Parsed (parse_swap ids c)
unfolding Parsed parse_swap SwapsTwo
parse_swap-Parsed none c h = tt
parse_swap-Parsed (some (j, k)) c h = ground arith

parse_format-Parsed :
    (text : Text) (c : CommandLine) → Parsed c → Ensures Parsed (parse_format text c)
unfolding Parsed parse_format SwapsTwo
parse_format-Parsed text c h = ground arith

parse_opt-Parsed :
    (atoi : Text → ℤ) (o : Opt) (c : CommandLine) → Parsed c → Ensures Parsed (parse_opt atoi o c)
unfolding Parsed parse_opt SwapsTwo
parse_opt-Parsed atoi (missing m) c h = parse_missing-Parsed m c h
parse_opt-Parsed atoi (swap arg) c h = parse_swap-Parsed (get_two_jobs atoi arg) c h
parse_opt-Parsed atoi (serialize arg) c h = parse_format-Parsed arg c h
parse_opt-Parsed atoi o c h = ground arith

parse_loop-Parsed :
    (atoi : Text → ℤ) (opts : List Opt) (c : CommandLine)
    → Parsed c
    → Ensures Parsed (parse_loop atoi opts c)
unfolding parse_loop
parse_loop-Parsed atoi [] c h = h
parse_loop-Parsed atoi (o ∷ opts) c h =
    Ensures-step Parsed (parse_opt atoi o c) (parse_loop atoi opts) λ c' e.
      parse_loop-Parsed atoi opts c'
        (Ensures-ok Parsed (parse_opt atoi o c) (parse_opt-Parsed atoi o c h) e)

-- A queued job has a command, and nothing else has one.
unfoldable pub HasCommand : ClientRequest → List Text → Type 0
HasCommand c_queue command = command ≢ []
HasCommand r command = command ≡ []

-- A server is needed for all but the texts that the client has itself.
unfoldable pub NeedsServer : ClientRequest → ℤ → Type 0
NeedsServer c_show_help need_server = need_server ≡ pos 0
NeedsServer c_show_version need_server = need_server ≡ pos 0
NeedsServer r need_server = need_server ≡ pos 1

-- Mail is sent from a stored output that is not compressed.
abbrev pub MailIsReadable : CommandLine → Type 0
MailIsReadable c =
    (is_true c.send_output_by_mail && (not (is_true c.store_output) || is_true c.gzip)) ≡ false

-- A job that nobody could read afterwards is not kept.
abbrev pub KeepsReadable : CommandLine → Type 0
KeepsReadable c =
    (is_true c.store_output ≡ true)
    ⊎ ((is_true c.should_go_background ≡ true) ⊎ (c.should_keep_finished ≡ pos 0))

unfoldable pub Usable : CommandLine → Type 0
unfolding SwapsTwo HasCommand NeedsServer
Usable c =
    SwapsTwo c.request c.jobid c.jobid2
    × (pos 1 ≤ℤ c.max_slots)
    × (pos 0 ≤ℤ c.num_slots)
    × HasCommand c.request c.command
    × NeedsServer c.request c.need_server
    × MailIsReadable c
    × KeepsReadable c

finish_opts-Usable :
    (rest : List Text) (c : CommandLine) → Parsed c → Ensures Usable (finish_opts rest c)
unfolding Parsed Usable finish_opts take_command SwapsTwo HasCommand NeedsServer
finish_opts-Usable [] c h = ground arith
finish_opts-Usable (a ∷ rest) c h = ground arith

default-Parsed : Parsed default_command_line
unfolding Parsed SwapsTwo
default-Parsed = ground arith

-- Whatever the options are, if parse_opts returns, then a swap names two jobs that differ, there is
-- at least one slot, the slots of the job are not negative, a job is queued if and only if a
-- command is given for it, a server is needed for all but the help and the version, mail goes with
-- an output that is stored and not compressed, and a job in the foreground whose output is not
-- stored is not kept.
pub parse_opts-Usable :
    (atoi : Text → ℤ) (opts : List Opt) (rest : List Text)
    → Ensures Usable (parse_opts atoi opts rest default_command_line)
unfolding parse_opts
parse_opts-Usable atoi opts rest =
    Ensures-step Usable (parse_loop atoi opts default_command_line) (finish_opts rest) λ c e.
      finish_opts-Usable rest c (
        Ensures-ok Parsed (parse_loop atoi opts default_command_line)
          (parse_loop-Parsed atoi opts default_command_line default-Parsed) e)
