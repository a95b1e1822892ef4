-- ===== src/Witnesses/Outputs.antt =====
-- The theorems on texts, files and processes, at small data.
use task_spooler.Base.{
  ◌≢◌, suc, ◌≡◌, refl, ℕ, ◌+◌, ◌-◌, ◌∙◌, ap, true, false, List, [], ◌∷◌, ◌++◌, map, none, some,
  take, leb, ◌==◌, arith, ℕ_discrete, if◌then◌else◌,
}
use task_spooler.Base.Int.{ℤ, pos, negsuc, IsInt, ℤ_discrete, ◌≤ℤ◌}
use task_spooler.Base.Run.{Run, ok, fault, ◌>>=◌, Settles}
use task_spooler.Base.Strings.{codes}
use task_spooler.State.{Text, Job, Server, ClientConn, running, list_line, command_line, runjob}
use task_spooler.Gpu.{broadcast_free_gpus, mark_gpus}
use task_spooler.Jobs.Find.{findjob}
use task_spooler.Jobs.Finish.{get_max_finished_jobs}
use task_spooler.Jobs.Lookup.{count}
use task_spooler.Jobs.Ids.{IsDistinct}
use task_spooler.Jobs.Query.{started}
use task_spooler.Connections.Requests.{max_finished, getenv}
use task_spooler.CommandLine.{CommandLine, default_command_line, strtok_int}
use task_spooler.Client.{Client, goes_on}
use task_spooler.Client.Answers.{fresh}
use task_spooler.Client.Queue.{Child, exited, c_wait_server_commands}
use task_spooler.Client.Served.{handle_all, IsServed, result_of, stored_of, run_job-IsServed}
use task_spooler.Client.Environment.{get_environment, get_environment-concat}
use task_spooler.Client.Child.{run_child, run_child_fault}
use task_spooler.Printing.{digits, decimal, ints_to_chars, fd_nprintf, pinfo_init, pinfo_dump, join}
use task_spooler.Printing.Numbers.{value, value-digits}
use task_spooler.Printing.Ids.{strtok_int-ints_to_chars, Free, digits-Free, digits-ne-nil}
use task_spooler.Printing.Output.{add_lines, texts, pinfo_dump-add_lines, fd_nprintf_again}
use task_spooler.Printing.{concat}
use task_spooler.Columns.Lines.{Floats, joblist_line, depend_text, time_rep}
use task_spooler.Columns.Whole.{IsWhole, joblist_line-IsWhole}
use task_spooler.Start.Connect.{
  Host, Connection, Fitting, IsReachable, create_socket_path, ensure_server_up,
  ensure_server_up-Fitting,
}
use task_spooler.Tail.Follow.{Round, bytes, again, tail_file, at_start}
use task_spooler.Tail.Shown.{Shows, tail_file-Shows}
use task_spooler.Witnesses.Data.{a_job, queue, busy_server, a_world}

-- A child that ran `ls` and failed with 3.
abbrev failed_child : Child
failed_child = record {
  pid = pos 99;
  ofname = codes "/tmp/ts-out.abcdef";
  status = exited (pos 3);
  user_ms = 0;
  system_ms = 0;
  real_ms = 7;
}

abbrev job_4 : Job
job_4 = a_job (pos 4) running (pos 2) (pos 5 ∷ [])

abbrev conn_4 : ClientConn
conn_4 = record { socket = pos 10; hasjob = true; jobid = pos 4 }

job_4_found : findjob (pos 4) queue ≡ some job_4
unfolding findjob ℤ_discrete ℕ_discrete
job_4_found = refl

none_freed : broadcast_free_gpus (pos 0) [] [] ≡ ok []
unfolding broadcast_free_gpus mark_gpus
none_freed = refl

room_for_finished : pos 2 ≤ℤ max_finished a_world busy_server
unfolding max_finished getenv get_max_finished_jobs
room_for_finished = omega arith

busy_server-IsDistinct : IsDistinct busy_server
unfolding count
busy_server-IsDistinct id = ground arith

run_job-IsServed_example :
    (c' : Client) × (c_wait_server_commands default_command_line failed_child
        (fresh (runjob (pos 0) [] ∷ list_line (command_line []) ∷ []))
      ≡ goes_on (result_of failed_child).errorlevel c')
    × (t : Server) × (handle_all a_world (pos 10) 0 c'.asked busy_server ≡ ok t)
    × IsServed
        (pos 10)
        0
        conn_4
        job_4
        (result_of failed_child)
        (started (stored_of default_command_line failed_child) (pos 99) job_4)
        busy_server
        t
unfolding ℤ_discrete ℕ_discrete
run_job-IsServed_example =
    run_job-IsServed a_world (pos 10) 0 default_command_line failed_child busy_server conn_4 job_4
      [] refl refl job_4_found refl refl (omega arith) none_freed room_for_finished
      busy_server-IsDistinct (pos 0) [] refl

-- Floats as numbers of seconds, shown by their digits.
abbrev seconds : Floats
seconds = record { above = λ t k. leb (k + 1) t; divided = λ t k. t; fixed = λ t. codes "1.00" }

joblist_line-IsWhole_example :
    (line : Text) × (joblist_line seconds 80 job_4 ≡ ok line) × IsWhole 80 job_4 line
unfolding depend_text time_rep
joblist_line-IsWhole_example = joblist_line-IsWhole seconds 80 job_4 (omega arith) (omega arith)

-- atoi of the decimal texts of ints.
abbrev read_int : Text → ℤ
unfolding value
read_int [] = pos 0
read_int (c ∷ text) = if c == b'-' then negsuc (value 0 text - 1) else pos (value 0 (c ∷ text))

abbrev some_ids : List ℤ
some_ids = pos 0 ∷ pos 12 ∷ pos 7 ∷ []

read_int_digits : (s : Text) → s ≢ [] → Free b'-' s → read_int s ≡ pos (value 0 s)
unfolding read_int value
read_int_digits [] h f = absurd (h refl)
read_int_digits (c ∷ s) h f = rw f.0 refl

read_int-decimal : (n : ℤ) → IsInt n → read_int (decimal n) ≡ n
unfolding decimal read_int
read_int-decimal (pos n) h =
    read_int_digits (digits 10 n) (digits-ne-nil 9 n) (digits-Free b'-' 10 n (omega arith))
    ∙ ap pos (value-digits 10 n (omega (arith, h)) (omega arith))
read_int-decimal (negsuc n) h =
    ap (λ v. negsuc (v - 1)) (value-digits 10 (suc n) (omega (arith, h)) (omega arith))
    ∙ ap negsuc (omega arith)

strtok_int-ints_to_chars_example :
    (text : Text) × (ints_to_chars some_ids (b',' ∷ []) ≡ ok text)
    × (strtok_int read_int text ≡ some_ids)
unfolding join decimal digits
strtok_int-ints_to_chars_example =
    strtok_int-ints_to_chars read_int some_ids read_int-decimal
      ((omega arith, omega arith), ((omega arith, omega arith), ((omega arith, omega arith), tt)))
      (λ e. cc) (omega arith)

abbrev some_lines : List (ℕ × Text)
some_lines = (113, codes "Environment:") ∷ (100, codes "Exit status: died with exit code 3") ∷ []

pinfo_dump-add_lines_example :
    (add_lines some_lines pinfo_init >>= pinfo_dump (some 100 ∷ []))
    ≡ ok (0, concat (texts some_lines))
unfolding concat
pinfo_dump-add_lines_example =
    pinfo_dump-add_lines [] 100 some_lines (omega arith, (omega arith, tt)) (omega arith)

fd_nprintf_again_example :
    fd_nprintf (some 4 ∷ some 9 ∷ []) 100 (codes "Command: ")
    ≡ ok (0, take 4 (codes "Command: ") ++ take 5 (codes "Command: "))
fd_nprintf_again_example =
    fd_nprintf_again [] 100 4 (codes "Command: ") (omega arith) (omega arith) (omega arith)

-- No server runs, and the file of the last one's socket is still there.
abbrev a_host : Host
a_host = record {
  has_socket = true;
  uid = 1000;
  ts_socket = none;
  tmpdir = none;
  first = Connection.refused;
  second = Connection.connected;
  owner = some 1000;
}

ensure_server_up-Fitting_example :
    Settles (Fitting a_host) (ensure_server_up a_host)
    × (IsReachable a_host → ensure_server_up a_host ≢ Run.exits)
unfolding create_socket_path digits
ensure_server_up-Fitting_example = ensure_server_up-Fitting a_host (omega arith)

get_environment-concat_example :
    get_environment (some (codes "env")) (map some (codes "A=1" ∷ codes "B=2" ∷ []) ++ some [] ∷ [])
    ≡ ok (some (concat (codes "A=1" ∷ codes "B=2" ∷ [])))
get_environment-concat_example =
    get_environment-concat (codes "env") (codes "A=1" ∷ codes "B=2" ∷ []) []
      ((λ e. cc, omega arith), ((λ e. cc, omega arith), tt))

-- Three bytes, nothing for now, the end of the job, and the end of the file.
abbrev some_rounds : List Round
some_rounds =
    record {
      job_end = none;
      reading = bytes (codes "abc");
      stdout_error = false;
      rooms = some 3 ∷ [];
    }
    ∷ record { job_end = none; reading = again; stdout_error = false; rooms = some 0 ∷ [] }
    ∷ record {
      job_end = some (pos 3);
      reading = bytes [];
      stdout_error = false;
      rooms = some 0 ∷ [];
    }
    ∷ []

tail_file-Shows_example : Shows at_start some_rounds (tail_file some_rounds)
tail_file-Shows_example =
    tail_file-Shows some_rounds
      ((refl, refl, omega arith), ((refl, refl, omega arith), ((refl, refl, omega arith), tt)))

-- `ts -E ls`.
abbrev apart : CommandLine
apart = record default_command_line { stderr_apart = pos 1; command = codes "ls" ∷ [] }

run_child_fault_example : run_child (λ name. name) apart none ≡ fault
unfolding ℤ_discrete ℕ_discrete
run_child_fault_example = run_child_fault (λ name. name) apart none refl refl refl
