-- ===== src/Client.antt =====
-- client.c: what a client sees of the server, and the receiving and reporting that its functions share.
pub mod Ask
pub mod Settings
pub mod Show
pub mod Queue
pub mod Main
pub mod Answers
pub mod Kill
pub mod Served
pub mod Rounds
pub mod Turn
pub mod Leaves
pub mod Drained
pub mod Enqueued
pub mod Environment
pub mod Child
pub mod Mail
pub mod Listing
pub mod Questions
pub mod Command
use task_spooler.Base.{
  ℕ, suc, ◌+◌, Bool, true, false, List, [], ◌∷◌, Option, none, some, if◌then◌else◌,
}
use task_spooler.Base.Int.{ℤ, minus_one}
use task_spooler.State.{
  Text, Job, JobState, Reply, list_line, urgent_ok, swap_jobs_ok, removejob_ok, newjob_nok,
  info_data, count_running, running_pid, last_id, waitjob_ok, get_max_slots_ok, newjob_ok,
  answer_state, answer_output, runjob, job_info, version, free_percentage_reply, env_value,
  list_json, closed,
}
use task_spooler.Connections.Requests.{Request}

-- What a client writes for its user, on stdout or stderr.
pub data Printed : Type 0 where
  server_line : Reply → Printed
  number : ℤ → Printed
  count : ℕ → Printed
  state_name : JobState → Printed
  file_name : Text → Printed
  last_lines : Text → ℤ → Printed
  info_text : Job → Printed
  request_error : Reply → Printed
  empty_line not_stored queue_full wrong_version : Printed
  strange_pid : ℤ → Printed

-- A client: what is still to be read on its socket, and, newest first, what it sent and printed, the
-- process groups that it sent SIGTERM to, and the number of its warnings.
pub record Client : Type 0 where
  pub inbox : List Reply
  pub asked : List Request
  pub printed : List Printed
  pub killed : List ℤ
  pub warnings : ℕ

-- How a piece of client code ends: with a value, in exit(), waiting for the server, or in what is not
-- followed further: a null pointer that is read, or a message that is read from its middle.
pub data Ended {ℓ} (A : Type ℓ) : Type ℓ where
  goes_on : A → Client → Ended A
  exits_with : ℤ → Client → Ended A
  waits : Client → Ended A
  lost : Client → Ended A

abbrev pub Talk {ℓ} : Type ℓ → Type ℓ
Talk A = Client → Ended A

abbrev pub follow {ℓ κ} : {A : Type ℓ} {B : Type κ} → Ended A → (A → Talk B) → Ended B
follow (goes_on a c) f = f a c
follow (exits_with code c) f = exits_with code c
follow (waits c) f = waits c
follow (lost c) f = lost c

infixl 5 ◌>>=◌ ◌>>◌
abbrev pub ◌>>=◌ {ℓ κ} : {A : Type ℓ} {B : Type κ} → Talk A → (A → Talk B) → Talk B
t >>= f = λ c. follow (t c) f

abbrev pub ◌>>◌ {ℓ} : {B : Type ℓ} → Talk (Unit {0}) → Talk B → Talk B
t >> u = t >>= λ _. u

abbrev pub done {ℓ} : {A : Type ℓ} → A → Talk A
done a = goes_on a

abbrev pub exit {ℓ} : {A : Type ℓ} → ℤ → Talk A
exit code = exits_with code

-- error(), which ends in exit(-1).
abbrev pub error {ℓ} : {A : Type ℓ} → Talk A
error = exit minus_one

abbrev pub warning : Talk (Unit {0})
warning c = goes_on tt (record c { warnings = suc c.warnings })

abbrev pub send : Request → Talk (Unit {0})
send r c = goes_on tt (record c { asked = r ∷ c.asked })

abbrev pub print : Printed → Talk (Unit {0})
print p c = goes_on tt (record c { printed = p ∷ c.printed })

-- `kill(pid, SIGTERM)`.
abbrev pub kill : ℤ → Talk (Unit {0})
kill pid c = goes_on tt (record c { killed = pid ∷ c.killed })

-- What recv_msg gives: a message, or 0 at the end of the stream.
pub data Received : Type 0 where
  message : Reply → Received
  nothing : Received

-- A PID is 4 bytes and a job's information is text: neither is a message.
abbrev receive : Reply → List Reply → Talk Received
receive closed rest c = goes_on nothing c
receive (running_pid pid) rest c = lost c
receive (job_info p) rest c = lost c
receive m rest c = goes_on (message m) (record c { inbox = rest })

unfoldable pub recv_msg : Talk Received
recv_msg c = elim c.inbox [ [] ↦ waits c | m ∷ rest ↦ receive m rest c ]

-- `if (res != sizeof(m)) error(...)`.
abbrev pub whole : Received → Talk Reply
whole (message m) = done m
whole nothing = error

unfoldable pub recv_whole : Talk Reply
unfolding recv_msg
recv_whole = recv_msg >>= whole

-- The messages of type LIST_LINE, which carry a text.
abbrev pub is_list_line : Reply → Bool
is_list_line (list_line l) = true
is_list_line (env_value v) = true
is_list_line (list_json jobs) = true
is_list_line m = false

-- The cases LIST_LINE and default of the functions that print "Error in the request".
abbrev pub refused_or_warning : Reply → Talk (Unit {0})
refused_or_warning m =
    if is_list_line m then (print (request_error m) >> exit minus_one) else warning
