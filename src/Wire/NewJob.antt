-- ===== src/Wire/NewJob.antt =====
-- client.c and jobs.c: what c_new_job writes behind its NEWJOB message, and how s_newjob reads it. Each
-- text is taken whole, as Bytes shows of recv_bytes.
use task_spooler.Base.{
  ℕ, ◌+◌, List, [], ◌∷◌, ◌++◌, Option, none, some, length, take, drop, leb, if◌then◌else◌, ◌==◌,
}
use task_spooler.Base.Int.{ℤ}
use task_spooler.Base.Run.{Run, ok, fault, ◌>>=◌}
use task_spooler.State.{Text}
use task_spooler.Jobs.Notices.{is_true}
use task_spooler.Jobs.NewJob.{NewJobMsg}
use task_spooler.Wire.Ints.{send_ints, recv_ints}

-- The `newjob` part of struct Msg.
pub record Header : Type 0 where
  pub command_size : ℕ
  pub store_output : ℤ
  pub should_keep_finished : ℤ
  pub label_size : ℕ
  pub env_size : ℕ
  pub depend_on_size : ℕ
  pub wait_enqueuing : ℤ
  pub num_slots : ℤ
  pub gpus : ℤ
  pub wait_free_gpus : ℤ

-- `strlen(text) + 1`, or 0 without a text.
abbrev pub size_of : Option Text → ℕ
size_of none = 0
size_of (some text) = length text + 1

-- A text is sent with its NUL.
abbrev pub text_bytes : Option Text → Text
text_bytes none = []
text_bytes (some text) = text ++ 0 ∷ []

unfoldable pub header_of : NewJobMsg → Option Text → Header
header_of m env = record {
  command_size = length m.command + 1;
  store_output = m.store_output;
  should_keep_finished = m.should_keep_finished;
  label_size = size_of m.label;
  env_size = size_of env;
  depend_on_size = length m.depend_on;
  wait_enqueuing = m.wait_enqueuing;
  num_slots = m.num_slots;
  gpus = m.gpus;
  wait_free_gpus = m.wait_free_gpus;
}

-- The GPU ids and the dependencies are sent only if there is something to tell.
unfoldable pub sent_gpus : NewJobMsg → Text
unfolding send_ints
sent_gpus m = if is_true m.wait_free_gpus then [] else send_ints m.gpu_ids

unfoldable pub sent_deps : NewJobMsg → Text
unfolding send_ints
sent_deps m = if length m.depend_on == 0 then [] else send_ints m.depend_on

-- What follows the message.
unfoldable pub sent_behind : NewJobMsg → Option Text → Text
unfolding sent_gpus sent_deps
sent_behind m env =
    sent_gpus m
    ++ (sent_deps m ++ (text_bytes (some m.command) ++ (text_bytes m.label ++ text_bytes env)))

-- A C string: the bytes before the first NUL.
unfoldable pub c_string : Text → Text
c_string [] = []
c_string (c ∷ text) = let rest = c_string text in if c == 0 then [] else c ∷ rest

-- recv_bytes of a text with its size, which must be there.
unfoldable pub recv_text : ℕ → Text → Run (Text × Text)
unfolding c_string
recv_text size wire =
    if leb size (length wire) then ok (c_string (take size wire), drop size wire) else fault

abbrev pub recv_optional : ℕ → Text → Run (Option Text × Text)
recv_optional size wire =
    if size == 0
    then ok (none, wire)
    else (do (text, wire') ← recv_text size wire; ok (some text, wire'))

unfoldable pub recv_gpus : Header → Text → Run (List ℤ × Text)
unfolding recv_ints
recv_gpus h wire = if is_true h.wait_free_gpus then ok ([], wire) else recv_ints wire

unfoldable pub recv_deps : Header → Text → Run (List ℤ × Text)
unfolding recv_ints
recv_deps h wire = if h.depend_on_size == 0 then ok ([], wire) else recv_ints wire

-- The reads of s_newjob: the message with what follows it, the environment, and the rest.
unfoldable pub recv_newjob : Header → Text → Run (NewJobMsg × Option Text × Text)
unfolding recv_gpus recv_deps recv_text
recv_newjob h wire = do
  (gpu_ids, wire1) ← recv_gpus h wire
  (depend_on, wire2) ← recv_deps h wire1
  (command, wire3) ← recv_text h.command_size wire2
  (label, wire4) ← recv_optional h.label_size wire3
  (env, wire5) ← recv_optional h.env_size wire4
  ok (
    record {
      store_output = h.store_output;
      should_keep_finished = h.should_keep_finished;
      wait_enqueuing = h.wait_enqueuing;
      num_slots = h.num_slots;
      gpus = h.gpus;
      wait_free_gpus = h.wait_free_gpus;
      gpu_ids = gpu_ids;
      depend_on = depend_on;
      command = command;
      label = label;
    },
    env,
    wire5,
  )
