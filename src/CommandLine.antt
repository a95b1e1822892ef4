-- ===== src/CommandLine.antt =====
-- main.c and main.h: the command line of a client. getopt_long is taken as the list of the options that
-- it finds, each with its argument, and the arguments that are left over.
pub mod Options
pub mod Sound
pub mod Arguments
use task_spooler.Base.{
  ℕ, zero, suc, Bool, true, false, List, [], ◌∷◌, ◌++◌, map, Option, none, some, ◌==◌, leb, length,
  if◌then◌else◌,
}
use task_spooler.Base.Int.{ℤ, pos, minus_one}
use task_spooler.State.{Text, ListFormat, default_format}

-- enum Request.
pub data ClientRequest : Type 0 where
  c_queue c_tail c_kill_server c_list c_list_gpu c_clear_finished c_show_help c_show_version c_cat :
      ClientRequest
  c_show_output_file c_show_pid c_removejob c_waitjob c_urgent c_get_state c_swap_jobs c_info :
      ClientRequest
  c_set_max_slots c_get_max_slots c_kill_job c_count_running c_get_label c_last_id c_kill_all :
      ClientRequest
  c_show_cmd c_get_env c_set_env c_unset_env c_set_free_perc c_get_free_perc c_get_logdir
        c_set_logdir :
      ClientRequest

-- struct CommandLine. An array and its size are one list.
pub record CommandLine : Type 0 where
  pub request : ClientRequest
  pub need_server : ℤ
  pub store_output : ℤ
  pub stderr_apart : ℤ
  pub should_go_background : ℤ
  pub should_keep_finished : ℤ
  pub send_output_by_mail : ℤ
  pub gzip : ℤ
  pub depend_on : List ℤ
  pub max_slots : ℤ
  pub jobid : ℤ
  pub jobid2 : ℤ
  pub wait_enqueuing : ℤ
  pub command : List Text
  pub label : Option Text
  pub num_slots : ℤ
  pub require_elevel : ℤ
  pub gpus : ℤ
  pub gpu_nums : List ℤ
  pub wait_free_gpus : ℤ
  pub logfile : Option Text
  pub list_format : ListFormat

-- The fields that the source does not set are those of a global, which are 0.
abbrev pub default_command_line : CommandLine
default_command_line = record {
  request = c_list;
  need_server = pos 0;
  store_output = pos 1;
  stderr_apart = pos 0;
  should_go_background = pos 1;
  should_keep_finished = pos 1;
  send_output_by_mail = pos 0;
  gzip = pos 0;
  depend_on = [];
  max_slots = pos 1;
  jobid = pos 0;
  jobid2 = pos 0;
  wait_enqueuing = pos 1;
  command = [];
  label = none;
  num_slots = pos 1;
  require_elevel = pos 0;
  gpus = pos 0;
  gpu_nums = [];
  wait_free_gpus = pos 1;
  logfile = none;
  list_format = default_format;
}

-- strtok from its first call to its last: the pieces between delimiters that are not empty. `piece` is
-- what was read of the current one.
abbrev pub ended_piece : Text → List Text
ended_piece [] = []
ended_piece (c ∷ piece) = (c ∷ piece) ∷ []

unfoldable pub strtok : ℕ → Text → Text → List Text
strtok delim piece [] = ended_piece piece
strtok delim piece (c ∷ str) = elim (c == delim) [
  | true ↦ ended_piece piece ++ strtok delim [] str
  | false ↦ strtok delim (piece ++ c ∷ []) str
]

unfoldable pub strtok_int : (Text → ℤ) → Text → List ℤ
unfolding strtok
strtok_int atoi str = map atoi (strtok b',' [] str)

-- strchr: the text before the character and behind it.
unfoldable pub cut_at : ℕ → Text → Option (Text × Text)
cut_at c [] = none
cut_at c (d ∷ str) = elim (d == c) [
  | true ↦ some ([], str)
  | false ↦ elim (cut_at c str) [ none ↦ none | some (before, behind) ↦ some (d ∷ before, behind) ]
]

-- The two jobids, or none where the source returns 0.
unfoldable pub get_two_jobs : (Text → ℤ) → Text → Option (ℤ × ℤ)
unfolding cut_at
get_two_jobs atoi str = if leb 50 (length str) then none else elim (cut_at b'-' str) [
  | none ↦ none
  | some (first, second) ↦ some (atoi first, atoi second)
]
