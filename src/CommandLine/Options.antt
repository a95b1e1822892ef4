-- ===== src/CommandLine/Options.antt =====
-- main.c: parse_opts. `exits` is a call of exit(-1), or of error(), which calls it.
use task_spooler.Base.{
  Bool, true, false, List, [], ◌∷◌, Option, none, some, ite, ◌&&◌, ◌||◌, not, length, if◌then◌else◌,
}
use task_spooler.Base.Int.{ℤ, pos, ℤ_discrete, minus_one, ltb_ℤ}
use task_spooler.Base.Run.{Run, ok, exits, ◌>>=◌}
use task_spooler.State.{Text, default_format, json, tab}
use task_spooler.Jobs.Notices.{is_true}
use task_spooler.Connections.Requests.{text_discrete}
use task_spooler.CommandLine.{
  ClientRequest, c_queue, c_tail, c_kill_server, c_list, c_list_gpu, c_clear_finished, c_show_help,
  c_show_version, c_cat, c_show_output_file, c_show_pid, c_removejob, c_waitjob, c_urgent,
  c_get_state, c_swap_jobs, c_info, c_set_max_slots, c_get_max_slots, c_kill_job, c_count_running,
  c_get_label, c_last_id, c_kill_all, c_show_cmd, c_get_env, c_set_env, c_unset_env,
  c_set_free_perc, c_get_free_perc, c_get_logdir, c_set_logdir, CommandLine, strtok_int,
  get_two_jobs,
}

-- The option whose argument is missing: optopt where getopt_long gives ':'.
pub data Missing : Type 0 where
  no_tail no_cat no_output_file no_pid no_info no_removejob no_waitjob no_urgent no_state
        no_kill_job :
      Missing
  no_slots no_label no_cmd no_format no_gpu_indices no_other : Missing

-- What getopt_long gives: the options with a letter (K T k l h d V C c o O n L z f m G g t p i q a F N r w u s S
-- D W U B E R M, in this order), those without one, ':' and '?'.
pub data Opt : Type 0 where
  kill_server kill_all : Opt
  kill_job : Text → Opt
  list help depend_last version clear_finished : Opt
  cat output_file logfile : Text → Opt
  no_store : Opt
  label : Text → Opt
  gzip foreground mail : Opt
  gpus gpu_indices tail pid info : Text → Opt
  last_queue_id : Opt
  get_label full_cmd slots removejob waitjob urgent state max_slots depend_on depend_on_well swap :
      Text → Opt
  no_wait_enqueuing stderr_apart count_running : Opt
  serialize : Text → Opt
  getenv setenv unsetenv : Text → Opt
  get_logdir : Opt
  set_logdir set_gpu_free_perc : Text → Opt
  get_gpu_free_perc : Opt
  missing : Missing → Opt
  wrong : Opt

-- A request about one job.
abbrev pub about : ClientRequest → ℤ → CommandLine → CommandLine
about r jobid c = record c { request = r; jobid = jobid }

abbrev ask : ClientRequest → CommandLine → CommandLine
ask r c = record c { request = r }

abbrev ask_with_label : ClientRequest → Text → CommandLine → CommandLine
ask_with_label r text c = record c { request = r; label = some text }

-- The nested switch on optopt.
unfoldable pub parse_missing : Missing → CommandLine → Run CommandLine
parse_missing no_tail c = ok (about c_tail minus_one c)
parse_missing no_cat c = ok (about c_cat minus_one c)
parse_missing no_output_file c = ok (about c_show_output_file minus_one c)
parse_missing no_pid c = ok (about c_show_pid minus_one c)
parse_missing no_info c = ok (about c_info minus_one c)
parse_missing no_removejob c = ok (about c_removejob minus_one c)
parse_missing no_waitjob c = ok (about c_waitjob minus_one c)
parse_missing no_urgent c = ok (about c_urgent minus_one c)
parse_missing no_state c = ok (about c_get_state minus_one c)
parse_missing no_kill_job c = ok (about c_kill_job minus_one c)
parse_missing no_slots c = ok (ask c_get_max_slots c)
parse_missing no_label c = ok (about c_get_label minus_one c)
parse_missing no_cmd c = ok (about c_show_cmd minus_one c)
parse_missing no_format c = ok (record c { request = c_list; list_format = default_format })
parse_missing no_gpu_indices c = ok (ask c_list_gpu c)
parse_missing no_other c = exits

-- `-U`: two jobids that differ.
unfoldable pub parse_swap : Option (ℤ × ℤ) → CommandLine → Run CommandLine
parse_swap none c = exits
parse_swap (some (jobid, jobid2)) c =
    ite (ℤ_discrete jobid jobid2) exits
      (ok (record c { request = c_swap_jobs; jobid = jobid; jobid2 = jobid2 }))

abbrev word_default : Text
word_default = b'd' ∷ b'e' ∷ b'f' ∷ b'a' ∷ b'u' ∷ b'l' ∷ b't' ∷ []

abbrev word_json : Text
word_json = b'j' ∷ b's' ∷ b'o' ∷ b'n' ∷ []

abbrev word_tab : Text
word_tab = b't' ∷ b'a' ∷ b'b' ∷ []

unfoldable pub parse_format : Text → CommandLine → Run CommandLine
parse_format text c =
    ite (text_discrete text word_default)
      (ok (record c { request = c_list; list_format = default_format }))
      (ite (text_discrete text word_json) (ok (record c { request = c_list; list_format = json })) (
        ite (text_discrete text word_tab) (ok (record c { request = c_list; list_format = tab }))
          exits))

abbrev depend : ℤ → List ℤ → CommandLine → CommandLine
depend elevel jobids c = record c { depend_on = jobids; require_elevel = elevel }

abbrev not_negative : ℤ → ℤ
not_negative n = if ltb_ℤ n (pos 0) then pos 0 else n

-- The switch of parse_opts.
unfoldable pub parse_opt : (Text → ℤ) → Opt → CommandLine → Run CommandLine
unfolding parse_missing parse_swap parse_format strtok_int get_two_jobs
parse_opt atoi kill_server c =
    ok (record c { request = c_kill_server; should_go_background = pos 0 })
parse_opt atoi kill_all c = ok (ask c_kill_all c)
parse_opt atoi (kill_job arg) c = ok (about c_kill_job (atoi arg) c)
parse_opt atoi list c = ok (ask c_list c)
parse_opt atoi help c = ok (ask c_show_help c)
parse_opt atoi depend_last c = ok (record c { depend_on = minus_one ∷ [] })
parse_opt atoi version c = ok (ask c_show_version c)
parse_opt atoi clear_finished c = ok (ask c_clear_finished c)
parse_opt atoi (cat arg) c = ok (about c_cat (atoi arg) c)
parse_opt atoi (output_file arg) c = ok (about c_show_output_file (atoi arg) c)
parse_opt atoi (logfile arg) c = ok (record c { logfile = some arg })
parse_opt atoi no_store c = ok (record c { store_output = pos 0 })
parse_opt atoi (label arg) c = ok (record c { label = some arg })
parse_opt atoi gzip c = ok (record c { gzip = pos 1 })
parse_opt atoi foreground c = ok (record c { should_go_background = pos 0 })
parse_opt atoi mail c = ok (record c { send_output_by_mail = pos 1 })
parse_opt atoi (gpus arg) c = ok (record c { gpus = atoi arg })
parse_opt atoi (gpu_indices arg) c =
    let ids = strtok_int atoi arg in
    ok (record c { gpu_nums = ids; gpus = pos (length ids); wait_free_gpus = pos 0 })
parse_opt atoi (tail arg) c = ok (about c_tail (atoi arg) c)
parse_opt atoi (pid arg) c = ok (about c_show_pid (atoi arg) c)
parse_opt atoi (info arg) c = ok (about c_info (atoi arg) c)
parse_opt atoi last_queue_id c = ok (ask c_last_id c)
parse_opt atoi (get_label arg) c = ok (about c_get_label (atoi arg) c)
parse_opt atoi (full_cmd arg) c = ok (about c_show_cmd (atoi arg) c)
parse_opt atoi (slots arg) c = ok (record c { num_slots = not_negative (atoi arg) })
parse_opt atoi (removejob arg) c = ok (about c_removejob (atoi arg) c)
parse_opt atoi (waitjob arg) c = ok (about c_waitjob (atoi arg) c)
parse_opt atoi (urgent arg) c = ok (about c_urgent (atoi arg) c)
parse_opt atoi (state arg) c = ok (about c_get_state (atoi arg) c)
parse_opt atoi (max_slots arg) c =
    if ltb_ℤ (atoi arg) (pos 1)
    then exits
    else ok (record c { request = c_set_max_slots; max_slots = atoi arg })
parse_opt atoi (depend_on arg) c = ok (record c { depend_on = strtok_int atoi arg })
parse_opt atoi (depend_on_well arg) c = ok (depend (pos 1) (strtok_int atoi arg) c)
parse_opt atoi (swap arg) c = parse_swap (get_two_jobs atoi arg) c
parse_opt atoi no_wait_enqueuing c = ok (record c { wait_enqueuing = pos 0 })
parse_opt atoi stderr_apart c = ok (record c { stderr_apart = pos 1 })
parse_opt atoi count_running c = ok (ask c_count_running c)
parse_opt atoi (serialize arg) c = parse_format arg c
parse_opt atoi (getenv arg) c = ok (ask_with_label c_get_env arg c)
parse_opt atoi (setenv arg) c = ok (ask_with_label c_set_env arg c)
parse_opt atoi (unsetenv arg) c = ok (ask_with_label c_unset_env arg c)
parse_opt atoi get_logdir c = ok (ask c_get_logdir c)
parse_opt atoi (set_logdir arg) c = ok (ask_with_label c_set_logdir arg c)
parse_opt atoi (set_gpu_free_perc arg) c =
    ok (record c { request = c_set_free_perc; gpus = atoi arg })
parse_opt atoi get_gpu_free_perc c = ok (ask c_get_free_perc c)
parse_opt atoi (missing m) c = parse_missing m c
parse_opt atoi wrong c = exits

unfoldable pub parse_loop : (Text → ℤ) → List Opt → CommandLine → Run CommandLine
unfolding parse_opt
parse_loop atoi [] c = ok c
parse_loop atoi (o ∷ opts) c = parse_opt atoi o c >>= parse_loop atoi opts

abbrev pub is_list : ClientRequest → Bool
is_list c_list = true
is_list r = false

abbrev pub is_shown_alone : ClientRequest → Bool
is_shown_alone c_show_help = true
is_shown_alone c_show_version = true
is_shown_alone r = false

-- A command that is left over is queued, if no other action was asked for.
unfoldable pub take_command : List Text → CommandLine → CommandLine
take_command [] c = record c { command = [] }
take_command (a ∷ rest) c =
    if is_list c.request
    then record c { request = c_queue; command = a ∷ rest }
    else record c { command = [] }

abbrev pub set_need_server : CommandLine → CommandLine
set_need_server c = record c {
  need_server = if is_shown_alone c.request then c.need_server else pos 1;
}

abbrev pub set_keep : CommandLine → CommandLine
set_keep c = record c {
  should_keep_finished =
      if not (is_true c.store_output) && not (is_true c.should_go_background)
      then pos 0
      else c.should_keep_finished;
}

-- What parse_opts does behind its loop.
unfoldable pub finish_opts : List Text → CommandLine → Run CommandLine
unfolding take_command
finish_opts rest c =
    let c' = set_keep (set_need_server (take_command rest c)) in
    if is_true c'.send_output_by_mail && (not (is_true c'.store_output) || is_true c'.gzip)
    then exits
    else ok c'

unfoldable pub parse_opts : (Text → ℤ) → List Opt → List Text → CommandLine → Run CommandLine
unfolding parse_loop finish_opts
parse_opts atoi opts rest c = parse_loop atoi opts c >>= finish_opts rest
