-- ===== src/Client/Main.antt =====
-- main.c: the switch on the request.
use task_spooler.Base.{[], ◌∷◌, if◌then◌else◌}
use task_spooler.Base.Int.{ℤ, pos}
use task_spooler.Jobs.Notices.{is_true}
use task_spooler.CommandLine.{
  ClientRequest, c_queue, c_tail, c_kill_server, c_list, c_list_gpu, c_clear_finished, c_show_help,
  c_show_version, c_cat, c_show_output_file, c_show_pid, c_removejob, c_waitjob, c_urgent,
  c_get_state, c_swap_jobs, c_info, c_set_max_slots, c_get_max_slots, c_kill_job, c_count_running,
  c_get_label, c_last_id, c_kill_all, c_show_cmd, c_get_env, c_set_env, c_unset_env,
  c_set_free_perc, c_get_free_perc, c_get_logdir, c_set_logdir, CommandLine,
}
use task_spooler.Client.{Talk, ◌>>=◌, ◌>>◌, done, error, print, number}
use task_spooler.Client.Ask
use task_spooler.Client.Settings
use task_spooler.Client.Show
use task_spooler.Client.Queue.{Child, c_new_job, c_wait_newjob_ok, c_wait_server_commands}

-- A request that ends with the error level 0.
abbrev pub quietly : Talk (Unit {0}) → Talk ℤ
quietly t = t >> done (pos 0)

-- `if (!command_line.need_server) error(...)`.
abbrev pub with_server : CommandLine → Talk ℤ → Talk ℤ
with_server cl t = if is_true cl.need_server then t else error

-- In the background, what the job returns is not this process's error level.
abbrev wait_for_turn : CommandLine → Child → Talk ℤ
wait_for_turn cl child =
    if is_true cl.should_go_background
    then (c_wait_server_commands cl child >>= λ errorlevel. done (pos 0))
    else c_wait_server_commands cl child

abbrev print_jobid : CommandLine → Talk (Unit {0})
print_jobid cl = if is_true cl.store_output then print (number cl.jobid) else done tt

unfoldable pub queue_job : CommandLine → Child → Talk ℤ
unfolding c_new_job c_wait_newjob_ok c_wait_server_commands
queue_job cl child = elim cl.command [
  | [] ↦ error
  | a ∷ rest ↦ (do
    c_new_job cl
    jobid ← c_wait_newjob_ok
    print_jobid (record cl { jobid = jobid })
    wait_for_turn (record cl { jobid = jobid }) child)
]

-- The texts of the help and the version need no server.
unfoldable pub serve : ClientRequest → CommandLine → Child → ℤ → Talk ℤ
unfolding queue_job
serve c_show_version cl child raw = done (pos 0)
serve c_show_help cl child raw = done (pos 0)
serve c_queue cl child raw = with_server cl (queue_job cl child)
serve c_list cl child raw =
    with_server cl (quietly (Show.c_list_jobs cl >> Show.c_wait_server_lines))
serve c_list_gpu cl child raw =
    with_server cl (quietly (Show.c_list_gpu_jobs >> Show.c_wait_server_lines))
serve c_kill_server cl child raw = with_server cl (quietly Settings.c_shutdown_server)
serve c_clear_finished cl child raw = with_server cl (quietly Settings.c_clear_finished)
serve c_tail cl child raw = with_server cl (Ask.c_tail cl raw)
serve c_cat cl child raw = with_server cl (Ask.c_cat cl raw)
serve c_show_output_file cl child raw = with_server cl (quietly (Ask.c_show_output_file cl raw))
serve c_show_pid cl child raw = with_server cl (quietly (Ask.c_show_pid cl raw))
serve c_kill_all cl child raw = with_server cl (quietly Ask.c_kill_all_jobs)
serve c_kill_job cl child raw = with_server cl (quietly (Ask.c_kill_job cl))
serve c_info cl child raw = with_server cl (quietly (Show.c_show_info cl))
serve c_last_id cl child raw = with_server cl (quietly Ask.c_show_last_id)
serve c_get_label cl child raw = with_server cl (quietly (Ask.c_show_label cl))
serve c_show_cmd cl child raw = with_server cl (quietly (Ask.c_show_cmd cl))
serve c_removejob cl child raw = with_server cl (quietly (Ask.c_remove_job cl))
serve c_waitjob cl child raw = with_server cl (Ask.c_wait_job cl)
serve c_urgent cl child raw = with_server cl (quietly (Ask.c_move_urgent cl))
serve c_set_max_slots cl child raw = quietly (Settings.c_send_max_slots cl)
serve c_get_max_slots cl child raw = quietly Ask.c_get_max_slots
serve c_swap_jobs cl child raw = with_server cl (quietly (Ask.c_swap_jobs cl))
serve c_count_running cl child raw = with_server cl (quietly Ask.c_get_count_running)
serve c_get_state cl child raw = with_server cl (quietly (Ask.c_get_state cl))
serve c_get_env cl child raw = with_server cl (quietly (Settings.c_get_env cl))
serve c_set_env cl child raw = with_server cl (quietly (Settings.c_set_env cl))
serve c_unset_env cl child raw = with_server cl (quietly (Settings.c_unset_env cl))
serve c_set_free_perc cl child raw = with_server cl (quietly (Settings.c_set_free_percentage cl))
serve c_get_free_perc cl child raw = with_server cl (quietly Settings.c_get_free_percentage)
serve c_get_logdir cl child raw = quietly Ask.c_get_logdir
serve c_set_logdir cl child raw = quietly (Settings.c_set_logdir cl)

unfoldable pub serve_request : CommandLine → Child → ℤ → Talk ℤ
unfolding serve
serve_request cl child raw = serve cl.request cl child raw

-- main, behind the reading of the options: the server's version is checked first.
unfoldable pub talk_to_server : CommandLine → Child → ℤ → Talk ℤ
unfolding Ask.c_check_version serve_request
talk_to_server cl child raw =
    if is_true cl.need_server
    then Ask.c_check_version >> serve_request cl child raw
    else serve_request cl child raw
