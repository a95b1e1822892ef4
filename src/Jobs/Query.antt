-- ===== src/Jobs/Query.antt =====
-- jobs.c: questions about jobs and their answers, and the settings of the server.
use task_spooler.Base.{
  ◌++◌, take, ℕ, suc, Option, none, some, ite, ◌||◌, ◌&&◌, not, if◌then◌else◌, List, [], ◌∷◌,
}
use task_spooler.Base.Int.{pos_part, ℤ, pos, ℤ_discrete, minus_one, ltb_ℤ, sub_int}
use task_spooler.Base.Run.{Run, ok, exits, ◌>>=◌, or_exits}
use task_spooler.State.{
  ListFormat, default_format, json, tab, list_json, Text, Job, Server, list_line, count_running,
  running_pid, last_id, get_max_slots_ok, answer_state, answer_output, runjob, info_data, job_info,
  no_jobs, job_not_finished, job_not_found, last_not_finished, last_was_skipped, job_was_skipped,
  last_cannot_be_stated, job_cannot_be_stated, command_line, label_line, headers, gpu_headers,
  job_line, job_gpu_line,
}
use task_spooler.Jobs.Find.{
  findjob, get_job, update_job, last_job, is_running, is_allocating, is_finished, is_skipped,
  is_holding,
}
use task_spooler.Jobs.Notices.{send_msg, is_true}
use task_spooler.Jobs.Wait.{last_added, first_job}

-- The loop of s_count_running_jobs.
unfoldable pub running_jobs : List Job → ℕ
running_jobs [] = 0
running_jobs (p ∷ rest) = if is_running p.state then suc (running_jobs rest) else running_jobs rest

unfoldable pub s_count_running_jobs : ℤ → Server → Server
unfolding running_jobs send_msg
s_count_running_jobs socket s = send_msg socket (count_running (running_jobs s.jobs)) s

unfoldable pub s_count_allocating_jobs : List Job → ℕ
s_count_allocating_jobs [] = 0
s_count_allocating_jobs (p ∷ rest) =
    if is_allocating p.state
    then suc (s_count_allocating_jobs rest)
    else s_count_allocating_jobs rest

unfoldable pub send_pids : ℤ → List Job → Server → Server
unfolding send_msg
send_pids socket [] s = s
send_pids socket (p ∷ rest) s =
    send_pids socket rest (if is_running p.state then send_msg socket (running_pid p.pid) s else s)

unfoldable pub s_kill_all_jobs : ℤ → Server → Server
unfolding s_count_running_jobs send_pids
s_kill_all_jobs socket s = send_pids socket s.jobs (s_count_running_jobs socket s)

-- The job that a request names: -1 is the last one added, or else the last one that ended.
abbrev named : ℤ → Server → Option Job
named jobid s = ite (ℤ_discrete jobid minus_one) (last_added s) (get_job jobid s)

unfoldable pub s_send_label : ℤ → ℤ → Server → Server
unfolding last_added send_msg
s_send_label socket jobid s = elim (named jobid s) [
  | none ↦ send_msg socket (list_line (job_not_finished jobid)) s
  | some p ↦ send_msg socket (list_line (label_line p.label)) s
]

unfoldable pub s_send_cmd : ℤ → ℤ → Server → Server
unfolding last_added send_msg
s_send_cmd socket jobid s = elim (named jobid s) [
  | none ↦ send_msg socket (list_line (job_not_found jobid)) s
  | some p ↦ send_msg socket (list_line (command_line p.command)) s
]

unfoldable pub s_send_state : ℤ → ℤ → Server → Server
unfolding last_added send_msg
s_send_state socket jobid s = elim (named jobid s) [
  | none ↦
      send_msg socket
        (list_line
          (ite (ℤ_discrete jobid minus_one) last_cannot_be_stated (job_cannot_be_stated jobid)))
        s
  | some p ↦ send_msg socket (answer_state p.state) s
]

unfoldable pub s_send_last_id : ℤ → Server → Server
unfolding send_msg
s_send_last_id socket s = send_msg socket (last_id (sub_int s.jobids (pos 1))) s

-- The job of the request -1 of s_job_info and s_send_output: the first of the queue if slots are
-- taken, and else the last one that ended; `inl` where the answer is "No jobs.".
unfoldable pub last_run : Server → Run (Option Job)
last_run s =
    if ltb_ℤ (pos 0) s.busy_slots
    then (do p ← or_exits (first_job s.jobs); ok (some p))
    else ok (last_job s.first_finished)

unfoldable pub tell_info : ℤ → ℤ → Option Job → Server → Server
unfolding send_msg
tell_info socket jobid none s = send_msg socket (list_line (job_not_finished jobid)) s
tell_info socket jobid (some p) s = send_msg socket (job_info p) (send_msg socket info_data s)

unfoldable pub s_job_info : ℤ → ℤ → Server → Run Server
unfolding last_run tell_info
s_job_info socket jobid s =
    ite (ℤ_discrete jobid minus_one)
      (last_run s >>= λ o. ok (elim o [
        | none ↦ send_msg socket (list_line no_jobs) s
        | some p ↦ tell_info socket jobid (some p) s
      ]))
      (ok (tell_info socket jobid (get_job jobid s) s))

-- A job that neither runs nor has ended has no output yet.
abbrev pub with_output : Option Job → Option Job
with_output none = none
with_output (some p) =
    if is_running p.state || is_finished p.state || is_skipped p.state then some p else none

abbrev output_filename_sent : Job → Option Text
output_filename_sent p = if is_true p.store_output then p.output_filename else none

unfoldable pub tell_output : ℤ → ℤ → Option Job → Server → Server
unfolding send_msg
tell_output socket jobid none s =
    send_msg socket
      (list_line (ite (ℤ_discrete jobid minus_one) last_not_finished (job_not_finished jobid))) s
tell_output socket jobid (some p) s =
    if is_skipped p.state
    then send_msg socket
        (list_line (ite (ℤ_discrete jobid minus_one) last_was_skipped (job_was_skipped jobid))) s
    else send_msg socket (answer_output p.store_output p.pid (output_filename_sent p)) s

unfoldable pub s_send_output : ℤ → ℤ → Server → Run Server
unfolding last_run tell_output
s_send_output socket jobid s =
    ite (ℤ_discrete jobid minus_one)
      (last_run s >>= λ o. ok (elim o [
        | none ↦ send_msg socket (list_line no_jobs) s
        | some p ↦ tell_output socket jobid (some p) s
      ]))
      (ok (tell_output socket jobid (with_output (get_job jobid s)) s))

unfoldable pub s_send_runjob : ℤ → ℤ → Server → Run Server
unfolding send_msg
s_send_runjob socket jobid s = do
  p ← or_exits (findjob jobid s.jobs)
  ok (send_msg socket (runjob p.dependency_errorlevel (take (pos_part p.num_gpus) p.gpu_ids)) s)

abbrev pub started : Option Text → ℤ → Job → Job
started oname pid p = record p { pid = pid; output_filename = oname }

unfoldable pub s_process_runjob_ok : ℤ → Option Text → ℤ → Server → Run Server
s_process_runjob_ok jobid oname pid s = do
  p ← or_exits (findjob jobid s.jobs)
  if is_running p.state
      then ok (record s { jobs = update_job jobid (started oname pid) s.jobs })
      else exits

-- A value that is not positive is ignored, with a warning.
unfoldable pub s_set_max_slots : ℤ → Server → Server
s_set_max_slots new_max_slots s =
    if ltb_ℤ (pos 0) new_max_slots then record s { max_slots = new_max_slots } else s

unfoldable pub s_get_max_slots : ℤ → Server → Server
unfolding send_msg
s_get_max_slots socket s = send_msg socket (get_max_slots_ok s.max_slots) s

-- The lines of the formats DEFAULT and TAB, after the headers.
unfoldable pub send_queue : ℤ → List Job → Server → Server
unfolding send_msg
send_queue socket [] s = s
send_queue socket (p ∷ rest) s =
    send_queue socket rest
      (if not (is_holding p.state) then send_msg socket (list_line (job_line p)) s else s)

unfoldable pub send_finished : ℤ → List Job → Server → Server
unfolding send_msg
send_finished socket [] s = s
send_finished socket (p ∷ rest) s =
    send_finished socket rest (send_msg socket (list_line (job_line p)) s)

-- The jobs that a list shows: no job that holds its client.
unfoldable pub shown : List Job → List Job
shown [] = []
shown (p ∷ rest) = if not (is_holding p.state) then p ∷ shown rest else shown rest

unfoldable pub s_list : ℤ → ListFormat → Server → Server
unfolding send_queue send_finished send_msg shown
s_list socket default_format s =
    send_finished socket s.first_finished
      (send_queue socket s.jobs (send_msg socket (list_line headers) s))
s_list socket json s = send_msg socket (list_json (shown s.jobs ++ s.first_finished)) s
s_list socket tab s = send_finished socket s.first_finished (send_queue socket s.jobs s)

unfoldable pub send_gpu_lines : ℤ → List Job → Server → Server
unfolding send_msg
send_gpu_lines socket [] s = s
send_gpu_lines socket (p ∷ rest) s = send_gpu_lines socket rest (
    if is_running p.state && is_true p.num_gpus
    then send_msg socket (list_line (job_gpu_line p)) s
    else s)

unfoldable pub s_list_gpu : ℤ → Server → Server
unfolding send_gpu_lines send_msg
s_list_gpu socket s = send_gpu_lines socket s.jobs (send_msg socket (list_line gpu_headers) s)
