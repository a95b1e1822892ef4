-- ===== src/Jobs/Keep/Answers.antt =====
-- The operations that answer a client, or set a value, and leave the jobs alone.
use task_spooler.Base.{◌≡◌, refl, Bool-cases, inl, inr, not, ◌&&◌, List, [], ◌∷◌, Option, arith}
use task_spooler.Base.Int.{ℤ}
use task_spooler.Base.Run.{Ensures, Ensures-step, or_exits}
use task_spooler.State.{
  ListFormat, default_format, json, tab, Job, Server, Text, running_pid, list_line, job_line,
  job_gpu_line,
}
use task_spooler.Jobs.Find.{findjob, is_running, is_holding}
use task_spooler.Jobs.Notices.{send_msg, is_true, add_to_notify_list}
use task_spooler.Jobs.Slots.{slots_in_use-update_keep}
use task_spooler.Jobs.Ids.{ids-update_job}
use task_spooler.Jobs.Query.{
  s_count_running_jobs, send_pids, s_kill_all_jobs, s_list, s_list_gpu, s_job_info, s_send_label,
  s_send_cmd, s_send_output, s_send_state, s_process_runjob_ok, send_queue, send_finished,
  send_gpu_lines, last_run, tell_info, tell_output,
}
use task_spooler.Jobs.Wait.{wait_for, s_wait_job, wait_last_run, s_wait_running_job}
use task_spooler.Jobs.Keep.{Keeps, SameJobs-Keeps}

-- The jobs and the connections are those of before.
pub record SameStore (s t : Server) : Type 0 where
  pub jobs : t.jobs ≡ s.jobs
  pub first_finished : t.first_finished ≡ s.first_finished
  pub jobids : t.jobids ≡ s.jobids
  pub busy_slots : t.busy_slots ≡ s.busy_slots
  pub conns : t.conns ≡ s.conns

SameStore-refl : (s : Server) → SameStore s s
SameStore-refl s = ground arith

SameStore-trans : {s t u : Server} → SameStore s t → SameStore t u → SameStore s u
SameStore-trans h k = ground arith

pub SameStore-Keeps : {s t : Server} → SameStore s t → Keeps s t
SameStore-Keeps h = record {
  accounted = λ a. rw (h.jobs, h.busy_slots) a;
  no_more = λ id. rw (h.jobs, h.first_finished) (omega arith);
  counter = h.jobids;
}

send_pids-SameStore :
    (socket : ℤ) (jobs : List Job) (s : Server) → SameStore s (send_pids socket jobs s)
unfolding send_pids send_msg
send_pids-SameStore socket [] s = SameStore-refl s
send_pids-SameStore socket (p ∷ rest) s = elim (Bool-cases (is_running p.state)) [
  | inl run ↦ rw run (
      SameStore-trans (ground arith)
        (send_pids-SameStore socket rest (send_msg socket (running_pid p.pid) s)))
  | inr idle ↦ rw idle (send_pids-SameStore socket rest s)
]

send_queue-SameStore :
    (socket : ℤ) (jobs : List Job) (s : Server) → SameStore s (send_queue socket jobs s)
unfolding send_queue send_msg
send_queue-SameStore socket [] s = SameStore-refl s
send_queue-SameStore socket (p ∷ rest) s = elim (Bool-cases (not (is_holding p.state))) [
  | inl show ↦ rw show (
      SameStore-trans (ground arith)
        (send_queue-SameStore socket rest (send_msg socket (list_line (job_line p)) s)))
  | inr hide ↦ rw hide (send_queue-SameStore socket rest s)
]

send_finished-SameStore :
    (socket : ℤ) (jobs : List Job) (s : Server) → SameStore s (send_finished socket jobs s)
unfolding send_finished send_msg
send_finished-SameStore socket [] s = SameStore-refl s
send_finished-SameStore socket (p ∷ rest) s =
    SameStore-trans (ground arith)
      (send_finished-SameStore socket rest (send_msg socket (list_line (job_line p)) s))

send_gpu_lines-SameStore :
    (socket : ℤ) (jobs : List Job) (s : Server) → SameStore s (send_gpu_lines socket jobs s)
unfolding send_gpu_lines send_msg
send_gpu_lines-SameStore socket [] s = SameStore-refl s
send_gpu_lines-SameStore socket (p ∷ rest) s =
    elim (Bool-cases (is_running p.state && is_true p.num_gpus)) [
      | inl show ↦ rw show (
          SameStore-trans (ground arith)
            (send_gpu_lines-SameStore socket rest (send_msg socket (list_line (job_gpu_line p)) s)))
      | inr hide ↦ rw hide (send_gpu_lines-SameStore socket rest s)
    ]

pub s_kill_all_jobs-SameStore : (socket : ℤ) (s : Server) → SameStore s (s_kill_all_jobs socket s)
unfolding s_kill_all_jobs s_count_running_jobs send_msg
s_kill_all_jobs-SameStore socket s =
    SameStore-trans (ground arith)
      (send_pids-SameStore socket s.jobs (s_count_running_jobs socket s))

pub s_list-SameStore :
    (socket : ℤ) (format : ListFormat) (s : Server) → SameStore s (s_list socket format s)
unfolding s_list send_msg
s_list-SameStore socket default_format s = SameStore-trans (ground arith) (
    SameStore-trans (send_queue-SameStore socket s.jobs _)
      (send_finished-SameStore socket s.first_finished _))
s_list-SameStore socket json s = ground arith
s_list-SameStore socket tab s =
    SameStore-trans (send_queue-SameStore socket s.jobs s)
      (send_finished-SameStore socket s.first_finished _)

pub s_list_gpu-SameStore : (socket : ℤ) (s : Server) → SameStore s (s_list_gpu socket s)
unfolding s_list_gpu send_msg
s_list_gpu-SameStore socket s =
    SameStore-trans (ground arith) (send_gpu_lines-SameStore socket s.jobs _)

pub s_job_info-SameStore :
    (socket jobid : ℤ) (s : Server) → Ensures (SameStore s) (s_job_info socket jobid s)
unfolding s_job_info last_run tell_info send_msg
s_job_info-SameStore socket jobid s = ground arith

pub s_send_output-SameStore :
    (socket jobid : ℤ) (s : Server) → Ensures (SameStore s) (s_send_output socket jobid s)
unfolding s_send_output last_run tell_output send_msg
s_send_output-SameStore socket jobid s = ground arith

pub s_send_label-SameStore :
    (socket jobid : ℤ) (s : Server) → SameStore s (s_send_label socket jobid s)
unfolding s_send_label send_msg
s_send_label-SameStore socket jobid s = ground arith

pub s_send_cmd-SameStore : (socket jobid : ℤ) (s : Server) → SameStore s (s_send_cmd socket jobid s)
unfolding s_send_cmd send_msg
s_send_cmd-SameStore socket jobid s = ground arith

pub s_send_state-SameStore :
    (socket jobid : ℤ) (s : Server) → SameStore s (s_send_state socket jobid s)
unfolding s_send_state send_msg
s_send_state-SameStore socket jobid s = ground arith

wait_for-SameStore :
    (socket jobid : ℤ) (o : Option Job) (s : Server) → SameStore s (wait_for socket jobid o s)
unfolding wait_for send_msg add_to_notify_list
wait_for-SameStore socket jobid o s = ground arith

pub s_wait_job-SameStore : (socket jobid : ℤ) (s : Server) → SameStore s (s_wait_job socket jobid s)
unfolding s_wait_job
s_wait_job-SameStore socket jobid s = wait_for-SameStore socket jobid _ s

pub s_wait_running_job-SameStore :
    (socket jobid : ℤ) (s : Server) → Ensures (SameStore s) (s_wait_running_job socket jobid s)
unfolding s_wait_running_job wait_last_run wait_for send_msg add_to_notify_list
s_wait_running_job-SameStore socket jobid s = ground arith

pub s_process_runjob_ok-Keeps :
    (jobid : ℤ) (oname : Option Text) (pid : ℤ) (s : Server)
    → Ensures (Keeps s) (s_process_runjob_ok jobid oname pid s)
unfolding s_process_runjob_ok
s_process_runjob_ok-Keeps jobid oname pid s =
    Ensures-step (Keeps s) (or_exits (findjob jobid s.jobs)) _ λ p e.
      elim (Bool-cases (is_running p.state)) [
        | inl run ↦ rw run (
            SameJobs-Keeps (record {
              busy = refl;
              slots = slots_in_use-update_keep jobid _ (λ q. (refl, refl)) s.jobs;
              queue_ids = ids-update_job jobid _ (λ q. refl) s.jobs;
              finished_ids = refl;
              counter = refl;
            }))
        | inr idle ↦ rw idle tt
      ]
