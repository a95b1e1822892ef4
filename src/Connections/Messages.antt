-- ===== src/Connections/Messages.antt =====
-- client_read: what each message keeps of the server.
use task_spooler.Base.{
  Bool, ℕ, ◌-◌, ◌^◌, ◌≡◌, refl, sym, ◌∙◌, ap, subst, inl, inr, ◌⊎◌, true, false, some, none, arith,
  get_elem?,
}
use task_spooler.Base.Int.{ℤ, pos, ◌≤ℤ◌, ◌<ℤ◌}
use task_spooler.Base.Run.{Run, Ensures, Ensures-step, Ensures-ok, Ensures-mono}
use task_spooler.State.{Server}
use task_spooler.Jobs.Notices.{send_msg}
use task_spooler.Jobs.Finish.{s_clear_finished}
use task_spooler.Jobs.Keep.{Keeps, Keeps-refl, Keeps-trans, IsSound, Keeps-IsSound}
use task_spooler.Jobs.Keep.Ordering.{s_move_urgent-Keeps, s_swap_jobs-Keeps}
use task_spooler.Jobs.Keep.Answers.{
  SameStore, SameStore-Keeps, s_kill_all_jobs-SameStore, s_list-SameStore, s_list_gpu-SameStore,
  s_job_info-SameStore, s_send_output-SameStore, s_send_label-SameStore, s_send_cmd-SameStore,
  s_send_state-SameStore, s_wait_job-SameStore, s_wait_running_job-SameStore,
  s_process_runjob_ok-Keeps,
}
use task_spooler.Jobs.NewJob.{NewJobMsg}
use task_spooler.Jobs.Query.{
  s_send_last_id, s_count_running_jobs, s_set_max_slots, s_get_max_slots, s_job_info,
}
use task_spooler.Connections.{conn_at, end_job}
use task_spooler.Connections.Requests.{
  gone, kill_server, kill_all, list_gpu_request, last_id_request, clear_finished,
  count_running_request, get_max_slots, get_version, get_free_perc, get_logdir, unknown, newjob,
  runjob_ok, get_label, get_cmd, ask_output, removejob, waitjob, wait_running_job, urgent,
  get_state, set_max_slots, set_free_perc, endjob, swap_jobs, get_env, unset_env, set_env,
  stored_filename, set_logdir, info, list_request, World, Request, max_finished, close_connection,
  handle, client_read,
}
use task_spooler.Connections.Sound.{
  IsIdleAt, close_connection-Keeps, end_job-Keeps, clean_after_client_disappeared-Keeps,
  read_newjob-IsSound, read_removejob-Keeps,
}
use task_spooler.Jobs.Query.{s_send_output}
use task_spooler.Jobs.Wait.{s_wait_running_job}
use task_spooler.Jobs.Lookup.{count}

-- The messages after whose answer the connection is closed.
abbrev pub closes : Request → Bool
closes (list_request format) = true
closes list_gpu_request = true
closes (info jobid) = true
closes (set_logdir path) = true
closes r = false

-- The message that makes a new job.
abbrev pub is_newjob : Request → Bool
is_newjob (newjob m) = true
is_newjob r = false

answers-Keeps : (s : Server) (m : Run Server) → Ensures (SameStore s) m → Ensures (Keeps s) m
answers-Keeps s m h = Ensures-mono m h λ t k. SameStore-Keeps k

-- An answer, and then the end of the connection.
closing-Keeps :
    (socket : ℤ) (index : ℕ) {s t : Server}
    → SameStore s t
    → IsIdleAt index s.conns
    → Ensures (Keeps s) (close_connection socket index t)
closing-Keeps socket index {s} {t} same idle =
    Ensures-mono (close_connection socket index t)
      (close_connection-Keeps socket index t
        λ c e. idle c (ap (λ x. get_elem? x index) (sym same.conns) ∙ e))
      λ u k. Keeps-trans (SameStore-Keeps same) k

same_jobs :
    {s t : Server}
    → t.jobs ≡ s.jobs
    → t.first_finished ≡ s.first_finished
    → t.jobids ≡ s.jobids
    → t.busy_slots ≡ s.busy_slots
    → t.conns ≡ s.conns
    → SameStore s t
same_jobs a b c d e = record { jobs = a; first_finished = b; jobids = c; busy_slots = d; conns = e }

clear_finished-Keeps : (s : Server) → Keeps s (s_clear_finished s)
unfolding s_clear_finished count
clear_finished-Keeps s = record { accounted = λ a. a; no_more = λ id. omega arith; counter = refl }

pub handle-Keeps :
    (w : World) (socket : ℤ) (index : ℕ) (r : Request) (s : Server)
    → is_newjob r ≡ false
    → (closes r ≡ true → IsIdleAt index s.conns)
    → IsSound s
    → Ensures (Keeps s) (handle w socket index r s)
unfolding handle s_send_last_id s_count_running_jobs s_set_max_slots s_get_max_slots send_msg
handle-Keeps w socket index gone s n idle h =
    clean_after_client_disappeared-Keeps (max_finished w s) socket index s
handle-Keeps w socket index (newjob m) s n idle h = cc
handle-Keeps w socket index (runjob_ok store_output oname pid) s n idle h =
    Ensures-step (Keeps s) (conn_at index s) _
      λ c e. s_process_runjob_ok-Keeps c.jobid (stored_filename store_output oname) pid s
handle-Keeps w socket index kill_all s n idle h =
    SameStore-Keeps (s_kill_all_jobs-SameStore socket s)
handle-Keeps w socket index (list_request format) s n idle h =
    closing-Keeps socket index (s_list-SameStore socket format s) (idle refl)
handle-Keeps w socket index list_gpu_request s n idle h =
    closing-Keeps socket index (s_list_gpu-SameStore socket s) (idle refl)
handle-Keeps w socket index (info jobid) s n idle h =
    Ensures-step (Keeps s) (s_job_info socket jobid s) _ λ t e.
      closing-Keeps socket index (Ensures-ok _ _ (s_job_info-SameStore socket jobid s) e)
        (idle refl)
handle-Keeps w socket index last_id_request s n idle h =
    SameStore-Keeps (same_jobs refl refl refl refl refl)
handle-Keeps w socket index (get_label jobid) s n idle h =
    SameStore-Keeps (s_send_label-SameStore socket jobid s)
handle-Keeps w socket index (get_cmd jobid) s n idle h =
    SameStore-Keeps (s_send_cmd-SameStore socket jobid s)
handle-Keeps w socket index (endjob r) s n idle h =
    Ensures-mono (end_job (max_finished w s) r index s) (end_job-Keeps (max_finished w s) r index s)
      λ t k. k.0
handle-Keeps w socket index clear_finished s n idle h = clear_finished-Keeps s
handle-Keeps w socket index (ask_output jobid) s n idle h =
    answers-Keeps s (s_send_output socket jobid s) (s_send_output-SameStore socket jobid s)
handle-Keeps w socket index (removejob jobid) s n idle h = read_removejob-Keeps socket jobid s h
handle-Keeps w socket index (waitjob jobid) s n idle h =
    SameStore-Keeps (s_wait_job-SameStore socket jobid s)
handle-Keeps w socket index (wait_running_job jobid) s n idle h =
    answers-Keeps s (s_wait_running_job socket jobid s)
      (s_wait_running_job-SameStore socket jobid s)
handle-Keeps w socket index count_running_request s n idle h =
    SameStore-Keeps (same_jobs refl refl refl refl refl)
handle-Keeps w socket index (urgent jobid) s n idle h = s_move_urgent-Keeps socket jobid s
handle-Keeps w socket index (set_max_slots x) s n idle h = SameStore-Keeps (ground arith)
handle-Keeps w socket index get_max_slots s n idle h =
    SameStore-Keeps (same_jobs refl refl refl refl refl)
handle-Keeps w socket index (swap_jobs a b) s n idle h = s_swap_jobs-Keeps socket a b s
handle-Keeps w socket index (get_state jobid) s n idle h =
    SameStore-Keeps (s_send_state-SameStore socket jobid s)
handle-Keeps w socket index (get_env name) s n idle h =
    SameStore-Keeps (same_jobs refl refl refl refl refl)
handle-Keeps w socket index (set_env (some name) (some value)) s n idle h =
    SameStore-Keeps (same_jobs refl refl refl refl refl)
handle-Keeps w socket index (set_env (some name) none) s n idle h = tt
handle-Keeps w socket index (set_env none value) s n idle h = tt
handle-Keeps w socket index (unset_env name) s n idle h =
    SameStore-Keeps (same_jobs refl refl refl refl refl)
handle-Keeps w socket index (set_free_perc x) s n idle h = SameStore-Keeps (ground arith)
handle-Keeps w socket index get_free_perc s n idle h =
    SameStore-Keeps (same_jobs refl refl refl refl refl)
handle-Keeps w socket index get_version s n idle h =
    SameStore-Keeps (same_jobs refl refl refl refl refl)
handle-Keeps w socket index get_logdir s n idle h =
    SameStore-Keeps (same_jobs refl refl refl refl refl)
handle-Keeps w socket index (set_logdir path) s n idle h =
    closing-Keeps socket index {s = s} {t = record s { logdir = path }}
      (same_jobs refl refl refl refl refl) (idle refl)
handle-Keeps w socket index kill_server s n idle h = Keeps-refl s
handle-Keeps w socket index unknown s n idle h = Keeps-refl s

newjob-cases : (r : Request) → (is_newjob r ≡ false) ⊎ ((m : NewJobMsg) × (r ≡ newjob m))
newjob-cases (newjob m) = inr (m, refl)
newjob-cases r = inl refl

handle-IsSound :
    (w : World) (socket : ℤ) (index : ℕ) (r : Request) (s : Server)
    → pos 0 ≤ℤ s.jobids
    → s.jobids <ℤ pos (2 ^ 31 - 1)
    → (closes r ≡ true → IsIdleAt index s.conns)
    → IsSound s
    → Ensures IsSound (handle w socket index r s)
unfolding handle
handle-IsSound w socket index r s p q idle h = elim (newjob-cases r) [
  | inl other ↦
      Ensures-mono (handle w socket index r s) (handle-Keeps w socket index r s other idle h)
        λ t k. Keeps-IsSound k h
  | inr (m, e) ↦
      subst (λ x. Ensures IsSound (handle w socket index x s)) (sym e)
        (read_newjob-IsSound w index m s p q h)
]

-- Whatever comes in on a connection, the server is sound afterwards, where it goes on: provided
-- that the counter of the jobids has not reached its end, and that a message which closes the
-- connection comes on one that has no job.
pub client_read-IsSound :
    (w : World) (index : ℕ) (r : Request) (s : Server)
    → pos 0 ≤ℤ s.jobids
    → s.jobids <ℤ pos (2 ^ 31 - 1)
    → (closes r ≡ true → IsIdleAt index s.conns)
    → IsSound s
    → Ensures (λ (b, t). IsSound t) (client_read w index r s)
unfolding client_read
client_read-IsSound w index r s p q idle h = Ensures-step _ (conn_at index s) _ λ c e.
    Ensures-step _ (handle w c.socket index r s) _
      λ t e'. Ensures-ok _ _ (handle-IsSound w c.socket index r s p q idle h) e'
