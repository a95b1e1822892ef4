-- ===== src/Client/Served.antt =====
-- client.c, execute.c, server.c and jobs.c: a job from RUNJOB to its end, on both sides.
use task_spooler.Base.{
  ℕ_discrete, Bool-cases, inl, inr, ◌≡◌, refl, sym, subst, ◌∙◌, ap, ℕ, ◌≤◌, true, false, List, [],
  ◌∷◌, Option, some, get_elem?, set, arith, if◌then◌else◌,
}
use task_spooler.Base.Int.{ℤ_discrete, ℤ, pos, ◌≤ℤ◌, ◌<ℤ◌, sub_int}
use task_spooler.Base.Run.{Run, ok, ◌>>=◌, Ensures-ok}
use task_spooler.State.{Text, list_line, command_line, runjob, ClientConn, Result, Job, Server}
use task_spooler.Gpu.{broadcast_free_gpus}
use task_spooler.Jobs.Find.{findjob, get_job, update_job, is_running}
use task_spooler.Jobs.Notices.{is_true, send_msg, check_notify_list}
use task_spooler.Jobs.Lookup.{findjob-update_self}
use task_spooler.Jobs.Ids.{IsDistinct, copies, ids-update_job}
use task_spooler.Jobs.Query.{started, s_process_runjob_ok}
use task_spooler.Jobs.Finish.{job_finished}
use task_spooler.Jobs.Finish.Outcome.{ended, IsEnded, job_finished-IsEnded}
use task_spooler.Jobs.Finish.Waiters.{
  answers_on, Told, check_notify_list_kept, ended-IsKept, ended-result,
}
use task_spooler.Jobs.Keep.{Keeps}
use task_spooler.Jobs.Keep.Ending.{job_finished-Keeps}
use task_spooler.Connections.{end_job}
use task_spooler.Connections.Requests
use task_spooler.Connections.Requests.{Request, World, handle, max_finished, stored_filename}
use task_spooler.CommandLine.{CommandLine}
use task_spooler.Client.{Client, goes_on, recv_msg, recv_whole}
use task_spooler.Client.Ask.{get_logdir}
use task_spooler.Client.Answers.{fresh}
use task_spooler.Client.Queue.{
  Child, default_result, with_status, is_skipped_for, c_send_runjob_ok, c_end_of_job, run_parent,
  run_job, on_runjob, server_commands, c_wait_server_commands,
}

-- What the server makes of the messages of a client, which are given newest first.
unfoldable pub handle_all : World → ℤ → ℕ → List Request → Server → Run Server
unfolding handle
handle_all w socket index [] s = ok s
handle_all w socket index (r ∷ rest) s =
    handle_all w socket index rest s >>= handle w socket index r

-- What the client tells of its child.
abbrev pub result_of : Child → Result
result_of child = record (with_status child.status default_result) {
  user_ms = child.user_ms;
  system_ms = child.system_ms;
  real_ms = child.real_ms;
}

abbrev pub runjob_ok_of : CommandLine → Child → Request
runjob_ok_of cl child =
    if is_true cl.store_output
    then Requests.runjob_ok cl.store_output child.ofname child.pid
    else Requests.runjob_ok (pos 0) [] child.pid

pub client_runs :
    (cl : CommandLine) (child : Child) (e : ℤ) (gpu_ids : List ℤ) (logdir : Text)
    → is_skipped_for cl e ≡ false
    → c_wait_server_commands cl child
        (fresh (runjob e gpu_ids ∷ list_line (command_line logdir) ∷ []))
      ≡ goes_on (result_of child).errorlevel (record (fresh []) {
        asked =
            Requests.endjob (result_of child) ∷ runjob_ok_of cl child ∷ Requests.get_logdir ∷ [];
      })
unfolding c_wait_server_commands server_commands on_runjob run_job get_logdir recv_whole recv_msg
    run_parent c_send_runjob_ok c_end_of_job
client_runs cl child e gpu_ids logdir h = elim (Bool-cases (is_true cl.store_output)) [
  | inl stored ↦ rw (h, stored, stored) refl
  | inr not_stored ↦ rw (h, not_stored) refl
]

zero_false : is_true (pos 0) ≡ false
unfolding ℤ_discrete ℕ_discrete
zero_false = refl

abbrev pub stored_of : CommandLine → Child → Option Text
stored_of cl child = stored_filename cl.store_output child.ofname

-- The server when the job has ended: the job is known with its result and the PID and the file of its
-- child, its slots are free, its waiting clients have been told, and its connection has no job.
pub record IsServed (socket : ℤ) (index : ℕ) (c : ClientConn) (p : Job) (r : Result) (j : Job)
    (s t : Server) : Type 0 where
  pub known : get_job p.jobid t ≡ some (ended r j)
  pub last_errorlevel : t.last_errorlevel ≡ r.errorlevel
  pub busy_slots : t.busy_slots ≡ sub_int s.busy_slots p.num_slots
  pub waiters :
      t.sent
      ≡ answers_on p.jobid r.errorlevel s.notifies
          ((socket, list_line (command_line s.logdir)) ∷ s.sent)
  pub conns : t.conns ≡ set s.conns index (record c { hasjob = false })

end_job_lem :
    (max : ℤ) (r : Result) (index : ℕ) (s s1 t : Server) (c : ClientConn)
    → get_elem? s.conns index ≡ some c
    → job_finished max r c.jobid s ≡ ok s1
    → check_notify_list c.jobid s1 ≡ ok t
    → end_job max r index s
      ≡ ok (record t { conns = set t.conns index (record c { hasjob = false }) })
unfolding end_job
end_job_lem max r index s s1 t c at e1 e2 = rw (at, e1, e2) refl

module _ (w : World) (socket : ℤ) (index : ℕ) (cl : CommandLine) (child : Child) (s : Server)
    (c : ClientConn) (p : Job) (used : List ℤ) (at_index : get_elem? s.conns index ≡ some c)
    (of_job : c.jobid ≡ p.jobid) (found : findjob p.jobid s.jobs ≡ some p)
    (runs : is_running p.state ≡ true) (keep : is_true p.should_keep_finished ≡ true)
    (busy : pos 0 <ℤ s.busy_slots)
    (freed : broadcast_free_gpus p.num_gpus p.gpu_ids s.used_gpus ≡ ok used)
    (room : pos 2 ≤ℤ max_finished w s) (distinct : IsDistinct s) where
  -- The job as the server knows it once its child runs.
  abbrev child_job : Job
  child_job = started (stored_of cl child) child.pid p

  abbrev running_server : Server
  running_server = record s {
    jobs = update_job p.jobid (started (stored_of cl child) child.pid) s.jobs;
    sent = (socket, list_line (command_line s.logdir)) ∷ s.sent;
  }

  runjob_ok_served :
      handle w socket index
        (runjob_ok_of cl child)
        (send_msg socket (list_line (command_line s.logdir)) s)
      ≡ ok running_server
  unfolding handle s_process_runjob_ok send_msg
  runjob_ok_served = elim (Bool-cases (is_true cl.store_output)) [
    | inl stored ↦ rw (stored, at_index, of_job, found, runs, stored) refl
    | inr not_stored ↦ rw (not_stored, at_index, of_job, found, runs, zero_false) refl
  ]

  child_job_found : findjob p.jobid running_server.jobs ≡ some child_job
  child_job_found =
      findjob-update_self p.jobid (started (stored_of cl child) child.pid) (λ q. refl) s.jobs
      ∙ rw found

  served_copies : copies p.jobid running_server ≤ 1
  served_copies =
      rw (ids-update_job p.jobid (started (stored_of cl child) child.pid) (λ q. refl) s.jobs)
        (distinct p.jobid)

  one_copy :
      (t : Server)
      → job_finished (max_finished w s) (result_of child) p.jobid running_server ≡ ok t
      → copies p.jobid t ≤ 1
  one_copy t e =
      let k =
        Ensures-ok (Keeps running_server) _
          (job_finished-Keeps (max_finished w s) (result_of child) p.jobid running_server) e in
      omega (arith, k.no_more p.jobid, served_copies)

  IsServed-of_Told :
      (s1 t : Server)
      → IsEnded (result_of child) child_job running_server s1
      → Told p.jobid (ended (result_of child) child_job).result.errorlevel s1.notifies s1 t
      → get_job p.jobid s1 ≡ some (ended (result_of child) child_job)
      → IsServed socket index c p
          (result_of child)
          child_job
          s
          (record t { conns = set t.conns index (record c { hasjob = false }) })
  unfolding get_job
  IsServed-of_Told s1 t h1 h2 known = record {
    known = rw (h2.jobs, h2.first_finished) known;
    last_errorlevel = h2.last_errorlevel ∙ h1.last_errorlevel;
    busy_slots = h2.busy_slots ∙ (h1.busy_slots ∙ rw runs refl);
    waiters = h2.sent ∙ λ i.
        answers_on p.jobid (ended-result (result_of child) child_job i).errorlevel (h1.notifies i)
          (h1.sent i);
    conns = ap (λ x. set x index (record c { hasjob = false })) (h2.conns ∙ h1.conns);
  }

  -- What the end of the job makes of the server.
  endjob-IsServed :
      (t : Server) × (handle w socket index (Requests.endjob (result_of child)) running_server
        ≡ ok t)
      × IsServed socket index c p (result_of child) child_job s t
  unfolding handle max_finished
  endjob-IsServed =
      let r = result_of child in
      let (s1, e1, h1) =
        job_finished-IsEnded (max_finished w s) r child_job used running_server busy child_job_found
          freed room in
      let kept = ended-IsKept r child_job running_server s1 h1 keep (one_copy s1 e1) in
      let (t, e2, h2) = check_notify_list_kept p.jobid (ended r child_job) s1 kept in
      (
        record t { conns = set t.conns index (record c { hasjob = false }) },
        end_job_lem (max_finished w s) r index running_server s1 t c at_index
            (subst (λ id. job_finished (max_finished w s) r id running_server ≡ ok s1) (sym of_job)
              e1)
            (subst (λ id. check_notify_list id s1 ≡ ok t) (sym of_job) e2),
        IsServed-of_Told s1 t h1 h2 kept.0,
      )

  -- A job that runs and is to be kept, on a connection of the server: its slots are among those
  -- taken, its GPUs are in range, there is room for two finished jobs and no two jobs have the same
  -- jobid. Its client, told to run it and not to skip it, runs its child and ends with the error
  -- level of its child; and the server goes on over the messages that the client sent: the job has
  -- ended with the child's result, PID and file, is found by its jobid, its error level is the last
  -- one, its slots are free, each client that waits for it has been told, and the connection has no
  -- job.
  pub run_job-IsServed :
      (e : ℤ) (gpu_ids : List ℤ)
      → is_skipped_for cl e ≡ false
      → (c' : Client) × (c_wait_server_commands cl child
            (fresh (runjob e gpu_ids ∷ list_line (command_line s.logdir) ∷ []))
          ≡ goes_on (result_of child).errorlevel c')
        × (t : Server) × (handle_all w socket index c'.asked s ≡ ok t)
        × IsServed socket index c p (result_of child) child_job s t
  unfolding handle_all
  run_job-IsServed e gpu_ids ran =
      let (t, e', h) = endjob-IsServed in
      (
        record (fresh []) {
          asked =
              Requests.endjob (result_of child) ∷ runjob_ok_of cl child ∷ Requests.get_logdir ∷ [];
        },
        client_runs cl child e gpu_ids s.logdir ran,
        t,
        rw runjob_ok_served e',
        h,
      )
