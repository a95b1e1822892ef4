-- ===== src/Jobs/NewJob.antt =====
-- jobs.c: a new job, and what it depends on. The data that follows the NEWJOB message on the socket
-- is taken to arrive whole.
pub mod Depend
pub mod Join
pub mod Back
use task_spooler.Base.{
  ℕ, suc, ◌+◌, Bool, true, false, List, [], ◌∷◌, ◌++◌, Option, none, some, ite, length, replicate,
  ltb, if◌then◌else◌,
}
use task_spooler.Base.Int.{
  ℤ, pos, negsuc, ℤ_discrete, minus_one, leb_ℤ, ltb_ℤ, add_int, abs, pos_part,
}
use task_spooler.Base.Run.{Run, ok, exits, fault, ◌>>=◌, or_exits}
use task_spooler.State.{Text, JobState, queued, allocating, holding_client, Job, Server}
use task_spooler.Jobs.Find.{
  findjob, update_job, is_some, count_not_finished_jobs, find_last_jobid_in_queue,
  find_last_stored_jobid_finished,
}
use task_spooler.Jobs.Notices.{is_true}

-- The `newjob` part of struct Msg, and what the client sends after it. The sizes of the arrays are
-- the lengths of the lists; an array or a text that is not sent is `none`.
pub record NewJobMsg : Type 0 where
  pub store_output : ℤ
  pub should_keep_finished : ℤ
  pub wait_enqueuing : ℤ
  pub num_slots : ℤ
  pub gpus : ℤ
  pub wait_free_gpus : ℤ
  pub gpu_ids : List ℤ
  pub depend_on : List ℤ
  pub command : Text
  pub label : Option Text

-- `notify_errorlevel_to[size - 1] = jobid` behind the old entries.
abbrev pub add_notify_errorlevel_to : ℤ → Job → Job
add_notify_errorlevel_to jobid p = record p {
  notify_errorlevel_to = p.notify_errorlevel_to ++ jobid ∷ [];
}

-- The loop over the dependencies: the server, and the new job's depend_on and
-- dependency_errorlevel so far.
pub record Deps : Type 0 where
  pub server : Server
  pub depend_on : List ℤ
  pub errorlevel : ℤ

abbrev pub depend : Deps → Server → ℤ → ℤ → Deps
depend d s id errorlevel = record {
  server = s;
  depend_on = d.depend_on ++ id ∷ [];
  errorlevel = errorlevel;
}

-- "Otherwise take the finished job, or the last_errorlevel".
unfoldable pub depend_on_finished : Deps → Run Deps
depend_on_finished d =
    let s = d.server in
    let ljobid = find_last_stored_jobid_finished minus_one s.first_finished in
    if ltb_ℤ s.last_finished_jobid ljobid
    then (do
      parent ← or_exits (findjob ljobid s.first_finished)
      ok (depend d s ljobid (add_int d.errorlevel (abs parent.result.errorlevel))))
    else ok (depend d s ljobid (add_int d.errorlevel (abs s.last_errorlevel)))

-- The last jobid of the queue, or -1 if it is not the last one added.
unfoldable pub last_unfinished : ℤ → Server → ℤ
last_unfinished jobid s =
    let queue_last = find_last_jobid_in_queue jobid minus_one s.jobs in
    if ltb_ℤ queue_last s.last_finished_jobid then minus_one else queue_last

-- The dependency -1: the last job added, if it is still to end.
unfoldable pub depend_on_last : ℤ → Deps → Run Deps
unfolding depend_on_finished last_unfinished
depend_on_last jobid d =
    let s = d.server in
    let last = last_unfinished jobid s in
    ite (ℤ_discrete last minus_one) (depend_on_finished d) (
      ok (
        depend d (record s { jobs = update_job last (add_notify_errorlevel_to jobid) s.jobs }) last
          d.errorlevel))

-- What a dependency on a job that has ended, or is unknown, adds to the error level.
abbrev pub ended_errorlevel : Option Job → ℤ → ℤ
ended_errorlevel none errorlevel = add_int errorlevel (pos 1)
ended_errorlevel (some parent) errorlevel = add_int errorlevel (abs parent.result.errorlevel)

-- A dependency that the user gave.
unfoldable pub depend_on_given : ℤ → ℤ → Deps → Deps
depend_on_given jobid id d =
    let s = d.server in
    if is_some (findjob id s.jobs)
    then depend d (record s { jobs = update_job id (add_notify_errorlevel_to jobid) s.jobs }) id
        d.errorlevel
    else depend d s id (ended_errorlevel (findjob id s.first_finished) d.errorlevel)

-- A dependency on the job itself or on a later one is left out.
unfoldable pub depend_on_one : ℤ → ℤ → Deps → Run Deps
unfolding depend_on_last depend_on_given
depend_on_one jobid id d =
    if leb_ℤ jobid id
    then ok d
    else ite (ℤ_discrete id minus_one) (depend_on_last jobid d) (ok (depend_on_given jobid id d))

unfoldable pub depend_loop : ℤ → List ℤ → Deps → Run Deps
unfolding depend_on_one
depend_loop jobid [] d = ok d
depend_loop jobid (id ∷ rest) d = depend_on_one jobid id d >>= depend_loop jobid rest

-- gpu_ids of the new job: those that were sent, or room for num_gpus + 1 of them, each -1.
unfoldable pub new_gpu_ids : NewJobMsg → Run (List ℤ)
new_gpu_ids m =
    if is_true m.wait_free_gpus
    then (elim m.gpus [
      | pos n ↦ ok (replicate (suc n) minus_one)
      | negsuc n ↦ if ltb 0 n then fault else ok []
    ])
    else ok m.gpu_ids

-- `recv_ints` sets num_gpus to the number of ids that it reads.
abbrev pub new_num_gpus : NewJobMsg → List ℤ → ℤ
new_num_gpus m gpu_ids = if is_true m.wait_free_gpus then m.gpus else pos (length gpu_ids)

-- The state of a job that is the `count`-th of the queue.
abbrev pub new_state : ℤ → ℤ → ℕ → JobState
new_state gpus max_jobs count =
    if ltb_ℤ (pos count) max_jobs
    then (if is_true gpus then allocating else queued)
    else holding_client

-- `raw` is the memory that malloc gave, whose `result` and `pid` init_job leaves as they are. The job
-- stands last in the queue, where no search of the loop finds it: those pass over its jobid.
unfoldable pub s_newjob : Job → NewJobMsg → Server → Run (ℤ × Server)
unfolding depend_loop new_gpu_ids
s_newjob raw m s = do
  gpu_ids ← new_gpu_ids m
  let jobid = s.jobids
  d ← depend_loop jobid m.depend_on (record { server = s; depend_on = []; errorlevel = pos 0 })
  let t = d.server
  let p = record raw {
    jobid = jobid;
    command = m.command;
    state = new_state m.gpus s.max_jobs (count_not_finished_jobs s.jobs + 1);
    output_filename = none;
    store_output = m.store_output;
    should_keep_finished = m.should_keep_finished;
    depend_on = d.depend_on;
    notify_errorlevel_to = [];
    dependency_errorlevel = d.errorlevel;
    label = m.label;
    num_slots = m.num_slots;
    num_gpus = new_num_gpus m gpu_ids;
    gpu_ids = gpu_ids;
    wait_free_gpus = m.wait_free_gpus;
  }
  ok (jobid, record t { jobs = t.jobs ++ p ∷ []; jobids = add_int jobid (pos 1) })
