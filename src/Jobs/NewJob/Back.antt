-- ===== src/Jobs/NewJob/Back.antt =====
-- s_newjob: each job depends on jobs that are older than it, so that no jobs wait for each other.
use task_spooler.Base.{List, [], ◌∷◌, ◌++◌, All, if_pos, if_neg, arith, Bool-cases, inl, inr}
use task_spooler.Base.Int.{ℤ, pos, ℤ_discrete, minus_one, ◌≤ℤ◌, ◌<ℤ◌, ltb_ℤ, leb_ℤ, add_int, abs}
use task_spooler.Base.Run.{or_exits, Ensures, Ensures-step, Ensures-ok, Ensures-ite}
use task_spooler.State.{Job, Server}
use task_spooler.Jobs.Find.{
  findjob, update_job, is_some, find_last_jobid_in_queue, find_last_stored_jobid_finished,
}
use task_spooler.Jobs.NewJob.{
  NewJobMsg, Deps, depend, add_notify_errorlevel_to, last_unfinished, depend_on_finished,
  depend_on_last, depend_on_given, depend_on_one, depend_loop, ended_errorlevel, new_gpu_ids,
  s_newjob,
}

-- The jobids that a job depends on are below its own.
abbrev pub IsBack : Job → Type 0
IsBack p = All (λ id. id <ℤ p.jobid) p.depend_on

abbrev pub IsOlder : ℤ → Job → Type 0
IsOlder jobid p = p.jobid <ℤ jobid

-- The lists of a server, as the loop over the dependencies of the job `jobid` finds them.
abbrev pub Behind : ℤ → Server → Type 0
Behind jobid s =
    All (IsOlder jobid) s.jobs × (All (IsOlder jobid) s.first_finished × All IsBack s.jobs)

abbrev Older : ℤ → Deps → Type 0
Older jobid d = Behind jobid d.server × All (λ id. id <ℤ jobid) d.depend_on

find_last_jobid_in_queue_lt :
    (jobid neglect : ℤ) (jobs : List Job) (last : ℤ)
    → last <ℤ jobid
    → All (IsOlder jobid) jobs
    → find_last_jobid_in_queue neglect last jobs <ℤ jobid
unfolding find_last_jobid_in_queue
find_last_jobid_in_queue_lt jobid neglect [] last l h = l
find_last_jobid_in_queue_lt jobid neglect (p ∷ rest) last l (h, hs) =
    find_last_jobid_in_queue_lt jobid neglect rest _ (ground arith) hs

find_last_stored_jobid_finished_lt :
    (jobid : ℤ) (jobs : List Job) (last : ℤ)
    → last <ℤ jobid
    → All (IsOlder jobid) jobs
    → find_last_stored_jobid_finished last jobs <ℤ jobid
unfolding find_last_stored_jobid_finished
find_last_stored_jobid_finished_lt jobid [] last l h = l
find_last_stored_jobid_finished_lt jobid (p ∷ rest) last l (h, hs) =
    find_last_stored_jobid_finished_lt jobid rest _ (ground arith) hs

All-append_one {ℓ κ} :
    {A : Type ℓ} (P : A → Type κ) (xs : List A) (x : A) → All P xs → P x → All P (xs ++ x ∷ [])
All-append_one P [] x h k = (k, tt)
All-append_one P (y ∷ xs) x (h, hs) k = (h, All-append_one P xs x hs k)

module _ (P : Job → Type 0) (f : Job → Job) (keep : (p : Job) → P p → P (f p)) where
  All-update_job : (id : ℤ) (jobs : List Job) → All P jobs → All P (update_job id f jobs)
  unfolding update_job
  All-update_job id [] h = tt
  All-update_job id (p ∷ rest) (h, hs) = elim (ℤ_discrete p.jobid id) [
    | yes hit ↦
        rw (if_pos (ℤ_discrete p.jobid id) hit (f p ∷ rest) (p ∷ update_job id f rest))
          (keep p h, hs)
    | no miss ↦
        rw (if_neg (ℤ_discrete p.jobid id) miss (f p ∷ rest) (p ∷ update_job id f rest))
          (h, All-update_job id rest hs)
  ]

-- A job of the queue is told to tell the new one, and the dependency is noted.
depend-Older :
    (jobid id told : ℤ) (errorlevel : ℤ) (d : Deps)
    → id <ℤ jobid
    → Older jobid d
    → Older jobid (
        depend d
          (record d.server { jobs = update_job id (add_notify_errorlevel_to told) d.server.jobs })
          id
          errorlevel)
depend-Older jobid id told errorlevel d l ((jobs, (ended, back)), deps) = (
  (
    All-update_job (IsOlder jobid) (add_notify_errorlevel_to told) (λ p h. h) id d.server.jobs jobs,
    (ended, All-update_job IsBack (add_notify_errorlevel_to told) (λ p h. h) id d.server.jobs back),
  ),
  All-append_one (λ i. i <ℤ jobid) d.depend_on id deps l,
)

depend-Older_same :
    (jobid id errorlevel : ℤ) (d : Deps)
    → id <ℤ jobid
    → Older jobid d
    → Older jobid (depend d d.server id errorlevel)
depend-Older_same jobid id errorlevel d l (lists, deps) =
    (lists, All-append_one (λ i. i <ℤ jobid) d.depend_on id deps l)

depend_on_finished-Older :
    (jobid : ℤ) (d : Deps)
    → pos 0 ≤ℤ jobid
    → Older jobid d
    → Ensures (Older jobid) (depend_on_finished d)
unfolding depend_on_finished
depend_on_finished-Older jobid d n h =
    let ljobid = find_last_stored_jobid_finished minus_one d.server.first_finished in
    let l =
      find_last_stored_jobid_finished_lt jobid d.server.first_finished minus_one (omega arith)
        h.0.1.0 in
    elim (Bool-cases (ltb_ℤ d.server.last_finished_jobid ljobid)) [
      | inl newer ↦ rw newer (
          Ensures-step (Older jobid) (or_exits (findjob ljobid d.server.first_finished)) _
            λ parent e.
              depend-Older_same jobid ljobid (add_int d.errorlevel (abs parent.result.errorlevel)) d
                l h)
      | inr older ↦ rw older (
          depend-Older_same jobid ljobid (add_int d.errorlevel (abs d.server.last_errorlevel)) d l
            h)
    ]

depend_on_last-Older :
    (jobid : ℤ) (d : Deps)
    → pos 0 ≤ℤ jobid
    → Older jobid d
    → Ensures (Older jobid) (depend_on_last jobid d)
unfolding depend_on_last last_unfinished
depend_on_last-Older jobid d n h =
    let in_queue =
      find_last_jobid_in_queue_lt jobid jobid d.server.jobs minus_one (omega arith) h.0.0 in
    let last = last_unfinished jobid d.server in
    let l : last <ℤ jobid = ground arith in
    Ensures-ite (Older jobid) (ℤ_discrete last minus_one) (depend_on_finished d) _
      (λ unknown. depend_on_finished-Older jobid d n h)
      λ known. depend-Older jobid last jobid d.errorlevel d l h

depend_on_given-Older :
    (jobid id : ℤ) (d : Deps)
    → id <ℤ jobid
    → Older jobid d
    → Older jobid (depend_on_given jobid id d)
unfolding depend_on_given
depend_on_given-Older jobid id d l h = elim (Bool-cases (is_some (findjob id d.server.jobs))) [
  | inl there ↦ rw there (depend-Older jobid id jobid d.errorlevel d l h)
  | inr gone ↦ rw gone (
      depend-Older_same jobid id
        (ended_errorlevel (findjob id d.server.first_finished) d.errorlevel) d l h)
]

depend_on_one-Older :
    (jobid id : ℤ) (d : Deps)
    → pos 0 ≤ℤ jobid
    → Older jobid d
    → Ensures (Older jobid) (depend_on_one jobid id d)
unfolding depend_on_one
depend_on_one-Older jobid id d n h = elim (Bool-cases (leb_ℤ jobid id)) [
  | inl not_older ↦ rw not_older h
  | inr older ↦ rw older (
      Ensures-ite (Older jobid) (ℤ_discrete id minus_one) (depend_on_last jobid d) _
        (λ last. depend_on_last-Older jobid d n h)
        λ given. depend_on_given-Older jobid id d (ground arith) h)
]

depend_loop-Older :
    (jobid : ℤ) (ids : List ℤ) (d : Deps)
    → pos 0 ≤ℤ jobid
    → Older jobid d
    → Ensures (Older jobid) (depend_loop jobid ids d)
unfolding depend_loop
depend_loop-Older jobid [] d n h = h
depend_loop-Older jobid (id ∷ rest) d n h =
    Ensures-step (Older jobid) (depend_on_one jobid id d) (depend_loop jobid rest) λ d' e.
      depend_loop-Older jobid rest d' n
        (Ensures-ok (Older jobid) (depend_on_one jobid id d) (depend_on_one-Older jobid id d n h) e)

-- If the counter of the jobids is not negative and above the jobids of both lists, and each job of
-- the queue depends only on jobids below its own, then after s_newjob, where the server goes on,
-- each job of the queue, the new one too, depends only on jobids below its own.
pub s_newjob-IsBack :
    (raw : Job) (m : NewJobMsg) (s : Server)
    → pos 0 ≤ℤ s.jobids
    → Behind s.jobids s
    → Ensures (λ (id, t). All IsBack t.jobs) (s_newjob raw m s)
unfolding s_newjob
s_newjob-IsBack raw m s n h = Ensures-step _ (new_gpu_ids m) _ λ gpu_ids g.
    let d0 : Deps = record { server = s; depend_on = []; errorlevel = pos 0 } in
    Ensures-step _ (depend_loop s.jobids m.depend_on d0) _ λ d e.
      let older =
        Ensures-ok (Older s.jobids) (depend_loop s.jobids m.depend_on d0)
          (depend_loop-Older s.jobids m.depend_on d0 n (h, tt)) e in
      All-append_one IsBack d.server.jobs _ older.0.1.1 older.1
