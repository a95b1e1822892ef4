-- ===== src/Witnesses/Queue.antt =====
-- The theorems on the jobs, at the data of Witnesses/Data.antt.
use task_spooler.Base.{
  false, if◌then◌else◌, ◌==◌, List, All, Option, ◌^◌, ℕ_discrete, ℕ, ◌+◌, ◌<◌, ◌≡◌, refl, [], ◌∷◌,
  some, arith,
}
use task_spooler.Gpu.{is_in_use, broadcast_free_gpus, mark_gpus}
use task_spooler.Base.Int.{ℤ, minus_one, ℤ_discrete, add_int, sub_int, wrap, pos, IsInt, ◌≤ℤ◌}
use task_spooler.Base.Run.{ok, Ensures}
use task_spooler.State.{Job, Server, running}
use task_spooler.Jobs.Find.{findjob, get_job}
use task_spooler.Jobs.Slots.{Accounted, slots_in_use}
use task_spooler.Jobs.Lookup.{count}
use task_spooler.Jobs.Ids.{IsDistinct, IsBelow}
use task_spooler.Jobs.Schedule.{
  shuffle, assign_gpus, next_run_job, search_queue, next_run_loop, try_job, claim_gpus, deps_ready,
  start_job,
}
use task_spooler.Jobs.Schedule.Claim.{IsKnown, Claimed, assign_gpus-Claimed}
use task_spooler.Jobs.Schedule.Shuffle.{SameItems, shuffle-SameItems}
use task_spooler.Jobs.Schedule.Choice.{Next, next_run_job-Next}
use task_spooler.Jobs.Schedule.Start.{next_run_job_within}
use task_spooler.Jobs.Finish.{new_finished_job, job_finished}
use task_spooler.Jobs.Finish.Links.{
  Nodes, IsList, IsNew, Implements, new_finished_links, new_finished_links-Implements,
}
use task_spooler.Jobs.Finish.Outcome.{IsEnded, job_finished-IsEnded}
use task_spooler.Jobs.NewJob.{Deps, depend_loop}
use task_spooler.Jobs.NewJob.Depend.{Tells, depend_loop-Tells}
use task_spooler.Jobs.Keep.{IsSound}
use task_spooler.Witnesses.Data.{failed, a_job, queue, busy_server, no_gpus}

busy_server-IsDistinct : IsDistinct busy_server
unfolding count
busy_server-IsDistinct id = ground arith

busy_server-IsBelow : IsBelow busy_server
unfolding count
busy_server-IsBelow id h = ground arith

busy_server-Accounted : Accounted busy_server
unfolding slots_in_use add_int wrap
busy_server-Accounted = refl

pub busy_server-IsSound : IsSound busy_server
busy_server-IsSound = (busy_server-Accounted, busy_server-IsDistinct, busy_server-IsBelow)

next_run_job-Next_example : Ensures (Next no_gpus busy_server) (next_run_job no_gpus busy_server)
next_run_job-Next_example = next_run_job-Next no_gpus busy_server

-- The server once job 6 is chosen.
abbrev job_6_chosen : Server
job_6_chosen = record busy_server { busy_slots = pos 3 }

job_6_next : next_run_job no_gpus busy_server ≡ ok (some (pos 6), job_6_chosen)
unfolding next_run_job search_queue next_run_loop try_job claim_gpus deps_ready start_job sub_int
    add_int ℤ_discrete ℕ_discrete get_job findjob
job_6_next = refl

small : (n : ℕ) → n < 2 ^ 31 → IsInt (pos n)
small n h = omega (arith, h)

next_run_job_within_example : pos 3 ≤ℤ pos 3
next_run_job_within_example =
    next_run_job_within no_gpus busy_server job_6_chosen (pos 6) job_6_next (small 3 (omega arith))
      (small 2 (omega arith)) (omega arith) (omega arith)
      (
        small 2 (omega arith),
        (small 1 (omega arith), (small 1 (omega arith), (small 1 (omega arith), tt))),
      )

-- The job that runs.
abbrev job_4 : Job
job_4 = a_job (pos 4) running (pos 2) (pos 5 ∷ [])

job_4_found : findjob (pos 4) queue ≡ some job_4
unfolding findjob ℤ_discrete ℕ_discrete
job_4_found = refl

none_freed : broadcast_free_gpus (pos 0) [] [] ≡ ok []
unfolding broadcast_free_gpus mark_gpus
none_freed = refl

job_finished-IsEnded_example :
    (s' : Server) × (job_finished (pos 2) failed (pos 4) busy_server ≡ ok s')
    × IsEnded failed job_4 busy_server s'
job_finished-IsEnded_example =
    job_finished-IsEnded (pos 2) failed job_4 [] busy_server (omega arith) job_4_found none_freed
      (omega arith)

-- Node 1 is the first of the list and node 2 the last; node 3 is new.
abbrev two_nodes : Nodes
two_nodes = record { next = λ x. if x == 1 then 2 else 0; freed = λ x. false }

two_nodes-IsList : IsList two_nodes 1 (1 ∷ 2 ∷ [])
two_nodes-IsList = record {
  chain = (refl, (λ e. cc), (refl, (λ e. cc), refl));
  distinct = (((λ e. cc), tt), (tt, tt));
  live = (refl, (refl, tt));
}

node_3-IsNew : IsNew two_nodes 3 (1 ∷ 2 ∷ [])
node_3-IsNew = record { not_null = λ e. cc; other = ((λ e. cc), ((λ e. cc), tt)); live = refl }

new_finished_links-Implements_example :
    Implements
      (new_finished_job (pos 2) 3 (1 ∷ 2 ∷ []))
      (new_finished_links 3 (pos 2) 3 1 two_nodes)
new_finished_links-Implements_example =
    new_finished_links-Implements 3 (pos 2) 3 1 (1 ∷ 2 ∷ []) two_nodes (omega arith)
      two_nodes-IsList node_3-IsNew

abbrev no_deps : Deps
no_deps = record { server = busy_server; depend_on = []; errorlevel = pos 0 }

job_4-Tells : Tells (pos 8) (pos 4) busy_server 0
unfolding count ℤ_discrete ℕ_discrete
job_4-Tells = record { teller = job_4; at = job_4_found; times = refl }

depend_loop-Tells_example :
    Ensures
      (λ d. Tells (pos 8) (pos 4) d.server (count (pos 4) (pos 4 ∷ pos 5 ∷ []) + 0))
      (depend_loop (pos 8) (pos 4 ∷ pos 5 ∷ []) no_deps)
depend_loop-Tells_example =
    depend_loop-Tells (pos 8) (pos 4) (pos 4 ∷ pos 5 ∷ []) no_deps 0 (omega arith)
      ((λ e. cc), ((λ e. cc), tt)) job_4-Tells

-- GPUs 0 and 2 of three are free of claims, and the job has room for three.
abbrev gpus_used : List ℤ
gpus_used = pos 0 ∷ pos 1 ∷ pos 0 ∷ []

abbrev gpus_free : List ℤ
gpus_free = pos 1 ∷ pos 2 ∷ pos 0 ∷ []

abbrev gpu_job : Job
gpu_job = record job_4 { gpu_ids = minus_one ∷ minus_one ∷ minus_one ∷ [] }

gpus_free-IsKnown : All (IsKnown gpus_used) gpus_free
unfolding is_in_use
gpus_free-IsKnown = ((pos 1, refl), ((pos 0, refl), ((pos 0, refl), tt)))

assign_gpus-Claimed_example :
    (o : Option Job) × (assign_gpus gpus_used gpus_free gpu_job (pos 2) ≡ ok (gpus_free, o))
    × Claimed gpus_used gpus_free gpu_job 2 o
assign_gpus-Claimed_example =
    assign_gpus-Claimed gpus_used gpus_free gpu_job 2 gpus_free-IsKnown (omega arith)

shuffle-SameItems_example :
    (ys : List ℤ) × (shuffle 32767 (λ k. 7) gpus_free ≡ ok ys) × SameItems gpus_free ys
shuffle-SameItems_example = shuffle-SameItems 32767 (λ k. 7) gpus_free (λ k. omega arith)
