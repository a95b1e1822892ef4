-- ===== src/Witnesses/Order.antt =====
-- The theorems on the pointers of the queue, at the chain 1, 2, 3, 4.
use task_spooler.Base.{
  ◌++◌, ◌≤◌, false, ℕ, suc, ◌≡◌, ◌≢◌, refl, List, [], ◌∷◌, arith, ◌==◌, if◌then◌else◌,
}
use task_spooler.Base.Run.{ok, fault}
use task_spooler.Base.Int.{ℤ, pos}
use task_spooler.State.{Job, running, queued, holding_client, swap_jobs_ok, urgent_ok}
use task_spooler.Jobs.Notices.{send_msg}
use task_spooler.Jobs.Lookup.{count}
use task_spooler.Jobs.Ids.{ids}
use task_spooler.Jobs.Order.{s_swap_jobs, s_move_urgent}
use task_spooler.Jobs.Order.Exchange.{s_swap_jobs-exchange, s_move_urgent-urge}
use task_spooler.Witnesses.Data.{a_job, busy_server}
use task_spooler.Jobs.Order.Links.{Links, move_urgent_links, urge, exchange_behind}
use task_spooler.Jobs.Order.Links.Seg.{Seg, Distinct}
use task_spooler.Jobs.Order.Links.Urge.{move_urgent_links-Seg, move_urgent_links_first}
use task_spooler.Jobs.Order.Links.Swap.{Exchanges, swap_links-Seg}

abbrev job_4 : Job
job_4 = a_job (pos 4) running (pos 2) (pos 5 ∷ [])

abbrev job_5 : Job
job_5 = record (a_job (pos 5) queued (pos 1) []) { depend_on = pos 4 ∷ [] }

abbrev job_6 : Job
job_6 = a_job (pos 6) queued (pos 1) []

abbrev job_7 : Job
job_7 = a_job (pos 7) holding_client (pos 1) []

abbrev chain : Links
chain x = if x == 4 then 0 else suc x

abbrev nodes : List ℕ
nodes = 1 ∷ 2 ∷ 3 ∷ 4 ∷ []

differ : (a b : ℕ) → (a == b) ≡ false → a ≢ b
differ a b h = ground arith

nodes-Distinct : Distinct nodes
nodes-Distinct = (
  (differ 1 2 refl, (differ 1 3 refl, (differ 1 4 refl, tt))),
  ((differ 2 3 refl, (differ 2 4 refl, tt)), ((differ 3 4 refl, tt), (tt, tt))),
)

nodes-Seg : Seg chain 1 nodes 0
nodes-Seg = (
  refl,
  differ 1 0 refl,
  (refl, differ 2 0 refl, (refl, differ 3 0 refl, (refl, differ 4 0 refl, refl))),
)

move_urgent_links-Seg_example :
    (t : Links) × (ys : List ℕ) × (move_urgent_links 5 chain 1 3 ≡ ok t)
    × (urge (1 ∷ 2 ∷ []) 3 (4 ∷ []) ≡ ok ys)
    × Seg t 1 ys 0
move_urgent_links-Seg_example =
    move_urgent_links-Seg 5 chain 1 (2 ∷ []) 3 (4 ∷ []) (omega arith) nodes-Distinct nodes-Seg

move_urgent_links_first_example : move_urgent_links 5 chain 1 1 ≡ fault
move_urgent_links_first_example =
    move_urgent_links_first 5 chain 1 (2 ∷ 3 ∷ 4 ∷ []) (omega arith) nodes-Distinct nodes-Seg

swap_links-Seg_example :
    Exchanges 5 chain 1 2 4 (exchange_behind (1 ∷ []) 2 (3 ∷ []) 4 [])
    × Exchanges 5 chain 1 4 2 (exchange_behind (1 ∷ []) 2 (3 ∷ []) 4 [])
swap_links-Seg_example =
    swap_links-Seg 5 chain 1 [] 2 (3 ∷ []) 4 [] (omega arith) nodes-Distinct nodes-Seg

-- The queue of Witnesses/Data.antt, cut at the jobs 5 and 7 and at job 6.
cut_queue : busy_server.jobs ≡ job_4 ∷ [] ++ (job_5 ∷ (job_6 ∷ []) ++ job_7 ∷ [])
cut_queue = refl

queue-once : (id : ℤ) → count id (ids busy_server.jobs) ≤ 1
unfolding count
queue-once id = ground arith

s_swap_jobs-exchange_example :
    let t =
      send_msg
        (pos 20)
        swap_jobs_ok
        (record busy_server { jobs = job_4 ∷ job_7 ∷ job_6 ∷ job_5 ∷ [] }) in
    (s_swap_jobs (pos 20) (pos 5) (pos 7) busy_server ≡ t)
    × (s_swap_jobs (pos 20) (pos 7) (pos 5) busy_server ≡ t)
s_swap_jobs-exchange_example =
    s_swap_jobs-exchange (pos 20) busy_server job_4 [] job_5 (job_6 ∷ []) job_7 [] cut_queue
      queue-once

s_move_urgent-urge_example :
    s_move_urgent (pos 20) (pos 6) busy_server
    ≡ ok (
        send_msg
          (pos 20)
          urgent_ok
          (record busy_server { jobs = job_4 ∷ job_6 ∷ job_5 ∷ job_7 ∷ [] }))
s_move_urgent-urge_example =
    s_move_urgent-urge (pos 20) busy_server job_4 (job_5 ∷ []) job_6 (job_7 ∷ []) cut_queue
      (λ e. cc) queue-once
