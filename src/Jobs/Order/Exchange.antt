-- ===== src/Jobs/Order/Exchange.antt =====
-- s_swap_jobs on a queue whose jobids are distinct.
use mathlib.Core.List.{append_assoc}
use task_spooler.Base.{
  ◌+◌, ◌≤◌, ◌≡◌, ◌≢◌, refl, sym, subst, ◌∙◌, ap, List, [], ◌∷◌, ◌++◌, some, none, ite, if_pos,
  if_neg, arith, false, if◌then◌else◌,
}
use task_spooler.Base.Int.{ℤ, ℤ_discrete, minus_one}
use task_spooler.State.{Job, Server, swap_jobs_ok, urgent_ok}
use task_spooler.Jobs.Notices.{send_msg}
use task_spooler.Jobs.Lookup.{count}
use task_spooler.Jobs.Ids.{ids, ids-append, count-append}
use task_spooler.Base.Run.{ok, ◌>>=◌}
use task_spooler.Jobs.Order.{
  is_single, place_of_last, urge_place, urge_refused, s_move_urgent, place_of, swap_rest, swap_at,
  swap_from, swap_list, answer_swap, s_swap_jobs,
}
use task_spooler.Jobs.Order.Links.{exchange_behind, urge}

place_of-at :
    (id : ℤ) (a : List Job) (p : Job) (b : List Job)
    → p.jobid ≡ id
    → count id (ids a) ≡ 0
    → place_of id (a ++ p ∷ b) ≡ some (record { before = a; item = p; after = b })
unfolding place_of count
place_of-at id [] p b e h = rw (if_pos (ℤ_discrete p.jobid id) e) refl
place_of-at id (q ∷ a) p b e h = ground (arith, place_of-at id a p b e)

place_of-none : (id : ℤ) (a : List Job) → count id (ids a) ≡ 0 → place_of id a ≡ none
unfolding place_of count
place_of-none id [] h = refl
place_of-none id (q ∷ a) h = ground (arith, place_of-none id a)

count-cut :
    (id : ℤ) (a : List Job) (p : Job) (b : List Job)
    → count id (ids (a ++ p ∷ b))
      ≡ count id (ids a) + ite (ℤ_discrete p.jobid id) 1 0 + count id (ids b)
unfolding count
count-cut id a p b = rw (ids-append a (p ∷ b), count-append id (ids a) (ids (p ∷ b))) (ground arith)

-- Two jobs of a queue whose jobids are distinct, neither of them the first.
module _ (f : Job) (a : List Job) (p : Job) (m : List Job) (q : Job) (c : List Job)
    (distinct : (id : ℤ) → count id (ids (f ∷ a ++ (p ∷ m ++ q ∷ c))) ≤ 1) where
  counts :
      (id : ℤ)
      → count id (ids (f ∷ a))
          + ite (ℤ_discrete p.jobid id) 1 0
          + (count id (ids m) + ite (ℤ_discrete q.jobid id) 1 0 + count id (ids c))
        ≤ 1
  counts id = rw (← count-cut id m q c, ← count-cut id (f ∷ a) p (m ++ q ∷ c)) (distinct id)

  p_alone : (count p.jobid (ids (f ∷ a)) ≡ 0) × (count p.jobid (ids m) ≡ 0)
  p_alone = ground (arith, counts p.jobid)

  q_alone : (count q.jobid (ids (f ∷ a)) ≡ 0) × (count q.jobid (ids m) ≡ 0)
  q_alone = ground (arith, counts q.jobid)

  q_late : count q.jobid (ids (f ∷ a ++ p ∷ m)) ≡ 0
  q_late = rw (count-cut q.jobid (f ∷ a) p m) (ground (arith, counts q.jobid))

  apart : p.jobid ≢ q.jobid
  apart e = absurd (ground (arith, counts p.jobid))

  swap_list-behind :
      swap_list p.jobid q.jobid (f ∷ a ++ (p ∷ m ++ q ∷ c)) ≡ some (exchange_behind (f ∷ a) p m q c)
  unfolding swap_list swap_from swap_at swap_rest
  swap_list-behind =
      let jobs = f ∷ a ++ (p ∷ m ++ q ∷ c) in
      ap (swap_from p.jobid q.jobid jobs)
        (place_of-at p.jobid (f ∷ a) p (m ++ q ∷ c) refl p_alone.0)
      ∙ if_neg (ℤ_discrete q.jobid p.jobid) (λ e. apart (sym e)) (some jobs) _
      ∙ ap (λ o. swap_rest (f ∷ a) p (m ++ q ∷ c) o (place_of q.jobid (m ++ q ∷ c)))
          (place_of-none q.jobid (f ∷ a) q_alone.0)
      ∙ ap (swap_rest (f ∷ a) p (m ++ q ∷ c) none) (place_of-at q.jobid m q c refl q_alone.1)

  swap_list-before :
      swap_list q.jobid p.jobid (f ∷ a ++ (p ∷ m ++ q ∷ c)) ≡ some (exchange_behind (f ∷ a) p m q c)
  unfolding swap_list swap_from swap_at swap_rest
  swap_list-before =
      let jobs = f ∷ a ++ (p ∷ m ++ q ∷ c) in
      let glued : f ∷ a ++ p ∷ m ++ q ∷ c ≡ jobs = append_assoc (f ∷ a) (p ∷ m) (q ∷ c) in
      let q_first : count q.jobid (ids (f ∷ a ++ p ∷ m)) ≡ 0 = q_late in
      ap (λ x. swap_from q.jobid p.jobid jobs (place_of q.jobid x)) (sym glued)
      ∙ ap (swap_from q.jobid p.jobid jobs) (place_of-at q.jobid (f ∷ a ++ p ∷ m) q c refl q_first)
      ∙ if_neg (ℤ_discrete p.jobid q.jobid) apart (some jobs) _
      ∙ ap (λ o. swap_rest (f ∷ a ++ p ∷ m) q c o (place_of p.jobid c))
          (place_of-at p.jobid (f ∷ a) p m refl p_alone.0)

-- Two jobs of a queue whose jobids are distinct, neither of them the first: they change places,
-- whichever of them the request names first, the other jobs keep theirs, and the client is told so.
pub s_swap_jobs-exchange :
    (socket : ℤ) (s : Server) (f : Job) (a : List Job) (p : Job) (m : List Job) (q : Job)
    (c : List Job)
    → s.jobs ≡ f ∷ a ++ (p ∷ m ++ q ∷ c)
    → ((id : ℤ) → count id (ids s.jobs) ≤ 1)
    → let t = send_msg socket swap_jobs_ok (record s { jobs = f ∷ a ++ (q ∷ m ++ p ∷ c) }) in
      (s_swap_jobs socket p.jobid q.jobid s ≡ t) × (s_swap_jobs socket q.jobid p.jobid s ≡ t)
unfolding s_swap_jobs answer_swap
s_swap_jobs-exchange socket s f a p m q c e distinct =
    let d : (id : ℤ) → count id (ids (f ∷ a ++ (p ∷ m ++ q ∷ c))) ≤ 1 =
      subst (λ x. (id : ℤ) → count id (ids x) ≤ 1) e distinct in
    (
      ap (λ o. answer_swap socket p.jobid q.jobid o s)
          (ap (swap_list p.jobid q.jobid) e ∙ swap_list-behind f a p m q c d),
      ap (λ o. answer_swap socket q.jobid p.jobid o s)
          (ap (swap_list q.jobid p.jobid) e ∙ swap_list-before f a p m q c d),
    )

several : (f : Job) (a : List Job) (p : Job) (b : List Job) → is_single (f ∷ a ++ p ∷ b) ≡ false
several f [] p b = refl
several f (q ∷ a) p b = refl

-- A job of a queue whose jobids are distinct, which is not the first and whose jobid is not -1: it
-- becomes the second, the others keep their order, and the client is told so.
pub s_move_urgent-urge :
    (socket : ℤ) (s : Server) (f : Job) (a : List Job) (p : Job) (b : List Job)
    → s.jobs ≡ f ∷ a ++ p ∷ b
    → p.jobid ≢ minus_one
    → ((id : ℤ) → count id (ids s.jobs) ≤ 1)
    → s_move_urgent socket p.jobid s
      ≡ ok (send_msg socket urgent_ok (record s { jobs = f ∷ p ∷ a ++ b }))
unfolding s_move_urgent urge_place
s_move_urgent-urge socket s f a p b e given distinct =
    let d : (id : ℤ) → count id (ids (f ∷ a ++ p ∷ b)) ≤ 1 =
      subst (λ x. (id : ℤ) → count id (ids x) ≤ 1) e distinct in
    let alone : count p.jobid (ids (f ∷ a)) ≡ 0 =
      ground (arith, d p.jobid, count-cut p.jobid (f ∷ a) p b) in
    ap (λ o. urge_place socket p.jobid o s)
      (if_neg (ℤ_discrete p.jobid minus_one) given (place_of_last s.jobs) (place_of p.jobid s.jobs)
        ∙ ap (place_of p.jobid) e
        ∙ place_of-at p.jobid (f ∷ a) p b refl alone)
    ∙ ap
        (λ single.
          if single
          then ok (send_msg socket (urge_refused p.jobid) s)
          else (urge (f ∷ a) p b >>= λ jobs.
              ok (send_msg socket urgent_ok (record s { jobs = jobs }))))
        (ap is_single e ∙ several f a p b)
