-- ===== src/Jobs/Order/Links.antt =====
-- jobs.c: s_move_urgent and s_swap_jobs over the `next` pointers of the queue.
pub mod Seg
pub mod Urge
pub mod Cross
pub mod Swap
use task_spooler.Base.{
  ℕ, zero, suc, ◌≡◌, ◌≢◌, refl, sym, ◌∙◌, ap, true, false, List, [], ◌∷◌, ◌++◌, Option, none, some,
  ◌==◌, if◌then◌else◌, arith, ◌+◌, ◌≤◌, ◌<◌, length, Bool-cases, inl, inr, ◌⊎◌,
}
use task_spooler.Base.Run.{Run, ok, fault, ◌>>=◌}

-- What the functions make of the order of the queue, cut at the jobs concerned.
-- `f ∷ a ++ p ∷ b` becomes `f ∷ p ∷ a ++ b`; the first job has no previous one.
abbrev pub urge {ℓ} : {A : Type ℓ} → List A → A → List A → Run (List A)
urge [] p b = fault
urge (f ∷ a) p b = ok (f ∷ p ∷ a ++ b)

-- The second of the two jobs stands before the first, and is not the first of the queue.
abbrev pub exchange_before {ℓ} : {A : Type ℓ} → List A → A → List A → A → List A → Option (List A)
exchange_before [] q m p b = none
exchange_before (f ∷ a) q m p b = some (f ∷ a ++ (p ∷ m ++ q ∷ b))

abbrev pub exchange_behind {ℓ} : {A : Type ℓ} → List A → A → List A → A → List A → List A
exchange_behind a p m q b = a ++ (q ∷ m ++ p ∷ b)

-- The pointers: `next` of each node; 0 is the null pointer.
abbrev pub Links : Type 0
Links = ℕ → ℕ

-- `a->next = v`.
unfoldable pub write : Links → ℕ → ℕ → Links
write next a v x = if x == a then v else next x

-- The walk from `p` to the node whose `next` is `final`; 0 if there is none. The fuel counts nodes.
unfoldable pub find_previous_job : ℕ → Links → ℕ → ℕ → ℕ
find_previous_job zero next final p = 0
find_previous_job (suc fuel) next final p =
    let rest = find_previous_job fuel next final (next p) in
    if p == 0 then 0 else if next p == final then p else rest

-- The three writes of s_move_urgent, where `tmp1` is the job before `p`.
unfoldable pub relink_urgent : Links → ℕ → ℕ → ℕ → Links
relink_urgent next firstjob p tmp1 =
    let next1 = write next tmp1 (next p) in
    let next2 = write next1 p (next1 firstjob) in write next2 firstjob p

-- The end of s_move_urgent, where `p` is the job to urge.
unfoldable pub move_urgent_links : ℕ → Links → ℕ → ℕ → Run Links
unfolding find_previous_job relink_urgent write
move_urgent_links fuel next firstjob p =
    let tmp1 = find_previous_job fuel next p firstjob in
    if tmp1 == 0 then fault else ok (relink_urgent next firstjob p tmp1)

-- The four writes of s_swap_jobs.
unfoldable pub relink_swap : Links → ℕ → ℕ → ℕ → ℕ → Links
relink_swap next p1 p2 prev1 prev2 =
    let next1 = write next prev1 p2 in
    let next2 = write next1 prev2 p1 in
    let tmp = next2 p1 in let next3 = write next2 p1 (next2 p2) in write next3 p2 tmp

-- The end of s_swap_jobs.
unfoldable pub swap_links : ℕ → Links → ℕ → ℕ → ℕ → Run Links
unfolding find_previous_job relink_swap write
swap_links fuel next firstjob p1 p2 =
    let prev1 = find_previous_job fuel next p1 firstjob in
    let prev2 = find_previous_job fuel next p2 firstjob in
    if prev1 == 0
    then fault
    else if prev2 == 0
    then fault
    else ok (relink_swap next p1 p2 prev1 prev2)
