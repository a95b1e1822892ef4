-- ===== src/Jobs/Keep/Ordering.antt =====
-- The operations that move or remove a job.
use mathlib.Core.List.{append_assoc}
use task_spooler.Base.{
  ◌≡◌, refl, sym, ◌∙◌, ap, List, [], ◌∷◌, ◌++◌, Option, some, none, arith, Bool-cases, inl, inr,
  if_pos, if_neg, subst,
}
use task_spooler.Base.Int.{ℤ, ℤ_discrete, minus_one}
use task_spooler.Base.Run.{Ensures, Ensures-step, Ensures-ok}
use task_spooler.State.{Job, Server}
use task_spooler.Jobs.Notices.{send_msg}
use task_spooler.Jobs.Slots.{slots_in_use, swap_first}
use task_spooler.Jobs.Lookup.{count}
use task_spooler.Jobs.Ids.{ids}
use task_spooler.Jobs.Order.{
  Place, behind, place_of, place_of_last, is_single, urge_place, s_move_urgent, swap_rest, swap_at,
  swap_from, swap_list, answer_swap, s_swap_jobs,
}
use task_spooler.Jobs.Order.Links.{urge, exchange_before, exchange_behind}
use task_spooler.Jobs.Keep.{Keeps}

some_eq : {A : Type 0} {x y : A} → some x ≡ some y → x ≡ y
some_eq e = cc

-- The same jobs in another order.
record Rearranged (xs ys : List Job) : Type 0 where
  slots : slots_in_use ys ≡ slots_in_use xs
  counts : (id : ℤ) → count id (ids ys) ≡ count id (ids xs)

Rearranged-refl : (xs : List Job) → Rearranged xs xs
Rearranged-refl xs = record { slots = refl; counts = λ id. refl }

Rearranged-trans : {xs ys zs : List Job} → Rearranged xs ys → Rearranged ys zs → Rearranged xs zs
Rearranged-trans h k = record {
  slots = k.slots ∙ h.slots;
  counts = λ id. k.counts id ∙ h.counts id;
}

Rearranged-sym : {xs ys : List Job} → Rearranged xs ys → Rearranged ys xs
Rearranged-sym h = record { slots = sym h.slots; counts = λ id. sym (h.counts id) }

Rearranged-cons : (p : Job) {xs ys : List Job} → Rearranged xs ys → Rearranged (p ∷ xs) (p ∷ ys)
unfolding slots_in_use count
Rearranged-cons p h = record {
  slots = ground (arith, h.slots);
  counts = λ id. ground (arith, h.counts id);
}

Rearranged-append :
    (a : List Job) {xs ys : List Job} → Rearranged xs ys → Rearranged (a ++ xs) (a ++ ys)
Rearranged-append [] h = h
Rearranged-append (p ∷ a) h = Rearranged-cons p (Rearranged-append a h)

Rearranged-turn : (p q : Job) (xs : List Job) → Rearranged (p ∷ q ∷ xs) (q ∷ p ∷ xs)
unfolding slots_in_use count
Rearranged-turn p q xs = record {
  slots = ground (arith, swap_first p.num_slots q.num_slots (slots_in_use xs));
  counts = λ id. ground arith;
}

Rearranged-front : (a : List Job) (p : Job) (b : List Job) → Rearranged (a ++ p ∷ b) (p ∷ a ++ b)
Rearranged-front [] p b = Rearranged-refl (p ∷ b)
Rearranged-front (q ∷ a) p b =
    Rearranged-trans (Rearranged-cons q (Rearranged-front a p b)) (Rearranged-turn q p (a ++ b))

Rearranged-exchange :
    (a : List Job) (p : Job) (m : List Job) (q : Job) (c : List Job)
    → Rearranged (a ++ (p ∷ m ++ q ∷ c)) (a ++ (q ∷ m ++ p ∷ c))
Rearranged-exchange a p m q c = Rearranged-append a (
    Rearranged-trans (Rearranged-cons p (Rearranged-front m q c)) (
      Rearranged-trans (Rearranged-turn p q (m ++ c))
        (Rearranged-cons q (Rearranged-sym (Rearranged-front m p c)))))

urge-Rearranged :
    (a : List Job) (p : Job) (b : List Job) → Ensures (Rearranged (a ++ p ∷ b)) (urge a p b)
urge-Rearranged [] p b = tt
urge-Rearranged (f ∷ a) p b = Rearranged-cons f (Rearranged-front a p b)

exchange_before-Rearranged :
    (a : List Job) (x : List Job) (q : Job) (m : List Job) (p : Job) (b ys : List Job)
    → a ≡ x ++ q ∷ m
    → exchange_before x q m p b ≡ some ys
    → Rearranged (a ++ p ∷ b) ys
exchange_before-Rearranged a [] q m p b ys e h = cc
exchange_before-Rearranged a (f ∷ x) q m p b ys e h =
    subst (λ z. Rearranged z ys)
      (sym (ap (λ z. z ++ p ∷ b) e ∙ append_assoc (f ∷ x) (q ∷ m) (p ∷ b)))
      (subst (Rearranged (f ∷ x ++ (q ∷ m ++ p ∷ b))) (some_eq h)
        (Rearranged-exchange (f ∷ x) q m p b))

-- A place puts the list together again.
abbrev IsAt : List Job → Place Job → Type 0
IsAt jobs c = jobs ≡ c.before ++ c.item ∷ c.after

behind-IsAt :
    (p : Job) (jobs : List Job) (o : Option (Place Job)) (c : Place Job)
    → ((d : Place Job) → o ≡ some d → IsAt jobs d)
    → behind p o ≡ some c
    → IsAt (p ∷ jobs) c
behind-IsAt p jobs none c h e = cc
behind-IsAt p jobs (some d) c h e = ground (arith, h d refl)

pub place_of-IsAt :
    (jobid : ℤ) (jobs : List Job) (c : Place Job) → place_of jobid jobs ≡ some c → IsAt jobs c
unfolding place_of
place_of-IsAt jobid [] c e = cc
place_of-IsAt jobid (p ∷ rest) c e = elim (ℤ_discrete p.jobid jobid) [
  | yes hit ↦ ground arith
  | no miss ↦ behind-IsAt p rest (place_of jobid rest) c (place_of-IsAt jobid rest) (ground arith)
]

place_of_last-IsAt : (jobs : List Job) (c : Place Job) → place_of_last jobs ≡ some c → IsAt jobs c
unfolding place_of_last
place_of_last-IsAt [] c e = cc
place_of_last-IsAt (p ∷ []) c e = ground arith
place_of_last-IsAt (p ∷ q ∷ rest) c e =
    behind-IsAt p (q ∷ rest) (place_of_last (q ∷ rest)) c (place_of_last-IsAt (q ∷ rest)) e

Rearranged-Keeps :
    (s t : Server)
    → t.busy_slots ≡ s.busy_slots
    → t.first_finished ≡ s.first_finished
    → t.jobids ≡ s.jobids
    → Rearranged s.jobs t.jobs
    → Keeps s t
Rearranged-Keeps s t b f i r = record {
  accounted = λ a. b ∙ a ∙ sym r.slots;
  no_more = λ id. ground (arith, r.counts id);
  counter = i;
}

urge_place-Keeps :
    (socket jobid : ℤ) (o : Option (Place Job)) (s : Server)
    → ((c : Place Job) → o ≡ some c → IsAt s.jobs c)
    → Ensures (Keeps s) (urge_place socket jobid o s)
unfolding urge_place send_msg
urge_place-Keeps socket jobid none s at =
    Rearranged-Keeps s _ refl refl refl (Rearranged-refl s.jobs)
urge_place-Keeps socket jobid (some c) s at = elim (Bool-cases (is_single s.jobs)) [
  | inl single ↦ rw single (Rearranged-Keeps s _ refl refl refl (Rearranged-refl s.jobs))
  | inr several ↦ rw several (
      Ensures-step (Keeps s) (urge c.before c.item c.after) _ λ jobs e.
        let r : Rearranged s.jobs jobs =
          subst (λ x. Rearranged x jobs) (sym (at c refl))
            (Ensures-ok _ _ (urge-Rearranged c.before c.item c.after) e) in
        Rearranged-Keeps s _ refl refl refl r)
]

-- To urge a job, or to refuse it, keeps the account of the slots and the counter of the jobids and
-- adds no job, where the server goes on.
pub s_move_urgent-Keeps :
    (socket jobid : ℤ) (s : Server) → Ensures (Keeps s) (s_move_urgent socket jobid s)
unfolding s_move_urgent
s_move_urgent-Keeps socket jobid s = elim (ℤ_discrete jobid minus_one) [
  | yes last ↦
      rw (if_pos _ last)
        (urge_place-Keeps socket jobid (place_of_last s.jobs) s (place_of_last-IsAt s.jobs))
  | no given ↦
      rw (if_neg _ given)
        (urge_place-Keeps socket jobid (place_of jobid s.jobs) s (place_of-IsAt jobid s.jobs))
]

swap_rest-Rearranged :
    (a : List Job) (p : Job) (b : List Job) (before behind_ : Option (Place Job)) (ys : List Job)
    → ((d : Place Job) → before ≡ some d → IsAt a d)
    → ((d : Place Job) → behind_ ≡ some d → IsAt b d)
    → swap_rest a p b before behind_ ≡ some ys
    → Rearranged (a ++ p ∷ b) ys
unfolding swap_rest
swap_rest-Rearranged a p b (some d) o ys h k e =
    exchange_before-Rearranged a d.before d.item d.after p b ys (h d refl) e
swap_rest-Rearranged a p b none none ys h k e = cc
swap_rest-Rearranged a p b none (some d) ys h k e =
    let r = Rearranged-exchange a p d.before d.item d.after in
    subst (λ x. Rearranged (a ++ p ∷ b) x) (some_eq e)
      (subst (λ x. Rearranged (a ++ p ∷ x) (exchange_behind a p d.before d.item d.after))
        (sym (k d refl)) r)

swap_at-Rearranged :
    (jobid1 jobid2 : ℤ) (jobs a : List Job) (p : Job) (b ys : List Job)
    → jobs ≡ a ++ p ∷ b
    → swap_at jobid1 jobid2 jobs a p b ≡ some ys
    → Rearranged jobs ys
unfolding swap_at
swap_at-Rearranged jobid1 jobid2 jobs [] p b ys at e = cc
swap_at-Rearranged jobid1 jobid2 jobs (f ∷ a) p b ys at e = elim (ℤ_discrete jobid2 jobid1) [
  | yes same ↦ subst (Rearranged jobs) (some_eq (rw (if_pos _ same) at e)) (Rearranged-refl jobs)
  | no apart ↦
      subst (λ x. Rearranged x ys) (sym at)
        (swap_rest-Rearranged (f ∷ a) p b (place_of jobid2 (f ∷ a)) (place_of jobid2 b) ys
          (place_of-IsAt jobid2 (f ∷ a)) (place_of-IsAt jobid2 b) (rw (if_neg _ apart) at e))
]

swap_from-Rearranged :
    (jobid1 jobid2 : ℤ) (jobs : List Job) (o : Option (Place Job)) (ys : List Job)
    → ((c : Place Job) → o ≡ some c → IsAt jobs c)
    → swap_from jobid1 jobid2 jobs o ≡ some ys
    → Rearranged jobs ys
unfolding swap_from
swap_from-Rearranged jobid1 jobid2 jobs none ys at e = cc
swap_from-Rearranged jobid1 jobid2 jobs (some c) ys at e =
    swap_at-Rearranged jobid1 jobid2 jobs c.before c.item c.after ys (at c refl) e

answer_swap-Keeps :
    (socket jobid1 jobid2 : ℤ) (o : Option (List Job)) (s : Server)
    → ((ys : List Job) → o ≡ some ys → Rearranged s.jobs ys)
    → Keeps s (answer_swap socket jobid1 jobid2 o s)
unfolding answer_swap send_msg
answer_swap-Keeps socket jobid1 jobid2 none s h =
    Rearranged-Keeps s _ refl refl refl (Rearranged-refl s.jobs)
answer_swap-Keeps socket jobid1 jobid2 (some ys) s h =
    Rearranged-Keeps s _ refl refl refl (h ys refl)

-- To swap two jobs, or to refuse it, keeps the account of the slots and the counter of the jobids
-- and adds no job.
pub s_swap_jobs-Keeps :
    (socket jobid1 jobid2 : ℤ) (s : Server) → Keeps s (s_swap_jobs socket jobid1 jobid2 s)
unfolding s_swap_jobs swap_list
s_swap_jobs-Keeps socket jobid1 jobid2 s =
    answer_swap-Keeps socket jobid1 jobid2 (swap_list jobid1 jobid2 s.jobs) s λ ys.
      swap_from-Rearranged jobid1 jobid2 s.jobs (place_of jobid1 s.jobs) ys
        (place_of-IsAt jobid1 s.jobs)
