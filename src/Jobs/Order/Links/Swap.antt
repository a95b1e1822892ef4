-- ===== src/Jobs/Order/Links/Swap.antt =====
-- The end of s_swap_jobs exchanges two jobs of the queue.
use mathlib.Core.List.{append_assoc}
use task_spooler.Base.{
  ℕ, ◌<◌, ◌≡◌, ◌≢◌, refl, sym, ◌∙◌, ap, subst, List, [], ◌∷◌, ◌++◌, arith, length, length-append,
  inl, inr, ◌==◌, false,
}
use task_spooler.Base.Run.{ok}
use task_spooler.Jobs.Order.Links.{
  exchange_behind, Links, find_previous_job, relink_swap, swap_links,
}
use task_spooler.Jobs.Order.Links.Urge.{last-cases}
use task_spooler.Jobs.Order.Links.Seg.{
  Seg, Distinct, Seg-split, Distinct-cut, NotIn-join, find_previous_job_found,
}
use task_spooler.Jobs.Order.Links.Cross.{
  Distinct-Apart, Crossed-Seg, relink-Crossed, Turned-Seg, relink-Turned,
}

-- The node before `x`, wherever the chain is cut.
previous :
    (fuel : ℕ) (next : Links) (f : ℕ) (all a : List ℕ) (u x : ℕ) (b : List ℕ)
    → all ≡ a ++ (u ∷ x ∷ b)
    → length all < fuel
    → Distinct all
    → Seg next f all 0
    → find_previous_job fuel next x f ≡ u
previous fuel next f all a u x b e fuels d h =
    let d' = subst Distinct e d in
    let cut_u = Distinct-cut a u (x ∷ b) d' in
    let cut_x = Distinct-cut a x b cut_u.2 in
    find_previous_job_found fuel next f a u x b 0
      (omega (arith, ap length e, length-append a (u ∷ x ∷ b)))
      (NotIn-join x a (u ∷ []) cut_x.0 ((λ k. cut_u.1.0 (sym k)), tt))
      (subst (λ y. Seg next f y 0) e h)

-- A call that succeeds and leaves the nodes `ys` from the first one.
abbrev pub Exchanges : ℕ → Links → ℕ → ℕ → ℕ → List ℕ → Type 0
Exchanges fuel next f p1 p2 ys = (t : Links) × (swap_links fuel next f p1 p2 ≡ ok t) × Seg t f ys 0

swap_links-ok :
    (fuel : ℕ) (next : Links) (f p1 p2 u v : ℕ) (ys : List ℕ)
    → find_previous_job fuel next p1 f ≡ u
    → find_previous_job fuel next p2 f ≡ v
    → u ≢ 0
    → v ≢ 0
    → Seg (relink_swap next p1 p2 u v) f ys 0
    → Exchanges fuel next f p1 p2 ys
unfolding swap_links
swap_links-ok fuel next f p1 p2 u v ys e1 e2 nu nv h =
    let zu : (u == 0) ≡ false = ground arith in
    let zv : (v == 0) ≡ false = ground arith in
    (relink_swap next p1 p2 u v, rw (e1, zu, e2, zv) refl, h)

swap_apart :
    (fuel : ℕ) (next : Links) (f : ℕ) (a : List ℕ) (u p : ℕ) (m : List ℕ) (v q : ℕ) (c : List ℕ)
    → length (a ++ (u ∷ p ∷ m ++ v ∷ q ∷ c)) < fuel
    → Distinct (a ++ (u ∷ p ∷ m ++ v ∷ q ∷ c))
    → Seg next f (a ++ (u ∷ p ∷ m ++ v ∷ q ∷ c)) 0
    → Exchanges fuel next f p q (a ++ (u ∷ q ∷ m ++ v ∷ p ∷ c))
      × Exchanges fuel next f q p (a ++ (u ∷ q ∷ m ++ v ∷ p ∷ c))
swap_apart fuel next f a u p m v q c fuels d h =
    let all = a ++ (u ∷ p ∷ m ++ v ∷ q ∷ c) in
    let w = Distinct-Apart a u p m v q c d in
    let x = relink-Crossed next a u p m v q c w in
    let at_p = previous fuel next f all a u p (m ++ v ∷ q ∷ c) refl fuels d h in
    let at_q =
      previous fuel next f all (a ++ u ∷ p ∷ m) v q c (sym (append_assoc a (u ∷ p ∷ m) (v ∷ q ∷ c)))
        fuels d h in
    let one = Seg-split next f a (u ∷ p ∷ m ++ v ∷ q ∷ c) 0 h in
    let two = Seg-split next (next p) m (v ∷ q ∷ c) 0 one.1.2.2 in
    (
      swap_links-ok fuel next f p q u v _ at_p at_q one.1.1 two.1.1
          (Crossed-Seg next _ f a u p m v q c w x.0 h),
      swap_links-ok fuel next f q p v u _ at_q at_p two.1.1 one.1.1
          (Crossed-Seg next _ f a u p m v q c w x.1 h),
    )

swap_adjacent :
    (fuel : ℕ) (next : Links) (f : ℕ) (a : List ℕ) (u p q : ℕ) (c : List ℕ)
    → length (a ++ (u ∷ p ∷ q ∷ c)) < fuel
    → Distinct (a ++ (u ∷ p ∷ q ∷ c))
    → Seg next f (a ++ (u ∷ p ∷ q ∷ c)) 0
    → Exchanges fuel next f p q (a ++ (u ∷ q ∷ p ∷ c))
      × Exchanges fuel next f q p (a ++ (u ∷ q ∷ p ∷ c))
swap_adjacent fuel next f a u p q c fuels d h =
    let all = a ++ (u ∷ p ∷ q ∷ c) in
    let x = relink-Turned next a u p q c d in
    let at_p = previous fuel next f all a u p (q ∷ c) refl fuels d h in
    let at_q =
      previous fuel next f all (a ++ u ∷ []) p q c (sym (append_assoc a (u ∷ []) (p ∷ q ∷ c))) fuels
        d h in
    let one = Seg-split next f a (u ∷ p ∷ q ∷ c) 0 h in
    (
      swap_links-ok fuel next f p q u p _ at_p at_q one.1.1 one.1.2.1
          (Turned-Seg next _ f a u p q c d x.0 h),
      swap_links-ok fuel next f q p p u _ at_q at_p one.1.2.1 one.1.1
          (Turned-Seg next _ f a u p q c d x.1 h),
    )

glue :
    (pre a : List ℕ) (u x : ℕ) (m n : List ℕ) (v y : ℕ) (c : List ℕ)
    → pre ≡ a ++ u ∷ []
    → m ≡ n ++ v ∷ []
    → pre ++ (x ∷ m ++ y ∷ c) ≡ a ++ (u ∷ x ∷ n ++ v ∷ y ∷ c)
glue pre a u x m n v y c e k =
    rw (e, k)
      (append_assoc a (u ∷ []) _ ∙ ap (λ z. a ++ (u ∷ x ∷ z)) (append_assoc n (v ∷ []) (y ∷ c)))

glue_adjacent :
    (pre a : List ℕ) (u x : ℕ) (m : List ℕ) (y : ℕ) (c : List ℕ)
    → pre ≡ a ++ u ∷ []
    → m ≡ []
    → pre ++ (x ∷ m ++ y ∷ c) ≡ a ++ (u ∷ x ∷ y ∷ c)
glue_adjacent pre a u x m y c e k = rw (e, k) (append_assoc a (u ∷ []) _)

swap_behind :
    (fuel : ℕ) (next : Links) (f : ℕ) (pre a : List ℕ) (u p : ℕ) (m : List ℕ) (q : ℕ) (c : List ℕ)
    → pre ≡ a ++ u ∷ []
    → length (pre ++ (p ∷ m ++ q ∷ c)) < fuel
    → Distinct (pre ++ (p ∷ m ++ q ∷ c))
    → Seg next f (pre ++ (p ∷ m ++ q ∷ c)) 0
    → Exchanges fuel next f p q (pre ++ (q ∷ m ++ p ∷ c))
      × Exchanges fuel next f q p (pre ++ (q ∷ m ++ p ∷ c))
swap_behind fuel next f pre a u p m q c e fuels d h = elim (last-cases m) [
  | inl k ↦
      let g = glue_adjacent pre a u p m q c e k in
      rw (glue_adjacent pre a u q m p c e k) (
        swap_adjacent fuel next f a u p q c (omega (arith, ap length g)) (subst Distinct g d)
          (subst (λ x. Seg next f x 0) g h))
  | inr (n, v, k) ↦
      let g = glue pre a u p m n v q c e k in
      rw (glue pre a u q m n v p c e k) (
        swap_apart fuel next f a u p n v q c (omega (arith, ap length g)) (subst Distinct g d)
          (subst (λ x. Seg next f x 0) g h))
]

-- Two jobs of the queue, neither of them the first, on fuel for the whole queue: whichever of them
-- the call names first, and whatever stands between them, they change places and the rest of the
-- queue stays as it was.
pub swap_links-Seg :
    (fuel : ℕ) (next : Links) (f : ℕ) (a : List ℕ) (p : ℕ) (m : List ℕ) (q : ℕ) (c : List ℕ)
    → length (f ∷ a ++ (p ∷ m ++ q ∷ c)) < fuel
    → Distinct (f ∷ a ++ (p ∷ m ++ q ∷ c))
    → Seg next f (f ∷ a ++ (p ∷ m ++ q ∷ c)) 0
    → Exchanges fuel next f p q (exchange_behind (f ∷ a) p m q c)
      × Exchanges fuel next f q p (exchange_behind (f ∷ a) p m q c)
swap_links-Seg fuel next f a p m q c fuels d h = elim (last-cases (f ∷ a)) [
  | inl e ↦ cc
  | inr (b, u, e) ↦ swap_behind fuel next f (f ∷ a) b u p m q c e fuels d h
]
