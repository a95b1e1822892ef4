-- ===== src/Jobs/Order/Links/Cross.antt =====
-- The four writes of s_swap_jobs: what they make of the chain around the two nodes.
use mathlib.Core.List.{append_assoc}
use task_spooler.Base.{ℕ, ◌≡◌, ◌≢◌, refl, sym, subst, List, [], ◌∷◌, ◌++◌, arith}
use task_spooler.Jobs.Order.Links.{Links, write, relink_swap}
use task_spooler.Jobs.Order.Links.Seg.{
  Seg, NotIn, Distinct, Seg-split, Seg-join, Distinct-cut, NotIn-split,
}

-- Two nodes `p` and `q`, behind `u` and `v`, have changed places.
pub record Crossed (next t : Links) (u v p q : ℕ) : Type 0 where
  pub at_u : t u ≡ q
  pub at_v : t v ≡ p
  pub at_p : t p ≡ next q
  pub at_q : t q ≡ next p
  pub others : (x : ℕ) → x ≢ u → x ≢ v → x ≢ p → x ≢ q → t x ≡ next x

Seg-others :
    (next t : Links) (u v p q : ℕ) (c : Crossed next t u v p q) (x : ℕ) (xs : List ℕ) (y : ℕ)
    → NotIn u xs
    → NotIn v xs
    → NotIn p xs
    → NotIn q xs
    → Seg next x xs y
    → Seg t x xs y
Seg-others next t u v p q c x [] y nu nv np nq h = h
Seg-others next t u v p q c x (z ∷ xs) y nu nv np nq h =
    let e =
      c.others z (λ k. nu.0 (sym k)) (λ k. nv.0 (sym k)) (λ k. np.0 (sym k)) (λ k. nq.0 (sym k)) in
    (
      h.0,
      h.1,
      subst (λ w. Seg t w xs y) (sym e)
          (Seg-others next t u v p q c (next z) xs y nu.1 nv.1 np.1 nq.1 h.2),
    )

-- What stands around the two nodes repeats none of the four.
pub record Apart (a : List ℕ) (u p : ℕ) (m : List ℕ) (v q : ℕ) (c : List ℕ) : Type 0 where
  u_a : NotIn u a
  v_a : NotIn v a
  p_a : NotIn p a
  q_a : NotIn q a
  u_m : NotIn u m
  v_m : NotIn v m
  p_m : NotIn p m
  q_m : NotIn q m
  u_c : NotIn u c
  v_c : NotIn v c
  p_c : NotIn p c
  q_c : NotIn q c
  u_ne_v : u ≢ v
  u_ne_p : u ≢ p
  u_ne_q : u ≢ q
  v_ne_p : v ≢ p
  v_ne_q : v ≢ q
  p_ne_q : p ≢ q

pub Distinct-Apart :
    (a : List ℕ) (u p : ℕ) (m : List ℕ) (v q : ℕ) (c : List ℕ)
    → Distinct (a ++ (u ∷ p ∷ m ++ v ∷ q ∷ c))
    → Apart a u p m v q c
Distinct-Apart a u p m v q c d =
    let cut_u = Distinct-cut a u (p ∷ m ++ v ∷ q ∷ c) d in
    let cut_p = Distinct-cut a p (m ++ v ∷ q ∷ c) cut_u.2 in
    let e : a ++ (m ++ v ∷ q ∷ c) ≡ (a ++ m) ++ v ∷ q ∷ c = sym (append_assoc a m (v ∷ q ∷ c)) in
    let cut_v = Distinct-cut (a ++ m) v (q ∷ c) (subst Distinct e cut_p.2) in
    let cut_q = Distinct-cut (a ++ m) q c cut_v.2 in
    let u_rest = NotIn-split u m (v ∷ q ∷ c) cut_u.1.1 in
    let p_rest = NotIn-split p m (v ∷ q ∷ c) cut_p.1 in
    let v_rest = NotIn-split v a m cut_v.0 in
    let q_rest = NotIn-split q a m cut_q.0 in
    record {
      u_a = cut_u.0;
      v_a = v_rest.0;
      p_a = cut_p.0;
      q_a = q_rest.0;
      u_m = u_rest.0;
      v_m = v_rest.1;
      p_m = p_rest.0;
      q_m = q_rest.1;
      u_c = u_rest.1.1.1;
      v_c = cut_v.1.1;
      p_c = p_rest.1.1.1;
      q_c = cut_q.1;
      u_ne_v = u_rest.1.0;
      u_ne_p = cut_u.1.0;
      u_ne_q = u_rest.1.1.0;
      v_ne_p = λ k. p_rest.1.0 (sym k);
      v_ne_q = cut_v.1.0;
      p_ne_q = p_rest.1.1.0;
    }

pub Crossed-Seg :
    (next t : Links) (f : ℕ) (a : List ℕ) (u p : ℕ) (m : List ℕ) (v q : ℕ) (c : List ℕ)
    → Apart a u p m v q c
    → Crossed next t u v p q
    → Seg next f (a ++ (u ∷ p ∷ m ++ v ∷ q ∷ c)) 0
    → Seg t f (a ++ (u ∷ q ∷ m ++ v ∷ p ∷ c)) 0
Crossed-Seg next t f a u p m v q c w x h =
    let one = Seg-split next f a (u ∷ p ∷ m ++ v ∷ q ∷ c) 0 h in
    let two = Seg-split next (next p) m (v ∷ q ∷ c) 0 one.1.2.2 in
    let front = Seg-others next t u v p q x f a u w.u_a w.v_a w.p_a w.q_a one.0 in
    let middle = Seg-others next t u v p q x (next p) m v w.u_m w.v_m w.p_m w.q_m two.0 in
    let back = Seg-others next t u v p q x (next q) c 0 w.u_c w.v_c w.p_c w.q_c two.1.2.2 in
    Seg-join t f a (u ∷ q ∷ m ++ v ∷ p ∷ c) u 0 front (
      refl,
      one.1.1,
      (
        x.at_u,
        two.1.2.1,
        rw x.at_q (
            Seg-join t (next p) m (v ∷ p ∷ c) v 0 middle
              (refl, two.1.1, (x.at_v, one.1.2.1, rw x.at_p back))),
      ),
    )

pub relink-Crossed :
    (next : Links) (a : List ℕ) (u p : ℕ) (m : List ℕ) (v q : ℕ) (c : List ℕ)
    → Apart a u p m v q c
    → Crossed next (relink_swap next p q u v) u v p q
      × Crossed next (relink_swap next q p v u) u v p q
unfolding relink_swap write
relink-Crossed next a u p m v q c w =
    let n1 = w.u_ne_v in
    let n2 = w.u_ne_p in
    let n3 = w.u_ne_q in
    let n4 = w.v_ne_p in let n5 = w.v_ne_q in let n6 = w.p_ne_q in (ground arith, ground arith)

-- The same for two nodes in a row, of which `u` stands before the first.
pub record Turned (next t : Links) (u p q : ℕ) : Type 0 where
  at_u : t u ≡ q
  at_p : t p ≡ next q
  at_q : t q ≡ p
  others : (x : ℕ) → x ≢ u → x ≢ p → x ≢ q → t x ≡ next x

Seg-turn_lem :
    (next t : Links) (u p q : ℕ) (c : Turned next t u p q) (x : ℕ) (xs : List ℕ) (y : ℕ)
    → NotIn u xs
    → NotIn p xs
    → NotIn q xs
    → Seg next x xs y
    → Seg t x xs y
Seg-turn_lem next t u p q c x [] y nu np nq h = h
Seg-turn_lem next t u p q c x (z ∷ xs) y nu np nq h =
    let e = c.others z (λ k. nu.0 (sym k)) (λ k. np.0 (sym k)) (λ k. nq.0 (sym k)) in
    (
      h.0,
      h.1,
      subst (λ w. Seg t w xs y) (sym e)
          (Seg-turn_lem next t u p q c (next z) xs y nu.1 np.1 nq.1 h.2),
    )

pub Turned-Seg :
    (next t : Links) (f : ℕ) (a : List ℕ) (u p q : ℕ) (c : List ℕ)
    → Distinct (a ++ (u ∷ p ∷ q ∷ c))
    → Turned next t u p q
    → Seg next f (a ++ (u ∷ p ∷ q ∷ c)) 0
    → Seg t f (a ++ (u ∷ q ∷ p ∷ c)) 0
Turned-Seg next t f a u p q c d x h =
    let cut_u = Distinct-cut a u (p ∷ q ∷ c) d in
    let cut_p = Distinct-cut a p (q ∷ c) cut_u.2 in
    let cut_q = Distinct-cut a q c cut_p.2 in
    let one = Seg-split next f a (u ∷ p ∷ q ∷ c) 0 h in
    let front = Seg-turn_lem next t u p q x f a u cut_u.0 cut_p.0 cut_q.0 one.0 in
    let back = Seg-turn_lem next t u p q x (next q) c 0 cut_u.1.1.1 cut_p.1.1 cut_q.1 one.1.2.2.2 in
    Seg-join t f a (u ∷ q ∷ p ∷ c) u 0 front
      (refl, one.1.1, (x.at_u, one.1.2.2.1, (x.at_q, one.1.2.1, rw x.at_p back)))

pub relink-Turned :
    (next : Links) (a : List ℕ) (u p q : ℕ) (c : List ℕ)
    → Distinct (a ++ (u ∷ p ∷ q ∷ c))
    → Turned next (relink_swap next p q u p) u p q × Turned next (relink_swap next q p p u) u p q
unfolding relink_swap write
relink-Turned next a u p q c d =
    let cut_u = Distinct-cut a u (p ∷ q ∷ c) d in
    let n1 = cut_u.1.0 in
    let n2 = cut_u.1.1.0 in
    let n3 = (Distinct-cut a p (q ∷ c) cut_u.2).1.0 in (ground arith, ground arith)
