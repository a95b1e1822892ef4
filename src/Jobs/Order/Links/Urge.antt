-- ===== src/Jobs/Order/Links/Urge.antt =====
-- The end of s_move_urgent puts a job behind the first one of the queue.
use mathlib.Core.List.{append_assoc}
use task_spooler.Base.{
  ℕ, suc, ◌<◌, ◌≡◌, refl, sym, ap, subst, List, [], ◌∷◌, ◌++◌, arith, length, length-append, ◌⊎◌,
  inl, inr, ◌==◌, false,
}
use task_spooler.Base.Run.{ok, fault}
use task_spooler.Jobs.Order.Links.{
  relink_urgent, Links, write, find_previous_job, move_urgent_links, urge,
}
use task_spooler.Jobs.Order.Links.Seg.{
  NotIn-join, Seg, NotIn, Distinct, Seg-split, Seg-join, Seg-write, Distinct-cut, NotIn-split,
  find_previous_job_found, find_previous_job_none,
}

-- A list is empty, or has a last item.
pub last-cases : (a : List ℕ) → (a ≡ []) ⊎ ((m : List ℕ) × (u : ℕ) × (a ≡ m ++ u ∷ []))
last-cases [] = inl refl
last-cases (x ∷ a) = elim (last-cases a) [
  | inl e ↦ inr ([], x, rw e refl)
  | inr (m, u, e) ↦ inr (x ∷ m, u, rw e refl)
]

-- The job to urge is the second: nothing changes.
relink_second :
    (next : Links) (f p : ℕ) (b : List ℕ)
    → Distinct (f ∷ p ∷ b)
    → Seg next f (f ∷ p ∷ b) 0
    → Seg (relink_urgent next f p f) f (f ∷ p ∷ b) 0
unfolding relink_urgent write
relink_second next f p b d h =
    let t = relink_urgent next f p f in
    let at_f : t f ≡ p = ground arith in
    let at_p : t p ≡ next p = ground (arith, d.0.0) in
    let tail : Seg t (next p) b 0 =
      Seg-write _ f p _ b 0 d.0.1
        (Seg-write _ p _ _ b 0 d.1.0 (Seg-write next f (next p) _ b 0 d.0.1 h.2.2)) in
    (refl, h.1, (at_f, h.2.1, rw at_p tail))

-- Otherwise the job before it is another than the first.
relink_later :
    (next : Links) (f : ℕ) (m : List ℕ) (u p : ℕ) (b : List ℕ)
    → Distinct (f ∷ m ++ u ∷ p ∷ b)
    → Seg next f (f ∷ m ++ u ∷ p ∷ b) 0
    → Seg (relink_urgent next f p u) f (f ∷ p ∷ m ++ u ∷ b) 0
unfolding relink_urgent write
relink_later next f m u p b d h =
    let cut_u = Distinct-cut m u (p ∷ b) d.1 in
    let cut_p = Distinct-cut m p b cut_u.2 in
    let out_f = NotIn-split f m (u ∷ p ∷ b) d.0 in
    let parts = Seg-split next (next f) m (u ∷ p ∷ b) 0 h.2 in
    let t = relink_urgent next f p u in
    let at_f : t f ≡ p = ground arith in
    let at_p : t p ≡ next f = ground (arith, out_f.1) in
    let at_u : t u ≡ next p = ground (arith, out_f.1, cut_u.1) in
    let front : Seg t (next f) m u =
      Seg-write _ f p _ m u out_f.0
        (Seg-write _ p _ _ m u cut_p.0 (Seg-write next u (next p) _ m u cut_u.0 parts.0)) in
    let back : Seg t (next p) b 0 =
      Seg-write _ f p _ b 0 out_f.1.1.1
        (Seg-write _ p _ _ b 0 cut_p.1 (Seg-write next u (next p) _ b 0 cut_u.1.1 parts.1.2.2)) in
    (
      refl,
      h.1,
      (
        at_f,
        parts.1.2.1,
        rw at_p (Seg-join t (next f) m (u ∷ b) u 0 front (refl, parts.1.1, rw at_u back)),
      ),
    )

-- The nodes `xs` become the nodes `ys`, from the same first one.
abbrev Relinks : ℕ → Links → ℕ → ℕ → List ℕ → Type 0
Relinks fuel next f p ys = (t : Links) × (move_urgent_links fuel next f p ≡ ok t) × Seg t f ys 0

urge_second :
    (fuel : ℕ) (next : Links) (f p : ℕ) (b : List ℕ)
    → 1 < fuel
    → Distinct (f ∷ p ∷ b)
    → Seg next f (f ∷ p ∷ b) 0
    → Relinks fuel next f p (f ∷ p ∷ b)
unfolding move_urgent_links
urge_second fuel next f p b fuels d h =
    let prev : find_previous_job fuel next p f ≡ f =
      find_previous_job_found fuel next f [] f p b 0 (omega arith) ((λ e. d.0.0 (sym e)), tt) h in
    let nz : (f == 0) ≡ false = ground (arith, h.1) in
    (relink_urgent next f p f, rw (prev, nz) refl, relink_second next f p b d h)

urge_later :
    (fuel : ℕ) (next : Links) (f : ℕ) (m : List ℕ) (u p : ℕ) (b : List ℕ)
    → suc (length m) < fuel
    → Distinct (f ∷ m ++ u ∷ p ∷ b)
    → Seg next f (f ∷ m ++ u ∷ p ∷ b) 0
    → Relinks fuel next f p (f ∷ p ∷ m ++ u ∷ b)
unfolding move_urgent_links
urge_later fuel next f m u p b fuels d h =
    let cut_u = Distinct-cut m u (p ∷ b) d.1 in
    let cut_p = Distinct-cut m p b cut_u.2 in
    let out_f = NotIn-split f m (u ∷ p ∷ b) d.0 in
    let out : NotIn p (f ∷ m ++ u ∷ []) = (
      (λ e. out_f.1.1.0 (sym e)),
      NotIn-join p m (u ∷ []) cut_p.0 ((λ e. cut_u.1.0 (sym e)), tt),
    ) in
    let prev : find_previous_job fuel next p f ≡ u =
      find_previous_job_found fuel next f (f ∷ m) u p b 0 (omega arith) out h in
    let parts = Seg-split next (next f) m (u ∷ p ∷ b) 0 h.2 in
    let nz : (u == 0) ≡ false = ground (arith, parts.1.1) in
    (relink_urgent next f p u, rw (prev, nz) refl, relink_later next f m u p b d h)

-- Whatever stands between the first job and `p`, on fuel for the jobs up to `p`, the pointers end
-- up as `urge` orders the jobs.
pub move_urgent_links-Seg :
    (fuel : ℕ) (next : Links) (f : ℕ) (a : List ℕ) (p : ℕ) (b : List ℕ)
    → length (f ∷ a) < fuel
    → Distinct (f ∷ a ++ p ∷ b)
    → Seg next f (f ∷ a ++ p ∷ b) 0
    → (t : Links) × (ys : List ℕ) × (move_urgent_links fuel next f p ≡ ok t)
      × (urge (f ∷ a) p b ≡ ok ys)
      × Seg t f ys 0
move_urgent_links-Seg fuel next f a p b fuels d h = elim (last-cases a) [
  | inl e ↦
      let (t, ok_t, seg) =
        urge_second fuel next f p b (omega arith) (subst (λ x. Distinct (f ∷ x ++ p ∷ b)) e d)
          (subst (λ x. Seg next f (f ∷ x ++ p ∷ b) 0) e h) in
      (t, f ∷ p ∷ b, ok_t, rw e refl, seg)
  | inr (m, u, e) ↦
      let e' : a ++ p ∷ b ≡ m ++ u ∷ p ∷ b = rw e (append_assoc m (u ∷ []) (p ∷ b)) in
      let (t, ok_t, seg) =
        urge_later fuel next f m u p b (omega (arith, ap length e, length-append m (u ∷ [])))
          (subst (λ x. Distinct (f ∷ x)) e' d) (subst (λ x. Seg next f (f ∷ x) 0) e' h) in
      (
        t,
        f ∷ p ∷ m ++ u ∷ b,
        ok_t,
        rw e (ap (λ x. ok (f ∷ p ∷ x)) (append_assoc m (u ∷ []) b)),
        seg,
      )
]

-- If the job to urge is the first of the queue, the previous job is a null pointer, which is
-- written through.
pub move_urgent_links_first :
    (fuel : ℕ) (next : Links) (f : ℕ) (rest : List ℕ)
    → length (f ∷ rest) < fuel
    → Distinct (f ∷ rest)
    → Seg next f (f ∷ rest) 0
    → move_urgent_links fuel next f f ≡ fault
unfolding move_urgent_links
move_urgent_links_first fuel next f rest fuels d h =
    rw (find_previous_job_none fuel next f f rest f h.1 fuels d.0 h)
