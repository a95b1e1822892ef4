-- ===== src/Jobs/Order/Links/Seg.antt =====
-- Chains of `next` pointers, and find_previous_job on them.
use task_spooler.Base.{
  ℕ, zero, suc, ◌<◌, ◌≡◌, ◌≢◌, refl, sym, ◌∙◌, subst, List, [], ◌∷◌, ◌++◌, arith, length,
}
use task_spooler.Jobs.Order.Links.{Links, write, find_previous_job}

-- From `p` the pointers lead through the nodes `xs` to `q`.
abbrev pub Seg : Links → ℕ → List ℕ → ℕ → Type 0
Seg next p [] q = p ≡ q
Seg next p (x ∷ xs) q = (p ≡ x) × (x ≢ 0) × Seg next (next x) xs q

abbrev pub NotIn : ℕ → List ℕ → Type 0
NotIn a [] = Unit {0}
NotIn a (x ∷ xs) = (a ≢ x) × NotIn a xs

abbrev pub Distinct : List ℕ → Type 0
Distinct [] = Unit {0}
Distinct (x ∷ xs) = NotIn x xs × Distinct xs

-- The first node of `xs`, or where the list ends.
abbrev pub start : List ℕ → ℕ → ℕ
start [] q = q
start (x ∷ xs) q = x

pub Seg-start : (next : Links) (p : ℕ) (xs : List ℕ) (q : ℕ) → Seg next p xs q → p ≡ start xs q
Seg-start next p [] q h = h
Seg-start next p (x ∷ xs) q h = h.0

pub Seg-split :
    (next : Links) (p : ℕ) (xs ys : List ℕ) (q : ℕ)
    → Seg next p (xs ++ ys) q
    → Seg next p xs (start ys q) × Seg next (start ys q) ys q
Seg-split next p [] ys q h =
    let e = Seg-start next p ys q h in (e, subst (λ x. Seg next x ys q) e h)
Seg-split next p (x ∷ xs) ys q h =
    let rest = Seg-split next (next x) xs ys q h.2 in ((h.0, h.1, rest.0), rest.1)

pub Seg-join :
    (next : Links) (p : ℕ) (xs ys : List ℕ) (q r : ℕ)
    → Seg next p xs q
    → Seg next q ys r
    → Seg next p (xs ++ ys) r
Seg-join next p [] ys q r h k = subst (λ x. Seg next x ys r) (sym h) k
Seg-join next p (x ∷ xs) ys q r h k = (h.0, h.1, Seg-join next (next x) xs ys q r h.2 k)

pub write_self : (next : Links) (a v : ℕ) → write next a v a ≡ v
unfolding write
write_self next a v = ground arith

pub write_other : (next : Links) (a v x : ℕ) → x ≢ a → write next a v x ≡ next x
unfolding write
write_other next a v x ne = ground arith

-- A write elsewhere leaves a chain.
pub Seg-write :
    (next : Links) (a v p : ℕ) (xs : List ℕ) (q : ℕ)
    → NotIn a xs
    → Seg next p xs q
    → Seg (write next a v) p xs q
Seg-write next a v p [] q out h = h
Seg-write next a v p (x ∷ xs) q out h =
    let e = write_other next a v x (λ e. out.0 (sym e)) in
    (
      h.0,
      h.1,
      subst (λ y. Seg (write next a v) y xs q) (sym e) (Seg-write next a v (next x) xs q out.1 h.2),
    )

pub NotIn-split : (a : ℕ) (xs ys : List ℕ) → NotIn a (xs ++ ys) → NotIn a xs × NotIn a ys
NotIn-split a [] ys h = (tt, h)
NotIn-split a (x ∷ xs) ys h = let r = NotIn-split a xs ys h.1 in ((h.0, r.0), r.1)

pub NotIn-join : (a : ℕ) (xs ys : List ℕ) → NotIn a xs → NotIn a ys → NotIn a (xs ++ ys)
NotIn-join a [] ys h k = k
NotIn-join a (x ∷ xs) ys h k = (h.0, NotIn-join a xs ys h.1 k)

-- A node of a list without repetition does not stand on either side of itself.
pub Distinct-cut :
    (xs : List ℕ) (y : ℕ) (zs : List ℕ)
    → Distinct (xs ++ y ∷ zs)
    → NotIn y xs × NotIn y zs × Distinct (xs ++ zs)
Distinct-cut [] y zs h = (tt, h.0, h.1)
Distinct-cut (x ∷ xs) y zs h =
    let c = Distinct-cut xs y zs h.1 in
    let n = NotIn-split x xs (y ∷ zs) h.0 in
    (((λ e. n.1.0 (sym e)), c.0), c.1, (NotIn-join x xs zs n.0 n.1.1, c.2))

start-ne : (x u : ℕ) (a b : List ℕ) (q : ℕ) → NotIn x (a ++ u ∷ []) → start (a ++ u ∷ b) q ≢ x
start-ne x u [] b q h e = h.0 (sym e)
start-ne x u (y ∷ a) b q h e = h.0 (sym e)

-- find_previous_job finds the node before `x`.
pub find_previous_job_found :
    (fuel : ℕ) (next : Links) (p : ℕ) (a : List ℕ) (u x : ℕ) (b : List ℕ) (q : ℕ)
    → length a < fuel
    → NotIn x (a ++ u ∷ [])
    → Seg next p (a ++ u ∷ x ∷ b) q
    → find_previous_job fuel next x p ≡ u
unfolding find_previous_job
find_previous_job_found zero next p a u x b q f n h = absurd (omega arith)
find_previous_job_found (suc fuel) next p [] u x b q f n h = ground (arith, h.0, h.1, h.2.0)
find_previous_job_found (suc fuel) next p (y ∷ a) u x b q f n h =
    let e : next y ≡ start (a ++ u ∷ x ∷ b) q = Seg-start next (next y) (a ++ u ∷ x ∷ b) q h.2 in
    let ne : next p ≢ x = λ k. start-ne x u a (x ∷ b) q n.1 (sym e ∙ rw (← h.0) k) in
    let ih : find_previous_job fuel next x (next p) ≡ u =
      rw h.0 (find_previous_job_found fuel next (next y) a u x b q (omega arith) n.1 h.2) in
    let here : p ≢ 0 = λ k. h.1 (sym h.0 ∙ k) in ground (arith, ih)

-- No node stands before the first one of the chain.
pub find_previous_job_none :
    (fuel : ℕ) (next : Links) (p y : ℕ) (xs : List ℕ) (x : ℕ)
    → x ≢ 0
    → suc (length xs) < fuel
    → NotIn x xs
    → Seg next p (y ∷ xs) 0
    → find_previous_job fuel next x p ≡ 0
unfolding find_previous_job
find_previous_job_none zero next p y xs x nz f n h = absurd (omega arith)
find_previous_job_none (suc fuel) next p y [] x nz f n h =
    let end : next y ≡ 0 = h.2 in
    let ih : find_previous_job fuel next x 0 ≡ 0 = at_null fuel in
    rw h.0 (rw end (ground (arith, ih, h.1)))
  where
    at_null : (k : ℕ) → find_previous_job k next x 0 ≡ 0
    at_null zero = refl
    at_null (suc k) = refl
find_previous_job_none (suc fuel) next p y (z ∷ xs) x nz f n h =
    let ih : find_previous_job fuel next x (next y) ≡ 0 =
      find_previous_job_none fuel next (next y) z xs x nz (omega arith) n.1 h.2 in
    let ne : next y ≢ x = λ k. n.0 (sym k ∙ h.2.0) in rw h.0 (ground (arith, ih))
