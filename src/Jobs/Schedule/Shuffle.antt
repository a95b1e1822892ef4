-- ===== src/Jobs/Schedule/Shuffle.antt =====
-- shuffle: the list stays the same up to order, and no index is out of range.
use native.Mathlib.Nat.{div-lt_iff_lt-mul, lt-mul-div-succ}
use task_spooler.Base.{
  ℕ, zero, suc, ◌+◌, ◌-◌, ◌*◌, ◌/◌, ◌<◌, ◌≤◌, ◌≡◌, refl, ◌∙◌, ap, ite, List, [], ◌∷◌, some, length,
  get_elem?, set, arith,
}
use task_spooler.Base.Int.{ℤ, ℤ_discrete}
use task_spooler.Base.Run.{ok}
use task_spooler.Jobs.Lookup.{count}
use task_spooler.Jobs.Schedule.{exchange, shuffle_loop, shuffle}

-- The same numbers, each as often.
abbrev pub SameItems : List ℤ → List ℤ → Type 0
SameItems xs ys = (x : ℤ) → count x ys ≡ count x xs

one_if : ℤ → ℤ → ℕ
one_if x a = ite (ℤ_discrete a x) 1 0

get_elem?-some : (xs : List ℤ) (i : ℕ) → i < length xs → (a : ℤ) × (get_elem? xs i ≡ some a)
get_elem?-some [] i h = absurd (omega (arith, h))
get_elem?-some (x ∷ xs) zero h = (x, refl)
get_elem?-some (x ∷ xs) (suc i) h = get_elem?-some xs i (omega (arith, h))

length-set : (xs : List ℤ) (i : ℕ) (v : ℤ) → length (set xs i v) ≡ length xs
length-set [] i v = refl
length-set (x ∷ xs) zero v = refl
length-set (x ∷ xs) (suc i) v = ap suc (length-set xs i v)

count-set :
    (x : ℤ) (xs : List ℤ) (i : ℕ) (a v : ℤ)
    → get_elem? xs i ≡ some a
    → count x (set xs i v) + one_if x a ≡ count x xs + one_if x v
unfolding count one_if
count-set x [] i a v e = cc
count-set x (y ∷ xs) zero a v e = ground arith
count-set x (y ∷ xs) (suc i) a v e = ground (arith, count-set x xs i a v e)

-- A write of what stands at `i` leaves it there.
get_elem?-set_same :
    (xs : List ℤ) (i j : ℕ) (u : ℤ) → get_elem? xs i ≡ some u → get_elem? (set xs j u) i ≡ some u
get_elem?-set_same [] i j u e = cc
get_elem?-set_same (x ∷ xs) zero zero u e = refl
get_elem?-set_same (x ∷ xs) zero (suc j) u e = e
get_elem?-set_same (x ∷ xs) (suc i) zero u e = e
get_elem?-set_same (x ∷ xs) (suc i) (suc j) u e = get_elem?-set_same xs i j u e

-- Both indices are in range: the two items change places.
exchange-SameItems :
    (i j : ℕ) (xs : List ℤ)
    → i < length xs
    → j < length xs
    → (ys : List ℤ) × (exchange i j xs ≡ ok ys) × (length ys ≡ length xs) × SameItems xs ys
unfolding exchange
exchange-SameItems i j xs p q =
    let (t, et) = get_elem?-some xs j q in
    let (u, eu) = get_elem?-some xs i p in
    (
      set (set xs j u) i t,
      rw (et, eu) refl,
      length-set (set xs j u) i t ∙ length-set xs j u,
      λ x. omega (
        arith,
        count-set x (set xs j u) i u t (get_elem?-set_same xs i j u eu),
        count-set x xs j t u et,
      ),
    )

-- The index that a number of rand() gives is in range, for numbers up to RAND_MAX.
index_in_range : (rand_max r m : ℕ) → r ≤ rand_max → 0 < m → r / (rand_max / m + 1) < m
index_in_range rand_max r m h p =
    let whole : rand_max < m * (rand_max / m + 1) = lt-mul-div-succ rand_max {b = m} p in
    (div-lt_iff_lt-mul {k = rand_max / m + 1} {x = r} {y = m} (omega arith)).1
      (omega (arith, h, whole))

shuffle_loop-SameItems :
    (rand_max : ℕ) (rand : ℕ → ℕ) (rounds i : ℕ) (xs : List ℤ)
    → ((k : ℕ) → rand k ≤ rand_max)
    → i + rounds < length xs
    → (ys : List ℤ) × (shuffle_loop rand_max rand (length xs) rounds i xs ≡ ok ys) × SameItems xs ys
unfolding shuffle_loop
shuffle_loop-SameItems rand_max rand zero i xs h room = (xs, refl, λ x. refl)
shuffle_loop-SameItems rand_max rand (suc rounds) i xs h room =
    let j = i + rand i / (rand_max / (length xs - i) + 1) in
    let near = index_in_range rand_max (rand i) (length xs - i) (h i) (omega (arith, room)) in
    let (ys, e, size, same) =
      exchange-SameItems i j xs (omega (arith, room)) (omega (arith, near, room)) in
    let (zs, e', same') =
      shuffle_loop-SameItems rand_max rand rounds (i + 1) ys h (omega (arith, size, room)) in
    (zs, rw e (rw size at e'), λ x. same' x ∙ same x)

-- If rand() gives numbers up to RAND_MAX, shuffle stays in its array and gives the same numbers,
-- each as often as before.
pub shuffle-SameItems :
    (rand_max : ℕ) (rand : ℕ → ℕ) (xs : List ℤ)
    → ((k : ℕ) → rand k ≤ rand_max)
    → (ys : List ℤ) × (shuffle rand_max rand xs ≡ ok ys) × SameItems xs ys
unfolding shuffle shuffle_loop
shuffle-SameItems rand_max rand [] h = ([], refl, λ x. refl)
shuffle-SameItems rand_max rand (x ∷ xs) h =
    shuffle_loop-SameItems rand_max rand (length (x ∷ xs) - 1) 0 (x ∷ xs) h (omega arith)
