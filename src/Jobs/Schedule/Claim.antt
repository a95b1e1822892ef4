-- ===== src/Jobs/Schedule/Claim.antt =====
-- assign_gpus: which GPUs a job gets.
use task_spooler.Base.{
  ℕ, zero, suc, ◌<◌, ◌≤◌, ◌≡◌, refl, sym, ◌∙◌, ap, Bool, false, not, Bool-cases, inl, inr, List, [],
  ◌∷◌, Option, some, none, ltb, if◌then◌else◌, length, take, All, arith,
}
use task_spooler.Base.Int.{ℤ, pos}
use task_spooler.Base.Run.{ok, exits, fault}
use task_spooler.State.{Job}
use task_spooler.Gpu.{is_in_use}
use task_spooler.Jobs.Notices.{is_true}
use task_spooler.Jobs.Schedule.{pick_gpus, copy_ints, assign_gpus}

-- The entry of used_gpus for a GPU of the list is there.
abbrev pub IsKnown : List ℤ → ℤ → Type 0
IsKnown used g = (v : ℤ) × (is_in_use g used ≡ ok v)

abbrev pub is_unclaimed : List ℤ → ℤ → Bool
is_unclaimed used g = elim (is_in_use g used) [
  | ok v ↦ not (is_true v)
  | exits ↦ false
  | fault ↦ false
]

-- The GPUs of the list that no job has claimed.
abbrev pub unclaimed : List ℤ → List ℤ → List ℤ
unclaimed used [] = []
unclaimed used (g ∷ free) =
    if is_unclaimed used g then g ∷ unclaimed used free else unclaimed used free

pick_gpus-take :
    (n : ℕ) (free used : List ℤ)
    → All (IsKnown used) free
    → pick_gpus n free used ≡ ok (take n (unclaimed used free))
unfolding pick_gpus
pick_gpus-take zero free used h = refl
pick_gpus-take (suc n) [] used h = refl
pick_gpus-take (suc n) (g ∷ free) used ((v, e), h) = elim (Bool-cases (is_true v)) [
  | inl claimed ↦ ground (arith, e, claimed, pick_gpus-take (suc n) free used h)
  | inr left ↦ ground (arith, e, left, pick_gpus-take n free used h)
]

length-take : (n : ℕ) (xs : List ℤ) → n ≤ length xs → length (take n xs) ≡ n
length-take zero xs h = refl
length-take (suc n) [] h = absurd (omega (arith, h))
length-take (suc n) (x ∷ xs) h = ap suc (length-take n xs (omega (arith, h)))

take-short : (n : ℕ) (xs : List ℤ) → length xs < n → length (take n xs) ≡ length xs
take-short zero xs h = absurd (omega (arith, h))
take-short (suc n) [] h = refl
take-short (suc n) (x ∷ xs) h = ap suc (take-short n xs (omega (arith, h)))

copy_ints-take :
    (source target : List ℤ)
    → length source ≤ length target
    → (ids : List ℤ) × (copy_ints source target ≡ ok ids) × (take (length source) ids ≡ source)
unfolding copy_ints
copy_ints-take [] target h = (target, refl, refl)
copy_ints-take (x ∷ source) [] h = absurd (omega (arith, h))
copy_ints-take (x ∷ source) (y ∷ target) h =
    let (ids, e, k) = copy_ints-take source target (omega (arith, h)) in
    (x ∷ ids, rw e refl, ap (λ l. x ∷ l) k)

copy_ints-front :
    (n : ℕ) (source target : List ℤ)
    → length source ≡ n
    → n ≤ length target
    → (ids : List ℤ) × (copy_ints source target ≡ ok ids) × (take n ids ≡ source)
copy_ints-front n source target size h =
    let (ids, e, k) = copy_ints-take source target (omega (arith, size, h)) in
    (ids, e, ap (λ x. take x ids) (sym size) ∙ k)

-- What a job that wants `n` GPUs gets of the list.
pub data Claimed (used free : List ℤ) (p : Job) (n : ℕ) : Option Job → Type 0 where
  too_few : length (unclaimed used free) < n → Claimed used free p n none
  enough :
      (ids : List ℤ)
      → n ≤ length (unclaimed used free)
      → take n ids ≡ take n (unclaimed used free)
      → Claimed used free p n (some (record p { gpu_ids = ids }))

-- A job that wants `n` GPUs, and has room for them, gets the first `n` of the list that no job has
-- claimed, or none if there are fewer; the list stays as it is. Each GPU of the list has its entry
-- in used_gpus.
pub assign_gpus-Claimed :
    (used free : List ℤ) (p : Job) (n : ℕ)
    → All (IsKnown used) free
    → n ≤ length p.gpu_ids
    → (o : Option Job) × (assign_gpus used free p (pos n) ≡ ok (free, o)) × Claimed used free p n o
unfolding assign_gpus
assign_gpus-Claimed used free p n known room =
    elim (Bool-cases (ltb (length (unclaimed used free)) n)) [
      | inl few ↦
          let less : length (unclaimed used free) < n = ground arith in
          (
            none,
            rw (pick_gpus-take n free used known, take-short n (unclaimed used free) less, few)
                refl,
            too_few less,
          )
      | inr all ↦
          let more : n ≤ length (unclaimed used free) = ground arith in
          let size = length-take n (unclaimed used free) more in
          let (ids, e, k) = copy_ints-front n (take n (unclaimed used free)) p.gpu_ids size room in
          let whole : ltb n n ≡ false = ground arith in
          (
            some (record p { gpu_ids = ids }),
            rw (pick_gpus-take n free used known, size, whole, e) refl,
            enough ids more k,
          )
    ]
