-- ===== src/Gpu/Offered.antt =====
-- gpu.c with jobs.c: the GPUs that getGpuList offers are those that the scheduler can look up.
use task_spooler.Base.{
  ◌≡◌, refl, ℕ, zero, suc, ◌<◌, true, false, List, [], ◌∷◌, Option, none, some, length, get_elem?,
  All, Option-cases, Bool-cases, inl, inr, arith,
}
use task_spooler.Base.Int.{ℤ, pos, negsuc, leb_ℤ}
use task_spooler.Base.Run.{ok}
use task_spooler.State.{Text}
use task_spooler.Gpu.{is_in_use}
use task_spooler.Gpu.Listed.{
  Nvml, get_visible_gpus, is_free_enough, gpu_loop, is_empty, get_gpu_list,
}
use task_spooler.Jobs.Schedule.Claim.{IsKnown}

get_elem?-some {ℓ} :
    {A : Type ℓ} (xs : List A) (n : ℕ) → n < length xs → (x : A) × (get_elem? xs n ≡ some x)
get_elem?-some [] n h = absurd (omega arith)
get_elem?-some (x ∷ xs) zero h = (x, refl)
get_elem?-some (x ∷ xs) (suc n) h = get_elem?-some xs n (omega arith)

-- A GPU with an entry in used_gpus and with enough free memory.
abbrev pub IsOffered : Nvml → ℤ → List ℤ → ℤ → Type 0
IsOffered nvml percentage used g =
    IsKnown used g
    × ((mem : ℕ × ℕ) × ((nvml.memory g ≡ some mem) × (is_free_enough percentage mem ≡ true)))

abbrev pub AllOffered : Nvml → ℤ → List ℤ → Option (List ℤ) → Type 0
AllOffered nvml percentage used none = Unit
AllOffered nvml percentage used (some l) = All (λ g. IsOffered nvml percentage used g) l

module _ (nvml : Nvml) (percentage : ℤ) (used : List ℤ)
    (no_negative : (n : ℕ) → nvml.memory (negsuc n) ≡ none) where
  -- A device within the range is one of used_gpus.
  device-IsKnown :
      (g : ℤ) (mem : ℕ × ℕ)
      → leb_ℤ (pos (length used)) g ≡ false
      → nvml.memory g ≡ some mem
      → IsKnown used g
  unfolding is_in_use
  device-IsKnown (pos n) mem h e =
      let (v, k) = get_elem?-some used n (ground arith) in (v, rw k refl)
  device-IsKnown (negsuc n) mem h e = absurd (ground (arith, no_negative n))

  offer :
      (g : ℤ) (o : Option (List ℤ))
      → IsOffered nvml percentage used g
      → AllOffered nvml percentage used o
      → AllOffered nvml percentage used (elim o [ none ↦ none | some l ↦ some (g ∷ l) ])
  offer g none h k = tt
  offer g (some l) h k = (h, k)

  gpu_loop-AllOffered :
      (visible : List ℤ)
      → AllOffered nvml percentage used (gpu_loop nvml (length used) percentage visible)
  unfolding gpu_loop
  gpu_loop-AllOffered [] = tt
  gpu_loop-AllOffered (g ∷ visible) =
      let rest = gpu_loop-AllOffered visible in
      elim (Bool-cases (leb_ℤ (pos (length used)) g)) [
        | inl out ↦ rw out rest
        | inr within ↦ rw within (elim (Option-cases (nvml.memory g)) [
          | inl failed ↦ rw failed tt
          | inr (mem, e) ↦ rw e (elim (Bool-cases (is_free_enough percentage mem)) [
            | inl enough ↦ rw enough (
                offer g (gpu_loop nvml (length used) percentage visible)
                  (device-IsKnown g mem within e, (mem, (e, enough))) rest)
            | inr little ↦ rw little rest
          ])
        ])
      ]

  -- If NVML knows no device of a negative index, used_gpus has an entry for each GPU of the
  -- machine, and the visible GPUs fit their array, getGpuList returns, and each GPU of its list has
  -- its entry in used_gpus and more free memory than the percentage asks for.
  pub get_gpu_list-AllOffered :
      (atoi : Text → ℤ) (env : List (Text × Text)) (visible : List ℤ)
      → get_visible_gpus atoi (length used) env ≡ ok visible
      → (o : Option (List ℤ)) × ((get_gpu_list nvml atoi (length used) env percentage ≡ ok o)
          × AllOffered nvml percentage used o)
  unfolding get_gpu_list
  get_gpu_list-AllOffered atoi env visible e = elim (Bool-cases nvml.init) [
    | inl works ↦ elim (Bool-cases (is_empty visible)) [
      | inl empty ↦ (none, (rw (works, e, empty) refl, tt))
      | inr some_there ↦ (
        gpu_loop nvml (length used) percentage visible,
        (rw (works, e, some_there) refl, gpu_loop-AllOffered visible),
      )
    ]
    | inr fails ↦ (none, (rw fails refl, tt))
  ]
