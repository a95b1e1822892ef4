-- ===== src/Gpu/Listed.antt =====
-- gpu.c: the list of GPUs with enough free memory, by the NVML library.
use task_spooler.Base.{
  ℕ, zero, suc, ◌+◌, ◌*◌, Bool, true, false, List, [], ◌∷◌, Option, none, some, length, leb, ltb,
  if◌then◌else◌, ◌||◌, not,
}
use task_spooler.Base.Int.{ℤ, pos, negsuc, leb_ℤ}
use task_spooler.Base.Run.{Run, ok, fault, ◌>>=◌}
use task_spooler.State.{Text}
use task_spooler.CommandLine.{strtok_int}
use task_spooler.Connections.Requests.{getenv}

-- The NVML library: whether it can be used, and the free and the total memory of a device, if it has
-- a device of that index and can tell.
pub record Nvml : Type 0 where
  pub init : Bool
  pub memory : ℤ → Option (ℕ × ℕ)

-- `for (i = 0; i < num_total_gpus; i++) visibility[i] = i`.
unfoldable pub all_gpus : ℕ → ℕ → List ℤ
all_gpus zero i = []
all_gpus (suc n) i = pos i ∷ all_gpus n (i + 1)

abbrev ts_visible_devices : Text
ts_visible_devices =
    b'T' ∷ b'S' ∷ b'_' ∷ b'V' ∷ b'I' ∷ b'S' ∷ b'I' ∷ b'B' ∷ b'L' ∷ b'E' ∷ b'_' ∷ b'D' ∷ b'E' ∷ b'V'
    ∷ b'I' ∷ b'C' ∷ b'E' ∷ b'S' ∷ []

-- The array has room for num_total_gpus ids.
unfoldable pub visible_of : (Text → ℤ) → ℕ → Option Text → Run (List ℤ)
unfolding all_gpus strtok_int
visible_of atoi total none = ok (all_gpus total 0)
visible_of atoi total (some tmp) =
    let ids = strtok_int atoi tmp in if leb (length ids) total then ok ids else fault

unfoldable pub get_visible_gpus : (Text → ℤ) → ℕ → List (Text × Text) → Run (List ℤ)
unfolding visible_of getenv
get_visible_gpus atoi total env = visible_of atoi total (getenv ts_visible_devices env)

-- `mem.free > free_percentage / 100. * mem.total`, without the rounding of a double.
abbrev pub is_free_enough : ℤ → ℕ × ℕ → Bool
is_free_enough (pos percentage) (free, all) = ltb (percentage * all) (100 * free)
is_free_enough (negsuc n) (free, all) = ltb 0 all || ltb 0 free

-- The loop of getGpuList, or none where it goes to Error.
unfoldable pub gpu_loop : Nvml → ℕ → ℤ → List ℤ → Option (List ℤ)
gpu_loop nvml total percentage [] = some []
gpu_loop nvml total percentage (g ∷ visible) =
    let rest = gpu_loop nvml total percentage visible in
    if leb_ℤ (pos total) g then rest else (elim (nvml.memory g) [
      | none ↦ none
      | some mem ↦
          if is_free_enough percentage mem
          then (elim rest [ none ↦ none | some l ↦ some (g ∷ l) ])
          else rest
    ])

abbrev pub is_empty {ℓ} : {A : Type ℓ} → List A → Bool
is_empty [] = true
is_empty (x ∷ xs) = false

-- getGpuList: none stands for NULL.
unfoldable pub get_gpu_list : Nvml → (Text → ℤ) → ℕ → List (Text × Text) → ℤ → Run (Option (List ℤ))
unfolding get_visible_gpus gpu_loop
get_gpu_list nvml atoi total env percentage = if not nvml.init then ok none else (do
  visible ← get_visible_gpus atoi total env
  ok (if is_empty visible then none else gpu_loop nvml total percentage visible))
