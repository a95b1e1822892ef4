-- ===== src/Gpu.antt =====
-- gpu.c: which GPUs the server's jobs have claimed. `used` is the array used_gpus, one entry for
-- each GPU of the machine; an index outside it is a fault.
pub mod Listed
pub mod Offered
use task_spooler.Base.{ℕ, zero, suc, List, [], ◌∷◌, length, set, get_elem?, ltb, if◌then◌else◌}
use task_spooler.Base.Int.{ℤ, pos, negsuc, pos_part}
use task_spooler.Base.Run.{Run, ok, fault, ◌>>=◌, or_fault}

unfoldable pub set_used : ℤ → ℤ → List ℤ → Run (List ℤ)
set_used (negsuc i) v used = fault
set_used (pos i) v used = if ltb i (length used) then ok (set used i v) else fault

-- The loop of broadcastUsedGpus and broadcastFreeGpus, over the rounds left.
unfoldable pub mark_gpus : ℤ → ℕ → List ℤ → List ℤ → Run (List ℤ)
mark_gpus v zero list used = ok used
mark_gpus v (suc n) [] used = fault
mark_gpus v (suc n) (g ∷ list) used = set_used g v used >>= mark_gpus v n list

unfoldable pub broadcast_used_gpus : ℤ → List ℤ → List ℤ → Run (List ℤ)
unfolding mark_gpus set_used
broadcast_used_gpus num list used = mark_gpus (pos 1) (pos_part num) list used

unfoldable pub broadcast_free_gpus : ℤ → List ℤ → List ℤ → Run (List ℤ)
unfolding mark_gpus set_used
broadcast_free_gpus num list used = mark_gpus (pos 0) (pos_part num) list used

unfoldable pub is_in_use : ℤ → List ℤ → Run ℤ
is_in_use (negsuc i) used = fault
is_in_use (pos i) used = or_fault (get_elem? used i)
