-- ===== src/Wire/Ints.antt =====
-- msg.c: arrays of ints on the wire, with their size in front. The `write` of send_ints and the `read` of
-- recv_ints, which are not repeated, are taken to move all of their bytes.
use task_spooler.Base.{
  ◌≡◌, refl, ap, ◌∙◌, ℕ, zero, suc, ◌+◌, ◌*◌, ◌/◌, ◌%◌, ◌^◌, ◌<◌, List, [], ◌∷◌, ◌++◌, length, All,
  arith,
}
use task_spooler.Base.Int.{ℤ, pos, negsuc, IsInt, bits, of_bits, wrap, wrap_of_int}
use task_spooler.State.{Text}
use task_spooler.Base.Run.{Run, ok, fault, ◌>>=◌}

-- The four bytes of an int, the lowest first.
abbrev pub int_bytes : ℤ → Text
int_bytes a = let b = bits a in b % 256 ∷ b / 256 % 256 ∷ b / 65536 % 256 ∷ b / 16777216 ∷ []

abbrev pub int_of : ℕ → ℕ → ℕ → ℕ → ℤ
int_of a b c d = of_bits (a + 256 * b + 65536 * c + 16777216 * d)

int_of-int_bytes_bits :
    (b : ℕ)
    → b % 256 + 256 * (b / 256 % 256) + 65536 * (b / 65536 % 256) + 16777216 * (b / 16777216) ≡ b
int_of-int_bytes_bits b = omega arith

int_of-int_bytes :
    (a : ℤ)
    → IsInt a
    → int_of (bits a % 256) (bits a / 256 % 256) (bits a / 65536 % 256) (bits a / 16777216) ≡ a
unfolding wrap
int_of-int_bytes a h = ap of_bits (int_of-int_bytes_bits (bits a)) ∙ wrap_of_int a h

unfoldable pub ints_bytes : List ℤ → Text
ints_bytes [] = []
ints_bytes (a ∷ xs) = int_bytes a ++ ints_bytes xs

unfoldable pub send_ints : List ℤ → Text
unfolding ints_bytes
send_ints xs = int_bytes (pos (length xs)) ++ ints_bytes xs

-- `fault` where the bytes are not there, and what is read is not set.
unfoldable pub recv_int : Text → Run (ℤ × Text)
recv_int (a ∷ b ∷ c ∷ d ∷ wire) = ok (int_of a b c d, wire)
recv_int wire = fault

unfoldable pub recv_many : ℕ → Text → Run (List ℤ × Text)
unfolding recv_int
recv_many zero wire = ok ([], wire)
recv_many (suc n) wire = do
  (a, wire') ← recv_int wire
  (xs, wire'') ← recv_many n wire'
  ok (a ∷ xs, wire'')

unfoldable pub recv_ints : Text → Run (List ℤ × Text)
unfolding recv_int recv_many
recv_ints wire = do
  (num, wire') ← recv_int wire
  (elim num [ pos n ↦ recv_many n wire' | negsuc n ↦ fault ])

recv_int-int_bytes : (a : ℤ) (wire : Text) → IsInt a → recv_int (int_bytes a ++ wire) ≡ ok (a, wire)
unfolding recv_int
recv_int-int_bytes a wire h = ap (λ b. ok (b, wire)) (int_of-int_bytes a h)

recv_many-ints_bytes :
    (xs : List ℤ) (wire : Text)
    → All IsInt xs
    → recv_many (length xs) (ints_bytes xs ++ wire) ≡ ok (xs, wire)
unfolding recv_many ints_bytes
recv_many-ints_bytes [] wire h = refl
recv_many-ints_bytes (a ∷ xs) wire (h, hs) =
    rw (int_of-int_bytes a h, recv_many-ints_bytes xs wire hs) refl

pub recv_ints-send_ints :
    (xs : List ℤ) (wire : Text)
    → All IsInt xs
    → length xs < 2 ^ 31
    → recv_ints (send_ints xs ++ wire) ≡ ok (xs, wire)
unfolding recv_ints send_ints
recv_ints-send_ints xs wire h n =
    rw (recv_int-int_bytes (pos (length xs)) (ints_bytes xs ++ wire) (n, omega arith))
      (recv_many-ints_bytes xs wire h)
