-- ===== src/Base/Int.antt =====
-- C's `int`: signed integers over the native numbers, and 32-bit wrap-around.
use Prim.Native.Nat.{ℕ, suc, ◌+◌, ◌-◌, ◌%◌, ◌^◌, ◌≤◌, ◌<◌}
use mathlib.Core.Path.{◌≡◌, ◌∙◌}
use mathlib.Core.Bool.{Bool}
use native.Mathlib.Omega.{arith}
unfoldable use native.Mathlib.Decide.{ℕ_discrete}
use task_spooler.Base.Tests.{ltb, leb, if◌then◌else◌}

-- `negsuc n` is -(n + 1).
pub data ℤ : Type 0 where
  pos : ℕ → ℤ
  negsuc : ℕ → ℤ

unfoldable pub ℤ_discrete : Discrete ℤ
ℤ_discrete = hlevel ℕ_discrete

abbrev pub pos_part : ℤ → ℕ
pos_part (pos n) = n
pos_part (negsuc n) = 0

abbrev pub neg_part : ℤ → ℕ
neg_part (pos n) = 0
neg_part (negsuc n) = suc n

-- a - b, as an integer.
abbrev pub sub_ℕ : ℕ → ℕ → ℤ
sub_ℕ a b = if leb b a then pos (a - b) else negsuc (b - a - 1)

infix 50 ◌≤ℤ◌ ◌<ℤ◌
abbrev pub ◌≤ℤ◌ : ℤ → ℤ → Type 0
a ≤ℤ b = pos_part a + neg_part b ≤ pos_part b + neg_part a

abbrev pub ◌<ℤ◌ : ℤ → ℤ → Type 0
a <ℤ b = pos_part a + neg_part b < pos_part b + neg_part a

abbrev pub ltb_ℤ : ℤ → ℤ → Bool
ltb_ℤ a b = ltb (pos_part a + neg_part b) (pos_part b + neg_part a)

abbrev pub leb_ℤ : ℤ → ℤ → Bool
leb_ℤ a b = leb (pos_part a + neg_part b) (pos_part b + neg_part a)

abbrev pub minus_one : ℤ
minus_one = negsuc 0

-- The 32-bit pattern of an integer, and the `int` with that pattern.
abbrev pub bits : ℤ → ℕ
bits (pos n) = n % 2 ^ 32
bits (negsuc n) = 2 ^ 32 - 1 - n % 2 ^ 32

abbrev pub of_bits : ℕ → ℤ
of_bits b = if ltb b (2 ^ 31) then pos b else negsuc (2 ^ 32 - 1 - b)

-- What remains of an integer in an `int`.
unfoldable pub wrap : ℤ → ℤ
wrap a = of_bits (bits a)

abbrev pub IsInt : ℤ → Type 0
IsInt a = (pos_part a < 2 ^ 31) × (neg_part a ≤ 2 ^ 31)

pub wrap-IsInt : (a : ℤ) → IsInt (wrap a)
unfolding wrap
wrap-IsInt a = ground arith

pub wrap_of_int : (a : ℤ) → IsInt a → wrap a ≡ a
unfolding wrap
wrap_of_int (pos n) h = ground arith
wrap_of_int (negsuc n) h = ground arith

unfoldable pub add_int : ℤ → ℤ → ℤ
unfolding wrap
add_int a b = wrap (sub_ℕ (pos_part a + pos_part b) (neg_part a + neg_part b))

unfoldable pub sub_int : ℤ → ℤ → ℤ
unfolding wrap
sub_int a b = wrap (sub_ℕ (pos_part a + neg_part b) (neg_part a + pos_part b))

-- abs() of stdlib.h; abs(INT_MIN) stays INT_MIN.
unfoldable pub abs : ℤ → ℤ
unfolding wrap
abs a = wrap (pos (pos_part a + neg_part a))

pub add_int-IsInt : (a b : ℤ) → IsInt (add_int a b)
unfolding add_int
add_int-IsInt a b = wrap-IsInt _

pub sub_int-IsInt : (a b : ℤ) → IsInt (sub_int a b)
unfolding sub_int
sub_int-IsInt a b = wrap-IsInt _

pub add_int_comm : (a b : ℤ) → add_int a b ≡ add_int b a
unfolding add_int
add_int_comm a b = ground arith

wrap_eq : (a b : ℤ) → bits a ≡ bits b → wrap a ≡ wrap b
unfolding wrap
wrap_eq a b h = rw h

bits-of_bits : (b : ℕ) → b < 2 ^ 32 → bits (of_bits b) ≡ b
bits-of_bits b h = ground arith

pub bits_lt : (a : ℤ) → bits a < 2 ^ 32
bits_lt (pos n) = omega arith
bits_lt (negsuc n) = omega arith

bits-wrap : (a : ℤ) → bits (wrap a) ≡ bits a
unfolding wrap
bits-wrap a = bits-of_bits (bits a) (bits_lt a)

bits-sum :
    (a b : ℤ)
    → bits (sub_ℕ (pos_part a + pos_part b) (neg_part a + neg_part b)) ≡ (bits a + bits b) % 2 ^ 32
bits-sum a b = ground arith

pub bits-add_int : (a b : ℤ) → bits (add_int a b) ≡ (bits a + bits b) % 2 ^ 32
unfolding add_int
bits-add_int a b = bits-wrap _ ∙ bits-sum a b

bits-difference :
    (a b : ℤ)
    → bits (sub_ℕ (pos_part a + neg_part b) (neg_part a + pos_part b))
      ≡ (bits a + 2 ^ 32 - bits b) % 2 ^ 32
bits-difference a b = ground arith

bits-sub_int : (a b : ℤ) → bits (sub_int a b) ≡ (bits a + 2 ^ 32 - bits b) % 2 ^ 32
unfolding sub_int
bits-sub_int a b = bits-wrap _ ∙ bits-difference a b

bits_injective : (a b : ℤ) → IsInt a → IsInt b → bits a ≡ bits b → a ≡ b
bits_injective a b h k e = ground arith

pub add_int_assoc : (a b c : ℤ) → add_int (add_int a b) c ≡ add_int a (add_int b c)
add_int_assoc a b c = bits_injective _ _ (add_int-IsInt _ _) (add_int-IsInt _ _) (
    omega (
      arith,
      bits-add_int (add_int a b) c,
      bits-add_int a b,
      bits-add_int a (add_int b c),
      bits-add_int b c,
    ))

-- Subtracting what was added gives the `int` back.
pub sub_int-add_int : (a b : ℤ) → IsInt b → sub_int (add_int a b) a ≡ b
sub_int-add_int a b h =
    bits_injective _ _ (sub_int-IsInt _ _) h
      (omega (arith, bits-sub_int (add_int a b) a, bits-add_int a b, bits_lt a, bits_lt b))

pub add_int-zero : (a : ℤ) → IsInt a → add_int a (pos 0) ≡ a
unfolding add_int wrap
add_int-zero a h = ground arith

pub sub_int-zero : (a : ℤ) → IsInt a → sub_int a (pos 0) ≡ a
unfolding sub_int wrap
sub_int-zero a h = ground arith

-- A counter that has not wrapped.
pub add_int-one :
    (a : ℤ) → pos 0 ≤ℤ a → a <ℤ pos (2 ^ 31 - 1) → add_int a (pos 1) ≡ pos (pos_part a + 1)
unfolding add_int
add_int-one a h k = ground arith
