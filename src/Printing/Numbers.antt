-- ===== src/Printing/Numbers.antt =====
-- printf: what the digits of a number stand for, and how wide a column is.
use task_spooler.Base.{
  ℕ, zero, suc, ◌+◌, ◌-◌, ◌*◌, ◌/◌, ◌%◌, ◌^◌, ◌≤◌, ◌<◌, ◌≡◌, refl, ◌∙◌, ap, List, [], ◌∷◌, ◌++◌,
  length, replicate, length-append, arith, take-of_le, Bool-cases, inl, inr, ltb, sym,
}
use native.Mathlib.Omega.{pow_step}
use mathlib.Core.List.{append_assoc}
use task_spooler.Base.Int.{ℤ, pos, negsuc}
use task_spooler.State.{Text}
use task_spooler.Printing.{digits, decimal, on_left, on_right, concat, snprintf}

-- The number that digits stand for, behind those that came before.
unfoldable pub value : ℕ → Text → ℕ
value n [] = n
value n (c ∷ text) = value (n * 10 + (c - b'0')) text

value-append : (n : ℕ) (s t : Text) → value n (s ++ t) ≡ value (value n s) t
unfolding value
value-append n [] t = refl
value-append n (c ∷ s) t = value-append (n * 10 + (c - b'0')) s t

tenth_lt : (f n : ℕ) → n < 10 ^ suc f → n / 10 < 10 ^ f
tenth_lt f n h = omega (arith, pow_step 10 f)

-- Ten digits are enough for an int.
pub value-digits : (fuel n : ℕ) → n < 10 ^ fuel → 0 < fuel → value 0 (digits fuel n) ≡ n
unfolding digits value
value-digits zero n h k = absurd (omega arith)
value-digits (suc zero) n h k = ground arith
value-digits (suc (suc f)) n h k = elim (Bool-cases (ltb n 10)) [
  | inl small ↦ rw small (omega arith)
  | inr large ↦ rw large (
      value-append 0 (digits (suc f) (n / 10)) ((b'0' + n % 10) ∷ [])
      ∙ (ap (λ v. v * 10 + (b'0' + n % 10 - b'0'))
            (value-digits (suc f) (n / 10) (tenth_lt (suc f) n h) (omega arith))
          ∙ omega arith))
]

pub length-digits : (fuel n : ℕ) → length (digits fuel n) ≤ fuel
unfolding digits
length-digits zero n = omega arith
length-digits (suc fuel) n = ground (
  arith,
  length-digits fuel (n / 10),
  length-append (digits fuel (n / 10)) ((b'0' + n % 10) ∷ []),
)

pub length-decimal : (n : ℤ) → length (decimal n) ≤ 11
unfolding decimal
length-decimal (pos n) = omega (arith, length-digits 10 n)
length-decimal (negsuc n) = omega (arith, length-digits 10 (suc n))

length-replicate : (n c : ℕ) → length (replicate n c) ≡ n
length-replicate zero c = refl
length-replicate (suc n) c = ap suc (length-replicate n c)

pub length-on_left : (w m : ℕ) (s : Text) → w ≤ m → length s ≤ m → length (on_left w s) ≤ m
unfolding on_left
length-on_left w m s h k =
    omega
      (arith, length-append s (replicate (w - length s) b' '), length-replicate (w - length s) b' ')

pub length-on_right : (w m : ℕ) (s : Text) → w ≤ m → length s ≤ m → length (on_right w s) ≤ m
unfolding on_right
length-on_right w m s h k =
    omega
      (arith, length-append (replicate (w - length s) b' ') s, length-replicate (w - length s) b' ')

pub concat-append : (a b : List Text) → concat (a ++ b) ≡ concat a ++ concat b
unfolding concat
concat-append [] b = refl
concat-append (p ∷ a) b =
    ap (λ t. p ++ t) (concat-append a b) ∙ sym (append_assoc p (concat a) (concat b))

pub snprintf_whole : (size : ℕ) (s : Text) → length s < size → snprintf size s ≡ s
unfolding snprintf
snprintf_whole size s h = take-of_le (size - 1) s (omega arith)
