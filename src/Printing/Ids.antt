-- ===== src/Printing/Ids.antt =====
-- print.c with main.c: the ids of GPUs written as a text, and read from one.
use mathlib.Core.List.{append_assoc, append-nil}
use task_spooler.Base.{
  length, ◌*◌, ◌≤◌, ◌<◌, ℕ, zero, suc, ◌+◌, ◌/◌, ◌%◌, ◌≡◌, ◌≢◌, refl, sym, ◌∙◌, ap, Bool-cases, inl,
  inr, List, [], ◌∷◌, ◌++◌, map, ◌==◌, ltb, false, All, arith,
}
use task_spooler.Base.Int.{ℤ, pos, negsuc, IsInt}
use task_spooler.Base.Run.{ok}
use task_spooler.State.{Text}
use task_spooler.CommandLine.{strtok, strtok_int, ended_piece}
use task_spooler.Printing.{digits, decimal, join, ints_to_chars}

-- No character of the text is the delimiter.
abbrev pub Free : ℕ → Text → Type 0
Free delim text = All (λ c. (c == delim) ≡ false) text

Free-append : (d : ℕ) (s t : Text) → Free d s → Free d t → Free d (s ++ t)
Free-append d [] t h k = k
Free-append d (c ∷ s) t h k = (h.0, Free-append d s t h.1 k)

pub digits-Free : (d fuel n : ℕ) → d < b'0' → Free d (digits fuel n)
unfolding digits
digits-Free d zero n h = tt
digits-Free d (suc fuel) n h = elim (Bool-cases (ltb n 10)) [
  | inl small ↦ rw small (ground arith, tt)
  | inr large ↦ rw large (
      Free-append d (digits fuel (n / 10)) ((b'0' + n % 10) ∷ []) (digits-Free d fuel (n / 10) h)
        (ground arith, tt))
]

decimal-Free : (n : ℤ) → Free b',' (decimal n)
unfolding decimal
decimal-Free (pos n) = digits-Free b',' 10 n (omega arith)
decimal-Free (negsuc n) = (refl, digits-Free b',' 10 (suc n) (omega arith))

-- A piece without delimiters is read in one.
strtok-Free :
    (d : ℕ) (piece s rest : Text)
    → Free d s
    → strtok d piece (s ++ rest) ≡ strtok d (piece ++ s) rest
unfolding strtok
strtok-Free d piece [] rest h = ap (λ p. strtok d p rest) (sym (append-nil piece))
strtok-Free d piece (c ∷ s) rest h =
    rw (h.0, strtok)
      (strtok-Free d (piece ++ c ∷ []) s rest h.1
        ∙ ap (λ p. strtok d p rest) (append_assoc piece (c ∷ []) s))

ended_piece_some : (s : Text) → s ≢ [] → ended_piece s ≡ s ∷ []
ended_piece_some [] h = absurd (h refl)
ended_piece_some (c ∷ s) h = refl

append-ne-nil : (s : Text) (c : ℕ) → s ++ c ∷ [] ≢ []
append-ne-nil [] c = λ e. cc
append-ne-nil (x ∷ s) c = λ e. cc

pub digits-ne-nil : (fuel n : ℕ) → digits (suc fuel) n ≢ []
unfolding digits
digits-ne-nil fuel n = elim (Bool-cases (ltb n 10)) [
  | inl small ↦ rw small (λ e. cc)
  | inr large ↦ rw large (append-ne-nil (digits fuel (n / 10)) (b'0' + n % 10))
]

decimal-ne-nil : (n : ℤ) → decimal n ≢ []
unfolding decimal
decimal-ne-nil (pos n) = digits-ne-nil 9 n
decimal-ne-nil (negsuc n) = λ e. cc

-- The pieces that strtok finds are those that were joined.
strtok-join : (ids : List ℤ) → strtok b',' [] (join (b',' ∷ []) ids) ≡ map decimal ids
unfolding strtok join
strtok-join [] = refl
strtok-join (n ∷ []) =
    ap (λ t. strtok b',' [] t) (sym (append-nil (decimal n)))
    ∙ (strtok-Free b',' [] (decimal n) [] (decimal-Free n)
        ∙ ended_piece_some (decimal n) (decimal-ne-nil n))
strtok-join (n ∷ m ∷ rest) =
    strtok-Free b',' [] (decimal n) (b',' ∷ join (b',' ∷ []) (m ∷ rest)) (decimal-Free n)
    ∙ (ap (λ l. l ++ strtok b',' [] (join (b',' ∷ []) (m ∷ rest)))
          (ended_piece_some (decimal n) (decimal-ne-nil n))
        ∙ ap (λ l. decimal n ∷ l) (strtok-join (m ∷ rest)))

map-reads :
    (atoi : Text → ℤ) (ids : List ℤ)
    → ((n : ℤ) → IsInt n → atoi (decimal n) ≡ n)
    → All IsInt ids
    → map atoi (map decimal ids) ≡ ids
map-reads atoi [] reads h = refl
map-reads atoi (n ∷ ids) reads h = λ i. reads n h.0 i ∷ map-reads atoi ids reads h.1 i

written :
    (ids : List ℤ)
    → ids ≢ []
    → length (join (b',' ∷ []) ids) ≤ 2 * length ids
    → ints_to_chars ids (b',' ∷ []) ≡ ok (join (b',' ∷ []) ids)
unfolding ints_to_chars
written [] some_id room = absurd (some_id refl)
written (n ∷ ids) some_id room = ground arith

-- If atoi reads the decimal text of an int, and there are some ints, whose text with commas fits in
-- two bytes for each, ints_to_chars makes that text, and strtok_int reads the ints back from it.
pub strtok_int-ints_to_chars :
    (atoi : Text → ℤ) (ids : List ℤ)
    → ((n : ℤ) → IsInt n → atoi (decimal n) ≡ n)
    → All IsInt ids
    → ids ≢ []
    → length (join (b',' ∷ []) ids) ≤ 2 * length ids
    → (text : Text) × (ints_to_chars ids (b',' ∷ []) ≡ ok text) × (strtok_int atoi text ≡ ids)
unfolding strtok_int
strtok_int-ints_to_chars atoi ids reads h some_id room = (
  join (b',' ∷ []) ids,
  written ids some_id room,
  ap (map atoi) (strtok-join ids) ∙ map-reads atoi ids reads h,
)
