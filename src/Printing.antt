-- ===== src/Printing.antt =====
-- print.c, info.c and the conversions of printf that the lines for a client are made with.
pub mod Numbers
pub mod Ids
pub mod Output
use task_spooler.Base.{
  ℕ, zero, suc, ◌+◌, ◌-◌, ◌*◌, ◌/◌, ◌%◌, Bool, List, [], ◌∷◌, ◌++◌, Option, none, some, length,
  take, drop, replicate, leb, ltb, ◌==◌, ◌||◌, if◌then◌else◌,
}
use task_spooler.Base.Int.{ℤ, pos, negsuc}
use task_spooler.Base.Run.{Run, ok, fault, ◌>>=◌}
use task_spooler.State.{Text}
use task_spooler.Wire.{moved}

-- The decimal digits of a number below 10 ^ fuel.
unfoldable pub digits : ℕ → ℕ → Text
digits zero n = []
digits (suc fuel) n =
    let rest = digits fuel (n / 10) ++ (b'0' + n % 10) ∷ [] in
    if ltb n 10 then (b'0' + n) ∷ [] else rest

-- "%i" of an int, which is below 10 ^ 10.
unfoldable pub decimal : ℤ → Text
unfolding digits
decimal (pos n) = digits 10 n
decimal (negsuc n) = b'-' ∷ digits 10 (suc n)

-- "%-ws": the text on the left of a column that is w wide.
unfoldable pub on_left : ℕ → Text → Text
on_left w s = s ++ replicate (w - length s) b' '

-- "%ws".
unfoldable pub on_right : ℕ → Text → Text
on_right w s = replicate (w - length s) b' ' ++ s

-- The pieces of a line, one behind the other.
unfoldable pub concat : List Text → Text
concat [] = []
concat (piece ∷ rest) = piece ++ concat rest

-- What snprintf writes of a text into `size` bytes, without the NUL.
unfoldable pub snprintf : ℕ → Text → Text
snprintf size s = take (size - 1) s

-- The loop of ints_to_chars.
unfoldable pub join : Text → List ℤ → Text
unfolding decimal
join delim [] = []
join delim (n ∷ []) = decimal n
join delim (n ∷ m ∷ rest) = decimal n ++ (delim ++ join delim (m ∷ rest))

-- ints_to_chars: a byte for each number, one for each byte of the delimiters, and one for the NUL. Its
-- text is not written at all if there is no number, and is written past the memory if it needs more.
unfoldable pub ints_to_chars : List ℤ → Text → Run Text
unfolding join
ints_to_chars [] delim = fault
ints_to_chars (n ∷ rest) delim =
    let size = length (n ∷ rest) + length (n ∷ rest) * length delim + 1 in
    let text = join delim (n ∷ rest) in if ltb (length text) size then ok text else fault

-- The loop of fd_nprintf and of pinfo_dump: `rooms` is what each call of write takes, or none for an
-- error. Each call is given the text from its start. What is left over, and what was written.
unfoldable pub write_loop : List (Option ℕ) → Text → ℕ → Text → ℕ × Text
write_loop rooms out zero written = (zero, written)
write_loop [] out (suc rest) written = (suc rest, written)
write_loop (none ∷ rooms) out (suc rest) written = (suc rest, written)
write_loop (some room ∷ rooms) out (suc rest) written =
    let res = moved (suc rest) room in
    write_loop rooms out (suc rest - res) (written ++ take res out)

-- The first bytes of what was written to the memory, which must be there.
unfoldable pub first_bytes : ℕ → Text → Run Text
first_bytes n text = if leb n (length text) then ok (take n text) else fault

abbrev write_out : List (Option ℕ) → ℕ → Text → Run (ℕ × Text)
unfolding first_bytes write_loop
write_out rooms size text = do out ← first_bytes size text; ok (write_loop rooms out size [])

-- fd_nprintf: the text is cut to `maxsize`, and as many bytes are written as it had before.
unfoldable pub fd_nprintf : List (Option ℕ) → ℕ → Text → Run (ℕ × Text)
unfolding write_out snprintf
fd_nprintf rooms maxsize text = write_out rooms (length text) (snprintf maxsize text)

-- struct Procinfo: the memory, of which nchars bytes are text, and its size. The times are left out.
pub record Procinfo : Type 0 where
  pub ptr : Option Text
  pub nchars : ℕ
  pub allocchars : ℕ

unfoldable pub pinfo_init : Procinfo
pinfo_init = record { ptr = none; nchars = 0; allocchars = 0 }

-- What is behind a pointer that may be null, before the first realloc.
abbrev pub text_of : Option Text → Text
text_of none = []
text_of (some text) = text

-- The size of the memory, which realloc raises to `newchars` if it is smaller.
unfoldable pub room_for : ℕ → Procinfo → ℕ
room_for newchars p = if ltb p.allocchars newchars then newchars else p.allocchars

-- pinfo_addinfo: realloc gives the memory if it is needed; nchars grows by the length of the whole
-- text, also if it was cut.
unfoldable pub pinfo_addinfo : ℕ → Text → Procinfo → Run Procinfo
unfolding first_bytes snprintf room_for
pinfo_addinfo maxsize line p = do
  text ← first_bytes p.nchars (text_of p.ptr)
  let allocchars = room_for (p.nchars + maxsize) p
  ok (record {
    ptr = some (text ++ snprintf (allocchars - p.nchars) line);
    nchars = p.nchars + length line;
    allocchars = allocchars;
  })

unfoldable pub pinfo_dump : List (Option ℕ) → Procinfo → Run (ℕ × Text)
unfolding write_out
pinfo_dump rooms p = elim p.ptr [ none ↦ ok (0, []) | some text ↦ write_out rooms p.nchars text ]

unfoldable pub pinfo_size : Procinfo → ℕ
pinfo_size p = p.nchars
