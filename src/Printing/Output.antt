-- ===== src/Printing/Output.antt =====
-- info.c and print.c: the text about a job, and the loops that write a text.
use task_spooler.Base.{
  ℕ, zero, suc, ◌+◌, ◌-◌, ◌<◌, ◌≤◌, ◌≡◌, refl, sym, ◌∙◌, ap, List, [], ◌∷◌, ◌++◌, Option, some,
  none, length, take, length-append, take-of_le, length-take_of_le, subst, All, arith,
}
use mathlib.Core.List.{append_assoc, append-nil}
use task_spooler.Base.Run.{Run, ok, ◌>>=◌}
use task_spooler.State.{Text}
use task_spooler.Wire.{moved}
use task_spooler.Printing.{
  concat, write_loop, first_bytes, fd_nprintf, Procinfo, pinfo_init, pinfo_addinfo, room_for,
  pinfo_dump, text_of,
}
use task_spooler.Printing.Numbers.{snprintf_whole}

room_left :
    (p : Procinfo) (maxsize : ℕ) (line : Text)
    → length line < maxsize
    → length line < room_for (p.nchars + maxsize) p - p.nchars
unfolding room_for
room_left p maxsize line h = ground arith

room_left_le :
    (p : Procinfo) (maxsize : ℕ) (line : Text)
    → length line < maxsize
    → p.nchars + length line ≤ room_for (p.nchars + maxsize) p
unfolding room_for
room_left_le p maxsize line h = ground arith

-- The information is this text, and all of it is in the memory.
record Holds (text : Text) (p : Procinfo) : Type 0 where
  written : text_of p.ptr ≡ text
  counted : p.nchars ≡ length text
  within : p.nchars ≤ p.allocchars

first_bytes_whole : (n : ℕ) (text : Text) → n ≡ length text → first_bytes n text ≡ ok text
unfolding first_bytes
first_bytes_whole n text e = ground (arith, take-of_le n text)

pinfo_addinfo-Holds :
    (text : Text) (maxsize : ℕ) (line : Text) (p : Procinfo)
    → Holds text p
    → length line < maxsize
    → (p' : Procinfo) × (pinfo_addinfo maxsize line p ≡ ok p') × Holds (text ++ line) p'
unfolding pinfo_addinfo
pinfo_addinfo-Holds text maxsize line p h fits =
    let e = first_bytes_whole p.nchars (text_of p.ptr) (h.counted ∙ ap length (sym h.written)) in
    let cut =
      snprintf_whole (room_for (p.nchars + maxsize) p - p.nchars) line
        (room_left p maxsize line fits) in
    (
      record {
        ptr = some (text ++ line);
        nchars = p.nchars + length line;
        allocchars = room_for (p.nchars + maxsize) p;
      },
      rw (e, h.written, cut) refl,
      record {
        written = refl;
        counted = omega (arith, length-append text line, h.counted);
        within = room_left_le p maxsize line fits;
      },
    )

-- Calls of pinfo_addinfo, one after the other.
unfoldable pub add_lines : List (ℕ × Text) → Procinfo → Run Procinfo
unfolding pinfo_addinfo
add_lines [] p = ok p
add_lines ((maxsize, line) ∷ lines) p = pinfo_addinfo maxsize line p >>= add_lines lines

abbrev pub texts : List (ℕ × Text) → List Text
texts [] = []
texts ((maxsize, line) ∷ lines) = line ∷ texts lines

abbrev pub IsRoomy : ℕ × Text → Type 0
IsRoomy (maxsize, line) = length line < maxsize

add_lines-Holds :
    (lines : List (ℕ × Text)) (text : Text) (p : Procinfo)
    → Holds text p
    → All IsRoomy lines
    → (p' : Procinfo) × (add_lines lines p ≡ ok p') × Holds (text ++ concat (texts lines)) p'
unfolding add_lines concat
add_lines-Holds [] text p h roomy = (p, refl, subst (λ t. Holds t p) (sym (append-nil text)) h)
add_lines-Holds ((maxsize, line) ∷ lines) text p h roomy =
    let (p1, e1, h1) = pinfo_addinfo-Holds text maxsize line p h roomy.0 in
    let (p2, e2, h2) = add_lines-Holds lines (text ++ line) p1 h1 roomy.1 in
    (p2, rw (e1) e2, subst (λ t. Holds t p2) (append_assoc text line (concat (texts lines))) h2)

pub write_loop_whole :
    (rooms : List (Option ℕ)) (room : ℕ) (out : Text) (rest : ℕ) (written : Text)
    → rest ≡ length out
    → rest ≤ room
    → write_loop (some room ∷ rooms) out rest written ≡ (0, written ++ out)
unfolding write_loop
write_loop_whole rooms room [] zero written e h = ap (λ t. (0, t)) (sym (append-nil written))
write_loop_whole rooms room (c ∷ out) zero written e h = absurd (omega arith)
write_loop_whole rooms room out (suc rest) written e h = ground (arith, take-of_le (suc rest) out)

pinfo_dump-Holds :
    (rooms : List (Option ℕ)) (room : ℕ) (text : Text) (p : Procinfo)
    → Holds text p
    → length text ≤ room
    → pinfo_dump (some room ∷ rooms) p ≡ ok (0, text)
unfolding pinfo_dump
pinfo_dump-Holds rooms room text p h roomy = ground (
  arith,
  h.written,
  h.counted,
  first_bytes_whole p.nchars text h.counted,
  write_loop_whole rooms room text p.nchars [] h.counted,
)

-- If each text is shorter than the size given for it, and the first call of write takes all,
-- pinfo_addinfo stores the texts, and pinfo_dump writes them, one behind the other and in full.
pub pinfo_dump-add_lines :
    (rooms : List (Option ℕ)) (room : ℕ) (lines : List (ℕ × Text))
    → All IsRoomy lines
    → length (concat (texts lines)) ≤ room
    → (add_lines lines pinfo_init >>= pinfo_dump (some room ∷ rooms)) ≡ ok (0, concat (texts lines))
unfolding pinfo_init
pinfo_dump-add_lines rooms room lines roomy fits =
    let (p, e, h) =
      add_lines-Holds lines [] pinfo_init
        (record { written = refl; counted = refl; within = omega arith }) roomy in
    rw (e) (pinfo_dump-Holds rooms room (concat (texts lines)) p h fits)

write_loop_count :
    (rooms : List (Option ℕ)) (out : Text) (rest : ℕ) (written : Text)
    → rest ≤ length out
    → length ((write_loop rooms out rest written).1) + (write_loop rooms out rest written).0
      ≡ length written + rest
unfolding write_loop
write_loop_count rooms out zero written h = omega arith
write_loop_count [] out (suc rest) written h = omega arith
write_loop_count (none ∷ rooms) out (suc rest) written h = omega arith
write_loop_count (some room ∷ rooms) out (suc rest) written h =
    let res = moved (suc rest) room in
    let le : res ≤ suc rest = ground arith in
    omega (
      arith,
      le,
      write_loop_count rooms out (suc rest - res) (written ++ take res out) (omega (arith, le)),
      length-append written (take res out),
      length-take_of_le res out (omega (arith, le)),
    )

write_loop_again :
    (rooms : List (Option ℕ)) (room : ℕ) (out : Text) (rest : ℕ)
    → 0 < room
    → room < rest
    → rest ≡ length out
    → write_loop (some room ∷ some rest ∷ rooms) out rest []
      ≡ (0, take room out ++ take (rest - room) out)
unfolding write_loop
write_loop_again rooms room out zero k l e = elim l [ ]
write_loop_again rooms room out (suc rest) k l e = ground (arith, take-of_le (suc rest) out)

-- If the first call of write takes a part of the text, and the second one all that it is given,
-- fd_nprintf writes the start of the text again in place of the rest.
pub fd_nprintf_again :
    (rooms : List (Option ℕ)) (maxsize room : ℕ) (text : Text)
    → length text < maxsize
    → 0 < room
    → room < length text
    → fd_nprintf (some room ∷ some (length text) ∷ rooms) maxsize text
      ≡ ok (0, take room text ++ take (length text - room) text)
unfolding fd_nprintf
fd_nprintf_again rooms maxsize room text h k l =
    rw (snprintf_whole maxsize text h, first_bytes_whole (length text) text refl)
      (ap ok (write_loop_again rooms room text (length text) k l refl))

pub fd_nprintf_whole :
    (rooms : List (Option ℕ)) (maxsize room : ℕ) (text : Text)
    → length text < maxsize
    → length text ≤ room
    → fd_nprintf (some room ∷ rooms) maxsize text ≡ ok (0, text)
unfolding fd_nprintf
fd_nprintf_whole rooms maxsize room text h k =
    rw (snprintf_whole maxsize text h, first_bytes_whole (length text) text refl)
      (ap ok (write_loop_whole rooms room text (length text) [] refl k))
