-- ===== src/Wire/Bytes.antt =====
-- msg.c: what send_bytes puts on the wire is what recv_bytes takes from it.
use mathlib.Core.List.{append_assoc}
use task_spooler.Base.{
  ◌≡◌, refl, ap, ◌∙◌, ℕ, ◌-◌, ◌≤◌, ◌<◌, true, false, List, [], ◌∷◌, ◌++◌, map, Option, none, some,
  length, length-append, length-drop, take, drop, take-append-drop, take-append_le, drop-append_le,
  take-length, drop-length, leb, ◌==◌, All, arith, ◌⊎◌, inl, inr,
}
use task_spooler.State.{Text}
use task_spooler.Wire.{Loop, returned, still, moved, send_bytes, Got, recv_bytes}

-- Calls without an error, each of which moves a byte at least.
abbrev pub Moving : List ℕ → Type 0
Moving rooms = All (λ room. 1 ≤ room) rooms

le_cases : (a b : ℕ) → ((a ≤ b) × (leb a b ≡ true)) ⊎ ((b < a) × (leb a b ≡ false))
le_cases a b = ground arith

received_all :
    (bytes room ready : ℕ) → bytes ≤ room → bytes ≤ ready → moved (moved bytes room) ready ≡ bytes
received_all bytes room ready h k = ground arith

received_part :
    (bytes room ready : ℕ) → room < bytes → bytes ≤ ready → moved (moved bytes room) ready ≡ room
received_part bytes room ready h k = ground arith

same : (n : ℕ) → (n == n) ≡ true
same n = ground arith

differ : (m n : ℕ) → m < n → (m == n) ≡ false
differ m n h = ground arith

send_bytes-all :
    (rooms : List ℕ) (text wire : Text)
    → Moving rooms
    → length text < length rooms
    → send_bytes (map some rooms) text wire ≡ returned (wire ++ text)
unfolding send_bytes
send_bytes-all [] text wire m h = absurd (omega arith)
send_bytes-all (room ∷ rooms) text wire (m, ms) h = elim (le_cases (length text) room) [
  | inl (fits, t) ↦ rw (t, same (length text)) refl
  | inr (more, f) ↦
      let rest =
        send_bytes-all rooms (drop room text) (wire ++ take room text) ms
          (omega (arith, length-drop room text)) in
      rw
        (
          f,
          differ room (length text) more,
          rest,
          append_assoc wire (take room text) (drop room text),
          take-append-drop room text,
        )
        refl
]

-- After a call that gave `n` bytes.
abbrev after : ℕ → Got → Got
after n g = record { res = some n; buffer = g.buffer ++ take n g.wire; wire = drop n g.wire }

-- What recv_bytes leaves when it has taken a text, and `later` is still to come.
abbrev pub got : ℕ → Text → Text → Got → Got
got res text later g = record { res = some res; buffer = g.buffer ++ text; wire = later }

-- A call that gives less than is asked for.
recv_bytes-part :
    (room : ℕ) (rooms : List ℕ) (n : ℕ) (g : Got)
    → room < n
    → n ≤ length g.wire
    → recv_bytes (map some (room ∷ rooms)) n g
      ≡ recv_bytes (map some rooms) (n - room) (after room g)
unfolding recv_bytes
recv_bytes-part room rooms n g more ready =
    rw (received_part n room (length g.wire) more ready, differ room n more) refl

abbrev Takes : List ℕ → ℕ → Text → Text → Got → Type 0
Takes rooms n text later g =
    (res : ℕ) × ((recv_bytes (map some rooms) n g ≡ returned (got res text later g)) × (res ≤ n))

-- The bytes are taken in order, and what follows them stays on the wire.
recv_bytes-all :
    (rooms : List ℕ) (text later : Text) (g : Got) (n : ℕ)
    → Moving rooms
    → length text < length rooms
    → g.wire ≡ text ++ later
    → n ≡ length text
    → Takes rooms n text later g
unfolding recv_bytes
recv_bytes-all [] text later g n m h e k = absurd (omega arith)
recv_bytes-all (room ∷ rooms) text later g n (m, ms) h e k =
    let ready : n ≤ length g.wire = omega (arith, ap length e, length-append text later) in
    elim (le_cases n room) [
      | inl (fits, t) ↦
          let all : recv_bytes (map some (room ∷ rooms)) n g ≡ returned (got n text later g) =
            rw
              (
                received_all n room (length g.wire) fits ready,
                same n,
                e,
                k,
                take-append_le (length text) text later (omega arith),
                drop-append_le (length text) text later (omega arith),
                take-length text,
                drop-length text,
              )
              refl in
          (n, (all, omega arith))
      | inr (more, f) ↦
          let part : room ≤ length text = omega arith in
          let (res, (rest, small)) =
            recv_bytes-all rooms (drop room text) later (after room g) (n - room) ms
              (omega (arith, length-drop room text))
              (rw (e, drop-append_le room text later part) refl)
              (omega (arith, length-drop room text)) in
          let buffer : (g.buffer ++ take room g.wire) ++ drop room text ≡ g.buffer ++ text =
            rw
              (
                e,
                take-append_le room text later part,
                append_assoc g.buffer (take room text) (drop room text),
                take-append-drop room text,
              )
              refl in
          (
            res,
            (
              recv_bytes-part room rooms n g more ready
                  ∙ rest
                  ∙ ap (λ b. returned (record { res = some res; buffer = b; wire = later })) buffer,
              omega arith,
            ),
          )
    ]

abbrev unread : Text → Got
unread wire = record { res = none; buffer = []; wire = wire }

-- A text that is sent, followed by `later`, and received.
unfoldable pub pass : List (Option ℕ) → List (Option ℕ) → Text → Text → Loop Got
unfolding send_bytes recv_bytes
pass out into text later = elim (send_bytes out text []) [
  | returned wire ↦ recv_bytes into (length text) (unread (wire ++ later))
  | still wire ↦ still (unread wire)
]

-- If each call of send and recv moves a byte at least, and there are more calls than bytes,
-- send_bytes and recv_bytes both return, the receiver has the text that was sent, and what follows
-- it stays on the wire.
pub pass-all :
    (out into : List ℕ) (text later : Text)
    → Moving out
    → Moving into
    → length text < length out
    → length text < length into
    → (res : ℕ) × (pass (map some out) (map some into) text later
        ≡ returned (record { res = some res; buffer = text; wire = later }))
unfolding pass
pass-all out into text later m m' h h' =
    let (res, (k, small)) =
      recv_bytes-all into text later (unread (text ++ later)) (length text) m' h' refl refl in
    (res, rw (pass, send_bytes-all out text [] m h) k)

-- The result is that of the last recv.
recv_bytes-pieces :
    (room : ℕ) (rooms : List ℕ) (text later : Text)
    → 1 ≤ room
    → room < length text
    → Moving rooms
    → length text < length rooms
    → (res : ℕ) × ((recv_bytes (map some (room ∷ rooms)) (length text) (unread (text ++ later))
          ≡ returned (record { res = some res; buffer = text; wire = later }))
        × (res < length text))
recv_bytes-pieces room rooms text later m more ms h =
    let part : room ≤ length text = omega arith in
    let ready : length text ≤ length (text ++ later) = omega (arith, length-append text later) in
    let (res, (k, small)) =
      recv_bytes-all rooms (drop room text) later (after room (unread (text ++ later)))
        (length text - room) ms (omega (arith, length-drop room text))
        (drop-append_le room text later part) (omega (arith, length-drop room text)) in
    let buffer : take room (text ++ later) ++ drop room text ≡ text =
      rw (take-append_le room text later part) (take-append-drop room text) in
    (
      res,
      (
        recv_bytes-part room rooms (length text) (unread (text ++ later)) more ready
            ∙ k
            ∙ ap (λ b. returned (record { res = some res; buffer = b; wire = later })) buffer,
        omega arith,
      ),
    )

-- At the end of the stream each recv gives 0, and the loop goes on.
recv_bytes-end :
    (rooms : List ℕ) (n : ℕ) (g : Got)
    → 1 ≤ n
    → g.wire ≡ []
    → (g' : Got) × (recv_bytes (map some rooms) n g ≡ still g')
unfolding recv_bytes
recv_bytes-end [] n g h e = (g, refl)
recv_bytes-end (room ∷ rooms) n g h e =
    let none_came : moved (moved n room) (length g.wire) ≡ 0 = ground (arith, ap length e) in
    let (g', k) = recv_bytes-end rooms n (after 0 g) h e in
    let left : n - 0 ≡ n = omega arith in (g', rw (none_came, differ 0 n h, left) k)
