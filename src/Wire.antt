-- ===== src/Wire.antt =====
-- msg.c: bytes through a socket, in as many calls of send and recv as it takes.
pub mod Bytes
pub mod Ints
pub mod NewJob
pub mod Stream
use task_spooler.Base.{
  ℕ, ◌+◌, ◌-◌, List, [], ◌∷◌, ◌++◌, Option, none, some, length, take, drop, leb, ◌==◌,
  if◌then◌else◌,
}
use task_spooler.State.{Text}

-- A loop that has returned, or that still goes on when the calls that are looked at are over.
pub data Loop {ℓ} (A : Type ℓ) : Type ℓ where
  returned : A → Loop A
  still : A → Loop A

-- What a call moves: all that it is asked for if there is room, or text, for as much.
abbrev pub moved : ℕ → ℕ → ℕ
moved bytes room = if leb bytes room then bytes else room

-- send_bytes: `rooms` is what the socket takes at each call, or none for an error; `wire` what it has
-- taken so far.
unfoldable pub send_bytes : List (Option ℕ) → Text → Text → Loop Text
send_bytes [] text wire = still wire
send_bytes (none ∷ rooms) text wire = returned wire
send_bytes (some room ∷ rooms) text wire =
    let res = moved (length text) room in
    let rest = send_bytes rooms (drop res text) (wire ++ take res text) in
    if res == length text then returned (wire ++ text) else rest

-- What recv_bytes leaves: the result of its last recv, the buffer, and what is still on the wire.
pub record Got : Type 0 where
  pub res : Option ℕ
  pub buffer : Text
  pub wire : Text

-- recv_bytes: `rooms` is what has arrived at each call; at the end of the stream recv gives 0.
unfoldable pub recv_bytes : List (Option ℕ) → ℕ → Got → Loop Got
recv_bytes [] bytes g = still g
recv_bytes (none ∷ rooms) bytes g = returned (record g { res = none })
recv_bytes (some room ∷ rooms) bytes g =
    let res = moved (moved bytes room) (length g.wire) in
    let g' : Got = record {
      res = some res;
      buffer = g.buffer ++ take res g.wire;
      wire = drop res g.wire;
    } in
    let rest = recv_bytes rooms (bytes - res) g' in if res == bytes then returned g' else rest
