-- ===== src/Start/Connect.antt =====
-- server_start.c: how a client finds the server, or starts one.
use task_spooler.Base.{
  ◌≡◌, ℕ, ◌≤◌, ◌<◌, ◌≢◌, Bool, true, false, List, [], ◌∷◌, ◌++◌, Option, none, some, length, leb,
  ◌==◌, if◌then◌else◌, arith,
}
use task_spooler.Base.Run.{Run, ok, exits, fault, ◌>>=◌, ◌>>◌, Settles}
use task_spooler.Base.Strings.{codes}
use task_spooler.State.{Text}
use task_spooler.Printing.{digits}

-- What connect() gives.
pub data Connection : Type 0 where
  connected no_such_file refused other_error : Connection

-- What the host answers to a client: whether it gives a socket, getuid(), TS_SOCKET and TMPDIR, connect()
-- before and after the start of a server, and the owner of the socket's file.
pub record Host : Type 0 where
  pub has_socket : Bool
  pub uid : ℕ
  pub ts_socket : Option Text
  pub tmpdir : Option Text
  pub first : Connection
  pub second : Connection
  pub owner : Option ℕ

-- What a client does to its host.
pub data Act : Type 0 where
  unlinks starts_server : Text → Act

-- The path of the socket, and should_check_owner.
pub record SocketPath : Type 0 where
  pub path : Text
  pub should_check_owner : Bool

abbrev dir_of : Option Text → Text
dir_of none = codes "/tmp"
dir_of (some tmpdir) = tmpdir

-- "%u" of a number that fits in 32 bits.
unfoldable pub create_socket_path : Host → SocketPath
unfolding digits
create_socket_path h = elim h.ts_socket [
  | some path ↦ record { path = path; should_check_owner = false }
  | none ↦ record {
    path = dir_of h.tmpdir ++ (codes "/socket-ts." ++ digits 10 h.uid);
    should_check_owner = true;
  }
]

-- strcpy into the 108 bytes of sun_path.
unfoldable pub try_connect : Connection → SocketPath → Run Connection
try_connect answer s = if leb (length s.path) 107 then ok answer else fault

abbrev owned_by : ℕ → Option ℕ → Run (Unit {0})
owned_by uid none = exits
owned_by uid (some owner) = if owner == uid then ok tt else exits

unfoldable pub try_check_ownership : Host → SocketPath → Run (Unit {0})
try_check_ownership h s = if s.should_check_owner then owned_by h.uid h.owner else ok tt

-- From the start of a server on: its parent waits for a byte of it, and tries to connect again.
unfoldable pub start_and_connect : Host → SocketPath → List Act → Run (List Act)
unfolding try_connect
start_and_connect h s acts = do
  second ← try_connect h.second s
  elim second [ connected ↦ ok (starts_server s.path ∷ acts) | _ ↦ exits ]

-- Each connect after the first that fails ends in exit(-1) too; what was done, newest first.
unfoldable pub ensure_server_up : Host → Run (List Act)
unfolding create_socket_path try_connect try_check_ownership start_and_connect
ensure_server_up h =
    if h.has_socket
    then (do
      let s = create_socket_path h
      first ← try_connect h.first s
      elim first [
        | connected ↦ try_check_ownership h s >> ok []
        | no_such_file ↦ start_and_connect h s []
        | refused ↦ start_and_connect h s (unlinks s.path ∷ [])
        | other_error ↦ exits
      ])
    else exits

-- What was done to the host, by what connect() said first.
abbrev pub Fitting : Host → List Act → Type 0
Fitting h acts = elim h.first [
  | connected ↦ (acts ≡ []) × ((h.ts_socket ≡ none) → h.owner ≡ some h.uid)
  | no_such_file ↦ (acts ≡ starts_server (create_socket_path h).path ∷ []) × (h.second ≡ connected)
  | refused ↦
      (acts ≡ starts_server (create_socket_path h).path ∷ unlinks (create_socket_path h).path ∷ [])
      × (h.second ≡ connected)
  | other_error ↦ ⊥
]

-- A server that is found, and whose file belongs to the user unless TS_SOCKET names it, or no server,
-- and one that comes up.
abbrev Answers : Host → Type 0
Answers h = elim h.first [
  | connected ↦ (h.ts_socket ≡ none) → h.owner ≡ some h.uid
  | no_such_file ↦ h.second ≡ connected
  | refused ↦ h.second ≡ connected
  | other_error ↦ ⊥
]

-- What has to be there for a client to be connected in the end.
pub record IsReachable (h : Host) : Type 0 where
  pub has_socket : h.has_socket ≡ true
  pub answers : Answers h

ensure_server_up_returns :
    (h : Host)
    → length (create_socket_path h).path ≤ 107
    → IsReachable h
    → ensure_server_up h ≢ exits
unfolding ensure_server_up try_connect
ensure_server_up_returns h short r = ground arith

-- If the path of the socket fits in its address, ensure_server_up does nothing undefined. Where it
-- returns, a server was started if and only if connect() found no file or was refused, a file was
-- unlinked only if it was refused, and a server that was found belongs to the user unless TS_SOCKET
-- names its socket. It returns if there is a socket, and either connect() succeeds at first and the
-- file belongs to the user or TS_SOCKET names it, or connect() finds no file or is refused, and
-- succeeds once a server was started.
pub ensure_server_up-Fitting :
    (h : Host)
    → length (create_socket_path h).path ≤ 107
    → Settles (Fitting h) (ensure_server_up h) × (IsReachable h → ensure_server_up h ≢ exits)
unfolding ensure_server_up
ensure_server_up-Fitting h short = ((ground arith, ground arith), ensure_server_up_returns h short)

-- A path that is too long for the address is written past its end.
pub ensure_server_up_fault :
    (h : Host)
    → h.has_socket ≡ true
    → 107 < length (create_socket_path h).path
    → ensure_server_up h ≡ fault
unfolding ensure_server_up
ensure_server_up_fault h e long = ground arith
