-- ===== src/Encap/Session.antt =====
-- struct EncapSession and class SessionMgr of enet_encap/encap.h and encap.cc, with the function
-- static `index` of RegisterTcpConnection(). A socket is the bit pattern of its int. The calls that
-- leave the class, CloseSocket() and CloseClass3Connections(), are kept in a log, oldest first.
pub mod Age
pub mod Table
pub mod Search
pub mod Taken
pub mod Life
pub mod Invariant
pub mod Reach
use cipster.Base.{
  ℕ, suc, zero, ◌+◌, ◌-◌, ◌*◌, ◌%◌, ◌^◌, ◌==◌, ltb, leb, List, [], ◌∷◌, ◌++◌, Bool, true, false,
  ◌&&◌, if◌then◌else◌, Option, none, some, length, set, replicate,
}

-- SockAddr, in host order.
pub record SockAddr : Type 0 where
  pub family : ℕ
  pub port : ℕ
  pub addr : ℕ

abbrev pub socket_invalid : ℕ
socket_invalid = 4294967295

pub record Session : Type 0 where
  pub socket : ℕ
  pub peer : SockAddr
  pub last_activity : ℕ
  pub registered : Bool

-- Clear() leaves the port and the address of the peer.
abbrev no_family : SockAddr → SockAddr
no_family a = record a { family = 0 }

abbrev pub clear_session : Session → Session
clear_session s = record {
  socket = socket_invalid;
  peer = no_family s.peer;
  last_activity = 0;
  registered = false;
}

abbrev pub free_session : Session
free_session = record {
  socket = socket_invalid;
  peer = record { family = 0; port = 0; addr = 0 };
  last_activity = 0;
  registered = false;
}

pub data Call : Type 0 where
  close_socket close_class3 : ℕ → Call

pub record Sessions : Type 0 where
  pub slots : List Session
  pub index : ℕ
  pub calls : List Call

-- The static table: `n` is CIPSTER_NUMBER_OF_SUPPORTED_SESSIONS.
abbrev pub no_sessions : ℕ → Sessions
no_sessions n = record { slots = replicate n free_session; index = 0; calls = [] }

-- `sessions[i]`; out of range it is never read.
abbrev pub nth : List Session → ℕ → Session
nth [] i = free_session
nth (s ∷ ss) zero = s
nth (s ∷ ss) (suc i) = nth ss i

abbrev pub put_slot : ℕ → Session → Sessions → Sessions
put_slot i s m = record m { slots = set m.slots i s }

-- enum EncapError, as far as the sessions use it.
pub data EncapError : Type 0 where
  success invalid_or_unsupported_command insufficient_memory incorrect_data : EncapError
  invalid_session_handle unsupported_protocol : EncapError

abbrev pub inc_wrap : ℕ → ℕ → ℕ
inc_wrap n index = if leb n (index + 1) then 0 else index + 1

-- The search of RegisterTcpConnection() for a free slot, with the rounds that are left, and the
-- `index` that it stops at.
unfoldable pub find_free : ℕ → ℕ → List Session → ℕ → Bool × ℕ
find_free n zero ss index = (false, index)
find_free n (suc rounds) ss index =
    let rest = find_free n rounds ss (inc_wrap n index) in
    if Session.socket (nth ss index) == socket_invalid then (true, index) else rest

-- What a call gives back: the error, the session handle if it is stored, and the table.
abbrev pub Reply : Type 0
Reply = EncapError × Option ℕ × Sessions

-- A free slot takes the socket, then the address of the peer, if getpeername() knows it.
unfoldable pub occupy : Option SockAddr → ℕ → ℕ → ℕ → Sessions → Reply
occupy none now sock i m =
    (incorrect_data, none, put_slot i (record (nth m.slots i) { socket = sock }) m)
occupy (some peer) now sock i m = (
  success,
  some (i + 1),
  put_slot i (record (nth m.slots i) { socket = sock; peer = peer; last_activity = now }) m,
)

unfoldable pub register_tcp : (ℕ → Option SockAddr) → ℕ → ℕ → Sessions → Reply
unfolding find_free occupy
register_tcp getpeername now sock m =
    let n = length m.slots in
    let (found, i) = find_free n n m.slots (inc_wrap n m.index) in
    if found
    then occupy (getpeername sock) now sock i (record m { index = i })
    else (insufficient_memory, none, record m { index = i })

abbrev shift : Option ℕ → Option ℕ
shift none = none
shift (some i) = some (suc i)

-- The first slot with a socket.
unfoldable pub find_socket : ℕ → List Session → Option ℕ
find_socket sock [] = none
find_socket sock (s ∷ ss) =
    let rest = shift (find_socket sock ss) in if s.socket == sock then some 0 else rest

unfoldable pub register_session : ℕ → Sessions → Reply
unfolding find_socket
register_session sock m = elim (find_socket sock m.slots) [
  | none ↦ (insufficient_memory, none, m)
  | some i ↦
      if Session.registered (nth m.slots i)
      then (invalid_or_unsupported_command, some (i + 1), m)
      else (success, some (i + 1), put_slot i (record (nth m.slots i) { registered = true }) m)
]

unfoldable pub update_tcp : ℕ → ℕ → Sessions → Option ℕ × Sessions
unfolding find_socket
update_tcp now sock m = elim (find_socket sock m.slots) [
  | none ↦ (none, m)
  | some i ↦ (some i, put_slot i (record (nth m.slots i) { last_activity = now }) m)
]

-- `aSessionHandle - 1` in 32 bits.
abbrev pub slot_of : ℕ → ℕ
slot_of handle = (handle + (2 ^ 32 - 1)) % 2 ^ 32

unfoldable pub check_session : ℕ → ℕ → Sessions → Option ℕ
check_session handle sock m =
    let i = slot_of handle in
    if ltb i (length m.slots)
      && (Session.socket (nth m.slots i) == sock && Session.registered (nth m.slots i))
    then some i
    else none

-- EncapSession::Close().
unfoldable pub close_slot : ℕ → Sessions → Sessions
close_slot i m = record m {
  slots = set m.slots i (clear_session (nth m.slots i));
  calls = m.calls ++ (close_socket (Session.socket (nth m.slots i)) ∷ []);
}

unfoldable pub close_by_handle : ℕ → Sessions → Bool × Sessions
unfolding close_slot
close_by_handle handle m =
    let i = slot_of handle in
    if leb (length m.slots) i
    then (false, m)
    else if Session.socket (nth m.slots i) == socket_invalid
    then (false, m)
    else (true, close_slot i m)

unfoldable pub close_by_socket : ℕ → Sessions → Bool × Sessions
unfolding find_socket close_slot
close_by_socket sock m = elim (find_socket sock m.slots) [
  | none ↦ (false, m)
  | some i ↦ (true, close_slot i m)
]

unfoldable pub unregister : ℕ → ℕ → Sessions → EncapError × Sessions
unfolding close_slot
unregister handle sock m =
    let i = slot_of handle in
    if ltb i (length m.slots) && (Session.socket (nth m.slots i) == sock)
    then (success, close_slot i m)
    else (invalid_session_handle, m)

-- GetSession().
unfoldable pub get_session : ℕ → Sessions → Option Session
get_session handle m =
    let i = slot_of handle in
    if ltb i (length m.slots)
    then (if Session.socket (nth m.slots i) == socket_invalid then none else some (nth m.slots i))
    else none
