-- ===== src/Encap/Session/Age.antt =====
-- SessionMgr::AgeInactivity() and SessionMgr::Shutdown() of enet_encap/encap.cc.
pub mod Laws
use cipster.Base.{
  ℕ, suc, zero, ◌+◌, ◌-◌, ◌*◌, ◌%◌, ◌^◌, ◌==◌, ltb, List, [], ◌∷◌, ◌++◌, Bool, true, false,
  if◌then◌else◌,
}
use cipster.Encap.Session.{
  Session, Sessions, Call, close_socket, close_class3, socket_invalid, clear_session,
}

-- `inactivity_timeout_secs * 1000000`: a product of int, which wraps around at 32 bits, extended by
-- its sign to uint64_t.
unfoldable pub timeout_usecs : ℕ → ℕ
timeout_usecs secs =
    let product = secs * 1000000 % 2 ^ 32 in
    if ltb product (2 ^ 31) then product else product + (2 ^ 64 - 2 ^ 32)

-- The age in 64 bits.
abbrev pub age_usecs : ℕ → Session → ℕ
age_usecs now s = (now + (2 ^ 64 - s.last_activity)) % 2 ^ 64

-- Is this session to be closed?
unfoldable pub is_stale : ℕ → ℕ → Session → Bool
is_stale now timeout s =
    if s.socket == socket_invalid
    then false
    else if ltb (age_usecs now s) timeout
    then false
    else true

abbrev pub age_calls : ℕ → Session → List Call
age_calls handle s =
    (if s.registered then close_class3 handle ∷ [] else []) ++ (close_socket s.socket ∷ [])

-- The loop over the table, from the slot whose session handle is `handle`.
unfoldable pub age_slots : ℕ → ℕ → ℕ → List Session → List Session × List Call
unfolding is_stale
age_slots handle now timeout [] = ([], [])
age_slots handle now timeout (s ∷ ss) =
    let (aged, calls) = age_slots (handle + 1) now timeout ss in
    if is_stale now timeout s
    then (clear_session s ∷ aged, age_calls handle s ++ calls)
    else (s ∷ aged, calls)

unfoldable pub age_inactivity : ℕ → ℕ → Sessions → Sessions
unfolding timeout_usecs age_slots
age_inactivity now secs m =
    let (aged, calls) = age_slots 1 now (timeout_usecs secs) m.slots in
    record m { slots = aged; calls = m.calls ++ calls }

unfoldable pub close_slots : List Session → List Session × List Call
close_slots [] = ([], [])
close_slots (s ∷ ss) =
    let (closed, calls) = close_slots ss in
    if s.socket == socket_invalid
    then (s ∷ closed, calls)
    else (clear_session s ∷ closed, close_socket s.socket ∷ calls)

unfoldable pub shutdown : Sessions → Sessions
unfolding close_slots
shutdown m =
    let (closed, calls) = close_slots m.slots in
    record m { slots = closed; calls = m.calls ++ calls }
