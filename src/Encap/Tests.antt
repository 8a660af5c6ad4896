-- ===== src/Encap/Tests.antt =====
-- The session manager and the header on concrete values.
use cipster.Base.{
  ℕ, suc, zero, ◌<◌, ◌≡◌, ◌≢◌, refl, arith, List, [], ◌∷◌, ◌++◌, false, Option, none, some, ok,
  length,
}
use mathlib.Core.Logic.{◌↔◌}
use cipster.Encap.Session.{
  Sessions, SockAddr, success, insufficient_memory, socket_invalid, no_sessions, free_session,
  register_tcp, register_session, unregister, check_session, get_session, slot_of,
}
use cipster.Encap.Session.Age.{timeout_usecs}
use cipster.Encap.Session.Invariant.{IsSound, socket_at}
use cipster.Encap.Session.Reach.{accept, Reachable, start, after, Reachable-IsSound}
use cipster.Encap.Session.Life.{register_tcp-refuses, session_life}
use cipster.Bytes.Append.{fresh}
use cipster.Bytes.Writer.{Writer, append}
use cipster.Bytes.Reader.{Reader}
use cipster.Encap.Session.{unsupported_protocol}
use cipster.Encap.Commands.{register_command, answer}
use cipster.Encap.Commands.Laws.{register_command_lem}
use cipster.Encap.Header.{Header, header_length, serialize_encap, deserialize_encap}
use cipster.Encap.Header.Laws.{IsWireHeader, deserialize_encap-serialize_encap}

abbrev peer_addr : SockAddr
peer_addr = record { family = 2; port = 2222; addr = 7 }

abbrev peers : ℕ → Option SockAddr
peers sock = some peer_addr

abbrev two : Sessions
two = no_sessions 2

nobody : (j : ℕ) → socket_at two j ≢ 5
nobody zero e = omega arith
nobody (suc zero) e = omega arith
nobody (suc (suc j)) e = omega arith

two_reached : Reachable peers 2 ((register_tcp peers 9 5 two).2)
two_reached = after start (accept 9 5 (ground arith) nobody)

Reachable-IsSound_example : IsSound 2 ((register_tcp peers 9 5 two).2)
Reachable-IsSound_example = Reachable-IsSound (omega arith) two_reached

two-IsSound : IsSound 2 two
two-IsSound = Reachable-IsSound {getpeername = peers} (omega arith) start

register_tcp-refuses_example :
    ((register_tcp peers 9 5 two).0 ≡ insufficient_memory)
    ↔ ((i : ℕ) → i < 2 → socket_at two i ≢ socket_invalid)
register_tcp-refuses_example = register_tcp-refuses peers 2 9 5 two two-IsSound

abbrev joined : Sessions
joined = record {
  slots =
      free_session
      ∷ record { socket = 5; peer = peer_addr; last_activity = 9; registered = false }
      ∷ [];
  index = 1;
  calls = [];
}

session_life_example :
    (check_session 2 5 joined ≡ none)
    × (m₂ : Sessions) × (register_session 5 joined ≡ (success, some 2, m₂))
    × (check_session 2 5 m₂ ≡ some (slot_of 2))
    × (m₃ : Sessions) × (unregister 2 5 m₂ ≡ (success, m₃))
    × (check_session 2 5 m₃ ≡ none)
    × (get_session 2 m₃ ≡ none)
session_life_example =
    session_life peers 2 9 5 2 two joined two-IsSound (omega arith) (ground arith) nobody
      (unfold register_tcp in refl)

-- 4295 seconds are less than 33 milliseconds.
timeout_wraps : timeout_usecs 4295 ≡ 32704
unfolding timeout_usecs
timeout_wraps = refl

abbrev zeros : List ℕ
zeros =
    0 ∷ 0 ∷ 0 ∷ 0 ∷ 0 ∷ 0 ∷ 0 ∷ 0 ∷ 0 ∷ 0 ∷ 0 ∷ 0 ∷ 0 ∷ 0 ∷ 0 ∷ 0 ∷ 0 ∷ 0 ∷ 0 ∷ 0 ∷ 0 ∷ 0 ∷ 0 ∷ 0
    ∷ []

abbrev sample_header : Header
sample_header = record {
  command = 0x65;
  payload = 4;
  session_handle = 0;
  status = 0;
  sender_context = 1 ∷ 2 ∷ 3 ∷ 4 ∷ 5 ∷ 6 ∷ 7 ∷ 8 ∷ [];
  options = 0;
  interface_handle = 0;
  timeout = 0;
}

abbrev sample_bytes : List ℕ
sample_bytes =
    0x65 ∷ 0 ∷ 4 ∷ 0 ∷ 0 ∷ 0 ∷ 0 ∷ 0 ∷ 0 ∷ 0 ∷ 0 ∷ 0 ∷ 1 ∷ 2 ∷ 3 ∷ 4 ∷ 5 ∷ 6 ∷ 7 ∷ 8 ∷ 0 ∷ 0 ∷ 0 ∷ 0
    ∷ []

sample_header-IsWireHeader : IsWireHeader sample_header
sample_header-IsWireHeader = record {
  command_fits = omega arith;
  payload_fits = omega arith;
  session_fits = omega arith;
  status_fits = omega arith;
  context_size = refl;
  context_fits = (
    omega arith,
    (
      omega arith,
      (omega arith, (omega arith, (omega arith, (omega arith, (omega arith, (omega arith, _)))))),
    ),
  );
  options_fits = omega arith;
  interface_fits = omega arith;
  timeout_fits = omega arith;
  short_interface = λ e. refl;
  short_timeout = λ e. refl;
}

deserialize_encap-serialize_encap_example :
    (deserialize_encap (sample_bytes ++ []) ≡ ok (some (sample_header, [])))
    × (length sample_bytes ≡ header_length sample_header)
deserialize_encap-serialize_encap_example =
    deserialize_encap-serialize_encap sample_header [] zeros
      (record { before = sample_bytes; after = [] }) sample_header-IsWireHeader
      (unfold serialize_encap in refl)

abbrev small_room : Writer
small_room = fresh (0 ∷ 0 ∷ 0 ∷ 0 ∷ [])

abbrev version_one : ℕ
version_one = 1

abbrev no_options : ℕ
no_options = 0

register_command_lem_example :
    (register_command 5 (1 ∷ 0 ∷ 0 ∷ 0 ∷ []) small_room joined
      ≡ ok (some (answer 5 1 0 joined, append (1 ∷ 0 ∷ 0 ∷ 0 ∷ []) small_room)))
    × (version_one ≡ 1 → no_options ≡ 0 → answer 5 1 0 joined ≡ register_session 5 joined)
    × (¬ ((version_one ≡ 1) × (no_options ≡ 0))
        → answer 5 1 0 joined ≡ (unsupported_protocol, none, joined))
    × ((short : Reader) → length short < 4 → register_command 5 short small_room joined ≡ ok none)
register_command_lem_example =
    register_command_lem 5 1 0 [] small_room joined (omega arith) (omega arith)
