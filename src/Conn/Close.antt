-- ===== src/Conn/Close.antt =====
-- How connections end: CipConn::Close() and timeOut() of cip/cipconnection.cc, the functions of
-- cip/appcontype.cc that close or look for others with them, and those of cip/cipconnectionmanager.cc that
-- end a TCP session or the explicit connections of one. The list of active connections is the sequence of
-- their addresses (Conn/Box), and a `CipConn*` an address. What leaves the stack is a log.
pub mod Shrinks
pub mod Laws
pub mod Steps
pub mod Gone
use cipster.Base.{
  ℕ, zero, suc, ◌+◌, ◌==◌, List, [], ◌∷◌, ◌++◌, Bool, true, false, not, ◌&&◌, ◌||◌, Option, none,
  some, if◌then◌else◌, length,
}
use cipster.Cpf.{is_some}
use cipster.Encap.Session.{Sessions, close_by_handle}
use cipster.Epath.AppPath.{get_instance_or_conn_pt}
use cipster.Conn.Box.Chain.{Chain, head_of, next_of, erase}
use cipster.Conn.Params.{connection_type, is_multicast, transport_class}
use cipster.Conn.Path.{producing_path}
use cipster.Conn.Data.{End, ConnData}
use cipster.Conn.State.{
  Conn, InstanceType, exclusive_owner, input_only, listen_only, non_existent, is_non_existent,
  is_io, may_master, same_type,
}

-- enum IoConnectionEvent.
pub data IoEvent : Type 0 where
  opened timed_out closed : IoEvent

-- NotifyIoConnectionEvent(), ReleaseSocket(), and a datagram on a socket.
pub data Event : Type 0 where
  notified : IoEvent → ℕ → Event
  released : ℕ → Event
  sent : ℕ → Event

pub record World : Type 0 where
  pub conns : ℕ → Conn
  pub active : Chain
  pub sessions : Sessions
  pub events : List Event

abbrev pub emit : Event → World → World
emit e w = record w { events = w.events ++ (e ∷ []) }

abbrev pub put_conn : ℕ → Conn → World → World
put_conn p c w = record w { conns = λ q. if q == p then c else w.conns q }

-- The instance or connection point of a producing path.
abbrev pub input_point : Conn → ℕ
input_point c = get_instance_or_conn_pt (producing_path c.params.conn_path)

unfoldable pub is_multicast_producer : Conn → Bool
unfolding connection_type
is_multicast_producer c = is_multicast (connection_type c.params.producing.ncp)

-- The condition of GetNextNonControlMasterConnection().
abbrev pub may_take_over : ℕ → Conn → Bool
may_take_over point c =
    may_master c.instance_type
    && ((point == input_point c) && (is_multicast_producer c && not (is_some c.producing_socket)))

-- The first connection of the list that meets a test.
unfoldable pub find_conn : (Conn → Bool) → (ℕ → Conn) → Chain → Option ℕ
find_conn test conns [] = none
find_conn test conns (p ∷ l) =
    let rest = find_conn test conns l in if test (conns p) then some p else rest

-- GetNextNonControlMasterConnection().
unfoldable pub next_non_control_master : ℕ → World → Option ℕ
unfolding find_conn
next_non_control_master point w = find_conn (may_take_over point) w.conns w.active

abbrev pub release_if : Option ℕ → World → World
release_if none w = w
release_if (some s) w = emit (released s) w

-- The end of Close(): the sockets, the session and the place on the list.
unfoldable pub release_conn : ℕ → World → World
unfolding erase
release_conn p w =
    let c = w.conns p in
    let w₁ = release_if c.producing_socket (release_if c.consuming_socket w) in
    record (put_conn p
      (record c {
        consuming_socket = none;
        producing_socket = none;
        encap_session = 0;
        state = non_existent;
      })
      w₁) { active = erase p w.active }

-- Close() of a connection that masters no other one.
unfoldable pub close_plain : ℕ → World → World
unfolding release_conn
close_plain p w =
    let c = w.conns p in
    if is_non_existent c.state
    then w
    else release_conn p (if is_io c.instance_type then emit (notified closed p) w else w)

abbrev pub to_close : ℕ → InstanceType → Conn → Bool
to_close point type c = same_type type c.instance_type && (point == input_point c)

-- The loop of CloseAllConnectionsForInputWithSameType(): the iterator moves on before its connection is
-- closed. `close` is Close() for connections of that type.
unfoldable pub close_loop : (ℕ → World → World) → ℕ → ℕ → InstanceType → Option ℕ → World → World
unfolding next_of
close_loop close zero point type it w = w
close_loop close (suc fuel) point type none w = w
close_loop close (suc fuel) point type (some p) w =
    let next = next_of p w.active in
    close_loop close fuel point type next
      (if to_close point type (w.conns p) then close p (emit (notified closed p) w) else w)

-- CloseAllConnectionsForInputWithSameType(). Every round moves the iterator down the list.
unfoldable pub close_same_type : (ℕ → World → World) → ℕ → InstanceType → World → World
unfolding close_loop
close_same_type close point type w =
    close_loop close (length w.active) point type (head_of w.active) w

-- The socket, the address and the counts that the next master takes over.
abbrev pub hand_over : Conn → Conn → Conn
hand_over old heir = record heir {
  producing_socket = old.producing_socket;
  send_address = old.send_address;
  eip_count_producing = old.eip_count_producing;
  count_producing = old.count_producing;
  transmission_timer = old.transmission_timer;
}

abbrev pub give_to : ℕ → (Conn → Conn → Conn) → Option ℕ → (World → World) → World → World
give_to p transfer none otherwise w = otherwise w
give_to p transfer (some q) otherwise w =
    put_conn p (record (w.conns p) { producing_socket = none })
      (put_conn q (transfer (w.conns p) (w.conns q)) w)

abbrev pub masters : Conn → Bool
masters c = may_master c.instance_type && (is_multicast_producer c && is_some c.producing_socket)

-- A master's socket goes to the next one; without one the listen only connections are closed.
unfoldable pub resign : (Conn → Conn → Conn) → ℕ → World → World
unfolding next_non_control_master close_same_type close_plain
resign transfer p w =
    let point = input_point (w.conns p) in
    give_to p transfer (next_non_control_master point w)
      (close_same_type close_plain point listen_only) w

-- Close() up to the release of the sockets.
unfoldable pub resigned : ℕ → World → World
unfolding resign
resigned p w =
    let c = w.conns p in
    let w₁ = if is_io c.instance_type then emit (notified closed p) w else w in
    if masters c then resign hand_over p w₁ else w₁

-- Close().
unfoldable pub close_conn : ℕ → World → World
unfolding resigned release_conn
close_conn p w =
    if is_non_existent (Conn.state (w.conns p)) then w else release_conn p (resigned p w)

-- CheckForTimedOutConnectionsAndCloseTCPConnections().
unfoldable pub close_idle_session : ℕ → World → World
unfolding close_by_handle find_conn
close_idle_session handle w =
    if is_some (find_conn (λ c. Conn.encap_session c == handle) w.conns w.active)
    then w
    else record w { sessions = (close_by_handle handle w.sessions).1 }

-- In timeOut() the next master takes the socket and the timer.
abbrev pub hand_over_late : Conn → Conn → Conn
hand_over_late old heir = record heir {
  producing_socket = old.producing_socket;
  transmission_timer = old.transmission_timer;
}

-- What the end of a multicast producer means for the others.
unfoldable pub abandon : InstanceType → ℕ → World → World
unfolding close_same_type close_conn resign
abandon exclusive_owner p w =
    let point = input_point (w.conns p) in
    close_same_type close_conn point listen_only (close_same_type close_conn point input_only w)
abandon input_only p w =
    if is_some (Conn.producing_socket (w.conns p)) then resign hand_over_late p w else w
abandon _ p w = w

-- timeOut() up to the call of Close().
unfoldable pub abandoned : ℕ → World → World
unfolding abandon
abandoned p w =
    let c = w.conns p in
    let w₁ = if is_io c.instance_type then emit (notified timed_out p) w else w in
    if is_io c.instance_type && is_multicast_producer c then abandon c.instance_type p w₁ else w₁

-- timeOut().
unfoldable pub time_out : ℕ → World → World
unfolding abandoned close_conn close_idle_session
time_out p w =
    let before = abandoned p w in
    let handle = Conn.encap_session (before.conns p) in
    let after = close_conn p before in
    if handle == 0 then after else close_idle_session handle after

-- CloseClass3Connections(): the iterator moves on before its connection is closed.
unfoldable pub class3_loop : ℕ → ℕ → Option ℕ → World → World
unfolding next_of close_conn
class3_loop zero handle it w = w
class3_loop (suc fuel) handle none w = w
class3_loop (suc fuel) handle (some p) w =
    let c = w.conns p in
    let next = next_of p w.active in
    class3_loop fuel handle next (
      if (transport_class c.params.trigger == 3) && (c.encap_session == handle)
      then close_conn p w
      else w)

unfoldable pub close_class3_connections : ℕ → World → World
unfolding class3_loop
close_class3_connections handle w = class3_loop (length w.active) handle (head_of w.active) w
