-- ===== src/Conn/State.antt =====
-- class CipConn of cip/cipconnection.h and cip/cipconnection.cc: the state of a connection, its timers and
-- its configuration. A timer holds the 32 bits of the microsecond clock at which it expires; `now` is
-- CurrentUSecs32(). A socket is an address.
pub mod Timers
use cipster.Base.{
  ℕ, ◌+◌, ◌-◌, ◌*◌, ◌/◌, ◌%◌, ◌^◌, ◌==◌, leb, ltb, Bool, true, false, not, ◌&&◌, ◌||◌, Option, none,
  some, bit_or, if◌then◌else◌,
}
use cipster.Cpf.{is_some}
use cipster.Encap.Session.{SockAddr}
use cipster.Epath.Group.{set_pit_usecs}
use cipster.Conn.Params.{connection_type, is_point_to_point, is_multicast, is_server}
use cipster.Conn.Data.{Triad, End, ConnData, clear_data, timeout_multiplier}

-- enum ConnState.
pub data ConnState : Type 0 where
  non_existent configuring waiting_for_connection_id established timed_out : ConnState
  deferred_delete closing : ConnState

abbrev pub is_established : ConnState → Bool
is_established established = true
is_established _ = false

abbrev pub is_non_existent : ConnState → Bool
is_non_existent non_existent = true
is_non_existent _ = false

-- enum ConnInstanceType.
pub data InstanceType : Type 0 where
  explicit exclusive_owner input_only listen_only : InstanceType

-- IsIOConnection().
abbrev pub is_io : InstanceType → Bool
is_io explicit = false
is_io _ = true

-- An exclusive owner or an input only connection.
abbrev pub may_master : InstanceType → Bool
may_master exclusive_owner = true
may_master input_only = true
may_master _ = false

abbrev pub same_type : InstanceType → InstanceType → Bool
same_type explicit explicit = true
same_type exclusive_owner exclusive_owner = true
same_type input_only input_only = true
same_type listen_only listen_only = true
same_type _ _ = false

-- enum WatchdogTimeoutAction.
pub data WatchdogAction : Type 0 where
  transition_to_timed_out auto_delete auto_reset deferred_deletion : WatchdogAction

pub record Conn : Type 0 where
  pub params : ConnData
  pub state : ConnState
  pub instance_type : InstanceType
  pub watchdog_action : WatchdogAction
  pub eip_count_producing : ℕ
  pub eip_count_consuming : ℕ
  pub first_frame : Bool
  pub count_producing : ℕ
  pub count_consuming : ℕ
  pub consuming_header : ℕ
  pub expected_packet_rate : ℕ
  pub watchdog_timer : ℕ
  pub transmission_timer : ℕ
  pub inhibit_timer : ℕ
  pub consuming_socket : Option ℕ
  pub producing_socket : Option ℕ
  pub encap_session : ℕ
  pub send_address : SockAddr
  pub recv_address : SockAddr
  pub openers_address : SockAddr

-- `timer - CurrentUSecs32()` as an int32_t is at most 0.
abbrev pub remaining : ℕ → ℕ → ℕ
remaining timer now = (timer + (2 ^ 32 - now % 2 ^ 32)) % 2 ^ 32

abbrev pub is_due : ℕ → ℕ → Bool
is_due timer now = (remaining timer now == 0) || leb (2 ^ 31) (remaining timer now)

-- `CurrentUSecs32() + aFuture`.
abbrev pub in_future : ℕ → ℕ → ℕ
in_future now future = (now + future) % 2 ^ 32

unfoldable pub set_watchdog : ℕ → ℕ → Conn → Conn
set_watchdog now future c = record c { watchdog_timer = in_future now future }

unfoldable pub set_transmission_timer : ℕ → ℕ → Conn → Conn
set_transmission_timer now future c = record c { transmission_timer = in_future now future }

-- BumpTransmissionTriggerTimerUSecs().
unfoldable pub bump_transmission_timer : ℕ → Conn → Conn
bump_transmission_timer delta c = record c {
  transmission_timer = (c.transmission_timer + delta) % 2 ^ 32;
}

unfoldable pub set_inhibit_timer : ℕ → ℕ → Conn → Conn
set_inhibit_timer now future c = record c { inhibit_timer = in_future now future }

-- SetExpectedPacketRateUSecs(): up to the next multiple of the timer tick, kept in 32 bits.
unfoldable pub round_up : ℕ → ℕ → ℕ
round_up tick usecs = if usecs % tick == 0 then usecs else (usecs / tick * tick + tick) % 2 ^ 32

unfoldable pub set_packet_rate : ℕ → ℕ → Conn → Conn
unfolding round_up
set_packet_rate tick usecs c = record c { expected_packet_rate = round_up tick usecs }

-- RxTimeoutUSecs(): the product is one of 32 bits.
unfoldable pub rx_timeout : Conn → ℕ
rx_timeout c = c.expected_packet_rate * timeout_multiplier c.params % 2 ^ 32

-- HasInactivityWatchDogTimer().
unfoldable pub has_watchdog : Conn → Bool
has_watchdog c =
    not (c.expected_packet_rate == 0)
    && (is_some c.params.consuming.instance_ref || is_server c.params.trigger)

abbrev no_family : SockAddr → SockAddr
no_family a = record a { family = 0 }

-- Clear(). `own` has the vendor id and the serial number of this device. The list links, which it clears
-- too, are those of the box.
unfoldable pub clear_conn : Triad → ℕ → Bool → Conn → Conn
unfolding set_watchdog set_transmission_timer set_inhibit_timer
clear_conn own now data_too c = record c {
  params = if data_too then clear_data own c.params else c.params;
  state = non_existent;
  instance_type = explicit;
  watchdog_action = transition_to_timed_out;
  eip_count_producing = 0;
  eip_count_consuming = 0;
  first_frame = true;
  count_producing = 0;
  count_consuming = 0;
  expected_packet_rate = 0;
  watchdog_timer = in_future now 0;
  transmission_timer = in_future now 0;
  inhibit_timer = in_future now 0;
  consuming_socket = none;
  producing_socket = none;
  encap_session = 0;
  send_address = no_family c.send_address;
  recv_address = no_family c.recv_address;
  openers_address = no_family c.openers_address;
}

-- NewConnectionId(): the incarnation in the high 16 bits and a counter of 16 bits. The result is the
-- counter and the id.
unfoldable pub new_connection_id : ℕ → ℕ → ℕ × ℕ
new_connection_id incarnation counter =
    let next = (counter + 1) % 2 ^ 16 in (next, bit_or incarnation next)

-- The id of the consuming end, if the target chooses it.
unfoldable pub choose_consuming_id : ℕ → ℕ → ConnData → ℕ × ConnData
unfolding new_connection_id connection_type
choose_consuming_id incarnation counter d =
    let (next, id) = new_connection_id incarnation counter in
    if is_point_to_point (connection_type d.consuming.ncp)
    then (next, record d { consuming = record d.consuming { connection_id = id } })
    else (counter, d)

unfoldable pub choose_producing_id : ℕ → ℕ → ConnData → ℕ × ConnData
unfolding new_connection_id connection_type
choose_producing_id incarnation counter d =
    let (next, id) = new_connection_id incarnation counter in
    if is_multicast (connection_type d.producing.ncp)
    then (next, record d { producing = record d.producing { connection_id = id } })
    else (counter, d)

abbrev max : ℕ → ℕ → ℕ
max a b = if ltb a b then b else a

-- The inactivity timer before the first packet: ten seconds at least, if there is a timeout.
unfoldable pub start_watchdog : ℕ → Conn → Conn
unfolding rx_timeout set_watchdog
start_watchdog now c =
    if rx_timeout c == 0 then c else set_watchdog now (max (rx_timeout c) 10000000) c

-- What GeneralConfiguration() sets beside the ids.
unfoldable pub configured : ℕ → ℕ → InstanceType → ConnData → Conn → Conn
unfolding set_transmission_timer set_packet_rate set_inhibit_timer
configured tick now type d c =
    let c₁ = record c {
      params = d;
      eip_count_producing = 0;
      count_producing = 0;
      eip_count_consuming = 0;
      first_frame = true;
      count_consuming = 0;
      watchdog_action = auto_delete;
    } in
    let c₂ = if is_server d.trigger then c₁ else set_transmission_timer now 0 c₁ in
    let c₃ = set_inhibit_timer now 0 (set_packet_rate tick d.consuming.rpi_usecs c₂) in
    record c₃ {
      params = record d {
        conn_path = record d.conn_path { port_segs = set_pit_usecs 0 d.conn_path.port_segs };
      };
      instance_type = type;
    }

-- GeneralConfiguration(): the counter of the ids, the request with the ids that were chosen, and the
-- connection.
unfoldable pub general_configuration :
    ℕ → ℕ → ℕ → ℕ → ConnData → InstanceType → Conn → ℕ × ConnData × Conn
unfolding choose_consuming_id choose_producing_id configured start_watchdog
general_configuration tick now incarnation counter request type c =
    let (n₁, d₁) = choose_consuming_id incarnation counter request in
    let (n₂, d₂) = choose_producing_id incarnation n₁ d₁ in
    (n₂, d₂, start_watchdog now (configured tick now type d₂ c))
