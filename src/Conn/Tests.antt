-- ===== src/Conn/Tests.antt =====
-- A request for the assemblies 1 and 2, and two connections of it.
use cipster.Base.{
  ℕ, ◌+◌, ◌≡◌, refl, arith, List, [], ◌∷◌, ◌++◌, ◌==◌, if◌then◌else◌, leb, true, false, none, some,
  ok, replicate,
}
use mathlib.Core.Logic.{◌↔◌}
use cipster.Encap.Session.{SockAddr, no_sessions}
use cipster.Epath.AppPath.{AppPath, blank, set_stuff, class_id, instance_id}
use cipster.Epath.Port.{no_port}
use cipster.Epath.DataSegment.{no_data}
use cipster.Cip.Class.{CipClass}
use cipster.Cpf.{Cpf, address_of, empty, no_saii}
use cipster.Cpf.Reading.{deserialize_cpf, read_items, read_item, read_address, read_data}
use cipster.Conn.Params.{connection_size}
use cipster.Conn.Path.{ConnPath, first, second}
use cipster.Conn.Data.{
  InstanceRef, modeless, End, ConnData, serialize_conn_data, deserialize_forward_open,
}
use cipster.Conn.Data.RoundTrip.{opened_by, open_bytes, deserialize_forward_open-serialize}
use cipster.Conn.Resolve.{resolve_instances}
use cipster.Conn.Resolve.Roles.{IsResolved, resolve_instances-IsResolved}
use cipster.Conn.Sizes.{correct_sizes, corrected}
use cipster.Conn.Sizes.Laws.{SizesFit, correct_sizes-SizesFit, corrected_size_accepted}
use cipster.Conn.Box.{empty_box}
use cipster.Conn.Box.Chain.{member}
use cipster.Conn.Box.Laws.{
  BoxCall, inserting, removing, run_box, run_chain, Represents, empty_box-Represents,
  run_box-Represents,
}
use cipster.Conn.State.{Conn, established, exclusive_owner, auto_delete, set_watchdog, is_due}
use cipster.Conn.State.Timers.{set_watchdog-due}
use cipster.Conn.Close.{World, time_out}
use cipster.Conn.Close.Laws.{IsSound}
use cipster.Conn.Close.Shrinks.{Shrinks}
use cipster.Conn.Close.Gone.{time_out-IsSound}
use cipster.Conn.Manage.{is_expired, manage_connections, visit}
use cipster.Conn.Manage.Overdue.{run_passes, late_is_closed, manage_connections_stops}
use cipster.Conn.Receive.{Plant, plant_of, recv_connected_data}
use cipster.Conn.Receive.Twice.{recv_connected_data-recv_connected_data}
use cipster.Conn.Close.{put_conn, is_multicast_producer}
use cipster.Conn.Find.{close_all_connections}
use cipster.Conn.Find.Laws.{close_all_connections_empties}
use cipster.Conn.State.{configuring, non_existent, listen_only}
use cipster.Conn.Pool.{Pools, points_of, get_io_connection}
use cipster.Conn.Pool.Laws.{Admitted}
use cipster.Conn.Pool.Granted.{get_io_connection-Admitted}

abbrev assembly_path : ℕ → AppPath
assembly_path i = set_stuff instance_id i (set_stuff class_id 4 blank)

abbrev paths : ConnPath
paths = record {
  port_segs = record {
    has_key = false;
    has_pit_usecs = false;
    has_pit_msecs = false;
    has_port = false;
    key = record {
      vendor_id = 0;
      device_type = 0;
      product_code = 0;
      major_revision = 0;
      minor_revision = 0;
    };
    port = no_port;
    pit_usecs = 0;
  };
  app_path1 = assembly_path 1;
  app_path2 = assembly_path 2;
  app_path3 = blank;
  data_seg = no_data;
  config_index = none;
  consuming_index = none;
  producing_index = none;
}

-- Point to point, of a fixed size of ten bytes.
abbrev ten_bytes : End
ten_bytes = record {
  rpi_usecs = 1000;
  ncp = record { not_large = true; bits = 0x400a };
  connection_id = 7;
  corrected_size = 0;
  instance_ref = none;
  fmt = modeless;
}

abbrev request : ConnData
request = record {
  triad = record { serial_number = 1; vendor_id = 2; originator_serial = 3 };
  trigger = 0x81;
  priority_timetick = 5;
  timeout_ticks = 6;
  multiplier_value = 1;
  remaining_path_size = 0;
  consuming = ten_bytes;
  producing = ten_bytes;
  conn_path = paths;
  config_instance = none;
  mgmnt_class = 0;
}

abbrev assembly : ℕ → InstanceRef
assembly i = record { class_id = 4; object_id = i }

abbrev resolved : ConnData
resolved = record request {
  trigger = 1;
  conn_path = record paths { consuming_index = some first; producing_index = some second };
  consuming = record ten_bytes { instance_ref = some (assembly 1) };
  producing = record ten_bytes { instance_ref = some (assembly 2) };
  mgmnt_class = 4;
}

abbrev registry : List (CipClass ℕ ℕ)
registry =
    record {
      class_id = 4;
      class_content = 0;
      instances =
          record { instance_id = 1; owned = true; content = 0 }
          ∷ record { instance_id = 2; owned = true; content = 0 }
          ∷ [];
      instance_services = [];
      class_services = [];
    }
    ∷ []

resolve_instances-IsResolved_example : IsResolved registry resolved
unfolding resolve_instances
resolve_instances-IsResolved_example = resolve_instances-IsResolved registry request refl

deserialize_forward_open-serialize_example :
    deserialize_forward_open false resolved (open_bytes request ++ 9 ∷ [])
    ≡ ok (opened_by request resolved, 9 ∷ [])
deserialize_forward_open-serialize_example =
    deserialize_forward_open-serialize false request resolved 192 (9 ∷ []) (replicate 35 0)
      (record { before = open_bytes request; after = [] }) refl refl
      (record {
        tick_fits = omega arith;
        ticks_fit = omega arith;
        multiplier_fits = omega arith;
        trigger_fits = omega arith;
        triad_fits = record {
          serial_fits = omega arith;
          vendor_fits = omega arith;
          originator_fits = omega arith;
        };
        consuming_fits = record {
          rpi_fits = omega arith;
          id_fits = omega arith;
          ncp_form = refl;
          ncp_fits = omega arith;
        };
        producing_fits = record {
          rpi_fits = omega arith;
          id_fits = omega arith;
          ncp_form = refl;
          ncp_fits = omega arith;
        };
      })
      (unfold serialize_conn_data in refl)

-- Assemblies of four and eight bytes.
abbrev bytes_of : InstanceRef → ℕ
bytes_of i = i.object_id + 7

correct_sizes-SizesFit_example :
    ((correct_sizes bytes_of resolved).1 ≡ none) ↔ SizesFit bytes_of resolved
correct_sizes-SizesFit_example = correct_sizes-SizesFit bytes_of resolved

corrected_size_accepted_example :
    corrected 1 9 (record ten_bytes { ncp = record { not_large = true; bits = 0x400b } }) ≡ none
unfolding connection_size
corrected_size_accepted_example =
    corrected_size_accepted 1 9 ten_bytes
      (record ten_bytes { ncp = record { not_large = true; bits = 0x400b } }) 11 (omega arith)
      (unfold corrected in refl) refl refl

abbrev calls : List BoxCall
calls = inserting 1 ∷ inserting 2 ∷ inserting 1 ∷ removing 1 ∷ removing 3 ∷ []

run_box-Represents_example : Represents (run_box calls empty_box) (run_chain calls [])
run_box-Represents_example = run_box-Represents calls empty_box [] empty_box-Represents

abbrev peer : SockAddr
peer = record { family = 2; port = 0x08ae; addr = 0x0a000001 }

-- Established, with an inactivity timer for time 0.
abbrev lively : Conn
lively = record {
  params = resolved;
  state = established;
  instance_type = exclusive_owner;
  watchdog_action = auto_delete;
  eip_count_producing = 0;
  eip_count_consuming = 0;
  first_frame = true;
  count_producing = 0;
  count_consuming = 0;
  consuming_header = 0;
  expected_packet_rate = 1000;
  watchdog_timer = 0;
  transmission_timer = 0;
  inhibit_timer = 0;
  consuming_socket = some 8;
  producing_socket = some 9;
  encap_session = 0;
  send_address = peer;
  recv_address = peer;
  openers_address = peer;
}

abbrev two_alive : World
two_alive = record {
  conns = λ p. lively;
  active = 1 ∷ 2 ∷ [];
  sessions = no_sessions 2;
  events = [];
}

two_alive-IsSound : IsSound two_alive
unfolding member
two_alive-IsSound = record { distinct = (refl, (refl, tt)); alive = λ p e. refl }

set_watchdog-due_example :
    is_due (Conn.watchdog_timer (set_watchdog 4294967000 1000 lively)) 800 ≡ leb 1000 1096
set_watchdog-due_example = set_watchdog-due 4294967000 1000 1096 lively (omega arith) (omega arith)

time_out-IsSound_example :
    IsSound (time_out 1 two_alive)
    × Shrinks two_alive.active (time_out 1 two_alive).active
    × (member 1 (time_out 1 two_alive).active ≡ false)
time_out-IsSound_example = time_out-IsSound 1 two_alive two_alive-IsSound

late_is_closed_example : member 2 (run_passes (λ t q. true) (5 ∷ 6 ∷ []) two_alive).active ≡ false
late_is_closed_example =
    late_is_closed (λ t q. true) 2 (5 ∷ 6 ∷ []) two_alive two_alive-IsSound (omega arith)
      (unfold is_expired in refl, (unfold is_expired in refl, tt))

manage_connections_stops_example :
    manage_connections 5 (λ q. true) two_alive ≡ visit 5 (λ q. true) 1 two_alive
manage_connections_stops_example =
    manage_connections_stops 5 (λ q. true) 1 (2 ∷ []) two_alive two_alive-IsSound refl
      (unfold is_expired in refl)

abbrev plant : Plant
plant = record { world = two_alive; assemblies = λ i. replicate 8 0; run_idle = 0; notices = [] }

abbrev fresh_packet : Cpf
fresh_packet = record {
  address_item = address_of empty 0 0;
  data_item = record { type_id = empty; data_size = 0; bytes = [] };
  rx = no_saii;
  tx = no_saii;
  payload = none;
  session_handle = 0;
  tcp_peer = peer;
}

-- A sequenced address item for the connection 7 with the number 1, and ten bytes.
abbrev frame : List ℕ
frame =
    2
    ∷ 0
    ∷ 2
    ∷ 0x80
    ∷ 8
    ∷ 0
    ∷ 7
    ∷ 0
    ∷ 0
    ∷ 0
    ∷ 1
    ∷ 0
    ∷ 0
    ∷ 0
    ∷ 0xb1
    ∷ 0
    ∷ 10
    ∷ 0
    ∷ 1
    ∷ 0
    ∷ replicate 8 3

recv_connected_data-recv_connected_data_example :
    plant_of (
      recv_connected_data
        (λ f. true)
        20
        peer
        fresh_packet
        frame
        (plant_of (recv_connected_data (λ f. true) 10 peer fresh_packet frame plant)))
    ≡ plant_of (recv_connected_data (λ f. true) 10 peer fresh_packet frame plant)
unfolding deserialize_cpf read_items read_item read_address read_data
recv_connected_data-recv_connected_data_example =
    recv_connected_data-recv_connected_data (λ f. true) 10 20 peer fresh_packet frame plant
      (omega arith)

close_all_connections_empties_example : (close_all_connections two_alive).active ≡ []
close_all_connections_empties_example = close_all_connections_empties two_alive two_alive-IsSound

-- The request for a multicast, a producer of it on the list, and a free connection 7 for listening.
abbrev multi : ConnData
multi = record resolved {
  producing = record ten_bytes { ncp = record { not_large = true; bits = 0x200a } };
}

abbrev listened : World
listened = record two_alive {
  conns = λ p.
      if p == 7 then record lively { state = non_existent } else record lively { params = multi };
}

abbrev pools : Pools
pools = record {
  owners = [];
  input_sets = [];
  listen_sets = record { points = points_of multi; connections = 1 ∷ 7 ∷ [] } ∷ [];
}

get_io_connection-Admitted_example : Admitted pools multi listened 7 listen_only
unfolding get_io_connection is_multicast_producer
get_io_connection-Admitted_example =
    get_io_connection-Admitted pools multi listened {p = 7}
      {v = put_conn 7 (record lively { state = configuring; instance_type = listen_only })
        (put_conn 7 (record lively { state = configuring }) listened)}
      refl
