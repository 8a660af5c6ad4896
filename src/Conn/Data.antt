-- ===== src/Conn/Data.antt =====
-- class ConnectionData of cip/cipconnection.h and cip/cipconnection.cc: what a forward open request
-- says, and the requests on the wire. An object is a pair of its class id and its own id, which the
-- registry holds at most once.
pub mod RoundTrip
use cipster.Base.{
  ℕ, zero, suc, ◌+◌, ◌-◌, ◌*◌, ◌/◌, ◌%◌, ◌^◌, ◌==◌, leb, Bool, true, false, ◌&&◌, Option, none,
  some, if◌then◌else◌, Result, ok, ◌>>=◌,
}
use cipster.Bytes.Writer.{Writer, written, advance, put8, put16, put32, fill}
use cipster.Bytes.Reader.{Reader, get8, get16, get32}
use cipster.Bytes.Reader
use cipster.Epath.Flags.{omits_path, is_forward_open, is_forward_close}
use cipster.Router.Request.Serialize.{resume}
use cipster.Conn.Params.{
  Ncp, Trigger, clear_ncp, ncp_from, ncp_count, serialize_ncp, serialize_trigger,
}
use cipster.Conn.Path.{ConnPath, clear_path, serialize_path}

-- enum ConnMgrStatus of cip/ciperror.h.
pub data ConnStatus : Type 0 where
  success connection_in_use transport_trigger_not_supported ownership_conflict : ConnStatus
  connection_not_found invalid_network_parameter invalid_connection_size : ConnStatus
  rpi_not_supported rpi_values_not_acceptable no_more_connections : ConnStatus
  vendor_or_product_error device_type_error revision_mismatch : ConnStatus
  non_listen_only_not_opened out_of_connections pit_greater_than_rpi : ConnStatus
  invalid_o_t_type invalid_t_o_type invalid_o_t_size invalid_t_o_size : ConnStatus
  invalid_config_path invalid_consuming_path invalid_producing_path : ConnStatus
  inconsistent_path_combo null_forward_open timeout_multiplier_not_acceptable : ConnStatus
  parameter_error invalid_segment_type forward_close_path_mismatch : ConnStatus

abbrev pub status_code : ConnStatus → ℕ
status_code success = 0
status_code connection_in_use = 0x0100
status_code transport_trigger_not_supported = 0x0103
status_code ownership_conflict = 0x0106
status_code connection_not_found = 0x0107
status_code invalid_network_parameter = 0x0108
status_code invalid_connection_size = 0x0109
status_code rpi_not_supported = 0x0111
status_code rpi_values_not_acceptable = 0x0112
status_code no_more_connections = 0x0113
status_code vendor_or_product_error = 0x0114
status_code device_type_error = 0x0115
status_code revision_mismatch = 0x0116
status_code non_listen_only_not_opened = 0x0119
status_code out_of_connections = 0x011a
status_code pit_greater_than_rpi = 0x011b
status_code invalid_o_t_type = 0x0123
status_code invalid_t_o_type = 0x0124
status_code invalid_o_t_size = 0x0127
status_code invalid_t_o_size = 0x0128
status_code invalid_config_path = 0x0129
status_code invalid_consuming_path = 0x012a
status_code invalid_producing_path = 0x012b
status_code inconsistent_path_combo = 0x012f
status_code null_forward_open = 0x0132
status_code timeout_multiplier_not_acceptable = 0x0133
status_code parameter_error = 0x0205
status_code invalid_segment_type = 0x0315
status_code forward_close_path_mismatch = 0x0316

-- A CipInstance*.
pub record InstanceRef : Type 0 where
  pub class_id : ℕ
  pub object_id : ℕ

-- enum IOConnRealTimeFmt.
pub data RealTimeFmt : Type 0 where
  modeless zero_length_data heartbeat header_32_bit safety : RealTimeFmt

abbrev pub is_header_32_bit : RealTimeFmt → Bool
is_header_32_bit header_32_bit = true
is_header_32_bit _ = false

-- The connection triad.
pub record Triad : Type 0 where
  pub serial_number : ℕ
  pub vendor_id : ℕ
  pub originator_serial : ℕ

-- One end of a connection: the members with the prefix consuming_ or producing_.
pub record End : Type 0 where
  pub rpi_usecs : ℕ
  pub ncp : Ncp
  pub connection_id : ℕ
  pub corrected_size : ℕ
  pub instance_ref : Option InstanceRef
  pub fmt : RealTimeFmt

pub record ConnData : Type 0 where
  pub triad : Triad
  pub trigger : Trigger
  pub priority_timetick : ℕ
  pub timeout_ticks : ℕ
  pub multiplier_value : ℕ
  pub remaining_path_size : ℕ
  pub consuming : End
  pub producing : End
  pub conn_path : ConnPath
  pub config_instance : Option InstanceRef
  pub mgmnt_class : ℕ

abbrev pub clear_end : End → End
clear_end e = record e {
  rpi_usecs = 0;
  ncp = clear_ncp;
  connection_id = 0;
  corrected_size = 0;
  instance_ref = none;
}

-- Clear(). `own` has the vendor id of this device and serial_number_.
abbrev pub clear_data : Triad → ConnData → ConnData
clear_data own d = record {
  triad = record own { serial_number = 0 };
  trigger = 0;
  priority_timetick = 0;
  timeout_ticks = 0;
  multiplier_value = 0;
  remaining_path_size = 0;
  consuming = clear_end d.consuming;
  producing = clear_end d.producing;
  conn_path = clear_path d.conn_path;
  config_instance = none;
  mgmnt_class = 0;
}

-- TriadEquals().
unfoldable pub triad_equals : Triad → Triad → Bool
triad_equals a b =
    (a.serial_number == b.serial_number)
    && ((a.vendor_id == b.vendor_id) && (a.originator_serial == b.originator_serial))

-- OriginatorEquals().
unfoldable pub originator_equals : Triad → Triad → Bool
originator_equals a b = (a.vendor_id == b.vendor_id) && (a.originator_serial == b.originator_serial)

-- RequestMSecs(), TickTime() and SetTickTime(), in 32 bits.
abbrev pub request_msecs : ℕ → ℕ → ℕ
request_msecs tick_time count = 2 ^ tick_time * count % 2 ^ 32

abbrev pub tick_time : ConnData → ℕ
tick_time d = d.priority_timetick % 16

-- OriginatorTimeoutMSecs().
abbrev pub originator_timeout_msecs : ConnData → ℕ
originator_timeout_msecs d = request_msecs (tick_time d) d.timeout_ticks

-- The loop of SetOriginatorTimeoutMSecs(), with the rounds that are left.
unfoldable pub find_tick_time : ℕ → ℕ → ℕ → ℕ
find_tick_time zero t msecs = t
find_tick_time (suc rounds) t msecs =
    let rest = find_tick_time rounds (t + 1) msecs in
    if leb msecs (request_msecs t 255) then t else rest

-- SetOriginatorTimeoutMSecs(), for a timeout that a tick time of at most 15 covers: a greater one
-- fails an assertion.
unfoldable pub set_originator_timeout_msecs : ℕ → ConnData → ConnData
unfolding find_tick_time
set_originator_timeout_msecs msecs d =
    let t = find_tick_time 16 0 msecs in
    record d {
      priority_timetick = d.priority_timetick - d.priority_timetick % 16 + t;
      timeout_ticks = (msecs + 2 ^ t - 1) / 2 ^ t % 256;
    }

-- The loop of SetTimeoutMultiplier(): the bits of `m`, of which a multiplier has seven at most.
unfoldable pub count_bits : ℕ → ℕ → ℕ
count_bits zero m = 0
count_bits (suc rounds) m = let rest = count_bits rounds (m / 2) in if m == 0 then 0 else suc rest

unfoldable pub set_timeout_multiplier : ℕ → ConnData → ConnData
unfolding count_bits
set_timeout_multiplier multiplier d = record d { multiplier_value = count_bits 16 (multiplier / 8) }

-- TimeoutMultiplier().
abbrev pub timeout_multiplier : ConnData → ℕ
timeout_multiplier d = 2 ^ (2 + d.multiplier_value)

unfoldable pub get_triad : Reader → Result (Triad × Reader)
unfolding get16 get32
get_triad r = do
  (serial, r₁) ← get16 r
  (vendor, r₂) ← get16 r₁
  (originator, r₃) ← get32 r₂
  ok (record { serial_number = serial; vendor_id = vendor; originator_serial = originator }, r₃)

unfoldable pub get_ncp : Bool → Reader → Result (Ncp × Reader)
unfolding get16 get32
get_ncp is_large r = do
  (bits, rest) ← if is_large then get32 r else get16 r
  ok (ncp_from bits is_large, rest)

-- The interval and the connection parameters of one end.
unfoldable pub get_end : Bool → End → Reader → Result (End × Reader)
unfolding get32 get_ncp
get_end is_large e r = do
  (rpi, r₁) ← get32 r
  (n, r₂) ← get_ncp is_large r₁
  ok (record e { rpi_usecs = rpi; ncp = n }, r₂)

unfoldable pub get_ticks : ConnData → Reader → Result (ConnData × Reader)
unfolding get8
get_ticks d r = do
  (tick, r₁) ← get8 r
  (ticks, r₂) ← get8 r₁
  ok (record d { priority_timetick = tick; timeout_ticks = ticks }, r₂)

unfoldable pub get_ids : ConnData → Reader → Result (ConnData × Reader)
unfolding get32
get_ids d r = do
  (o_t, r₁) ← get32 r
  (t_o, r₂) ← get32 r₁
  ok (
    record d {
      consuming = record d.consuming { connection_id = o_t };
      producing = record d.producing { connection_id = t_o };
    },
    r₂,
  )

-- DeserializeForwardOpenRequest().
unfoldable pub deserialize_forward_open : Bool → ConnData → Reader → Result (ConnData × Reader)
unfolding get_ticks get_ids get_triad get8 get_end
deserialize_forward_open is_large self r = do
  (d₁, r₁) ← get_ticks self r
  (d₂, r₂) ← get_ids d₁ r₁
  (t, r₃) ← get_triad r₂
  (m, r₄) ← get8 r₃
  r₅ ← Reader.advance 3 r₄
  (c, r₆) ← get_end is_large d₂.consuming r₅
  (p, r₇) ← get_end is_large d₂.producing r₆
  (bits, r₈) ← get8 r₇
  ok (
    record d₂ { triad = t; multiplier_value = m; consuming = c; producing = p; trigger = bits },
    r₈,
  )

-- DeserializeForwardCloseRequest().
unfoldable pub deserialize_forward_close : ConnData → Reader → Result (ConnData × Reader)
unfolding get_ticks get_triad
deserialize_forward_close self r = do
  (d, r₁) ← get_ticks self r
  (t, r₂) ← get_triad r₁
  ok (record d { triad = t }, r₂)

unfoldable pub put_triad : Triad → Writer → Result Writer
unfolding put16 put32
put_triad t w = do
  w₁ ← put16 t.serial_number w
  w₂ ← put16 t.vendor_id w₁
  put32 t.originator_serial w₂

unfoldable pub put_end : End → Writer → Result Writer
unfolding put32 serialize_ncp
put_end e w = do w₁ ← put32 e.rpi_usecs w; serialize_ncp e.ncp w₁

unfoldable pub put_ticks : ConnData → Writer → Result Writer
unfolding put8
put_ticks d w = do w₁ ← put8 d.priority_timetick w; put8 d.timeout_ticks w₁

unfoldable pub put_ids : ConnData → Writer → Result Writer
unfolding put32
put_ids d w = do w₁ ← put32 d.producing.connection_id w; put32 d.consuming.connection_id w₁

-- The path behind the byte of its word count, which is set afterwards, and a reserved byte if there
-- is one.
unfoldable pub put_conn_path : Bool → ConnPath → ℕ → Writer → Result Writer
unfolding put8 advance serialize_path
put_conn_path reserved p ctl out = do
  skipped ← advance 1 out
  start ← if reserved then put8 0 skipped else ok skipped
  filled ← serialize_path p ctl start
  counted ← put8 (written start filled / 2) (resume out filled)
  advance (written skipped filled) counted

-- The fixed part of a forward open request: an originator's producing end is O->T.
unfoldable pub put_open : ConnData → Writer → Result Writer
unfolding put8 put_ticks put_ids put_triad put_end fill serialize_trigger
put_open d w = do
  w₁ ← put_ticks d w
  w₂ ← put_ids d w₁
  w₃ ← put_triad d.triad w₂
  w₄ ← put8 d.multiplier_value w₃
  w₅ ← fill 3 0 w₄
  w₆ ← put_end d.producing w₅
  w₇ ← put_end d.consuming w₆
  serialize_trigger d.trigger w₇

unfoldable pub put_close : ConnData → Writer → Result Writer
unfolding put_ticks put_triad
put_close d w = do w₁ ← put_ticks d w; put_triad d.triad w₁

-- Serialize().
unfoldable pub serialize_conn_data : ConnData → ℕ → Writer → Result Writer
unfolding put_open put_close put_conn_path
serialize_conn_data d ctl w =
    let open_request = (do
      w₁ ← put_open d w
      if omits_path ctl then ok w₁ else put_conn_path false d.conn_path ctl w₁) in
    let close_request = (do
      w₁ ← put_close d w
      if omits_path ctl then ok w₁ else put_conn_path true d.conn_path ctl w₁) in
    if is_forward_open ctl
    then open_request
    else if is_forward_close ctl
    then close_request
    else ok w
