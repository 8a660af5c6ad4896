-- ===== src/Conn/Receive.antt =====
-- CipConnMgrClass::RecvConnectedData() of cip/cipconnectionmanager.cc with the sequence macros of
-- cipconnectionmanager.h, CipConn::HandleReceivedIoConnectionData() of cip/cipconnection.cc and
-- AssemblyInstance::RecvData() of cip/cipassembly.cc. What the application says to new data is a parameter.
pub mod Laws
pub mod Twice
use cipster.Base.{
  ℕ, ◌+◌, ◌-◌, ◌*◌, ◌%◌, ◌^◌, ◌==◌, ltb, leb, List, [], ◌∷◌, ◌++◌, Bool, true, false, not, ◌&&◌,
  ◌||◌, Option, none, some, if◌then◌else◌, length, drop, Result, ok, throws, Error,
}
use cipster.Bytes.Reader.{Reader, get16, get32}
use cipster.Encap.Session.{SockAddr}
use cipster.Cpf.{Cpf, CpfId, connected_address, sequenced_address, connected_data_item}
use cipster.Cpf.Reading.{Offset, consumed_bytes, problem_at, deserialize_cpf}
use cipster.Router.Notify.{EipStatus, status_ok, status_error}
use cipster.Conn.Params.{is_fixed, transport_class}
use cipster.Conn.Data.{InstanceRef, End, ConnData, is_header_32_bit}
use cipster.Conn.State.{Conn, is_established, rx_timeout, set_watchdog}
use cipster.Conn.Close.{World, put_conn, find_conn}

-- SEQ_LEQ16 and SEQ_GT32: the difference as a signed number.
abbrev pub seq_leq16 : ℕ → ℕ → Bool
seq_leq16 a b = let d = (a + (2 ^ 16 - b % 2 ^ 16)) % 2 ^ 16 in (d == 0) || leb (2 ^ 15) d

abbrev pub seq_gt32 : ℕ → ℕ → Bool
seq_gt32 a b = let d = (a + (2 ^ 32 - b % 2 ^ 32)) % 2 ^ 32 in not (d == 0) && ltb d (2 ^ 31)

-- RunIdleChanged(), and AfterAssemblyDataReceived() with the run mode.
pub data Notice : Type 0 where
  run_idle_changed : ℕ → Notice
  data_received : InstanceRef → Bool → ℕ → Notice

-- The connections, the buffers of the assemblies, and g_run_idle_state.
pub record Plant : Type 0 where
  pub world : World
  pub assemblies : InstanceRef → List ℕ
  pub run_idle : ℕ
  pub notices : List Notice

abbrev pub notice : Notice → Plant → Plant
notice n f = record f { notices = f.notices ++ (n ∷ []) }

abbrev pub same_ref : InstanceRef → InstanceRef → Bool
same_ref a b = (a.class_id == b.class_id) && (a.object_id == b.object_id)

-- Mode(): the header's lowest bit is the run mode.
abbrev pub is_running : Conn → Bool
is_running c = c.consuming_header % 2 == 1

-- A status, what was thrown, or a null pointer that is followed.
pub data Ending : Type 0 where
  returns : EipStatus → Ending
  raises : Error → Ending
  null_dereference : Ending

-- The changes before the end stay.
abbrev pub Outcome : Type 0
Outcome = Ending × Plant

abbrev pub plant_of : Outcome → Plant
plant_of x = x.1

-- The run/idle header.
unfoldable pub note_run_idle : ℕ → ℕ → Plant → Plant
note_run_idle p v f =
    let c = f.world.conns p in
    let kept = record f {
      world = put_conn p (record c { consuming_header = v }) f.world;
      run_idle = v;
    } in
    if f.run_idle == v then kept else notice (run_idle_changed v) kept

-- The tracking count of the first frame is put right behind the leader.
unfoldable pub track : ℕ → Conn → Conn
track sequence c =
    if c.first_frame
    then record c { eip_count_consuming = (sequence + (2 ^ 32 - 1)) % 2 ^ 32; first_frame = false }
    else c

-- The inactivity timer starts again.
unfoldable pub newer : ℕ → ℕ → Conn → Conn
unfolding set_watchdog rx_timeout
newer now sequence c = record (set_watchdog now (rx_timeout c) c) { eip_count_consuming = sequence }

abbrev pub with_conn : ℕ → Conn → Plant → Plant
with_conn p c f = record f { world = put_conn p c f.world }

-- GetConnectionByConsumingId().
abbrev pub consumes : ℕ → Conn → Bool
consumes id c = is_established c.state && (c.params.consuming.connection_id == id)

unfoldable pub connection_by_consuming_id : ℕ → World → Option ℕ
unfolding find_conn
connection_by_consuming_id id w = find_conn (consumes id) w.conns w.active

abbrev pub is_connected_address : CpfId → Bool
is_connected_address connected_address = true
is_connected_address sequenced_address = true
is_connected_address _ = false

abbrev pub is_connected_data : CpfId → Bool
is_connected_data connected_data_item = true
is_connected_data _ = false

module _ (likes : Plant → Bool) where
  -- RecvData(): a fixed size is exact, a variable one at most that of the assembly.
  unfoldable pub recv_data : Conn → InstanceRef → Reader → Plant → Outcome
  unfolding is_fixed
  recv_data c i r f =
      let n = length (f.assemblies i) in
      let written = notice (data_received i (is_running c) (length r)) (record f {
        assemblies =
            λ j. if same_ref j i then r ++ drop (length r) (f.assemblies i) else f.assemblies j;
      }) in
      if (is_fixed c.params.consuming.ncp && not (n == length r))
        || (not (is_fixed c.params.consuming.ncp) && ltb n (length r))
      then (returns status_error, f)
      else (returns (if likes written then status_ok else status_error), written)

  -- The consuming assembly, which the source follows without a test.
  abbrev pub recv_by : Conn → Option InstanceRef → Reader → Plant → Outcome
  recv_by c none r f = (null_dereference, f)
  recv_by c (some i) r f = recv_data c i r f

  abbrev pub behind_header : ℕ → Result (ℕ × Reader) → Plant → Outcome
  behind_header p (throws e) f = (raises e, f)
  behind_header p (ok (v, r)) f =
      let g = note_run_idle p v f in
      let c = g.world.conns p in recv_by c c.params.consuming.instance_ref r g

  -- What follows the sequence count; without bytes it is a heartbeat.
  unfoldable pub handle_payload : ℕ → Reader → Plant → Outcome
  unfolding get32 note_run_idle recv_data
  handle_payload p [] f = (returns status_ok, f)
  handle_payload p (b ∷ r) f =
      let c = f.world.conns p in
      if is_header_32_bit c.params.consuming.fmt
      then behind_header p (get32 (b ∷ r)) f
      else recv_by c c.params.consuming.instance_ref (b ∷ r) f

  abbrev pub behind_count : ℕ → Result (ℕ × Reader) → Plant → Outcome
  behind_count p (throws e) f = (raises e, f)
  behind_count p (ok (sequence, r)) f =
      let c = f.world.conns p in
      if seq_leq16 sequence c.count_consuming
      then (returns status_ok, f)
      else handle_payload p r
          (record f { world = put_conn p (record c { count_consuming = sequence }) f.world })

  -- HandleReceivedIoConnectionData().
  unfoldable pub handle_received : ℕ → Reader → Plant → Outcome
  unfolding get16 handle_payload
  handle_received p r f =
      if transport_class (ConnData.trigger (Conn.params (f.world.conns p))) == 1
      then behind_count p (get16 r) f
      else handle_payload p r f

  -- The connection as tracked takes a frame if its sequence number is greater.
  unfoldable pub admit : ℕ → ℕ → Reader → ℕ → Conn → Plant → Outcome
  unfolding handle_received newer
  admit now sequence bytes p c f =
      if seq_gt32 sequence c.eip_count_consuming
      then handle_received p bytes (with_conn p (newer now sequence c) f)
      else (returns status_ok, with_conn p c f)

  -- A frame for a connection.
  unfoldable pub take_frame : ℕ → ℕ → Reader → ℕ → Plant → Outcome
  unfolding track admit
  take_frame now sequence bytes p f =
      admit now sequence bytes p (track sequence (f.world.conns p)) f

  -- Only the address of the sender is looked at, not its port.
  abbrev pub from_peer : ℕ → SockAddr → ℕ → Reader → Option ℕ → Plant → Outcome
  from_peer now sender sequence bytes none f = (returns status_error, f)
  from_peer now sender sequence bytes (some p) f =
      let taken = take_frame now sequence bytes p f in
      if sender.addr == SockAddr.addr (Conn.recv_address (f.world.conns p))
      then taken
      else (returns status_error, f)

  unfoldable pub recv_packet : ℕ → SockAddr → Cpf → Plant → Outcome
  unfolding take_frame connection_by_consuming_id
  recv_packet now sender c f =
      if is_connected_address c.address_item.type_id && is_connected_data c.data_item.type_id
      then from_peer now sender c.address_item.encap_sequence_number c.data_item.bytes
          (connection_by_consuming_id c.address_item.connection_identifier f.world) f
      else (returns status_ok, f)

  abbrev pub recv_parsed : ℕ → SockAddr → Offset × Cpf → Plant → Outcome
  recv_parsed now sender (problem_at n, c) f = (returns status_error, f)
  recv_parsed now sender (consumed_bytes n, c) f = recv_packet now sender c f

  -- RecvConnectedData(), with the packet object that is constructed for the sender.
  unfoldable pub recv_connected_data : ℕ → SockAddr → Cpf → Reader → Plant → Outcome
  unfolding deserialize_cpf recv_packet
  recv_connected_data now sender fresh command f =
      recv_parsed now sender (deserialize_cpf command fresh) f
