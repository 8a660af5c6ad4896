-- ===== src/Conn/Sizes.antt =====
-- ConnectionData::VerifyForwardOpenParams() and CorrectSizes() of cip/cipconnection.cc. The number of
-- bytes of an assembly, SizeBytes(), is a parameter. CorrectSizes() asserts that an end that is not null
-- has an instance.
pub mod Laws
use cipster.Base.{
  ℕ, ◌+◌, ◌-◌, ◌/◌, ◌%◌, ◌==◌, ltb, Bool, true, false, not, ◌&&◌, ◌||◌, Option, none, some,
  if◌then◌else◌,
}
use cipster.Epath.AppPath.{AppPath, attribute, set_stuff}
use cipster.Epath.Group.{has_pit, get_pit_usecs, set_pit_usecs}
use cipster.Conn.Params.{
  Ncp, Trigger, connection_type, is_null_type, connection_size, is_fixed, trigger_type,
  transport_class, change_of_state, application,
}
use cipster.Conn.Path.{Index, first, second, third, ConnPath}
use cipster.Conn.Data.{
  ConnStatus, pit_greater_than_rpi, invalid_o_t_size, invalid_t_o_size, InstanceRef, End, ConnData,
  is_header_32_bit,
}
use cipster.Conn.Resolve.{Verdict, granted, refused}

-- VerifyForwardOpenParams(): an inhibit time that is not given is a fourth of the interval.
unfoldable pub verify_params : ConnData → Verdict ConnData
verify_params d =
    let segs = d.conn_path.port_segs in
    let rpi = d.producing.rpi_usecs in
    if (trigger_type d.trigger == change_of_state) || (trigger_type d.trigger == application)
    then (if not (has_pit segs)
        then granted (record d {
          conn_path = record d.conn_path { port_segs = set_pit_usecs (rpi / 4) segs };
        })
        else if ltb rpi (get_pit_usecs segs)
        then refused pit_greater_than_rpi
        else granted d)
    else granted d

-- The bytes of a connection that are not the assembly's: a sequence count and a run/idle header,
-- which a heartbeat has not.
unfoldable pub overhead : Trigger → ℕ → End → ℕ
overhead t attr_size e =
    (if transport_class t == 1 then 2 else 0)
    + (if is_header_32_bit e.fmt && not (attr_size == 0) then 4 else 0)

-- The tests of one end: none if the size is good, or the corrected size, of 16 bits.
unfoldable pub corrected : Trigger → ℕ → End → Option ℕ
unfolding overhead connection_size is_fixed
corrected t attr_size e =
    let diff = overhead t attr_size e in
    let wanted = connection_size e.ncp in
    let correction = some ((attr_size + diff) % 0x10000) in
    if ltb wanted diff
    then correction
    else if (is_fixed e.ncp && not (wanted - diff == attr_size)) || ltb attr_size (wanted - diff)
    then correction
    else none

-- `path.SetAttribute( 3 )` on `app_path[index]`.
unfoldable pub assume_attribute : Option Index → ConnPath → ConnPath
assume_attribute none p = p
assume_attribute (some first) p = record p { app_path1 = set_stuff attribute 3 p.app_path1 }
assume_attribute (some second) p = record p { app_path2 = set_stuff attribute 3 p.app_path2 }
assume_attribute (some third) p = record p { app_path3 = set_stuff attribute 3 p.app_path3 }

abbrev pub size_if : (InstanceRef → ℕ) → Option InstanceRef → ℕ
size_if size_bytes none = 0
size_if size_bytes (some i) = size_bytes i

-- What a check leaves: the data, and the extended status if it refuses.
abbrev pub Checked : Type 0
Checked = ConnData × Option ConnStatus

abbrev pub with_consuming : ConnData → Option ℕ → Checked
with_consuming d none = (d, none)
with_consuming d (some n) =
    (record d { consuming = record d.consuming { corrected_size = n } }, some invalid_o_t_size)

abbrev pub with_producing : ConnData → Option ℕ → Checked
with_producing d none = (d, none)
with_producing d (some n) =
    (record d { producing = record d.producing { corrected_size = n } }, some invalid_t_o_size)

unfoldable pub correct_consuming : (InstanceRef → ℕ) → ConnData → Checked
unfolding corrected assume_attribute connection_type
correct_consuming size_bytes d =
    if is_null_type (connection_type d.consuming.ncp)
    then (d, none)
    else with_consuming
        (record d { conn_path = assume_attribute d.conn_path.consuming_index d.conn_path })
        (corrected d.trigger (size_if size_bytes d.consuming.instance_ref) d.consuming)

unfoldable pub correct_producing : (InstanceRef → ℕ) → ConnData → Checked
unfolding corrected assume_attribute connection_type
correct_producing size_bytes d =
    if is_null_type (connection_type d.producing.ncp)
    then (d, none)
    else with_producing
        (record d { conn_path = assume_attribute d.conn_path.producing_index d.conn_path })
        (corrected d.trigger (size_if size_bytes d.producing.instance_ref) d.producing)

abbrev pub unless_refused : (ConnData → Checked) → Checked → Checked
unless_refused next (d, none) = next d
unless_refused next (d, some s) = (d, some s)

-- CorrectSizes().
unfoldable pub correct_sizes : (InstanceRef → ℕ) → ConnData → Checked
unfolding correct_consuming correct_producing
correct_sizes size_bytes d =
    unless_refused (correct_producing size_bytes) (correct_consuming size_bytes d)
