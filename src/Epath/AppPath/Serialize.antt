-- ===== src/Epath/AppPath/Serialize.antt =====
-- CipAppPath::Serialize() and SerializedCount() of cip/cipepath.cc. `out += x.Serialize( out )` is
-- the callee's last writer: the count that it returns is the way that its writer moved.
use cipster.Base.{
  ℕ, ◌%◌, ◌==◌, [], Bool, not, ◌&&◌, if◌then◌else◌, length, replicate, Result, ok, ◌>>=◌,
}
use cipster.Bytes.Writer.{Writer, written, put8, append}
use cipster.Epath.Flags.{omits_class, omits_instance, omits_conn_pt}
use cipster.Epath.Logical.{
  class_segment, instance_segment, member_segment, conn_pt_segment, attribute_segment,
  serialize_logical,
}
use cipster.Epath.AppPath.{
  AppPath, attribute, conn_pt, instance_id, class_id, member1, member2, member3, has, get,
  assembly_class,
}

-- A pad byte after an odd number of bytes.
unfoldable pub pad_to_even : Writer → Writer → Result Writer
unfolding put8
pad_to_even start w = if written start w % 2 == 1 then put8 0 w else ok w

-- `if( … ) out += serialize_logical( … )`.
unfoldable pub segment_if : Bool → ℕ → ℕ → ℕ → Writer → Result Writer
unfolding serialize_logical
segment_if b ctl seg_type value w = if b then serialize_logical ctl seg_type value w else ok w

abbrev pub ansi_symbol : ℕ
ansi_symbol = 0x91

unfoldable pub serialize_members : AppPath → ℕ → Writer → Result Writer
unfolding segment_if
serialize_members p ctl w = do
  w₁ ← segment_if (has member1 p) ctl member_segment (get member1 p) w
  w₂ ← segment_if (has member1 p && has member2 p) ctl member_segment (get member2 p) w₁
  segment_if (has member1 p && (has member2 p && has member3 p)) ctl member_segment (get member3 p)
      w₂

-- The symbol's bytes, and the pad byte behind them.
unfoldable pub serialize_tag : AppPath → Writer → Result Writer
unfolding put8 append
serialize_tag p w = do w₁ ← put8 ansi_symbol w; w₂ ← put8 (length p.tag) w₁; append p.tag w₂

unfoldable pub serialize_symbol : AppPath → Writer → Result Writer
unfolding serialize_tag pad_to_even
serialize_symbol p w = do w₁ ← serialize_tag p w; pad_to_even w w₁

unfoldable pub serialize_symbolic : AppPath → ℕ → Writer → Result Writer
unfolding serialize_symbol segment_if serialize_members
serialize_symbolic p ctl w = do
  w₁ ← serialize_symbol p w
  w₂ ← segment_if (has conn_pt p) ctl conn_pt_segment (get conn_pt p) w₁
  serialize_members p ctl w₂

unfoldable pub serialize_assembly : AppPath → ℕ → Writer → Result Writer
unfolding segment_if
serialize_assembly p ctl w = do
  w₁ ← segment_if (has class_id p && not (omits_class ctl)) ctl class_segment (get class_id p) w
  w₂ ←
      if has instance_id p && not (omits_instance ctl)
      then serialize_logical ctl instance_segment (get instance_id p) w₁
      else segment_if (has conn_pt p && not (omits_conn_pt ctl)) ctl conn_pt_segment (get conn_pt p)
          w₁
  segment_if (has attribute p) ctl attribute_segment (get attribute p) w₂

unfoldable pub serialize_class : AppPath → ℕ → Writer → Result Writer
unfolding segment_if
serialize_class p ctl w = do
  w₁ ← segment_if (has class_id p && not (omits_class ctl)) ctl class_segment (get class_id p) w
  w₂ ←
      segment_if (has instance_id p && not (omits_instance ctl)) ctl instance_segment
        (get instance_id p) w₁
  if not (has conn_pt p)
      then segment_if (has attribute p) ctl attribute_segment (get attribute p) w₂
      else segment_if (has conn_pt p) ctl conn_pt_segment (get conn_pt p) w₂

unfoldable pub serialize : AppPath → ℕ → Writer → Result Writer
unfolding serialize_symbolic serialize_assembly serialize_class
serialize p ctl w =
    if p.has_symbol
    then serialize_symbolic p ctl w
    else if get class_id p == assembly_class
    then serialize_assembly p ctl w
    else serialize_class p ctl w

-- SerializedCount(): the path is serialized to a buffer of 200 bytes, and measured.
abbrev pub stack_buf : Writer
stack_buf = record { before = []; after = replicate 200 0 }

unfoldable pub serialized_count : AppPath → ℕ → Result ℕ
unfolding serialize
serialized_count p ctl = do out ← serialize p ctl stack_buf; ok (written stack_buf out)
