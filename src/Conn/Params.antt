-- ===== src/Conn/Params.antt =====
-- classes NetCnParams and TransportTrigger of cip/cipconnection.h: bit fields of a forward open
-- request. The bits are a number, a field of them a quotient and a remainder.
use cipster.Base.{
  ℕ, ◌+◌, ◌-◌, ◌*◌, ◌/◌, ◌%◌, ◌^◌, ◌==◌, leb, Bool, true, false, not, bit_or, if◌then◌else◌, Result,
}
use cipster.Bytes.Writer.{Writer, put8, put16, put32}

-- enum IOConnType.
pub data IoConnType : Type 0 where
  null multicast point_to_point invalid : IoConnType

abbrev pub io_conn_type : ℕ → IoConnType
io_conn_type v =
    if v == 0
    then null
    else if v == 1
    then multicast
    else if v == 2
    then point_to_point
    else invalid

abbrev pub io_conn_code : IoConnType → ℕ
io_conn_code null = 0
io_conn_code multicast = 1
io_conn_code point_to_point = 2
io_conn_code invalid = 3

abbrev pub is_null_type : IoConnType → Bool
is_null_type null = true
is_null_type _ = false

abbrev pub is_multicast : IoConnType → Bool
is_multicast multicast = true
is_multicast _ = false

abbrev pub is_point_to_point : IoConnType → Bool
is_point_to_point point_to_point = true
is_point_to_point _ = false

abbrev pub is_invalid : IoConnType → Bool
is_invalid invalid = true
is_invalid _ = false

-- class NetCnParams.
pub record Ncp : Type 0 where
  pub not_large : Bool
  pub bits : ℕ

abbrev pub clear_ncp : Ncp
clear_ncp = record { not_large = true; bits = 0 }

-- `(bits >> at) & (2^width - 1)`, and the bits with that field replaced by a value that fits it.
abbrev pub field : ℕ → ℕ → ℕ → ℕ
field shift width bits = bits / 2 ^ shift % 2 ^ width

abbrev pub with_field : ℕ → ℕ → ℕ → ℕ → ℕ
with_field shift width v bits = bits - field shift width bits * 2 ^ shift + v * 2 ^ shift

abbrev pub bit : Bool → ℕ
bit true = 1
bit false = 0

unfoldable pub redundant_owner : Ncp → Bool
redundant_owner n = (if n.not_large then field 15 1 n.bits else field 31 1 n.bits) == 1

unfoldable pub set_redundant_owner : Bool → Ncp → Ncp
set_redundant_owner b n = record n {
  bits = if n.not_large then with_field 15 1 (bit b) n.bits else with_field 31 1 (bit b) n.bits;
}

unfoldable pub connection_type : Ncp → IoConnType
connection_type n = io_conn_type (if n.not_large then field 13 2 n.bits else field 29 2 n.bits)

unfoldable pub set_connection_type : IoConnType → Ncp → Ncp
set_connection_type t n = record n {
  bits =
      if n.not_large
      then with_field 13 2 (io_conn_code t) n.bits
      else with_field 29 2 (io_conn_code t) n.bits;
}

-- Priority() and SetPriority(), of the four values of enum ConnPriority.
unfoldable pub priority : Ncp → ℕ
priority n = if n.not_large then field 10 2 n.bits else field 26 2 n.bits

unfoldable pub set_priority : ℕ → Ncp → Ncp
set_priority v n = record n {
  bits = if n.not_large then with_field 10 2 v n.bits else with_field 26 2 v n.bits;
}

unfoldable pub is_fixed : Ncp → Bool
is_fixed n = not ((if n.not_large then field 9 1 n.bits else field 25 1 n.bits) == 1)

unfoldable pub set_fixed : Bool → Ncp → Ncp
set_fixed b n = record n {
  bits =
      if n.not_large
      then with_field 9 1 (bit (not b)) n.bits
      else with_field 25 1 (bit (not b)) n.bits;
}

unfoldable pub connection_size : Ncp → ℕ
connection_size n = if n.not_large then field 0 9 n.bits else field 0 16 n.bits

-- The size is or-ed in whole: one that does not fit its field spills into the others.
unfoldable pub set_connection_size : ℕ → Ncp → Ncp
set_connection_size size n = record n {
  bits =
      if n.not_large
      then bit_or (n.bits - field 0 9 n.bits) size
      else bit_or (n.bits - field 0 16 n.bits) size;
}

-- The constructor with a size, which decides the form.
unfoldable pub ncp_of : ℕ → Bool → IoConnType → ℕ → Ncp
unfolding set_priority set_fixed set_connection_size set_connection_type
ncp_of size fixed t prio = set_priority prio (
    set_fixed fixed (
      set_connection_size size
        (set_connection_type t (record { not_large = leb size 0x1ff; bits = 0 }))))

-- Set().
abbrev pub ncp_from : ℕ → Bool → Ncp
ncp_from bits is_large = record { not_large = not is_large; bits = bits }

unfoldable pub serialize_ncp : Ncp → Writer → Result Writer
unfolding put16 put32
serialize_ncp n w = if n.not_large then put16 n.bits w else put32 n.bits w

abbrev pub ncp_count : Ncp → ℕ
ncp_count n = if n.not_large then 2 else 4

-- class TransportTrigger: its byte.
abbrev pub Trigger : Type 0
Trigger = ℕ

abbrev pub is_server : Trigger → Bool
is_server t = field 7 1 t == 1

abbrev pub trigger_type : Trigger → ℕ
trigger_type t = field 4 3 t

abbrev pub transport_class : Trigger → ℕ
transport_class t = field 0 4 t

unfoldable pub set_server : Bool → Trigger → Trigger
set_server b t = with_field 7 1 (bit b) t

unfoldable pub set_trigger : ℕ → Trigger → Trigger
set_trigger v t = with_field 4 3 v t

unfoldable pub set_class : ℕ → Trigger → Trigger
set_class v t = with_field 0 4 v t

-- enum ConnTriggerType.
abbrev pub cyclic : ℕ
cyclic = 0

abbrev pub change_of_state : ℕ
change_of_state = 1

abbrev pub application : ℕ
application = 2

unfoldable pub serialize_trigger : Trigger → Writer → Result Writer
unfolding put8
serialize_trigger t w = put8 t w
