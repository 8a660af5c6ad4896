-- ===== src/Cip/Data.antt =====
-- The values of attributes: CipDataType and CipByteArray of cip/ciptypes.h, EncodeData() and
-- DecodeData() of cip/cipcommon.cc. The void pointers are values of the type that the data type asks
-- for. Labels of a switch that share their statements share a `Shape`.
pub mod Laws
use cipster.Base.{
  ℕ, ◌%◌, ◌^◌, List, [], ◌++◌, Bool, true, false, Option, none, some, ltb, if◌then◌else◌, length,
  take, drop, Result, ok, ◌>>=◌,
}
use cipster.Bytes.Writer.{
  Writer, put8, put16, put32, put64, append, put_string, put_short_string, put_string2,
}
use cipster.Bytes.Reader.{
  Reader, size, get8, get16, get32, get64, get_string, get_short_string, get_string2,
}

pub data CipDataType : Type 0 where
  cip_any cip_bool cip_sint cip_int cip_dint cip_lint cip_usint cip_uint : CipDataType
  cip_udint cip_ulint cip_real cip_lreal cip_stime cip_date cip_time_of_day : CipDataType
  cip_date_and_time cip_string cip_byte cip_word cip_dword cip_lword cip_string2 : CipDataType
  cip_ftime cip_ltime cip_itime cip_string_n cip_short_string cip_time cip_eng_unit : CipDataType
  cip_string_i cip_usint_usint cip_6_usint cip_member_list cip_byte_array : CipDataType
  cip_byte_array_length : CipDataType

-- The values of the enumeration.
abbrev pub type_code : CipDataType → ℕ
type_code cip_any = 0x00
type_code cip_bool = 0xc1
type_code cip_sint = 0xc2
type_code cip_int = 0xc3
type_code cip_dint = 0xc4
type_code cip_lint = 0xc5
type_code cip_usint = 0xc6
type_code cip_uint = 0xc7
type_code cip_udint = 0xc8
type_code cip_ulint = 0xc9
type_code cip_real = 0xca
type_code cip_lreal = 0xcb
type_code cip_stime = 0xcc
type_code cip_date = 0xcd
type_code cip_time_of_day = 0xce
type_code cip_date_and_time = 0xcf
type_code cip_string = 0xd0
type_code cip_byte = 0xd1
type_code cip_word = 0xd2
type_code cip_dword = 0xd3
type_code cip_lword = 0xd4
type_code cip_string2 = 0xd5
type_code cip_ftime = 0xd6
type_code cip_ltime = 0xd7
type_code cip_itime = 0xd8
type_code cip_string_n = 0xd9
type_code cip_short_string = 0xda
type_code cip_time = 0xdb
type_code cip_eng_unit = 0xdd
type_code cip_string_i = 0xde
type_code cip_usint_usint = 0xa0
type_code cip_6_usint = 0xa2
type_code cip_member_list = 0xa3
type_code cip_byte_array = 0xa4
type_code cip_byte_array_length = 0xa5

-- class CipByteArray: the memory from `start` on, of `cap` bytes.
pub record ByteArray : Type 0 where
  pub storage : List ℕ
  pub cap : ℕ
  pub len : ℕ

pub record Revision : Type 0 where
  pub major_revision : ℕ
  pub minor_revision : ℕ

-- SetLength().
unfoldable pub set_length : ℕ → ByteArray → Option ByteArray
set_length n a = if ltb a.cap n then none else some (record a { len = n })

-- Writer(), append() and SetLength() of the bytes that are left in the input, and no more than `cap`.
unfoldable pub fill_array : List ℕ → ByteArray → ByteArray
fill_array bs a = record a { storage = bs ++ drop (length bs) a.storage; len = length bs % 2 ^ 16 }

pub data Shape : Type 0 where
  bits8 bits16 bits32 bits64 text short_text wide_text : Shape
  revision six_bytes byte_array array_length opaque : Shape

abbrev pub shape_of : CipDataType → Shape
shape_of cip_bool = bits8
shape_of cip_sint = bits8
shape_of cip_usint = bits8
shape_of cip_byte = bits8
shape_of cip_int = bits16
shape_of cip_uint = bits16
shape_of cip_word = bits16
shape_of cip_dint = bits32
shape_of cip_udint = bits32
shape_of cip_dword = bits32
shape_of cip_real = bits32
shape_of cip_lint = bits64
shape_of cip_ulint = bits64
shape_of cip_lword = bits64
shape_of cip_lreal = bits64
shape_of cip_string = text
shape_of cip_short_string = short_text
shape_of cip_string2 = wide_text
shape_of cip_usint_usint = revision
shape_of cip_6_usint = six_bytes
shape_of cip_byte_array = byte_array
shape_of cip_byte_array_length = array_length
shape_of _ = opaque

-- A number is the bit pattern of its type.
abbrev pub StoredAs : Shape → Type 0
StoredAs bits8 = ℕ
StoredAs bits16 = ℕ
StoredAs bits32 = ℕ
StoredAs bits64 = ℕ
StoredAs text = List ℕ
StoredAs short_text = List ℕ
StoredAs wide_text = List ℕ
StoredAs revision = Revision
StoredAs six_bytes = List ℕ
StoredAs byte_array = ByteArray
StoredAs array_length = ByteArray
StoredAs opaque = ℕ

abbrev pub put_revision : Revision → Writer → Result Writer
put_revision v w = do w₁ ← put8 v.major_revision w; put8 v.minor_revision w₁

unfoldable pub encode_shape : (s : Shape) → StoredAs s → Writer → Result Writer
unfolding put8 put16 put32 put64 append put_string put_short_string put_string2
encode_shape bits8 v = put8 v
encode_shape bits16 v = put16 v
encode_shape bits32 v = put32 v
encode_shape bits64 v = put64 v
encode_shape text s = put_string s false
encode_shape short_text s = put_short_string s false
encode_shape wide_text s = put_string2 s
encode_shape revision v = put_revision v
encode_shape six_bytes bs = append (take 6 bs)
encode_shape byte_array a = append (take a.len a.storage)
encode_shape array_length a = put16 a.len
encode_shape opaque v = ok

-- EncodeData().
unfoldable pub encode_data : (t : CipDataType) → StoredAs (shape_of t) → Writer → Result Writer
unfolding encode_shape
encode_data t v w = encode_shape (shape_of t) v w

-- A value that was read, which the source stores through the pointer.
abbrev pub store_read {ℓ} : {A : Type ℓ} → Result (A × Reader) → Result (Option (A × Reader))
store_read m = do read ← m; ok (some read)

abbrev pub read_length : ByteArray → ℕ × Reader → Option (ByteArray × Reader)
read_length a (n, r) = elim (set_length n a) [ none ↦ none | some b ↦ some (b, r) ]

unfoldable pub decode_shape :
    (s : Shape) → StoredAs s → Reader → Result (Option (StoredAs s × Reader))
unfolding set_length fill_array
decode_shape bits8 old r = store_read (get8 r)
decode_shape bits16 old r = store_read (get16 r)
decode_shape bits32 old r = store_read (get32 r)
decode_shape bits64 old r = store_read (get64 r)
decode_shape text old r = store_read (get_string true r)
decode_shape short_text old r = store_read (get_short_string true r)
decode_shape wide_text old r = store_read (get_string2 r)
decode_shape byte_array a r = if ltb a.cap (size r) then ok none else ok (some (fill_array r a, []))
decode_shape array_length a r = do read ← get16 r; ok (read_length a read)
decode_shape _ old r = ok none

-- The two types that have a label in EncodeData() only.
abbrev pub is_float : CipDataType → Bool
is_float cip_real = true
is_float cip_lreal = true
is_float _ = false

-- DecodeData(): the new value and the input behind it, or `none` for -1.
unfoldable pub decode_data :
    (t : CipDataType)
    → StoredAs (shape_of t)
    → Reader
    → Result (Option (StoredAs (shape_of t) × Reader))
unfolding decode_shape
decode_data t old r = if is_float t then ok none else decode_shape (shape_of t) old r
