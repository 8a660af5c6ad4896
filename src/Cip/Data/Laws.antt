-- ===== src/Cip/Data/Laws.antt =====
-- What DecodeData() makes of the bytes that EncodeData() writes.
use cipster.Base.{
  ℕ, ◌+◌, ◌/◌, ◌%◌, ◌^◌, ◌*◌, ◌≤◌, ◌<◌, ◌≡◌, ◌≢◌, refl, sym, ap, ◌∙◌, arith, List, [], ◌++◌,
  append-nil, Bool, true, false, none, some, le→ltb, lt→ltb, length, length-append, length-drop,
  take, drop, take-append_self, All, ◌==◌, ok, throws, range_error,
}
use cipster.Bytes.Writer.{Writer, le8, le16, le32, le64}
use cipster.Bytes.Reader.{Reader, get_text, get_string, get_short_string}
use cipster.Bytes.Append.{
  Puts, Puts-before, fresh, put8-append, put16-append, put32-append, put64-append,
  put_string-append, put_short_string-append, put_string2-append, string_bytes, short_string_bytes,
  units,
}
use cipster.Bytes.RoundTrip.{
  IsByte, get8-le8, get16-le16, get32-le32, get64-le64, get_string-bytes, get_short_string-bytes,
  get_string2-bytes,
}
use cipster.Cip.Data.{
  CipDataType, cip_string, cip_byte_array, cip_byte_array_length, ByteArray, Shape, bits8, bits16,
  bits32, bits64, text, short_text, wide_text, revision, six_bytes, byte_array, array_length,
  opaque, shape_of, StoredAs, is_float, set_length, fill_array, encode_shape, encode_data,
  decode_shape, decode_data, store_read, read_length,
}

-- The values that DecodeData() reads back, of the types that it knows and that are no byte arrays: of
-- the right width, and of a length that wants no pad byte.
abbrev pub IsReadable : (s : Shape) → StoredAs s → Type 0
IsReadable bits8 v = v < 2 ^ 8
IsReadable bits16 v = v < 2 ^ 16
IsReadable bits32 v = v < 2 ^ 32
IsReadable bits64 v = v < 2 ^ 64
IsReadable text s = (length s < 2 ^ 16) × (length s % 2 ≡ 0)
IsReadable short_text s = (length s < 2 ^ 8) × (length s % 2 ≡ 1)
IsReadable wide_text s = (length s < 2 ^ 16) × All IsByte s
IsReadable _ v = ◌≡◌ {A = Bool} true false

-- The bytes of such a value.
abbrev value_bytes : (s : Shape) → StoredAs s → List ℕ
value_bytes bits8 v = le8 v
value_bytes bits16 v = le16 v
value_bytes bits32 v = le32 v
value_bytes bits64 v = le64 v
value_bytes text s = string_bytes s false
value_bytes short_text s = short_string_bytes s false
value_bytes wide_text s = le16 (length s) ++ units s
value_bytes _ v = []

encode_shape-append :
    (s : Shape) (v : StoredAs s) → IsReadable s v → Puts (encode_shape s v) (value_bytes s v)
unfolding encode_shape
encode_shape-append bits8 v h = put8-append v
encode_shape-append bits16 v h = put16-append v
encode_shape-append bits32 v h = put32-append v
encode_shape-append bits64 v h = put64-append v
encode_shape-append text v h = put_string-append v false
encode_shape-append short_text v h = put_short_string-append v false
encode_shape-append wide_text v h = put_string2-append v
encode_shape-append revision v h = cc
encode_shape-append six_bytes v h = cc
encode_shape-append byte_array v h = cc
encode_shape-append array_length v h = cc
encode_shape-append opaque v h = cc

other_rest : (n j k : ℕ) → n % 2 ≡ j → j ≢ k → (n % 2 == k) ≡ false
other_rest n j k h d = ground (arith, h, d)

same_rest : (n k : ℕ) → n % 2 ≡ k → (n % 2 == k) ≡ true
same_rest n k h = ground (arith, h)

decode_shape-value_bytes :
    (s : Shape) (v old : StoredAs s) (r : Reader)
    → IsReadable s v
    → decode_shape s old (value_bytes s v ++ r) ≡ ok (some (v, r))
unfolding decode_shape
decode_shape-value_bytes bits8 v old r h = rw (get8-le8 r v h) refl
decode_shape-value_bytes bits16 v old r h = rw (get16-le16 r v h) refl
decode_shape-value_bytes bits32 v old r h = rw (get32-le32 r v h) refl
decode_shape-value_bytes bits64 v old r h = rw (get64-le64 r v h) refl
decode_shape-value_bytes text v old r (h, e) =
    let same : string_bytes v true ≡ string_bytes v false =
      rw (other_rest (length v) 0 1 e (omega arith)) refl in
    ap (λ (bs : List ℕ). store_read (get_string true (bs ++ r))) (sym same)
    ∙ ap store_read (get_string-bytes r v true h)
decode_shape-value_bytes short_text v old r (h, e) =
    let same : short_string_bytes v true ≡ short_string_bytes v false =
      rw (other_rest (length v) 1 0 e (omega arith)) refl in
    ap (λ (bs : List ℕ). store_read (get_short_string true (bs ++ r))) (sym same)
    ∙ ap store_read (get_short_string-bytes r v true h)
decode_shape-value_bytes wide_text v old r (h, b) = rw (get_string2-bytes r v b h) refl
decode_shape-value_bytes revision v old r h = cc
decode_shape-value_bytes six_bytes v old r h = cc
decode_shape-value_bytes byte_array v old r h = cc
decode_shape-value_bytes array_length v old r h = cc
decode_shape-value_bytes opaque v old r h = cc

-- A value that EncodeData() wrote without an overrun is read back by DecodeData(), whatever the
-- variable held: a number of any type but the two of floats, a STRING of an even length, a SHORT_STRING of an odd
-- length, or a STRING2 of bytes.
pub decode_data-encode_data :
    (t : CipDataType) (v old : StoredAs (shape_of t)) (room : List ℕ) (w : Writer) (r : Reader)
    → is_float t ≡ false
    → IsReadable (shape_of t) v
    → encode_data t v (fresh room) ≡ ok w
    → decode_data t old (w.before ++ r) ≡ ok (some (v, r))
unfolding decode_data encode_data
decode_data-encode_data t v old room w r f h e =
    rw (f, Puts-before (encode_shape-append (shape_of t) v h) room w e)
      (decode_shape-value_bytes (shape_of t) v old r h)

-- A STRING of an odd length that EncodeData() wrote, which puts no pad byte behind it, is no input for
-- DecodeData(), which wants one: it throws a range error.
decode_data_odd_string :
    (s old : List ℕ) (room : List ℕ) (w : Writer)
    → length s < 2 ^ 16
    → length s % 2 ≡ 1
    → encode_data cip_string s (fresh room) ≡ ok w
    → decode_data cip_string old w.before ≡ throws range_error
unfolding decode_data encode_data encode_shape decode_shape get_string get_text
decode_data_odd_string s old room w h odd e =
    let bytes : w.before ≡ string_bytes s false =
      Puts-before (put_string-append s false) room w e in
    let size : length s % 256 + length s / 256 % 256 * 256 ≡ length s = omega arith in
    rw
      (
        bytes,
        append-nil s,
        size,
        same_rest (length s) 1 odd,
        lt→ltb (length s) (length s + 1) (omega arith),
      )
      refl

-- The memory of a byte array is as long as its capacity, and its length is no more.
pub record IsByteArray (a : ByteArray) : Type 0 where
  pub whole : length a.storage ≡ a.cap
  pub in_memory : a.len ≤ a.cap
  pub small : a.cap < 2 ^ 16

-- `b` is `a` after a write: sound, with the same capacity.
pub record Rewritten (a b : ByteArray) : Type 0 where
  pub sound : IsByteArray b
  pub same_cap : b.cap ≡ a.cap

-- DecodeData() of a byte array takes the whole input as its content and its length, if it fits the
-- capacity, and -1 otherwise: no byte beyond the capacity is written.
pub decode_data_array :
    (a : ByteArray) (bs : List ℕ)
    → IsByteArray a
    → (length bs ≤ a.cap
        → (b : ByteArray) × (decode_data cip_byte_array a bs ≡ ok (some (b, [])))
          × Rewritten a b
          × (take b.len b.storage ≡ bs))
      × (a.cap < length bs → decode_data cip_byte_array a bs ≡ ok none)
unfolding decode_data decode_shape fill_array
decode_data_array a bs h = (
  λ fits.
      let size : length bs % 2 ^ 16 ≡ length bs = omega (arith, h.small) in
      (
        fill_array bs a,
        rw (le→ltb a.cap (length bs) fits) refl,
        record {
          sound = record {
            whole = omega (
              arith,
              h.whole,
              length-append bs (drop (length bs) a.storage),
              length-drop (length bs) a.storage,
            );
            in_memory = omega (arith, size);
            small = h.small;
          };
          same_cap = refl;
        },
        rw size (take-append_self bs (drop (length bs) a.storage)),
      ),
  λ over. rw (lt→ltb a.cap (length bs) over) refl,
)

-- DecodeData() of the length of a byte array takes a length that fits the capacity and refuses a
-- greater one, and touches no memory.
decode_data_array_length :
    (a : ByteArray) (v : ℕ) (r : Reader)
    → IsByteArray a
    → v < 2 ^ 16
    → (v ≤ a.cap
        → (decode_data cip_byte_array_length a (le16 v ++ r) ≡ ok (some (record a { len = v }, r)))
          × IsByteArray (record a { len = v }))
      × (a.cap < v → decode_data cip_byte_array_length a (le16 v ++ r) ≡ ok none)
unfolding decode_data decode_shape set_length
decode_data_array_length a v r h f = (
  λ fits. (
    rw (get16-le16 r v f, read_length, le→ltb a.cap v fits) refl,
    record { whole = h.whole; in_memory = fits; small = h.small },
  ),
  λ over. rw (get16-le16 r v f, read_length, lt→ltb a.cap v over) refl,
)
