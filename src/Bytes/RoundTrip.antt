-- ===== src/Bytes/RoundTrip.antt =====
-- What BufReader reads of the bytes that BufWriter stores.
use cipster.Base.{
  ℕ, ◌+◌, ◌*◌, ◌/◌, ◌%◌, ◌^◌, ◌<◌, ◌≡◌, refl, sym, arith, List, [], ◌∷◌, ◌++◌, append_assoc, Bool,
  true, false, ◌&&◌, ◌==◌, le→ltb, if◌then◌else◌, length, All, length-append, drop-drop,
  take-append_self, drop-append_self, ok,
}
use cipster.Bytes.Writer.{
  Writer, put_short_string, put_string, put_string2, le8, le16, le32, le64, be16, be32,
}
use cipster.Bytes.Reader.{
  Reader, get8, get16, get32, get64, get16_be, get32_be, get_bytes, get_text, get_short_string,
  get_string, get_units, get_string2, advance, next,
}
use cipster.Bytes.Append.{
  fresh, Puts-before, put_short_string-append, put_string-append, put_string2-append,
  short_string_bytes, string_bytes, units,
}

abbrev pub IsByte : ℕ → Type 0
IsByte b = b < 256

-- The value of a byte, of two and of four bytes as they are read.
pub le8-value : (v : ℕ) → v < 2 ^ 8 → v % 256 ≡ v
le8-value v h = omega arith

pub le16-value : (v : ℕ) → v < 2 ^ 16 → v % 256 + v / 256 % 256 * 256 ≡ v
le16-value v h = omega arith

pub le32-value :
    (v : ℕ)
    → v < 2 ^ 32
    → v % 256 + v / 256 % 256 * 256 + v / 65536 % 256 * 65536 + v / 16777216 % 256 * 16777216 ≡ v
le32-value v h = omega arith

pub next-cons : (b : ℕ) (r : Reader) → next (b ∷ r) ≡ ok r
unfolding next advance
next-cons b r = ground arith

module _ (r : Reader) where
  pub get8-le8 : (v : ℕ) → v < 2 ^ 8 → get8 (le8 v ++ r) ≡ ok (v, r)
  unfolding get8
  get8-le8 v h = ground arith

  pub get16-le16 : (v : ℕ) → v < 2 ^ 16 → get16 (le16 v ++ r) ≡ ok (v, r)
  unfolding get16
  get16-le16 v h = ground arith

  pub get32-le32 : (v : ℕ) → v < 2 ^ 32 → get32 (le32 v ++ r) ≡ ok (v, r)
  unfolding get32
  get32-le32 v h = ground arith

  pub get64-le64 : (v : ℕ) → v < 2 ^ 64 → get64 (le64 v ++ r) ≡ ok (v, r)
  unfolding get64
  get64-le64 v h = ground arith

  pub get16_be-be16 : (v : ℕ) → v < 2 ^ 16 → get16_be (be16 v ++ r) ≡ ok (v, r)
  unfolding get16_be
  get16_be-be16 v h = ground arith

  pub get32_be-be32 : (v : ℕ) → v < 2 ^ 32 → get32_be (be32 v ++ r) ≡ ok (v, r)
  unfolding get32_be
  get32_be-be32 v h = ground arith

  pub get_bytes-append : (bs : List ℕ) → get_bytes (length bs) (bs ++ r) ≡ ok (bs, r)
  unfolding get_bytes
  get_bytes-append bs = rw (
    le→ltb (length (bs ++ r)) (length bs) (omega (arith, length-append bs r)),
    take-append_self bs r,
    drop-append_self bs r,
  )

  pub advance-append : (bs : List ℕ) → advance (length bs) (bs ++ r) ≡ ok r
  unfolding advance
  advance-append bs = rw (
    le→ltb (length (bs ++ r)) (length bs) (omega (arith, length-append bs r)),
    drop-append_self bs r,
  )

  -- A text, with its pad byte where one is expected.
  get_text-append :
      (s : List ℕ) (pad : Bool)
      → get_text (length s) pad (s ++ ((if pad then le8 0 else []) ++ r)) ≡ ok (s, r)
  unfolding get_text
  get_text-append s true = rw (
    le→ltb (length (s ++ (0 ∷ r))) (length s + 1) (omega (arith, length-append s (0 ∷ r))),
    take-append_self s (0 ∷ r),
    sym (drop-drop (length s) 1 (s ++ (0 ∷ r))),
    drop-append_self s (0 ∷ r),
  )
  get_text-append s false = rw (
    le→ltb (length (s ++ r)) (length s + 0) (omega (arith, length-append s r)),
    take-append_self s r,
    sym (drop-drop (length s) 0 (s ++ r)),
    drop-append_self s r,
  )

  pub get_short_string-bytes :
      (s : List ℕ) (pad : Bool)
      → length s < 2 ^ 8
      → get_short_string pad (short_string_bytes s pad ++ r) ≡ ok (s, r)
  unfolding get_short_string
  get_short_string-bytes s pad h =
      let len : length s % 256 ≡ length s = omega arith in
      let eat = pad && (length s % 2 == 0) in
      rw (len, append_assoc s (if eat then le8 0 else []) r) (get_text-append s eat)

  pub get_string-bytes :
      (s : List ℕ) (pad : Bool)
      → length s < 2 ^ 16
      → get_string pad (string_bytes s pad ++ r) ≡ ok (s, r)
  unfolding get_string
  get_string-bytes s pad h =
      let len : length s % 256 + length s / 256 % 256 * 256 ≡ length s = omega arith in
      let eat = pad && (length s % 2 == 1) in
      rw (len, append_assoc s (if eat then le8 0 else []) r) (get_text-append s eat)

  get_units-units : (s : List ℕ) → All IsByte s → get_units (length s) (units s ++ r) ≡ ok (s, r)
  unfolding get_units
  get_units-units [] h = refl
  get_units-units (c ∷ cs) h =
      let unit : (c % 256 + c / 256 % 256 * 256) % 256 ≡ c = omega arith in
      rw (get_units-units cs h.1, unit)

  pub get_string2-bytes :
      (s : List ℕ)
      → All IsByte s
      → length s < 2 ^ 16
      → get_string2 ((le16 (length s) ++ units s) ++ r) ≡ ok (s, r)
  unfolding get_string2
  get_string2-bytes s hs h =
      let len : length s % 256 + length s / 256 % 256 * 256 ≡ length s = omega arith in
      rw len (get_units-units s hs)

-- A SHORT_STRING of at most 255 bytes that was put without an overrun is read back as it was, whatever
-- follows it, and the reader stands behind it and its pad byte.
get_short_string-put :
    (s : List ℕ) (pad : Bool) (room : List ℕ) (w : Writer) (r : Reader)
    → length s < 2 ^ 8
    → put_short_string s pad (fresh room) ≡ ok w
    → get_short_string pad (w.before ++ r) ≡ ok (s, r)
get_short_string-put s pad room w r h e =
    rw (Puts-before (put_short_string-append s pad) room w e) (get_short_string-bytes r s pad h)

-- A STRING of at most 65535 bytes that was put without an overrun is read back as it was, whatever
-- follows it, and the reader stands behind it and its pad byte.
get_string-put :
    (s : List ℕ) (pad : Bool) (room : List ℕ) (w : Writer) (r : Reader)
    → length s < 2 ^ 16
    → put_string s pad (fresh room) ≡ ok w
    → get_string pad (w.before ++ r) ≡ ok (s, r)
get_string-put s pad room w r h e =
    rw (Puts-before (put_string-append s pad) room w e) (get_string-bytes r s pad h)

-- A STRING2 of at most 65535 bytes that was put without an overrun by a build without iconv is read
-- back as it was, whatever follows it, and the reader stands behind it.
get_string2-put :
    (s : List ℕ) (room : List ℕ) (w : Writer) (r : Reader)
    → All IsByte s
    → length s < 2 ^ 16
    → put_string2 s (fresh room) ≡ ok w
    → get_string2 (w.before ++ r) ≡ ok (s, r)
get_string2-put s room w r hs h e =
    rw (Puts-before (put_string2-append s) room w e) (get_string2-bytes r s hs h)
