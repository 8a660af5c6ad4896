-- ===== src/Bytes/Reader.antt =====
-- class BufReader of source/src/byte_bufs.h, .impl and enet_encap/byte_bufs.cc. A reader is the
-- list of the bytes from `start` up to `limit`. The limit never moves, so the distance between the
-- starts of two readers is the difference of their sizes.
use cipster.Base.{
  ℕ, zero, suc, ◌+◌, ◌-◌, ◌*◌, ◌%◌, List, [], ◌∷◌, Bool, true, false, ◌&&◌, none, some, ltb, ◌==◌,
  if◌then◌else◌, length, take, drop, get_elem?, Result, ok, throws, range_error, ◌>>=◌,
}

abbrev pub Reader : Type 0
Reader = List ℕ

abbrev pub size : Reader → ℕ
size = length

-- `out.data() - in.data()`.
abbrev pub consumed : Reader → Reader → ℕ
consumed from to = size from - size to

-- `operator+=`.
unfoldable pub advance : ℕ → Reader → Result Reader
advance n r = if ltb (size r) n then throws range_error else ok (drop n r)

-- prefix `operator++`.
unfoldable pub next : Reader → Result Reader
unfolding advance
next r = advance 1 r

-- `operator*`.
unfoldable pub peek : Reader → Result ℕ
peek [] = throws range_error
peek (b ∷ r) = ok b

-- `operator[]` at an index that is not negative.
unfoldable pub byte_at : Reader → ℕ → Result ℕ
byte_at r i = elim (get_elem? r i) [ none ↦ throws range_error | some b ↦ ok b ]

-- The shifted bytes are or-ed in the source; they share no bits, so they add up.
unfoldable pub get8 : Reader → Result (ℕ × Reader)
get8 [] = throws range_error
get8 (b ∷ r) = ok (b, r)

unfoldable pub get16 : Reader → Result (ℕ × Reader)
get16 (b₀ ∷ b₁ ∷ r) = ok (b₀ + b₁ * 0x100, r)
get16 _ = throws range_error

unfoldable pub get32 : Reader → Result (ℕ × Reader)
get32 (b₀ ∷ b₁ ∷ b₂ ∷ b₃ ∷ r) = ok (b₀ + b₁ * 0x100 + b₂ * 0x10000 + b₃ * 0x1000000, r)
get32 _ = throws range_error

unfoldable pub get64 : Reader → Result (ℕ × Reader)
get64 (b₀ ∷ b₁ ∷ b₂ ∷ b₃ ∷ b₄ ∷ b₅ ∷ b₆ ∷ b₇ ∷ r) = ok (
  b₀
      + b₁ * 0x100
      + b₂ * 0x10000
      + b₃ * 0x1000000
      + b₄ * 0x100000000
      + b₅ * 0x10000000000
      + b₆ * 0x1000000000000
      + b₇ * 0x100000000000000,
  r,
)
get64 _ = throws range_error

unfoldable pub get16_be : Reader → Result (ℕ × Reader)
get16_be (b₀ ∷ b₁ ∷ r) = ok (b₁ + b₀ * 0x100, r)
get16_be _ = throws range_error

unfoldable pub get32_be : Reader → Result (ℕ × Reader)
get32_be (b₀ ∷ b₁ ∷ b₂ ∷ b₃ ∷ r) = ok (b₃ + b₂ * 0x100 + b₁ * 0x10000 + b₀ * 0x1000000, r)
get32_be _ = throws range_error

-- The bytes that `get_bytes` copies out.
unfoldable pub get_bytes : ℕ → Reader → Result (List ℕ × Reader)
get_bytes n r = if ltb (size r) n then throws range_error else ok (take n r, drop n r)

-- A byte more where a pad byte is expected.
abbrev pub pad_size : Bool → ℕ
pad_size true = 1
pad_size false = 0

-- `get_SHORT_STRING` and `get_STRING` behind their length field.
unfoldable pub get_text : ℕ → Bool → Reader → Result (List ℕ × Reader)
get_text len eat_pad r =
    if ltb (size r) (len + pad_size eat_pad)
    then throws range_error
    else ok (take len r, drop (len + pad_size eat_pad) r)

unfoldable pub get_short_string : Bool → Reader → Result (List ℕ × Reader)
unfolding get8 get_text
get_short_string pad r = do (len, body) ← get8 r; get_text len (pad && (len % 2 == 0)) body

unfoldable pub get_string : Bool → Reader → Result (List ℕ × Reader)
unfolding get16 get_text
get_string pad r = do (len, body) ← get16 r; get_text len (pad && (len % 2 == 1)) body

-- `get_STRING2` of a build without iconv: each 16 bit unit is cut to a char.
unfoldable pub get_units : ℕ → Reader → Result (List ℕ × Reader)
unfolding get16
get_units zero r = ok ([], r)
get_units (suc n) r = do (unit, r₁) ← get16 r; (s, r₂) ← get_units n r₁; ok ((unit % 256) ∷ s, r₂)

unfoldable pub get_string2 : Reader → Result (List ℕ × Reader)
unfolding get_units
get_string2 r = do (len, body) ← get16 r; get_units len body
