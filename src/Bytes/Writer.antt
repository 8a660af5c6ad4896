-- ===== src/Bytes/Writer.antt =====
-- class BufWriter of source/src/byte_bufs.h, .impl and enet_encap/byte_bufs.cc. A writer shows the
-- memory around its `start`: the bytes before it, and those from it up to `limit`, which a put
-- overwrites.
use cipster.Base.{
  ℕ, ◌-◌, ◌/◌, ◌%◌, List, [], ◌∷◌, ◌++◌, Bool, ◌&&◌, ltb, ◌==◌, if◌then◌else◌, length, take, drop,
  replicate, Result, ok, throws, overflow_error, ◌>>=◌,
}

pub record Writer : Type 0 where
  pub before : List ℕ
  pub after : List ℕ

abbrev pub capacity : Writer → ℕ
capacity w = length w.after

-- `out.data() - aOutput.data()`.
abbrev pub written : Writer → Writer → ℕ
written from to = length to.before - length from.before

-- `operator+=`.
unfoldable pub advance : ℕ → Writer → Result Writer
advance n w =
    if ltb (capacity w) n
    then throws overflow_error
    else ok (record { before = w.before ++ take n w.after; after = drop n w.after })

-- Bytes stored at `start`, which moves behind them.
unfoldable pub store : List ℕ → Writer → Writer
store bs w = record { before = w.before ++ bs; after = drop (length bs) w.after }

-- The bytes that each put stores: `(uint8_t)(aValue >> 8 * k)`.
abbrev pub le8 : ℕ → List ℕ
le8 v = v % 256 ∷ []

abbrev pub le16 : ℕ → List ℕ
le16 v = v % 256 ∷ v / 0x100 % 256 ∷ []

abbrev pub le32 : ℕ → List ℕ
le32 v = v % 256 ∷ v / 0x100 % 256 ∷ v / 0x10000 % 256 ∷ v / 0x1000000 % 256 ∷ []

abbrev pub le64 : ℕ → List ℕ
le64 v =
    v % 256
    ∷ v / 0x100 % 256
    ∷ v / 0x10000 % 256
    ∷ v / 0x1000000 % 256
    ∷ v / 0x100000000 % 256
    ∷ v / 0x10000000000 % 256
    ∷ v / 0x1000000000000 % 256
    ∷ v / 0x100000000000000 % 256
    ∷ []

abbrev pub be16 : ℕ → List ℕ
be16 v = v / 0x100 % 256 ∷ v % 256 ∷ []

abbrev pub be32 : ℕ → List ℕ
be32 v = v / 0x1000000 % 256 ∷ v / 0x10000 % 256 ∷ v / 0x100 % 256 ∷ v % 256 ∷ []

unfoldable pub put8 : ℕ → Writer → Result Writer
unfolding store
put8 v w = if ltb (capacity w) 1 then throws overflow_error else ok (store (le8 v) w)

unfoldable pub put16 : ℕ → Writer → Result Writer
unfolding store
put16 v w = if ltb (capacity w) 2 then throws overflow_error else ok (store (le16 v) w)

unfoldable pub put32 : ℕ → Writer → Result Writer
unfolding store
put32 v w = if ltb (capacity w) 4 then throws overflow_error else ok (store (le32 v) w)

unfoldable pub put64 : ℕ → Writer → Result Writer
unfolding store
put64 v w = if ltb (capacity w) 8 then throws overflow_error else ok (store (le64 v) w)

unfoldable pub put16_be : ℕ → Writer → Result Writer
unfolding store
put16_be v w = if ltb (capacity w) 2 then throws overflow_error else ok (store (be16 v) w)

unfoldable pub put32_be : ℕ → Writer → Result Writer
unfolding store
put32_be v w = if ltb (capacity w) 4 then throws overflow_error else ok (store (be32 v) w)

unfoldable pub append : List ℕ → Writer → Result Writer
unfolding store
append bs w = if ltb (capacity w) (length bs) then throws overflow_error else ok (store bs w)

unfoldable pub fill : ℕ → ℕ → Writer → Result Writer
unfolding store
fill n v w = if ltb (capacity w) n then throws overflow_error else ok (store (replicate n v) w)

unfoldable pub put_short_string : List ℕ → Bool → Writer → Result Writer
unfolding put8 append
put_short_string s pad w = do
  w₁ ← put8 (length s) w
  w₂ ← append s w₁
  if pad && (length s % 2 == 0) then put8 0 w₂ else ok w₂

unfoldable pub put_string : List ℕ → Bool → Writer → Result Writer
unfolding put16 append
put_string s pad w = do
  w₁ ← put16 (length s) w
  w₂ ← append s w₁
  if pad && (length s % 2 == 1) then put8 0 w₂ else ok w₂

-- `put_STRING2` of a build without iconv: one 16 bit unit for each byte.
unfoldable pub put_units : List ℕ → Writer → Result Writer
unfolding put16
put_units [] w = ok w
put_units (c ∷ cs) w = do w₁ ← put16 c w; put_units cs w₁

unfoldable pub put_string2 : List ℕ → Writer → Result Writer
unfolding put_units
put_string2 s w = do w₁ ← put16 (length s) w; put_units s w₁
