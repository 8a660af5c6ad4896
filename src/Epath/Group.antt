-- ===== src/Epath/Group.antt =====
-- class CipPortSegmentGroup of cip/cipepath.h and cip/cipepath.cc.
pub mod Total
pub mod Encode
use cipster.Base.{
  ℕ, zero, suc, ◌*◌, ◌/◌, ◌%◌, ◌^◌, ◌==◌, ltb, [], ◌∷◌, Bool, true, false, ◌||◌, Option, none, some,
  if◌then◌else◌, bit_and, Result, ok, throws, runtime_error, out_of_fuel, ◌>>=◌,
}
use cipster.Bytes.Writer.{Writer, put8, put32}
use cipster.Bytes.Reader.{Reader, size, get8, get16, get32, next}
use cipster.Epath.Port.{Port, no_port, deserialize_port, serialize_port}
use cipster.Epath.Key.{Key, key_segment, deserialize_key, serialize_key}

pub record Group : Type 0 where
  pub has_key : Bool
  pub has_pit_usecs : Bool
  pub has_pit_msecs : Bool
  pub has_port : Bool
  pub key : Key
  pub port : Port
  pub pit_usecs : ℕ

-- Clear() leaves the key and the production inhibit time as they are.
abbrev pub clear_group : Group → Group
clear_group g = record g {
  has_key = false;
  has_pit_usecs = false;
  has_pit_msecs = false;
  has_port = false;
  port = no_port;
}

abbrev pub has_pit : Group → Bool
has_pit g = g.has_pit_usecs || g.has_pit_msecs

abbrev pub get_pit_usecs : Group → ℕ
get_pit_usecs g = if has_pit g then g.pit_usecs else 0

abbrev pub get_pit_msecs : Group → ℕ
get_pit_msecs g = if has_pit g then g.pit_usecs / 1000 else 0

abbrev pub set_pit_usecs : ℕ → Group → Group
set_pit_usecs v g = record g { has_pit_usecs = true; pit_usecs = v }

abbrev pub set_pit_msecs : ℕ → Group → Group
set_pit_msecs v g = record g { has_pit_msecs = true; pit_usecs = v * 1000 % 2 ^ 32 }

abbrev pub msecs_segment : ℕ
msecs_segment = 0x43

abbrev pub usecs_segment : ℕ
usecs_segment = 0x51

-- The inhibit time in microseconds, of one or two words.
unfoldable pub get_usecs : Reader → Result (ℕ × Reader)
unfolding get8 get16 get32
get_usecs r = do
  (num_words, r₁) ← get8 r
  if num_words == 1 then get16 r₁ else if num_words == 2 then get32 r₁ else throws runtime_error

-- What one round of the loop does: leave it, return a negative result, or take a segment.
pub data Round : Type 0 where
  exit failed : Round
  taken : Group → Reader → Round

abbrev key_round : Group → Option (Key × Reader) → Round
key_round g none = failed
key_round g (some (k, r)) = taken (record g { key = k; has_key = true }) r

unfoldable pub group_round : ℕ → ℕ → Reader → Group → Result Round
unfolding next get8 get_usecs deserialize_port deserialize_key
group_round ctl first r g =
    if bit_and first 0xe0 == 0
    then (do
      (p, r₁) ← deserialize_port ctl r
      ok (taken (record g { port = p; has_port = true }) r₁))
    else if first == key_segment
    then (do read ← deserialize_key r g.key; ok (key_round g read))
    else if first == msecs_segment
    then (do r₁ ← next r; (v, r₂) ← get8 r₁; ok (taken (set_pit_msecs v g) r₂))
    else if first == usecs_segment
    then (do r₁ ← next r; (v, r₂) ← get_usecs r₁; ok (taken (set_pit_usecs v g) r₂))
    else ok exit

-- `while( in.size() )`. The result is `none` for a negative one. A round takes a byte at least, so
-- the size of the input is fuel enough.
unfoldable pub group_loop : ℕ → ℕ → Reader → Group → Result (Option (Group × Reader))
unfolding group_round
group_loop fuel ctl [] g = ok (some (g, []))
group_loop zero ctl (first ∷ r) g = throws out_of_fuel
group_loop (suc fuel) ctl (first ∷ r) g = do
  round ← group_round ctl first (first ∷ r) g
  elim round [
    | exit ↦ ok (some (g, first ∷ r))
    | failed ↦ ok none
    | taken g₁ r₁ ↦ group_loop fuel ctl r₁ g₁
  ]

unfoldable pub deserialize_group : ℕ → Reader → Group → Result (Option (Group × Reader))
unfolding group_loop
deserialize_group ctl r self = group_loop (size r) ctl r (clear_group self)

unfoldable pub put_msecs : Group → Writer → Result Writer
unfolding put8
put_msecs g w =
    if ltb 255 (get_pit_msecs g)
    then throws runtime_error
    else (do w₁ ← put8 msecs_segment w; put8 (get_pit_msecs g) w₁)

unfoldable pub put_usecs : Group → Writer → Result Writer
unfolding put8 put32
put_usecs g w = do w₁ ← put8 usecs_segment w; w₂ ← put8 2 w₁; put32 (get_pit_usecs g) w₂

unfoldable pub serialize_group : Group → ℕ → Writer → Result Writer
unfolding serialize_key put_usecs put_msecs serialize_port
serialize_group g ctl w = do
  w₁ ← if g.has_key then serialize_key g.key w else ok w
  w₂ ← if g.has_pit_usecs then put_usecs g w₁ else ok w₁
  w₃ ← if g.has_pit_msecs then put_msecs g w₂ else ok w₂
  if g.has_port then serialize_port g.port ctl w₃ else ok w₃
