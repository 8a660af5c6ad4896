-- ===== src/Epath/DataSegment.antt =====
-- class CipSimpleDataSegment of cip/cipepath.h and cip/cipepath.cc.
pub mod Laws
use cipster.Base.{
  ℕ, zero, suc, ◌+◌, ◌*◌, ◌==◌, ltb, List, [], ◌∷◌, Bool, true, false, if◌then◌else◌, length,
  Result, ok, throws, runtime_error, ◌>>=◌,
}
use cipster.Bytes.Writer.{Writer, put8, put16}
use cipster.Bytes.Reader.{Reader, get8, get16, peek, next}

pub record DataSegment : Type 0 where
  pub has_data : Bool
  pub words : List ℕ

abbrev pub no_data : DataSegment
no_data = record { has_data = false; words = [] }

abbrev pub simple_data : ℕ
simple_data = 0x80

-- `while( word_count-- ) words.push_back( in.get16() )`.
unfoldable pub get_words : ℕ → Reader → Result (List ℕ × Reader)
unfolding get16
get_words zero r = ok ([], r)
get_words (suc n) r = do (v, r₁) ← get16 r; (vs, r₂) ← get_words n r₁; ok (v ∷ vs, r₂)

unfoldable pub deserialize_data : Reader → Result (DataSegment × Reader)
unfolding peek next get8 get_words
deserialize_data r = do
  first ← peek r
  if first == simple_data
      then (do
        r₁ ← next r
        (word_count, r₂) ← get8 r₁
        (vs, r₃) ← get_words word_count r₂
        ok (record { has_data = true; words = vs }, r₃))
      else ok (no_data, r)

unfoldable pub put_words : List ℕ → Writer → Result Writer
unfolding put16
put_words [] w = ok w
put_words (v ∷ vs) w = do w₁ ← put16 v w; put_words vs w₁

unfoldable pub put_data : DataSegment → Writer → Result Writer
unfolding put8 put_words
put_data d w = do w₁ ← put8 simple_data w; w₂ ← put8 (length d.words) w₁; put_words d.words w₂

unfoldable pub serialize_data : DataSegment → Writer → Result Writer
unfolding put_data
serialize_data d w = if ltb 255 (length d.words) then throws runtime_error else put_data d w

-- SerializedCount().
unfoldable pub data_count : DataSegment → ℕ
data_count d = 1 + 1 + 2 * length d.words
