-- ===== src/Epath/DataSegment/Laws.antt =====
-- A data segment on the wire.
use cipster.Base.{
  ℕ, ◌+◌, ◌*◌, ◌/◌, ◌%◌, ◌^◌, ◌≤◌, ◌<◌, ◌≡◌, refl, arith, List, [], ◌∷◌, ◌++◌, true, lt→ltb, le→ltb,
  length, All, ok, throws, runtime_error,
}
use cipster.Bytes.Writer.{Writer, le8, append}
use cipster.Bytes.Append.{
  fresh, Puts-before, Puts, chain, append_none, put8-append, put16-append, units,
}
use cipster.Bytes.Reader.{Reader, get8, get16}
use cipster.Bytes.RoundTrip.{next-cons}
use cipster.Epath.DataSegment.{
  DataSegment, simple_data, get_words, deserialize_data, put_words, put_data, serialize_data,
  data_count,
}

abbrev pub IsWord : ℕ → Type 0
IsWord v = v < 2 ^ 16

abbrev pub data_bytes : DataSegment → List ℕ
data_bytes d = le8 simple_data ++ (le8 (length d.words) ++ units d.words)

put_words-append : (vs : List ℕ) → Puts (put_words vs) (units vs)
unfolding put_words
put_words-append [] = append_none
put_words-append (v ∷ vs) = chain (put16-append v) (put_words-append vs)

put_data-append : (d : DataSegment) → Puts (put_data d) (data_bytes d)
unfolding put_data
put_data-append d =
    chain (put8-append simple_data)
      (chain (put8-append (length d.words)) (put_words-append d.words))

pub serialize_data-append :
    (d : DataSegment) → length d.words < 256 → Puts (serialize_data d) (data_bytes d)
unfolding serialize_data
serialize_data-append d h = record {
  puts = λ w. rw (le→ltb 255 (length d.words) (omega arith)) ((put_data-append d).puts w);
}

length-units : (vs : List ℕ) → length (units vs) ≡ 2 * length vs
length-units [] = omega arith
length-units (v ∷ vs) = omega (arith, length-units vs)

-- Serialize() throws a runtime error for more than 255 words. Up to 255 words it appends a run of as
-- many bytes as SerializedCount() says.
serialize_data_lem :
    (d : DataSegment) (w : Writer)
    → (255 < length d.words → serialize_data d w ≡ throws runtime_error)
      × (length d.words ≤ 255 → serialize_data d w ≡ append (data_bytes d) w)
      × (length (data_bytes d) ≡ data_count d)
unfolding data_count
serialize_data_lem d w = (
  λ h. unfold serialize_data in rw (lt→ltb 255 (length d.words) h),
  λ h. (serialize_data-append d (omega arith)).puts w,
  omega (arith, length-units d.words),
)

get_words-units :
    (vs : List ℕ) (r : Reader) → All IsWord vs → get_words (length vs) (units vs ++ r) ≡ ok (vs, r)
unfolding get_words get16
get_words-units [] r h = refl
get_words-units (v ∷ vs) r h =
    let word : v % 256 + v / 256 % 256 * 256 ≡ v = omega arith in
    rw (get_words-units vs r h.1, word)

deserialize_data-data_bytes :
    (vs : List ℕ) (r : Reader)
    → length vs < 256
    → All IsWord vs
    → let d : DataSegment = record { has_data = true; words = vs } in
      deserialize_data (data_bytes d ++ r) ≡ ok (d, r)
unfolding deserialize_data get8
deserialize_data-data_bytes vs r short words =
    let count : length vs % 256 ≡ length vs = omega arith in
    rw (
      next-cons simple_data (le8 (length vs) ++ (units vs ++ r)),
      count,
      get_words-units vs r words,
    )

-- A data segment of at most 255 words that Serialize() wrote without an overrun is read back from the
-- bytes written, and the reader stands behind it.
deserialize_data-serialize_data :
    (vs : List ℕ) (r : Reader) (room : List ℕ) (w : Writer)
    → length vs < 256
    → All IsWord vs
    → let d : DataSegment = record { has_data = true; words = vs } in
      serialize_data d (fresh room) ≡ ok w → deserialize_data (w.before ++ r) ≡ ok (d, r)
deserialize_data-serialize_data vs r room w short words e =
    rw (Puts-before (serialize_data-append (record { has_data = true; words = vs }) short) room w e)
      (deserialize_data-data_bytes vs r short words)
