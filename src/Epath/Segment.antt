-- ===== src/Epath/Segment.antt =====
-- The bytes of one logical segment, and what reads them back.
use cipster.Base.{
  ℕ, ◌+◌, ◌*◌, ◌/◌, ◌^◌, ◌<◌, ◌≡◌, ap, ◌∙◌, arith, List, [], ◌∷◌, ◌++◌, append_assoc, ltb,
  if◌then◌else◌, bit_or, Bool-cases, inl, inr, Result, ok, out_of_fuel, ◌>>=◌, Avoids, Avoids-ok,
  Avoids-if,
}
use cipster.Bytes.Writer.{le8, le16, le32}
use cipster.Bytes.Append.{Puts, chain, choose, append_none, put8-append, put16-append, put32-append}
use cipster.Bytes.Reader.{Reader, get16, get32, next, advance}
use cipster.Bytes.RoundTrip.{get8-le8, get16-le16}
use cipster.Bytes.Total.{next-Avoids}
use cipster.Epath.Flags.{packed, put_pad, skip_pad}
use cipster.Epath.Logical.{serialize_logical, deserialize_logical}

abbrev pub pad_bytes : ℕ → List ℕ
pad_bytes ctl = if packed ctl then [] else 0 ∷ []

abbrev pub segment_bytes : ℕ → ℕ → ℕ → List ℕ
segment_bytes ctl seg_type v =
    if ltb v 256
    then le8 seg_type ++ le8 v
    else if ltb v 65536
    then le8 (bit_or seg_type 1) ++ (pad_bytes ctl ++ le16 v)
    else le8 (bit_or seg_type 2) ++ (pad_bytes ctl ++ le32 v)

put_pad-append : (ctl : ℕ) → Puts (put_pad ctl) (pad_bytes ctl)
unfolding put_pad
put_pad-append ctl = choose (packed ctl) append_none (put8-append 0)

-- A logical segment is written as one run of bytes, or overruns.
pub serialize_logical-append :
    (ctl seg_type v : ℕ) → Puts (serialize_logical ctl seg_type v) (segment_bytes ctl seg_type v)
unfolding serialize_logical
serialize_logical-append ctl seg_type v =
    choose (ltb v 256) (chain (put8-append seg_type) (put8-append v)) (
      choose (ltb v 65536)
        (chain (put8-append (bit_or seg_type 1)) (chain (put_pad-append ctl) (put16-append v)))
        (chain (put8-append (bit_or seg_type 2)) (chain (put_pad-append ctl) (put32-append v))))

module _ (ctl : ℕ) (r : Reader) where
  skip_pad-pad_bytes : skip_pad ctl (pad_bytes ctl ++ r) ≡ ok r
  unfolding skip_pad next advance
  skip_pad-pad_bytes = elim (Bool-cases (packed ctl)) [ inl e ↦ rw e | inr e ↦ rw e (ground arith) ]

-- The value behind the segment byte, in each format.
abbrev pub IsReadBack : ℕ → ℕ → ℕ → List ℕ → Type 0
IsReadBack ctl format v bs = (r : Reader) → deserialize_logical ctl format (bs ++ r) ≡ ok (v, r)

pub read_byte : (ctl v : ℕ) → v < 256 → IsReadBack ctl 0 v (le8 v)
unfolding deserialize_logical
read_byte ctl v h r = get8-le8 r v h

pub read_word : (ctl v : ℕ) → v < 65536 → IsReadBack ctl 1 v (pad_bytes ctl ++ le16 v)
unfolding deserialize_logical
read_word ctl v h r = rw (append_assoc (pad_bytes ctl) (le16 v) r) (
    ap (λ (m : Result Reader). m >>= get16) (skip_pad-pad_bytes ctl (le16 v ++ r))
    ∙ get16-le16 r v h)

-- A 32 bit value is misread: the reader skips a byte more than the writer put, and takes the three
-- high bytes of the value and the byte that follows them.
read_long :
    (ctl v b : ℕ) (r : Reader)
    → v < 2 ^ 32
    → deserialize_logical ctl 2 ((pad_bytes ctl ++ le32 v) ++ (b ∷ r))
      ≡ ok (v / 256 + b * 2 ^ 24, r)
unfolding deserialize_logical
read_long ctl v b r h = rw (append_assoc (pad_bytes ctl) (le32 v) (b ∷ r)) (
    ap (λ (m : Result Reader). m >>= (λ r₁. next r₁ >>= get32))
      (skip_pad-pad_bytes ctl (le32 v ++ (b ∷ r)))
    ∙ unfold next advance get32 in ground arith)

pub skip_pad-Avoids : (ctl : ℕ) (r : Reader) → Avoids out_of_fuel (skip_pad ctl r)
unfolding skip_pad
skip_pad-Avoids ctl r = Avoids-if (packed ctl) Avoids-ok (next-Avoids r)
