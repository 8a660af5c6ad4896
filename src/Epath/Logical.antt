-- ===== src/Epath/Logical.antt =====
-- CipAppPath::serialize_logical() and deserialize_logical() of cip/cipepath.cc, on the value alone:
-- a logical segment is a type and format byte and a value of 1, 2 or 4 bytes.
use cipster.Base.{ℕ, ◌==◌, ltb, if◌then◌else◌, bit_or, Result, throws, runtime_error, ◌>>=◌}
use cipster.Bytes.Writer.{Writer, put8, put16, put32}
use cipster.Bytes.Reader.{Reader, get8, get16, get32, next}
use cipster.Epath.Flags.{put_pad, skip_pad}

-- enum LogicalSegmentType.
abbrev pub class_segment : ℕ
class_segment = 0x20

abbrev pub instance_segment : ℕ
instance_segment = 0x24

abbrev pub member_segment : ℕ
member_segment = 0x28

abbrev pub conn_pt_segment : ℕ
conn_pt_segment = 0x2c

abbrev pub attribute_segment : ℕ
attribute_segment = 0x30

unfoldable pub serialize_logical : ℕ → ℕ → ℕ → Writer → Result Writer
unfolding put8 put16 put32 put_pad
serialize_logical ctl seg_type value w =
    if ltb value 256
    then (do w₁ ← put8 seg_type w; put8 value w₁)
    else if ltb value 65536
    then (do w₁ ← put8 (bit_or seg_type 1) w; w₂ ← put_pad ctl w₁; put16 value w₂)
    else (do w₁ ← put8 (bit_or seg_type 2) w; w₂ ← put_pad ctl w₁; put32 value w₂)

-- The value behind a segment byte that the caller has eaten. The assertion that the format is 0, 1
-- or 2 is compiled out of a release build, where format 3 throws.
unfoldable pub deserialize_logical : ℕ → ℕ → Reader → Result (ℕ × Reader)
unfolding get8 get16 get32 next skip_pad
deserialize_logical ctl format r =
    if format == 0
    then get8 r
    else if format == 1
    then (do r₁ ← skip_pad ctl r; get16 r₁)
    else if format == 2
    then (do r₁ ← skip_pad ctl r; r₂ ← next r₁; get32 r₂)
    else throws runtime_error
