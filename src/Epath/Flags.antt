-- ===== src/Epath/Flags.antt =====
-- enum CTL_FLAGS of source/src/byte_bufs.h: the control bits of Serialize() and Deserialize().
use cipster.Base.{ℕ, ◌+◌, ◌/◌, ◌%◌, ◌^◌, ◌==◌, Bool, Result, ok, if◌then◌else◌}
use cipster.Bytes.Writer.{Writer, put8}
use cipster.Bytes.Reader.{Reader, next}

-- `aCtl & (1 << k)`.
abbrev flag : ℕ → ℕ → Bool
flag ctl k = ctl / 2 ^ k % 2 == 1

abbrev pub omits_class : ℕ → Bool
omits_class ctl = flag ctl 0

abbrev pub omits_instance : ℕ → Bool
omits_instance ctl = flag ctl 1

abbrev pub omits_conn_pt : ℕ → Bool
omits_conn_pt ctl = flag ctl 2

abbrev pub uncompressed : ℕ → Bool
uncompressed ctl = flag ctl 4

abbrev pub packed : ℕ → Bool
packed ctl = flag ctl 5

abbrev pub omits_path : ℕ → Bool
omits_path ctl = flag ctl 6

abbrev pub is_forward_open : ℕ → Bool
is_forward_open ctl = flag ctl 7

abbrev pub is_forward_close : ℕ → Bool
is_forward_close ctl = flag ctl 8

-- `ctl |= 1 << k`.
abbrev with_flag : ℕ → ℕ → ℕ
with_flag ctl k = if flag ctl k then ctl else ctl + 2 ^ k

unfoldable pub omit_class : ℕ → ℕ
omit_class ctl = with_flag ctl 0

unfoldable pub omit_instance : ℕ → ℕ
omit_instance ctl = with_flag ctl 1

unfoldable pub omit_conn_pt : ℕ → ℕ
omit_conn_pt ctl = with_flag ctl 2

-- The pad byte of a padded EPATH, put and skipped.
unfoldable pub put_pad : ℕ → Writer → Result Writer
unfolding put8
put_pad ctl w = if packed ctl then ok w else put8 0 w

unfoldable pub skip_pad : ℕ → Reader → Result Reader
unfolding next
skip_pad ctl r = if packed ctl then ok r else next r
