-- ===== src/Epath/Port.antt =====
-- class CipPortSegment of cip/cipepath.h and cip/cipepath.cc. `port` is 0 here while the source
-- holds -1 for "not used"; the group serializes a port segment only after it was set.
pub mod Laws
use cipster.Base.{
  ℕ, zero, suc, ◌==◌, ltb, leb, List, [], ◌∷◌, not, ◌&&◌, if◌then◌else◌, length, bit_and, bit_or,
  Result, ok, throws, runtime_error, ◌>>=◌,
}
use cipster.Bytes.Writer.{Writer, put8, put16}
use cipster.Bytes.Reader.{Reader, get8, get16}
use cipster.Epath.Flags.{packed}
use cipster.Epath.AppPath.Serialize.{pad_to_even}
use cipster.Epath.AppPath.Deserialize.{skip_to_even}

pub record Port : Type 0 where
  pub port : ℕ
  pub link_address : List ℕ

abbrev pub no_port : Port
no_port = record { port = 0; link_address = [] }

-- `while( link_addrz-- ) link_address.push_back( in.get8() )`.
unfoldable pub get_link : ℕ → Reader → Result (List ℕ × Reader)
unfolding get8
get_link zero r = ok ([], r)
get_link (suc n) r = do (b, r₁) ← get8 r; (bs, r₂) ← get_link n r₁; ok (b ∷ bs, r₂)

-- The size of the link address, and the port.
unfoldable pub get_port_head : Reader → Result (ℕ × (ℕ × Reader))
unfolding get8 get16
get_port_head r = do
  (first, r₁) ← get8 r
  (link_addrz, r₂) ← if bit_and first 0x10 == 0 then ok (1, r₁) else get8 r₁
  (port, r₃) ← if bit_and first 0x0f == 15 then get16 r₂ else ok (bit_and first 0x0f, r₂)
  ok (link_addrz, (port, r₃))

unfoldable pub deserialize_port : ℕ → Reader → Result (Port × Reader)
unfolding get_port_head get_link skip_to_even
deserialize_port ctl r = do
  (link_addrz, (port, r₁)) ← get_port_head r
  (link, r₂) ← get_link link_addrz r₁
  r₃ ← if packed ctl then ok r₂ else skip_to_even r r₂
  ok (record { port = port; link_address = link }, r₃)

-- The link address, byte by byte.
unfoldable pub put_link : List ℕ → Writer → Result Writer
unfolding put8
put_link [] w = ok w
put_link (b ∷ bs) w = do w₁ ← put8 b w; put_link bs w₁

-- What stands before the link address.
unfoldable pub put_port_head : Port → Writer → Result Writer
unfolding put8 put16
put_port_head p w =
    if length p.link_address == 1
    then (if leb p.port 15 then put8 p.port w else (do w₁ ← put8 0x0f w; put16 p.port w₁))
    else (if leb p.port 15
        then (do w₁ ← put8 (bit_or 0x10 p.port) w; put8 (length p.link_address) w₁)
        else (do w₁ ← put8 0x1f w; w₂ ← put8 (length p.link_address) w₁; put16 p.port w₂))

unfoldable pub put_port : Port → Writer → Result Writer
unfolding put_port_head put_link
put_port p w = do w₁ ← put_port_head p w; put_link p.link_address w₁

-- A pad byte that makes the count even, unless the path is packed.
unfoldable pub put_padded_port : Port → Writer → Result Writer
unfolding put_port pad_to_even
put_padded_port p w = do w₁ ← put_port p w; pad_to_even w w₁

unfoldable pub serialize_port : Port → ℕ → Writer → Result Writer
unfolding put_port put_padded_port
serialize_port p ctl w =
    if ltb 255 (length p.link_address)
    then throws runtime_error
    else if packed ctl
    then put_port p w
    else put_padded_port p w
