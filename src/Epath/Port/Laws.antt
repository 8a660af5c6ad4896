-- ===== src/Epath/Port/Laws.antt =====
-- The bytes of a port segment, and what reads them back.
use cipster.Base.{
  ℕ, suc, ◌+◌, ◌-◌, ◌*◌, ◌%◌, ◌<◌, ◌≡◌, ◌≢◌, refl, arith, List, [], ◌∷◌, ◌++◌, append_assoc, false,
  ◌==◌, leb, le→ltb, if◌then◌else◌, Bool-cases, inl, inr, length, All, bit_and, bit_or, bit_or_10,
  bit_and_10, bit_and_0f, ok,
}
use cipster.Bytes.Writer.{Writer, le8, le16}
use cipster.Bytes.Append.{
  fresh, Puts-before, Puts, chain, choose, append_none, put8-append, put16-append,
}
use cipster.Bytes.Reader.{Reader, get8, get16}
use cipster.Bytes.RoundTrip.{IsByte}
use cipster.Epath.Flags.{packed}
use cipster.Epath.AppPath.Encode.{padded, Puts-padded}
use cipster.Epath.AppPath.Padding.{pad_of, skip_to_even-padded}
use cipster.Epath.AppPath.Deserialize.{skip_to_even}
use cipster.Epath.Port.{
  Port, get_port_head, get_link, deserialize_port, put_link, put_port_head, put_port,
  put_padded_port, serialize_port,
}

abbrev pub link_bytes : List ℕ → List ℕ
link_bytes [] = []
link_bytes (b ∷ bs) = le8 b ++ link_bytes bs

abbrev pub head_bytes : Port → List ℕ
head_bytes p =
    if length p.link_address == 1
    then (if leb p.port 15 then le8 p.port else le8 0x0f ++ le16 p.port)
    else (if leb p.port 15
        then le8 (bit_or 0x10 p.port) ++ le8 (length p.link_address)
        else le8 0x1f ++ (le8 (length p.link_address) ++ le16 p.port))

abbrev pub port_bytes : Port → ℕ → List ℕ
port_bytes p ctl =
    if packed ctl
    then head_bytes p ++ link_bytes p.link_address
    else padded (head_bytes p ++ link_bytes p.link_address)

put_link-append : (bs : List ℕ) → Puts (put_link bs) (link_bytes bs)
unfolding put_link
put_link-append [] = append_none
put_link-append (b ∷ bs) = chain (put8-append b) (put_link-append bs)

put_port-append : (p : Port) → Puts (put_port p) (head_bytes p ++ link_bytes p.link_address)
unfolding put_port put_port_head
put_port-append p =
    chain
      (choose (length p.link_address == 1)
        (choose (leb p.port 15) (put8-append p.port)
          (chain (put8-append 0x0f) (put16-append p.port)))
        (choose (leb p.port 15)
          (chain (put8-append (bit_or 0x10 p.port)) (put8-append (length p.link_address)))
          (chain (put8-append 0x1f)
            (chain (put8-append (length p.link_address)) (put16-append p.port)))))
      (put_link-append p.link_address)

-- A link address of at most 255 bytes: the segment is appended in one run, or overruns.
pub serialize_port-append :
    (p : Port) (ctl : ℕ)
    → length p.link_address < 256
    → Puts (serialize_port p ctl) (port_bytes p ctl)
unfolding serialize_port put_padded_port
serialize_port-append p ctl h = record {
  puts = λ w.
      rw (le→ltb 255 (length p.link_address) (omega arith))
        ((choose (packed ctl) (put_port-append p) (Puts-padded (put_port-append p))).puts w);
}

get_link-link_bytes :
    (bs : List ℕ) (r : Reader)
    → All IsByte bs
    → get_link (length bs) (link_bytes bs ++ r) ≡ ok (bs, r)
unfolding get_link get8
get_link-link_bytes [] r h = refl
get_link-link_bytes (b ∷ bs) r h =
    let byte : b % 256 ≡ b = omega arith in rw (get_link-link_bytes bs r h.1, byte)

-- What a simple port or an extended one gives behind the first byte.
low_port : (v : ℕ) → v < 15 → (bit_and v 0x10 ≡ 0) × (bit_and v 0x0f ≡ v)
low_port v h =
    (omega (arith, bit_and_10 v (omega arith)), omega (arith, bit_and_0f v (omega arith)))

high_port :
    (v : ℕ)
    → v < 15
    → ((bit_and (bit_or 0x10 v % 256) 0x10 == 0) ≡ false) × (bit_and (bit_or 0x10 v % 256) 0x0f ≡ v)
high_port v h =
    let e : bit_or 0x10 v % 256 ≡ 16 + v = omega (arith, bit_or_10 v (omega arith)) in
    rw e (
      rw (bit_and_10 (16 + v) (omega arith)) (ground arith),
      omega (arith, bit_and_0f (16 + v) (omega arith)),
    )

get_port_head-head_bytes :
    (p : Port) (r : Reader)
    → p.port < 65536
    → p.port ≢ 15
    → length p.link_address < 256
    → get_port_head (head_bytes p ++ r) ≡ ok (length p.link_address, (p.port, r))
unfolding get_port_head get8 get16
get_port_head-head_bytes p r small escape short = elim (Bool-cases (length p.link_address == 1)) [
  | inl one ↦ elim (Bool-cases (leb p.port 15)) [
    | inl low ↦ rw (one, low) (ground (arith, low_port p.port (ground arith)))
    | inr high ↦ rw (one, high) (ground arith)
  ]
  | inr many ↦ elim (Bool-cases (leb p.port 15)) [
    | inl low ↦
        rw (many, low, (high_port p.port (ground arith)).0, (high_port p.port (ground arith)).1)
          (ground arith)
    | inr high ↦ rw (many, high) (ground arith)
  ]
]

-- How `deserialize_port` goes on behind the head.
deserialize_port_parts :
    (ctl : ℕ) (p : Port) (r : Reader) (start after_link rest : Reader)
    → get_port_head start ≡ ok (length p.link_address, (p.port, r))
    → get_link (length p.link_address) r ≡ ok (p.link_address, after_link)
    → (if packed ctl then ok after_link else skip_to_even start after_link) ≡ ok rest
    → deserialize_port ctl start ≡ ok (p, rest)
unfolding deserialize_port
deserialize_port_parts ctl p r start after_link rest h l s = rw (h, l, s)

deserialize_port-port_bytes :
    (p : Port) (ctl : ℕ) (r : Reader)
    → p.port < 65536
    → p.port ≢ 15
    → length p.link_address < 256
    → All IsByte p.link_address
    → deserialize_port ctl (port_bytes p ctl ++ r) ≡ ok (p, r)
deserialize_port-port_bytes p ctl r small escape short bytes = elim (Bool-cases (packed ctl)) [
  | inl e ↦
      rw (e, append_assoc (head_bytes p) (link_bytes p.link_address) r)
        (deserialize_port_parts ctl p (link_bytes p.link_address ++ r) _ r r
          (get_port_head-head_bytes p _ small escape short)
          (get_link-link_bytes p.link_address r bytes) (rw e))
  | inr e ↦ rw e (
      deserialize_port_parts ctl p (link_bytes p.link_address ++ (pad_of body ++ r))
        (padded body ++ r) (pad_of body ++ r) r
        (rw
          (
            append_assoc body (pad_of body) r,
            append_assoc (head_bytes p) (link_bytes p.link_address) (pad_of body ++ r),
          )
          (get_port_head-head_bytes p _ small escape short))
        (get_link-link_bytes p.link_address (pad_of body ++ r) bytes)
        (rw e (skip_to_even-padded body r)))
]
  where
    body : List ℕ
    body = head_bytes p ++ link_bytes p.link_address

-- A port segment that Serialize() wrote without an overrun is read back from the bytes written, padded
-- or packed, with a pad byte eaten: every 16 bit port but 15, and every link address of at most 255
-- bytes.
pub deserialize_port-serialize_port :
    (p : Port) (ctl : ℕ) (r : Reader) (room : List ℕ) (w : Writer)
    → p.port < 65536
    → p.port ≢ 15
    → length p.link_address < 256
    → All IsByte p.link_address
    → serialize_port p ctl (fresh room) ≡ ok w
    → deserialize_port ctl (w.before ++ r) ≡ ok (p, r)
deserialize_port-serialize_port p ctl r room w small escape short bytes e =
    rw (Puts-before (serialize_port-append p ctl short) room w e)
      (deserialize_port-port_bytes p ctl r small escape short bytes)

fifteen_bytes :
    (ctl b x y : ℕ) (r : Reader)
    → b < 256
    → deserialize_port ctl
        (port_bytes (record { port = 15; link_address = b ∷ [] }) ctl ++ (x ∷ y ∷ r))
      ≡ ok (record { port = b + x * 256; link_address = y ∷ [] }, r)
unfolding deserialize_port get_port_head get8 get16 get_link skip_to_even
fifteen_bytes ctl b x y r h = elim (Bool-cases (packed ctl)) [
  | inl e ↦ rw (e, byte)
  | inr e ↦ rw (e, byte, four)
]
  where
    byte : b % 256 ≡ b
    byte = omega arith

    four : (suc (suc (suc (suc (length r)))) - length r) % 2 ≡ 0
    four = omega arith

-- Port 15 is written as a simple port, and read as the mark of an extended one: with a link address
-- of one byte, that byte and the one behind the segment are taken for the port, and the next for the
-- link address.
pub deserialize_port_fifteen :
    (ctl b x y : ℕ) (r : Reader) (room : List ℕ) (w : Writer)
    → b < 256
    → serialize_port (record { port = 15; link_address = b ∷ [] }) ctl (fresh room) ≡ ok w
    → deserialize_port ctl (w.before ++ (x ∷ y ∷ r))
      ≡ ok (record { port = b + x * 256; link_address = y ∷ [] }, r)
deserialize_port_fifteen ctl b x y r room w h e =
    rw
      (Puts-before
        (serialize_port-append (record { port = 15; link_address = b ∷ [] }) ctl (omega arith)) room
        w e)
      (fifteen_bytes ctl b x y r h)
