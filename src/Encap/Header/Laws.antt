-- ===== src/Encap/Header/Laws.antt =====
-- The header on the wire.
use cipster.Base.{
  ℕ, ◌-◌, ◌^◌, ◌<◌, ◌≡◌, refl, sym, ap, ◌∙◌, arith, List, [], ◌∷◌, ◌++◌, append_assoc, false,
  Bool-cases, inl, inr, some, if◌then◌else◌, length, length-append, All, ok,
}
use cipster.Bytes.Writer.{Writer, le16, le32}
use cipster.Bytes.Reader.{Reader, get8}
use cipster.Bytes.Append.{
  Puts, chain, choose, append_none, Puts-append, Puts-before, fresh, put16-append, put32-append,
}
use cipster.Bytes.RoundTrip.{IsByte, le16-value, le32-value}
use cipster.Encap.Header.{
  Header, is_big, header_length, set_payload_length, payload_length, get_context, get_big,
  get_small, deserialize_encap, put_small, put_big, serialize_encap,
}

abbrev pub small_bytes : Header → List ℕ
small_bytes h =
    le16 h.command
    ++ (le16 h.payload
        ++ (le32 h.session_handle ++ (le32 h.status ++ (h.sender_context ++ le32 h.options))))

abbrev pub big_bytes : Header → List ℕ
big_bytes h = le32 h.interface_handle ++ le16 h.timeout

abbrev pub header_bytes : Header → List ℕ
header_bytes h = small_bytes h ++ (if is_big h.command then big_bytes h else [])

put_small-append : (h : Header) → Puts (put_small h) (small_bytes h)
unfolding put_small
put_small-append h = chain (put16-append h.command) (
    chain (put16-append h.payload) (
      chain (put32-append h.session_handle) (
        chain (put32-append h.status)
          (chain (Puts-append h.sender_context) (put32-append h.options)))))

pub serialize_encap-append : (h : Header) → Puts (serialize_encap h) (header_bytes h)
unfolding serialize_encap put_big
serialize_encap-append h = chain (put_small-append h) (
    choose (is_big h.command) (chain (put32-append h.interface_handle) (put16-append h.timeout))
      append_none)

-- Fields that fit their places on the wire; a short header has no interface handle and no timeout.
pub record IsWireHeader (h : Header) : Type 0 where
  pub command_fits : h.command < 2 ^ 16
  pub payload_fits : h.payload < 2 ^ 16
  pub session_fits : h.session_handle < 2 ^ 32
  pub status_fits : h.status < 2 ^ 32
  pub context_size : length h.sender_context ≡ 8
  pub context_fits : All IsByte h.sender_context
  pub options_fits : h.options < 2 ^ 32
  pub interface_fits : h.interface_handle < 2 ^ 32
  pub timeout_fits : h.timeout < 2 ^ 16
  pub short_interface : is_big h.command ≡ false → h.interface_handle ≡ 0
  pub short_timeout : is_big h.command ≡ false → h.timeout ≡ 0

get_context-append :
    (bs : List ℕ) (r : Reader) → All IsByte bs → get_context (length bs) (bs ++ r) ≡ ok (bs, r)
unfolding get_context get8
get_context-append [] r h = refl
get_context-append (b ∷ bs) r h = rw (get_context-append bs r h.1)

get_small-small_bytes :
    (h : Header) (r : Reader)
    → IsWireHeader h
    → get_small (small_bytes h ++ r) ≡ ok (record h { interface_handle = 0; timeout = 0 }, r)
unfolding get_small
get_small-small_bytes h r f =
    let context : get_context 8 (h.sender_context ++ (le32 h.options ++ r))
        ≡ ok (h.sender_context, le32 h.options ++ r) =
      ap (λ n. get_context n (h.sender_context ++ (le32 h.options ++ r))) (sym f.context_size)
      ∙ get_context-append h.sender_context (le32 h.options ++ r) f.context_fits in
    rw (
      append_assoc h.sender_context (le32 h.options) r,
      context,
      le16-value h.command f.command_fits,
      le16-value h.payload f.payload_fits,
      le32-value h.session_handle f.session_fits,
      le32-value h.status f.status_fits,
      le32-value h.options f.options_fits,
    )

deserialize_encap-bytes :
    (h : Header) (r : Reader)
    → IsWireHeader h
    → deserialize_encap (header_bytes h ++ r) ≡ ok (some (h, r))
unfolding deserialize_encap get_big
deserialize_encap-bytes h r f = elim (Bool-cases (is_big h.command)) [
  | inl e ↦ rw (
    e,
    append_assoc (small_bytes h) (big_bytes h) r,
    get_small-small_bytes h (big_bytes h ++ r) f,
    e,
    le32-value h.interface_handle f.interface_fits,
    le16-value h.timeout f.timeout_fits,
  )
  | inr e ↦
      rw (e, append_assoc (small_bytes h) [] r, get_small-small_bytes h r f, e)
        (ap (λ (x : Header). ok (some (x, r))) (rw (f.short_interface e, f.short_timeout e)))
]

length-header_bytes : (h : Header) → IsWireHeader h → length (header_bytes h) ≡ header_length h
length-header_bytes h f = elim (Bool-cases (is_big h.command)) [
  | inl e ↦ rw e (
      omega (
        arith,
        f.context_size,
        length-append (small_bytes h) (big_bytes h),
        length-append h.sender_context (le32 h.options),
      ))
  | inr e ↦ rw e (
      omega (
        arith,
        f.context_size,
        length-append (small_bytes h) [],
        length-append h.sender_context (le32 h.options),
      ))
]

-- A header, long or short, that Serialize() wrote without an overrun is read back by
-- DeserializeEncap() from the bytes written, whose number is HeaderLength(), if its fields fit the
-- wire: a command, a payload length and a timeout below 2^16, a session handle, a status, options
-- and an interface handle below 2^32, a sender context of eight bytes; and if the interface handle
-- and the timeout of a short header, which has no room for them, are 0.
pub deserialize_encap-serialize_encap :
    (h : Header) (r : Reader) (room : List ℕ) (w : Writer)
    → IsWireHeader h
    → serialize_encap h (fresh room) ≡ ok w
    → (deserialize_encap (w.before ++ r) ≡ ok (some (h, r))) × (length w.before ≡ header_length h)
deserialize_encap-serialize_encap h r room w f e =
    rw (Puts-before (serialize_encap-append h) room w e)
      (deserialize_encap-bytes h r f, length-header_bytes h f)

-- SetPayloadLength() and PayloadLength() are inverse, with the two extra fields counted in the header
-- of a long one.
payload_length-set_payload_length :
    (n : ℕ) (h : Header) → n < 2 ^ 32 - 6 → payload_length (set_payload_length n h) ≡ n
unfolding payload_length set_payload_length
payload_length-set_payload_length n h k = elim (Bool-cases (is_big h.command)) [
  | inl e ↦ rw e (omega arith)
  | inr e ↦ rw e (omega arith)
]
