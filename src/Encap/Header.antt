-- ===== src/Encap/Header.antt =====
-- class Encapsulation of enet_encap/encap.h and encap.cc: the header of an encapsulation message. The
-- payload pointer is null, as in every header that encap.cc makes itself.
pub mod Laws
use cipster.Base.{
  ℕ, zero, suc, ◌+◌, ◌-◌, ◌%◌, ◌^◌, ◌==◌, List, [], ◌∷◌, Bool, true, false, ◌||◌, Option, none,
  some, if◌then◌else◌, Error, Result, ok, throws, overflow_error, range_error, runtime_error, ◌>>=◌,
}
use cipster.Bytes.Writer.{Writer, put16, put32, append}
use cipster.Bytes.Reader.{Reader, get8, get16, get32}

pub record Header : Type 0 where
  pub command : ℕ
  pub payload : ℕ
  pub session_handle : ℕ
  pub status : ℕ
  pub sender_context : List ℕ
  pub options : ℕ
  pub interface_handle : ℕ
  pub timeout : ℕ

abbrev pub send_rr_data : ℕ
send_rr_data = 0x6f

abbrev pub send_unit_data : ℕ
send_unit_data = 0x70

-- IsBigHdr().
abbrev pub is_big : ℕ → Bool
is_big command = (command == send_rr_data) || (command == send_unit_data)

-- HeaderLength().
abbrev pub header_length : Header → ℕ
header_length h = if is_big h.command then 30 else 24

-- SetPayloadLength(): the field is called `length` in the source.
unfoldable pub set_payload_length : ℕ → Header → Header
set_payload_length n h = record h {
  payload = if is_big h.command then (n + 6) % 2 ^ 32 else n % 2 ^ 32;
}

-- PayloadLength(), in 32 bits.
unfoldable pub payload_length : Header → ℕ
payload_length h = if is_big h.command then (h.payload + (2 ^ 32 - 6)) % 2 ^ 32 else h.payload

-- `for( int i=0; i<8; ++i ) sender_context[i] = in.get8()`.
unfoldable pub get_context : ℕ → Reader → Result (List ℕ × Reader)
unfolding get8
get_context zero r = ok ([], r)
get_context (suc n) r = do (b, r₁) ← get8 r; (bs, r₂) ← get_context n r₁; ok (b ∷ bs, r₂)

-- `catch( const std::runtime_error& )` gives -1. Range and overflow errors are runtime errors.
abbrev pub catch_runtime {ℓ} : {A : Type ℓ} → Result A → Result (Option A)
catch_runtime (ok a) = ok (some a)
catch_runtime (throws runtime_error) = ok none
catch_runtime (throws range_error) = ok none
catch_runtime (throws overflow_error) = ok none
catch_runtime (throws e) = throws e

unfoldable pub get_big : Header → Reader → Result (Header × Reader)
unfolding get16 get32
get_big h r = do
  (interface, r₁) ← get32 r
  (timeout, r₂) ← get16 r₁
  ok (record h { interface_handle = interface; timeout = timeout }, r₂)

unfoldable pub get_small : Reader → Result (Header × Reader)
unfolding get16 get32
get_small r = do
  (command, r₁) ← get16 r
  (payload, r₂) ← get16 r₁
  (session_handle, r₃) ← get32 r₂
  (status, r₄) ← get32 r₃
  (sender_context, r₅) ← get_context 8 r₄
  (options, r₆) ← get32 r₅
  ok (
    record {
      command = command;
      payload = payload;
      session_handle = session_handle;
      status = status;
      sender_context = sender_context;
      options = options;
      interface_handle = 0;
      timeout = 0;
    },
    r₆,
  )

-- DeserializeEncap(): `none` is the result -1.
unfoldable pub deserialize_encap : Reader → Result (Option (Header × Reader))
unfolding get_big
deserialize_encap r = do
  (h, r₁) ← get_small r
  if is_big h.command then catch_runtime (get_big h r₁) else ok (some (h, r₁))

unfoldable pub put_small : Header → Writer → Result Writer
unfolding put16 put32 append
put_small h w = do
  w₁ ← put16 h.command w
  w₂ ← put16 h.payload w₁
  w₃ ← put32 h.session_handle w₂
  w₄ ← put32 h.status w₃
  w₅ ← append h.sender_context w₄
  put32 h.options w₅

unfoldable pub put_big : Header → Writer → Result Writer
unfolding put16 put32
put_big h w = do w₁ ← put32 h.interface_handle w; put16 h.timeout w₁

-- Serialize().
unfoldable pub serialize_encap : Header → Writer → Result Writer
unfolding put_small put_big
serialize_encap h w = do w₁ ← put_small h w; if is_big h.command then put_big h w₁ else ok w₁
