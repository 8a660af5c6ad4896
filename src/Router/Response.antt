-- ===== src/Router/Response.antt =====
-- class CipMessageRouterResponse. The buffer `data` is the memory behind its start.
pub mod Laws
use cipster.Base.{
  ℕ, zero, suc, ◌+◌, ◌*◌, ◌-◌, List, [], ◌∷◌, ltb, if◌then◌else◌, length, take, set, Result, ok,
  throws, invalid_argument, bit_and, bit_or, ◌>>=◌,
}
use cipster.Bytes.Reader.{Reader, size, next, get8, get16}
use cipster.Bytes.Writer.{Writer, put8, put16, append}
use cipster.Cpf.{Serializeable}

pub record Response : Type 0 where
  pub reply_service : ℕ
  pub general_status : ℕ
  pub size_of_additional_status : ℕ
  pub additional_status : List ℕ
  pub buffer : List ℕ
  pub written_size : ℕ

-- Clear(), as the constructor calls it.
abbrev pub clear_response : List ℕ → Response
clear_response room = record {
  reply_service = 0;
  general_status = 0;
  size_of_additional_status = 0;
  additional_status = 0 ∷ 0 ∷ [];
  buffer = room;
  written_size = 0;
}

abbrev pub set_service : ℕ → Response → Response
set_service code m = record m { reply_service = code }

abbrev pub set_gen_status : ℕ → Response → Response
set_gen_status status m = record m { general_status = status }

-- AddAdditionalSts(): a third word is dropped.
unfoldable pub add_additional_sts : ℕ → Response → Response
add_additional_sts word m =
    if ltb m.size_of_additional_status 2
    then record m {
      size_of_additional_status = m.size_of_additional_status + 1;
      additional_status = set m.additional_status m.size_of_additional_status word;
    }
    else m

-- SetReader() and Reader().
abbrev pub set_reader : Reader → Response → Response
set_reader r m = record m { buffer = r; written_size = size r }

abbrev pub reader : Response → Reader
reader m = take m.written_size m.buffer

-- The loop over the additional status words.
unfoldable pub put_words : List ℕ → Writer → Result Writer
unfolding put16
put_words [] w = ok w
put_words (word ∷ words) w = do w₁ ← put16 word w; put_words words w₁

unfoldable pub serialize_response : Response → Writer → Result Writer
unfolding put8 put_words append
serialize_response m w = do
  w₁ ← put8 (bit_or m.reply_service 0x80) w
  w₂ ← put8 0 w₁
  w₃ ← put8 m.general_status w₂
  w₄ ← put8 m.size_of_additional_status w₃
  w₅ ← put_words (take m.size_of_additional_status m.additional_status) w₄
  append (reader m) w₅

unfoldable pub serialized_count_response : Response → ℕ
serialized_count_response m = 4 + 2 * m.size_of_additional_status + m.written_size

-- The response as the payload of a packet.
abbrev pub response_payload : Response → Serializeable
response_payload m = record {
  serialized_count = serialized_count_response m;
  serialize = serialize_response m;
}

-- The loop over the words, from the index `i`, of which the array holds two.
unfoldable pub get_words : ℕ → ℕ → Reader → List ℕ → Result (List ℕ × Reader)
unfolding get16
get_words zero i r words = ok (words, r)
get_words (suc n) i r words =
    let taken : Result (List ℕ × Reader) = (do
      (word, r₁) ← get16 r
      get_words n (i + 1) r₁ (set words i word)) in
    if ltb i 2 then taken else throws invalid_argument

unfoldable pub deserialize_mr_res : Reader → Response → Result (Response × Reader)
unfolding get8 get_words
deserialize_mr_res r self = do
  (code, r₁) ← get8 r
  r₂ ← next r₁
  (status, r₃) ← get8 r₂
  (count, r₄) ← get8 r₃
  (words, r₅) ← get_words count 0 r₄ self.additional_status
  ok (
    set_reader r₅ (record self {
      reply_service = bit_and code 0x7f;
      general_status = status;
      size_of_additional_status = count;
      additional_status = words;
    }),
    r₅,
  )
