-- ===== src/Router/Response/Laws.antt =====
-- The response on the wire.
use cipster.Base.{
  ℕ, zero, suc, ◌+◌, ◌*◌, ◌/◌, ◌%◌, ◌^◌, ◌≤◌, ◌<◌, ◌≡◌, refl, ap, ◌∙◌, arith, List, [], ◌∷◌, ◌++◌,
  length, take, length-take, length-append, All, ok, throws, invalid_argument, bit_and, bit_or,
  bit_and_7f, bit_or_80,
}
use mathlib.Core.Path.{subst}
use cipster.Bytes.Reader.{Reader}
use cipster.Bytes.Writer.{Writer, le8}
use cipster.Bytes.Append.{
  Puts, chain, append_none, Puts-append, Puts-before, fresh, put8-append, put16-append, units,
}
use cipster.Bytes.RoundTrip.{next-cons}
use cipster.Cpf.Encode.{Serializes}
use cipster.Router.Response.{
  Response, reader, put_words, set_reader, serialize_response, serialized_count_response,
  response_payload, get_words, deserialize_mr_res,
}

word : (v : ℕ) → v < 2 ^ 16 → v % 256 + v / 256 % 256 * 256 ≡ v
word v h = omega arith

put_words-append : (words : List ℕ) → Puts (put_words words) (units words)
unfolding put_words
put_words-append [] = append_none
put_words-append (v ∷ vs) = chain (put16-append v) (put_words-append vs)

abbrev pub response_bytes : Response → List ℕ
response_bytes m =
    le8 (bit_or m.reply_service 0x80)
    ++ (le8 0
        ++ (le8 m.general_status
            ++ (le8 m.size_of_additional_status
                ++ (units (take m.size_of_additional_status m.additional_status) ++ reader m))))

pub serialize_response-append : (m : Response) → Puts (serialize_response m) (response_bytes m)
unfolding serialize_response
serialize_response-append m = chain (put8-append _) (
    chain (put8-append 0) (
      chain (put8-append m.general_status) (
        chain (put8-append m.size_of_additional_status)
          (chain (put_words-append _) (Puts-append (reader m))))))

-- A response as its owner keeps it: two places for additional status words, and written bytes that are
-- in the buffer.
pub record IsResponse (m : Response) : Type 0 where
  pub places : length m.additional_status ≡ 2
  pub sized : m.size_of_additional_status ≤ 2
  pub filled : m.written_size ≤ length m.buffer

length-units : (words : List ℕ) → length (units words) ≡ 2 * length words
length-units [] = refl
length-units (v ∷ vs) = omega (arith, length-units vs)

-- SerializedCount() is what Serialize() writes, so a response keeps a payload's promise.
pub response-Serializes :
    (m : Response) → IsResponse m → Serializes (response_payload m) (response_bytes m)
unfolding serialized_count_response
response-Serializes m h =
    let words = take m.size_of_additional_status m.additional_status in
    record {
      runs = serialize_response-append m;
      counts = omega (
        arith,
        h.places,
        h.sized,
        h.filled,
        length-units words,
        length-take m.size_of_additional_status m.additional_status
            (omega (arith, h.places, h.sized)),
        length-take m.written_size m.buffer h.filled,
        length-append (units words) (reader m),
      );
    }

-- The parts of a response that the protocol carries.
pub record Same (m' m : Response) : Type 0 where
  pub same_service : m'.reply_service ≡ m.reply_service
  pub same_status : m'.general_status ≡ m.general_status
  pub same_size : m'.size_of_additional_status ≡ m.size_of_additional_status
  pub same_words :
      take m'.size_of_additional_status m'.additional_status
      ≡ take m.size_of_additional_status m.additional_status
  pub same_reader : reader m' ≡ reader m

abbrev pub IsWord : ℕ → Type 0
IsWord v = v < 2 ^ 16

pub record IsWireResponse (m : Response) : Type 0 where
  pub service_fits : m.reply_service < 128
  pub status_fits : m.general_status < 256
  pub words_fit : All IsWord m.additional_status

two_words : (xs : List ℕ) → length xs ≡ 2 → (a : ℕ) × (b : ℕ) × (xs ≡ a ∷ b ∷ [])
two_words [] h = ground (arith, h)
two_words (a ∷ []) h = ground (arith, h)
two_words (a ∷ b ∷ []) h = (a, b, refl)
two_words (a ∷ b ∷ c ∷ xs) h = ground (arith, h)

abbrev Reads : ℕ → List ℕ → List ℕ → Reader → Type 0
Reads n words old r =
    (got : List ℕ) × (get_words n 0 (units (take n words) ++ r) old ≡ ok (got, r))
    × (take n got ≡ take n words)

take-all : (xs : List ℕ) → take (length xs) xs ≡ xs
take-all [] = refl
take-all (x ∷ xs) = ap (◌∷◌ x) (take-all xs)

get_words-units_two :
    (n a b c d : ℕ) (r : Reader) → n ≤ 2 → IsWord a → IsWord b → Reads n (a ∷ b ∷ []) (c ∷ d ∷ []) r
unfolding get_words
get_words-units_two zero a b c d r h fa fb = (c ∷ d ∷ [], refl, refl)
get_words-units_two (suc zero) a b c d r h fa fb = (a ∷ d ∷ [], rw (word a fa) refl, refl)
get_words-units_two (suc (suc zero)) a b c d r h fa fb =
    (a ∷ b ∷ [], rw (word a fa, word b fb) refl, refl)
get_words-units_two (suc (suc (suc n))) a b c d r h fa fb = ground arith

get_words-units :
    (n : ℕ) (words old : List ℕ) (r : Reader)
    → n ≤ 2
    → length words ≡ 2
    → length old ≡ 2
    → All IsWord words
    → Reads n words old r
get_words-units n words old r h two room fits =
    let (a, b, words_are) = two_words words two in
    let (c, d, old_is) = two_words old room in
    let fs : All IsWord (a ∷ b ∷ []) = subst (All IsWord) words_are fits in
    rw (words_are, old_is) (get_words-units_two n a b c d r h fs.0 fs.1.0)

deserialize_mr_res-bytes :
    (m self : Response)
    → IsResponse m
    → IsWireResponse m
    → length self.additional_status ≡ 2
    → (m' : Response) × (deserialize_mr_res (response_bytes m) self ≡ ok (m', reader m)) × Same m' m
unfolding deserialize_mr_res
deserialize_mr_res-bytes m self h f room =
    let (got, read, same) =
      get_words-units m.size_of_additional_status m.additional_status self.additional_status
        (reader m) h.sized h.places room f.words_fit in
    let code : bit_or m.reply_service 0x80 ≡ m.reply_service + 128 =
      bit_or_80 m.reply_service f.service_fits in
    let small : (m.reply_service + 128) % 256 ≡ m.reply_service + 128 =
      omega (arith, f.service_fits) in
    let back : bit_and (m.reply_service + 128) 0x7f ≡ m.reply_service =
      bit_and_7f (m.reply_service + 128) (omega (arith, f.service_fits))
      ∙ omega (arith, f.service_fits) in
    let status : m.general_status % 256 ≡ m.general_status = omega (arith, f.status_fits) in
    let size : m.size_of_additional_status % 256 ≡ m.size_of_additional_status =
      omega (arith, h.sized) in
    (
      set_reader (reader m) (record self {
        reply_service = m.reply_service;
        general_status = m.general_status;
        size_of_additional_status = m.size_of_additional_status;
        additional_status = got;
      }),
      rw
          (
            code,
            small,
            back,
            next-cons 0 (
                le8 m.general_status
                ++ (le8 m.size_of_additional_status
                    ++ (units (take m.size_of_additional_status m.additional_status) ++ reader m))),
            status,
            size,
            read,
          )
          refl,
      record {
        same_service = refl;
        same_status = refl;
        same_size = refl;
        same_words = same;
        same_reader = take-all (reader m);
      },
    )

-- A response with a service code below 128, a status below 256 and at most two additional status
-- words, each below 2^16, that Serialize() wrote without an overrun is read back by
-- DeserializeMRRes() with its service code, status, additional status words and data, into any
-- response object.
pub deserialize_mr_res-serialize_response :
    (m self : Response) (room : List ℕ) (w : Writer)
    → IsResponse m
    → IsWireResponse m
    → length self.additional_status ≡ 2
    → serialize_response m (fresh room) ≡ ok w
    → (m' : Response) × (deserialize_mr_res w.before self ≡ ok (m', reader m)) × Same m' m
deserialize_mr_res-serialize_response m self room w h f two e =
    rw (Puts-before (serialize_response-append m) room w e)
      (deserialize_mr_res-bytes m self h f two)

-- A reply that says that it has more than two additional status words, and has two at least, is
-- refused by an invalid_argument, which is no runtime error, whatever it holds.
deserialize_mr_res_refuses :
    (code reserved status count a b c d : ℕ) (r : Reader) (self : Response)
    → 2 < count
    → deserialize_mr_res (code ∷ reserved ∷ status ∷ count ∷ a ∷ b ∷ c ∷ d ∷ r) self
      ≡ throws invalid_argument
unfolding deserialize_mr_res get_words
deserialize_mr_res_refuses code reserved status zero a b c d r self h = ground arith
deserialize_mr_res_refuses code reserved status (suc zero) a b c d r self h = ground arith
deserialize_mr_res_refuses code reserved status (suc (suc zero)) a b c d r self h = ground arith
deserialize_mr_res_refuses code reserved status (suc (suc (suc n))) a b c d r self h =
    rw (next-cons reserved (status ∷ suc (suc (suc n)) ∷ a ∷ b ∷ c ∷ d ∷ r)) refl
