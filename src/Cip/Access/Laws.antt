-- ===== src/Cip/Access/Laws.antt =====
-- Reading and writing attributes.
use cipster.Base.{
  ℕ, ◌≡◌, refl, sym, ap, ◌∙◌, List, [], append-nil, false, some, take-append_self, Result, ok,
  throws, ◌>>=◌,
}
use cipster.Bytes.Writer.{Writer}
use cipster.Bytes.Append.{fresh}
use cipster.Cip.Data.{CipDataType, shape_of, StoredAs, is_float, encode_data, decode_data}
use cipster.Cip.Data.Laws.{IsReadable, decode_data-encode_data}
use cipster.Cip.Access.{get_attr_data, set_attr_data, written_response}
use cipster.Router.Request.{Request}
use cipster.Router.Response.{Response, reader}

bound :
    (m : Response) (run : Result Writer) (m' : Response)
    → (run >>= (λ w. ok (written_response m w))) ≡ ok m'
    → (w : Writer) × (run ≡ ok w) × (m' ≡ written_response m w)
bound m (ok w) m' e = (w, refl, sym cc)
bound m (throws x) m' e = cc

got_response :
    (t : CipDataType) (v : StoredAs (shape_of t)) (m m' : Response)
    → get_attr_data t v m ≡ ok m'
    → (w : Writer) × (encode_data t v (fresh m.buffer) ≡ ok w) × (m' ≡ written_response m w)
unfolding get_attr_data
got_response t v m m' e = bound m (encode_data t v (fresh m.buffer)) m' e

-- The data that GetAttrData() put into a response, sent back in a request, make SetAttrData() store the
-- value that was read, whatever the variable held, and leave the status: for the values that DecodeData()
-- can read.
pub set_attr_data-get_attr_data :
    (t : CipDataType) (v old : StoredAs (shape_of t)) (q : Request) (m m' reply : Response)
    → is_float t ≡ false
    → IsReadable (shape_of t) v
    → get_attr_data t v m ≡ ok m'
    → set_attr_data t old (record q { data_range = reader m' }) reply ≡ ok (v, reply)
unfolding set_attr_data
set_attr_data-get_attr_data t v old q m m' reply f h e =
    let (w, put, m'_is) = got_response t v m m' e in
    let sent : reader m' ≡ w.before =
      ap (λ (x : Response). reader x) m'_is ∙ take-append_self w.before w.after in
    let read : decode_data t old (reader m') ≡ ok (some (v, [])) =
      ap (λ (bs : List ℕ). decode_data t old bs) (sent ∙ sym (append-nil w.before))
      ∙ decode_data-encode_data t v old m.buffer w [] f h put in
    rw read refl
