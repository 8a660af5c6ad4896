-- ===== src/Router/Request/Laws.antt =====
-- What the parser takes from the bytes of a request.
use cipster.Base.{
  ℕ, ◌+◌, ◌*◌, ◌-◌, ◌/◌, ◌%◌, ◌≤◌, ◌<◌, ◌≡◌, refl, sym, ap, ◌∙◌, arith, List, [], ◌∷◌, ◌++◌,
  append-nil, append_assoc, Bool, true, false, Bool-cases, inl, inr, ltb, lt→ltb, some, none,
  length, length-append, take-append_self, le→ltb, ok,
}
use cipster.Bytes.Writer.{Writer}
use cipster.Bytes.Reader.{Reader, peek, advance}
use cipster.Bytes.Append.{fresh, Puts-before}
use cipster.Bytes.RoundTrip.{advance-append}
use cipster.Epath.Key.{Key, deserialize_key}
use cipster.Epath.Segment.{segment_bytes}
use mathlib.Core.Path.{subst}
use cipster.Epath.AppPath.{AppPath, same_path, class_id, instance_id, conn_pt, attribute, has, get}
use cipster.Epath.AppPath.Boundary.{segment_of}
use cipster.Epath.AppPath.Deserialize.{deserialize}
use cipster.Epath.AppPath.Encode.{path_bytes, opt_segment}
use cipster.Epath.AppPath.Flat.{
  IsPlain, IsLogicalPath, flat_bytes, path_bytes-flat, instance_part, conn_pt_part, attribute_part,
}
use cipster.Epath.AppPath.RoundTrip.{deserialize-path_bytes}
use cipster.Router.Request.{Request, no_key, get_request_path, get_request, deserialize_mr_req}
use cipster.Router.Request.Serialize.{serialize_request}
use cipster.Router.Request.Encode.{request_bytes, serialize_request-append}

padded_IsPlain : IsPlain 0
padded_IsPlain = record { keeps_class = refl; keeps_instance = refl; keeps_conn_pt = refl }

-- A padded segment of at most 16 bits takes two or four bytes.
record IsEven (n : ℕ) : Type 0 where
  even : n % 2 ≡ 0
  small : n ≤ 4

segment_bytes-IsEven : (seg v : ℕ) → v < 65536 → IsEven (length (segment_bytes 0 seg v))
segment_bytes-IsEven seg v h = elim (Bool-cases (ltb v 256)) [
  | inl e ↦ rw e (record { even = omega arith; small = omega arith })
  | inr e ↦ rw (e, lt→ltb v 65536 h) (record { even = omega arith; small = omega arith })
]

opt_segment-IsEven : (b : Bool) (seg v : ℕ) → v < 65536 → IsEven (length (opt_segment b 0 seg v))
opt_segment-IsEven true seg v h = segment_bytes-IsEven seg v h
opt_segment-IsEven false seg v h = record { even = omega arith; small = omega arith }

-- A padded logical path takes an even number of bytes, at most 16.
even_sum :
    {a b c d : ℕ}
    → IsEven a
    → IsEven b
    → IsEven c
    → IsEven d
    → ((a + (b + (c + d))) / 2 * 2 ≡ a + (b + (c + d))) × (a + (b + (c + d)) ≤ 16)
even_sum p q r s = (
  omega (arith, p.even, q.even, r.even, s.even),
  omega (arith, p.small, q.small, r.small, s.small),
)

length-path_bytes :
    (p : AppPath)
    → IsLogicalPath p
    → (length (path_bytes p 0) / 2 * 2 ≡ length (path_bytes p 0)) × (length (path_bytes p 0) ≤ 16)
length-path_bytes p l =
    let class = segment_bytes 0 (segment_of class_id) (get class_id p) in
    let i = instance_part p 0 in
    let c = conn_pt_part p 0 in
    let a = attribute_part p 0 in
    let sum : length (flat_bytes p 0) ≡ length class + (length i + (length c + length a)) =
      omega
        (arith, length-append class (i ++ (c ++ a)), length-append i (c ++ a), length-append c a) in
    rw (path_bytes-flat p 0 padded_IsPlain l, sum)
      (even_sum (segment_bytes-IsEven (segment_of class_id) (get class_id p) l.small_class)
        (opt_segment-IsEven (has instance_id p) (segment_of instance_id) (get instance_id p)
          l.small_instance)
        (opt_segment-IsEven (has conn_pt p) (segment_of conn_pt) (get conn_pt p) l.small_conn_pt)
        (opt_segment-IsEven (has attribute p) (segment_of attribute) (get attribute p)
          l.small_attribute))

-- A class segment is no electronic key.
deserialize_key-class :
    (v : ℕ) (r : Reader) (k : Key)
    → deserialize_key (segment_bytes 0 0x20 v ++ r) k ≡ ok (some (k, segment_bytes 0 0x20 v ++ r))
unfolding deserialize_key peek
deserialize_key-class v r k = elim (Bool-cases (ltb v 256)) [
  | inl e ↦ rw e refl
  | inr e ↦ elim (Bool-cases (ltb v 65536)) [ inl f ↦ rw (e, f) refl | inr f ↦ rw (e, f) refl ]
]

get_request_path-path_bytes :
    (p self : AppPath)
    → IsLogicalPath p
    → (q : AppPath) × (get_request_path self (path_bytes p 0) ≡ ok (some (q, [])))
      × (same_path q p ≡ true)
unfolding get_request_path
get_request_path-path_bytes p self l =
    let (q, read, same) = deserialize-path_bytes p self 0 [] padded_IsPlain l _ in
    let flat = path_bytes-flat p 0 padded_IsPlain l in
    let path_read : deserialize 0 none (flat_bytes p 0) self ≡ ok (q, []) =
      subst (λ (bs : List ℕ). deserialize 0 none bs self ≡ ok (q, []))
        (append-nil (path_bytes p 0) ∙ flat) read in
    (
      q,
      rw
          (
            flat,
            deserialize_key-class (get class_id p)
                (instance_part p 0 ++ (conn_pt_part p 0 ++ attribute_part p 0)) no_key,
            path_read,
          )
          refl,
      same,
    )

-- The data of a request begins right behind the part of the path that was understood: what the word
-- count delimits beyond it is taken for data, and is not counted as consumed.
request_leftover :
    (code n : ℕ) (ps used rest body : List ℕ) (self p' : AppPath)
    → n * 2 ≡ length ps
    → ps ≡ used ++ rest
    → get_request_path self ps ≡ ok (some (p', rest))
    → deserialize_mr_req (code ∷ n ∷ (ps ++ body)) self
      ≡ ok (some (record { service = code; path = p'; data_range = rest ++ body }, 2 + length used))
unfolding deserialize_mr_req get_request
request_leftover code n ps used rest body self p' words split read =
    let all : length ps - length rest ≡ length used =
      omega (arith, ap (λ (xs : List ℕ). length xs) split, length-append used rest) in
    let two : 2 + length used ≡ length (code ∷ n ∷ used) = omega arith in
    let step : advance (2 + length used) (code ∷ n ∷ (ps ++ body)) ≡ ok (rest ++ body) =
      ap (λ (k : ℕ). advance k (code ∷ n ∷ (ps ++ body))) two
      ∙ ap (λ (xs : List ℕ). advance (length (code ∷ n ∷ used)) (code ∷ n ∷ xs))
          (ap (λ (xs : List ℕ). xs ++ body) split ∙ append_assoc used rest body)
      ∙ advance-append (rest ++ body) (code ∷ n ∷ used) in
    rw
      (
        words,
        take-append_self ps body,
        le→ltb (length (ps ++ body)) (length ps) (omega (arith, length-append ps body)),
        read,
        all,
        step,
      )
      refl

abbrev pub ReadBack : Request → AppPath → List ℕ → Type 0
ReadBack q self bs =
    (p' : AppPath) × (deserialize_mr_req bs self
      ≡ ok (
          some (
            record { service = q.service; path = p'; data_range = q.data_range },
            2 + length (path_bytes q.path 0),
          )))
    × (same_path p' q.path ≡ true)

pub deserialize_mr_req-bytes :
    (q : Request) (self : AppPath)
    → q.service < 256
    → IsLogicalPath q.path
    → ReadBack q self (request_bytes q 0)
deserialize_mr_req-bytes q self h l =
    let ps = path_bytes q.path 0 in
    let (p', read, same) = get_request_path-path_bytes q.path self l in
    let (even, small) = length-path_bytes q.path l in
    let code : q.service % 256 ≡ q.service = omega arith in
    let words : length ps / 2 % 256 * 2 ≡ length ps = omega (arith, even, small) in
    (
      p',
      ap (λ (s : ℕ). deserialize_mr_req (s ∷ (length ps / 2 % 256 ∷ (ps ++ q.data_range))) self)
            code
          ∙ request_leftover q.service (length ps / 2 % 256) ps ps [] q.data_range self p' words
              (sym (append-nil ps)) read,
      same,
    )

-- A request with a service code below 256 and a logical path (a class, no symbol and no member
-- ids, each value below 65536, an assembly's instance or connection point but not both, otherwise
-- not both a connection point and an attribute), with the path padded, that Serialize() wrote
-- without an overrun is read back by DeserializeMRReq() with its service code, a path that is
-- equal by operator==, and its data; the service code, the word count and the whole path are
-- consumed.
pub deserialize_mr_req-serialize_request :
    (q : Request) (self : AppPath) (room : List ℕ) (w : Writer)
    → q.service < 256
    → IsLogicalPath q.path
    → serialize_request q 0 (fresh room) ≡ ok w
    → ReadBack q self w.before
deserialize_mr_req-serialize_request q self room w h l e =
    rw (Puts-before (serialize_request-append q 0) room w e) (deserialize_mr_req-bytes q self h l)
