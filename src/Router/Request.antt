-- ===== src/Router/Request.antt =====
-- class CipMessageRouterRequest: the parser of a request.
pub mod Serialize
pub mod Encode
pub mod Laws
use cipster.Base.{
  ℕ, ◌+◌, ◌*◌, Option, none, some, ltb, if◌then◌else◌, take, Result, ok, throws, overflow_error,
  range_error, runtime_error, ◌>>=◌,
}
use cipster.Bytes.Reader.{Reader, size, consumed, advance, get8}
use cipster.Epath.Key.{Key, deserialize_key}
use cipster.Epath.AppPath.{AppPath}
use cipster.Epath.AppPath.Deserialize.{deserialize}

pub record Request : Type 0 where
  pub service : ℕ
  pub path : AppPath
  pub data_range : Reader

-- The key that the parser fills in and drops.
abbrev pub no_key : Key
no_key = record {
  vendor_id = 0;
  device_type = 0;
  product_code = 0;
  major_revision = 0;
  minor_revision = 0;
}

abbrev pub path_behind_key : AppPath → Option (Key × Reader) → Result (Option (AppPath × Reader))
path_behind_key self none = ok none
path_behind_key self (some (key, r)) = do read ← deserialize 0 none r self; ok (some read)

-- The electronic key, if there is one, and the path, in the bytes that the word count delimits.
unfoldable pub get_request_path : AppPath → Reader → Result (Option (AppPath × Reader))
unfolding deserialize_key deserialize
get_request_path self r = do key ← deserialize_key r no_key; path_behind_key self key

-- `data` begins behind what the parsers consumed of the path, `bytes` of the whole request.
abbrev pub with_data :
    ℕ → Reader → Reader → Option (AppPath × Reader) → Result (Option (Request × ℕ))
with_data code request rpath none = ok none
with_data code request rpath (some (p, rest)) = do
  body ← advance (2 + consumed rpath rest) request
  ok (some (record { service = code; path = p; data_range = body }, 2 + consumed rpath rest))

-- The two catch clauses give -1. A range error is a runtime error.
abbrev pub catch_request {ℓ} : {A : Type ℓ} → Result (Option A) → Result (Option A)
catch_request (ok a) = ok a
catch_request (throws range_error) = ok none
catch_request (throws runtime_error) = ok none
catch_request (throws overflow_error) = ok none
catch_request (throws e) = throws e

unfoldable pub get_request : Reader → AppPath → Result (Option (Request × ℕ))
unfolding get8 get_request_path
get_request r self = do
  (code, r₁) ← get8 r
  (words, r₂) ← get8 r₁
  let rpath = take (words * 2) r₂
  let parsed : Result (Option (Request × ℕ)) = (do
    read ← get_request_path self rpath
    with_data code r rpath read)
  if ltb (size r₂) (words * 2) then ok none else parsed

-- DeserializeMRReq(): the request and the bytes consumed, or `none` for a negative result.
unfoldable pub deserialize_mr_req : Reader → AppPath → Result (Option (Request × ℕ))
unfolding get_request
deserialize_mr_req r self = catch_request (get_request r self)
