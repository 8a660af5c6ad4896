-- ===== src/Epath/Key.antt =====
-- struct CipElectronicKeySegment of cip/cipepath.h and cip/cipepath.cc.
pub mod Laws
use cipster.Base.{
  ℕ, ◌/◌, ◌%◌, ◌==◌, ltb, List, [], ◌∷◌, Bool, true, false, not, ◌&&◌, ◌||◌, Option, none, some,
  if◌then◌else◌, Error, Result, ok, throws, range_error, ◌>>=◌,
}
use cipster.Bytes.Writer.{Writer, put8, put16}
use cipster.Bytes.Reader.{Reader, get8, get16, peek, next}

pub record Key : Type 0 where
  pub vendor_id : ℕ
  pub device_type : ℕ
  pub product_code : ℕ
  pub major_revision : ℕ
  pub minor_revision : ℕ

abbrev pub key_segment : ℕ
key_segment = 0x34

-- The five fields behind the key format.
unfoldable pub get_key : Reader → Result (Key × Reader)
unfolding get8 get16
get_key r = do
  (vendor, r₁) ← get16 r
  (device, r₂) ← get16 r₁
  (product, r₃) ← get16 r₂
  (major, r₄) ← get8 r₃
  (minor, r₅) ← get8 r₄
  ok (
    record {
      vendor_id = vendor;
      device_type = device;
      product_code = product;
      major_revision = major;
      minor_revision = minor;
    },
    r₅,
  )

-- `none` is the negative result: an unknown key format.
unfoldable pub get_format : Reader → Result (Option (Key × Reader))
unfolding next get8 get_key
get_format r = do
  r₁ ← next r
  (key_format, r₂) ← get8 r₁
  if not (key_format == 4) then ok none else (do read ← get_key r₂; ok (some read))

-- `catch( std::range_error )` gives the negative result too.
abbrev pub catch_range {ℓ} : {A : Type ℓ} → Result (Option A) → Result (Option A)
catch_range (ok a) = ok a
catch_range (throws range_error) = ok none
catch_range (throws e) = throws e

-- DeserializeElectronicKey(): the first byte is looked at outside of the `try`. The fields of a key
-- that is not read to its end are dropped.
unfoldable pub deserialize_key : Reader → Key → Result (Option (Key × Reader))
unfolding peek get_format
deserialize_key r self = do
  first ← peek r
  if first == key_segment then catch_range (get_format r) else ok (some (self, r))

unfoldable pub serialize_key : Key → Writer → Result Writer
unfolding put8 put16
serialize_key k w = do
  w₁ ← put8 key_segment w
  w₂ ← put8 4 w₁
  w₃ ← put16 k.vendor_id w₂
  w₄ ← put16 k.device_type w₃
  w₅ ← put16 k.product_code w₄
  w₆ ← put8 k.major_revision w₅
  put8 k.minor_revision w₆

-- SerializedCount().
unfoldable pub key_count : ℕ
key_count = 10

-- The globals of this device: vendor_id_, device_type_, product_code_ and revision_.
pub record Device : Type 0 where
  pub device_vendor : ℕ
  pub device_type_code : ℕ
  pub device_product : ℕ
  pub device_major : ℕ
  pub device_minor : ℕ

-- The members of enum ConnMgrStatus that Check() gives.
pub data KeyStatus : Type 0 where
  success vendor_or_product_error device_type_error revision_mismatch : KeyStatus

abbrev mismatch : ℕ → ℕ → Bool
mismatch wanted own = not (wanted == 0) && not (wanted == own)

-- The revisions: bit 7 of the major revision is the compatibility bit.
unfoldable pub check_revision : Device → Key → KeyStatus
check_revision d k =
    if k.major_revision / 128 % 2 == 0
    then (if mismatch (k.major_revision % 128) d.device_major
          || mismatch k.minor_revision d.device_minor
        then revision_mismatch
        else success)
    else (if not (k.major_revision % 128 == d.device_major)
          || (k.minor_revision == 0 || ltb d.device_minor k.minor_revision)
        then revision_mismatch
        else success)

-- Check().
unfoldable pub check : Device → Key → KeyStatus
check d k =
    if mismatch k.vendor_id d.device_vendor || mismatch k.product_code d.device_product
    then vendor_or_product_error
    else if mismatch k.device_type d.device_type_code
    then device_type_error
    else check_revision d k
