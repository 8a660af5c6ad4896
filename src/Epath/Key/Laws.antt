-- ===== src/Epath/Key/Laws.antt =====
-- The electronic key on the wire, and which keys this device accepts.
use cipster.Base.{ℕ, ◌/◌, ◌%◌, ◌^◌, ◌≤◌, ◌<◌, ◌≡◌, ◌⊎◌, arith, List, ◌++◌, some, ok}
use mathlib.Core.Logic.{◌↔◌}
use cipster.Bytes.Writer.{Writer, le8, le16}
use cipster.Bytes.Append.{fresh, Puts-before, Puts, chain, put8-append, put16-append}
use cipster.Bytes.Reader.{Reader, get8, get16}
use cipster.Epath.Key.{
  Key, Device, success, check_revision, key_segment, deserialize_key, get_format, get_key,
  serialize_key, check,
}

abbrev pub key_bytes : Key → List ℕ
key_bytes k =
    le8 key_segment
    ++ (le8 4
        ++ (le16 k.vendor_id
            ++ (le16 k.device_type
                ++ (le16 k.product_code ++ (le8 k.major_revision ++ le8 k.minor_revision)))))

pub serialize_key-append : (k : Key) → Puts (serialize_key k) (key_bytes k)
unfolding serialize_key
serialize_key-append k = chain (put8-append key_segment) (
    chain (put8-append 4) (
      chain (put16-append k.vendor_id) (
        chain (put16-append k.device_type) (
          chain (put16-append k.product_code)
            (chain (put8-append k.major_revision) (put8-append k.minor_revision))))))

-- Fields that fit their places on the wire.
pub record IsWireKey (k : Key) : Type 0 where
  pub vendor_fits : k.vendor_id < 2 ^ 16
  pub device_fits : k.device_type < 2 ^ 16
  pub product_fits : k.product_code < 2 ^ 16
  pub major_fits : k.major_revision < 2 ^ 8
  pub minor_fits : k.minor_revision < 2 ^ 8

deserialize_key-key_bytes :
    (k self : Key) (r : Reader)
    → IsWireKey k
    → deserialize_key (key_bytes k ++ r) self ≡ ok (some (k, r))
unfolding deserialize_key
deserialize_key-key_bytes k self r f = unfold get_format get_key get8 get16 in ground arith

-- An electronic key whose vendor id, device type and product code are below 2^16 and whose
-- revisions are below 2^8 that Serialize() wrote without an overrun is read back from the bytes
-- written, whatever the object held before.
pub deserialize_key-serialize_key :
    (k self : Key) (r : Reader) (room : List ℕ) (w : Writer)
    → IsWireKey k
    → serialize_key k (fresh room) ≡ ok w
    → deserialize_key (w.before ++ r) self ≡ ok (some (k, r))
deserialize_key-serialize_key k self r room w f e =
    rw (Puts-before (serialize_key-append k) room w e) (deserialize_key-key_bytes k self r f)

-- The revisions that the comments of Check() promise to accept: without the compatibility bit both
-- match or are 0; with it the major revision matches and the minor one is between 1 and the device's.
abbrev pub AcceptsRevision : Device → Key → Type 0
AcceptsRevision d k =
    ((k.major_revision / 128 % 2 ≡ 0)
      × ((k.major_revision % 128 ≡ 0) ⊎ (k.major_revision % 128 ≡ d.device_major))
      × ((k.minor_revision ≡ 0) ⊎ (k.minor_revision ≡ d.device_minor)))
    ⊎ ((k.major_revision / 128 % 2 ≡ 1)
        × (k.major_revision % 128 ≡ d.device_major)
        × (1 ≤ k.minor_revision)
        × (k.minor_revision ≤ d.device_minor))

-- Vendor, product and device type match or are 0, and the revision is accepted.
abbrev pub Accepts : Device → Key → Type 0
Accepts d k =
    ((k.vendor_id ≡ 0) ⊎ (k.vendor_id ≡ d.device_vendor))
    × ((k.product_code ≡ 0) ⊎ (k.product_code ≡ d.device_product))
    × ((k.device_type ≡ 0) ⊎ (k.device_type ≡ d.device_type_code))
    × AcceptsRevision d k

check_revision-success :
    (d : Device) (k : Key) → (check_revision d k ≡ success) ↔ AcceptsRevision d k
unfolding check_revision
check_revision-success d k = (ground arith, ground arith)

-- Check() gives success exactly for the keys that the device accepts.
check-success : (d : Device) (k : Key) → (check d k ≡ success) ↔ Accepts d k
unfolding check
check-success d k = (
  λ h. (ground arith, ground arith, ground arith, (check_revision-success d k).0 (ground arith)),
  λ a. ground (arith, (check_revision-success d k).1 a.3),
)
