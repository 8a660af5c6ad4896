-- ===== src/Cip/Access.antt =====
-- The reading and the writing of attributes: CipAttribute::Get(), Set(), GetAttrData() and
-- SetAttrData() of cip/cipattribute.cc, and the services GetAttributeSingle, SetAttributeSingle and
-- Reset of cip/cipclass.cc. A getter or setter of the application leaves an exchange, whether it
-- throws or not.
pub mod Laws
use cipster.Base.{
  ℕ, ◌==◌, ltb, List, Bool, not, ◌&&◌, Option, none, some, if◌then◌else◌, ◌++◌, length, Error,
  Result, ok, throws, range_error, overflow_error, ◌>>=◌,
}
use cipster.Bytes.Writer.{Writer}
use cipster.Bytes.Reader.{Reader, size}
use cipster.Bytes.Append.{fresh}
use cipster.Epath.AppPath.{attribute, get}
use cipster.Cip.Data.{CipDataType, shape_of, StoredAs, encode_data, decode_data}
use cipster.Cip.Attribute.{Attribute, attribute_of}
use cipster.Router.Request.{Request}
use cipster.Router.Response.{Response, set_gen_status}
use cipster.Router.Notify.{EipStatus, status_ok_send, status_error, Exchange, refuse}

-- The values of CipError that attributes give.
abbrev pub invalid_attribute_value : ℕ
invalid_attribute_value = 0x09

abbrev pub attribute_not_setable : ℕ
attribute_not_setable = 0x0e

abbrev pub not_enough_data : ℕ
not_enough_data = 0x13

abbrev pub attribute_not_supported : ℕ
attribute_not_supported = 0x14

abbrev pub invalid_parameter : ℕ
invalid_parameter = 0x20

abbrev pub attribute_not_gettable : ℕ
attribute_not_gettable = 0x2c

abbrev pub get_attribute_all_code : ℕ
get_attribute_all_code = 0x01

-- The response once `w`, which began at its buffer, is written.
abbrev pub written_response : Response → Writer → Response
written_response m w = record m { buffer = w.before ++ w.after; written_size = length w.before }

-- GetAttrData(), of a variable that holds `v`.
unfoldable pub get_attr_data :
    (t : CipDataType) → StoredAs (shape_of t) → Response → Result Response
unfolding encode_data
get_attr_data t v m = do w ← encode_data t v (fresh m.buffer); ok (written_response m w)

abbrev pub set_value : {A : Type 0} → A → Response → Option (A × Reader) → A × Response
set_value old m none = (old, set_gen_status invalid_attribute_value m)
set_value old m (some (v, r)) = (v, m)

-- SetAttrData(), of a variable that holds `old`.
unfoldable pub set_attr_data :
    (t : CipDataType)
    → StoredAs (shape_of t)
    → Request
    → Response
    → Result (StoredAs (shape_of t) × Response)
unfolding decode_data
set_attr_data t old q m = do read ← decode_data t old q.data_range; ok (set_value old m read)

-- The catch clauses of Get() and of Set(); any other exception goes on.
abbrev pub catch_get :
    {W : Type 0} → Exchange W × Result EipStatus → Result (EipStatus × Exchange W)
catch_get (x, ok status) = ok (status, x)
catch_get (x, throws range_error) = ok (refuse not_enough_data x)
catch_get (x, throws overflow_error) = ok (status_error, x)
catch_get (x, throws e) = throws e

abbrev pub catch_set :
    {W : Type 0} → Exchange W × Result EipStatus → Result (EipStatus × Exchange W)
catch_set (x, ok status) = ok (status, x)
catch_set (x, throws range_error) = ok (refuse not_enough_data x)
catch_set (x, throws e) = throws e

-- What getters and setters do.
abbrev pub AttributeCall : Type 0 → Type 0 → Type 0 → Type 0 → Type 0
AttributeCall F G S W = F → Attribute G S → Request → Exchange W → Exchange W × Result EipStatus

module _ {G S W : Type 0} (call_getter : AttributeCall G G S W)
    (call_setter : AttributeCall S G S W) where
  abbrev pub get_by :
      Option G → Attribute G S → Request → Exchange W → Result (EipStatus × Exchange W)
  get_by none a q x = ok (refuse attribute_not_gettable x)
  get_by (some getter) a q x =
      if (q.service == get_attribute_all_code) && not a.is_getable_all
      then ok (refuse attribute_not_gettable x)
      else catch_get (call_getter getter a q x)

  -- Get().
  unfoldable pub get_attribute :
      Attribute G S → Request → Exchange W → Result (EipStatus × Exchange W)
  get_attribute a q x = get_by a.getter a q x

  abbrev pub set_by :
      Option S → Attribute G S → Request → Exchange W → Result (EipStatus × Exchange W)
  set_by none a q x = ok (refuse attribute_not_setable x)
  set_by (some setter) a q x = catch_set (call_setter setter a q x)

  -- Set().
  unfoldable pub set_attribute :
      Attribute G S → Request → Exchange W → Result (EipStatus × Exchange W)
  set_attribute a q x = set_by a.setter a q x

  abbrev pub get_found :
      Option (Attribute G S) → Request → Exchange W → Result (EipStatus × Exchange W)
  get_found none q x = ok (refuse attribute_not_supported x)
  get_found (some a) q x = get_attribute a q x

  -- The services. `own` are the attributes of the instance, which are those of its class or, for the
  -- class itself, the class attributes.
  unfoldable pub get_attribute_single :
      List (Attribute G S) → Request → Exchange W → Result (EipStatus × Exchange W)
  unfolding get_attribute
  get_attribute_single own q x = get_found (attribute_of (get attribute q.path) own) q x

  abbrev pub set_found :
      Option (Attribute G S) → Request → Exchange W → Result (EipStatus × Exchange W)
  set_found none q x = ok (refuse attribute_not_supported x)
  set_found (some a) q x = set_attribute a q x

  unfoldable pub set_attribute_single :
      List (Attribute G S) → Request → Exchange W → Result (EipStatus × Exchange W)
  unfolding set_attribute
  set_attribute_single own q x = set_found (attribute_of (get attribute q.path) own) q x

-- Reset().
unfoldable pub reset : {W : Type 0} → Request → Exchange W → EipStatus × Exchange W
reset q x = if size q.data_range == 0 then (status_ok_send, x) else refuse invalid_parameter x
