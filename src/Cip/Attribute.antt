-- ===== src/Cip/Attribute.antt =====
-- class CipAttribute of cip/cipattribute.h, and the insertion of attributes into a class by
-- CipClass::AttributeInsert() of cip/cipclass.cc with its guard against two attributes of different
-- types on the same storage. The sizes of std::string and of the structs are the platform's.
pub mod Laws
pub mod Alias
use cipster.Base.{
  ℕ, ◌+◌, ◌^◌, ◌==◌, ltb, List, [], ◌∷◌, Bool, true, false, not, ◌&&◌, ◌||◌, Option, none, some,
  if◌then◌else◌, bit_or,
}
use cipster.Cip.Table.{insert_over, vec_search}
use cipster.Cip.Data.{
  CipDataType, Shape, bits8, bits16, bits32, bits64, text, short_text, wide_text, revision,
  six_bytes, byte_array, array_length, opaque, shape_of, type_code,
}

-- `place` is `where`. What the getter and the setter do is of the types G and S.
pub record Attribute (G S : Type 0) : Type 0 where
  pub attribute_id : ℕ
  pub type : CipDataType
  pub is_getable_all : Bool
  pub place : ℕ
  pub getter : Option G
  pub setter : Option S
  pub is_offset_from_instance_start : Bool

abbrev pub attribute_id_of : {G S : Type 0} → Attribute G S → ℕ
attribute_id_of a = a.attribute_id

-- The sizes that the platform gives.
pub record Sizes : Type 0 where
  pub revision_size : ℕ
  pub array_size : ℕ
  pub string_size : ℕ

abbrev pub shape_size : Sizes → Shape → ℕ
shape_size z bits8 = 1
shape_size z bits16 = 2
shape_size z bits32 = 4
shape_size z bits64 = 8
shape_size z text = z.string_size
shape_size z short_text = z.string_size
shape_size z wide_text = z.string_size
shape_size z revision = z.revision_size
shape_size z six_bytes = 6
shape_size z byte_array = z.array_size
shape_size z array_length = z.array_size
shape_size z opaque = 0

-- CipTypeSize().
abbrev pub cip_type_size : Sizes → CipDataType → ℕ
cip_type_size z t = shape_size z (shape_of t)

-- isByteArrayType().
abbrev pub is_byte_array_shape : Shape → Bool
is_byte_array_shape byte_array = true
is_byte_array_shape array_length = true
is_byte_array_shape _ = false

abbrev pub is_byte_array_type : CipDataType → Bool
is_byte_array_type t = is_byte_array_shape (shape_of t)

abbrev pub same_mode : Bool → Bool → Bool
same_mode true b = b
same_mode false b = not b

module _ {G S : Type 0} (z : Sizes) where
  abbrev pub limit : Attribute G S → ℕ
  limit a = a.place + cip_type_size z a.type

  -- Storage that overlaps under types that do not agree.
  unfoldable pub clashes : Attribute G S → Attribute G S → Bool
  clashes a e =
      not (cip_type_size z a.type == 0)
      && (same_mode e.is_offset_from_instance_start a.is_offset_from_instance_start
          && (not (cip_type_size z e.type == 0)
              && ((ltb a.place (limit e) && ltb e.place (limit a))
                  && (not (type_code a.type == type_code e.type)
                      && not (is_byte_array_type a.type && is_byte_array_type e.type)))))

  -- The loop of the guard, which passes over an attribute of the same id.
  unfoldable pub clashes_any : Attribute G S → List (Attribute G S) → Bool
  unfolding clashes
  clashes_any a [] = false
  clashes_any a (e ∷ es) =
      let rest = clashes_any a es in
      if e.attribute_id == a.attribute_id then rest else if clashes a e then true else rest

  -- AttributeInsert(): the new vector, or `none` for false.
  unfoldable pub attribute_insert :
      Attribute G S → List (Attribute G S) → Option (List (Attribute G S))
  unfolding clashes_any insert_over
  attribute_insert a as_is =
      if clashes_any a as_is then none else some (insert_over attribute_id_of a as_is)

  -- The mask of the attributes of GetAttributeAll: a bit is set, and none is cleared.
  abbrev pub getable_all_mask : Attribute G S → ℕ → ℕ
  getable_all_mask a mask =
      if ltb a.attribute_id 32 && a.is_getable_all then bit_or mask (2 ^ a.attribute_id) else mask

-- Attribute().
abbrev pub attribute_of : {G S : Type 0} → ℕ → List (Attribute G S) → Option (Attribute G S)
attribute_of k as_are = vec_search attribute_id_of k as_are
