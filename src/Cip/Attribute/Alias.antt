-- ===== src/Cip/Attribute/Alias.antt =====
-- No two attributes of a class share storage under types that do not agree.
use cipster.Base.{
  ℕ, ◌+◌, ◌≤◌, ◌<◌, ◌⊎◌, IsIn, ◌≡◌, ◌≢◌, refl, sym, ◌∙◌, arith, ◌==◌, ==_iff, ltb, lt→ltb, List,
  Bool, Bool-cases, inl, inr, true, false, not, ◌&&◌,
}
use cipster.Cip.Table.Order.{IsSorted, find_id-at}
use cipster.Cip.Data.{CipDataType, type_code}
use cipster.Cip.Attribute.{
  Attribute, attribute_id_of, Sizes, cip_type_size, same_mode, is_byte_array_type, limit, clashes,
}
use cipster.Cip.Attribute.Laws.{Grown, Grown-NoClash}

-- A byte of storage: it stands at an address of its own or at an offset in the instance.
abbrev pub HasByte : {G S : Type 0} → Sizes → Attribute G S → ℕ → Type 0
HasByte z a b = (a.place ≤ b) × (b < a.place + cip_type_size z a.type)

-- Two types of one code, or both with a byte array behind them.
abbrev pub Agree : CipDataType → CipDataType → Type 0
Agree t u =
    (type_code t ≡ type_code u) ⊎ ((is_byte_array_type t ≡ true) × (is_byte_array_type u ≡ true))

-- Two attributes of the vector that have a byte in common have types that agree, unless they have one
-- id.
pub record NoAlias {G S : Type 0} (z : Sizes) (es : List (Attribute G S)) : Type 0 where
  pub agree :
      (a e : Attribute G S) (b : ℕ)
      → IsIn a es
      → IsIn e es
      → a.attribute_id ≢ e.attribute_id
      → a.is_offset_from_instance_start ≡ e.is_offset_from_instance_start
      → HasByte z a b
      → HasByte z e b
      → Agree a.type e.type

same_mode_refl : (b : Bool) → same_mode b b ≡ true
same_mode_refl true = refl
same_mode_refl false = refl

-- A clash of two attributes that share a byte comes down to their types.
shared_clash :
    {G S : Type 0} (z : Sizes) (a e : Attribute G S) (b : ℕ)
    → a.is_offset_from_instance_start ≡ e.is_offset_from_instance_start
    → HasByte z a b
    → HasByte z e b
    → clashes z a e ≡ (
        not (type_code a.type == type_code e.type)
        && not (is_byte_array_type a.type && is_byte_array_type e.type))
unfolding clashes
shared_clash z a e b mode (lo, hi) (lo', hi') =
    let some_size : (cip_type_size z a.type == 0) ≡ false = ground (arith, lo, hi) in
    let some_other : (cip_type_size z e.type == 0) ≡ false = ground (arith, lo', hi') in
    let before : ltb a.place (limit z e) ≡ true = lt→ltb _ _ (omega (arith, lo, hi')) in
    let behind : ltb e.place (limit z a) ≡ true = lt→ltb _ _ (omega (arith, lo', hi)) in
    rw (some_size, some_other, before, behind, mode, same_mode_refl e.is_offset_from_instance_start)
      refl

shared-Agree :
    {G S : Type 0} (z : Sizes) (a e : Attribute G S) (b : ℕ)
    → clashes z a e ≡ false
    → a.is_offset_from_instance_start ≡ e.is_offset_from_instance_start
    → HasByte z a b
    → HasByte z e b
    → Agree a.type e.type
shared-Agree z a e b h mode x y =
    let types = sym (shared_clash z a e b mode x y) ∙ h in
    elim (Bool-cases (type_code a.type == type_code e.type)) [
      | inl same ↦ inl ((==_iff (type_code a.type) (type_code e.type)).0 same)
      | inr other ↦ elim (Bool-cases (is_byte_array_type a.type)) [
        | inl array ↦ elim (Bool-cases (is_byte_array_type e.type)) [
          | inl array' ↦ inr (array, array')
          | inr plain' ↦ cc (rw (other, array, plain') at types)
        ]
        | inr plain ↦ cc (rw (other, plain) at types)
      ]
    ]

-- However the attributes of a class were inserted, overridden ones included, they are sorted by
-- ids of which none stands twice, and two of them that have a byte of storage in common, at an
-- absolute place or in the instance, have the same CIP type or are both byte arrays. The bytes of
-- an attribute are those that CipTypeSize() says: one of a type of size 0 has none.
pub Grown-NoAlias :
    {G S : Type 0} (z : Sizes) {es : List (Attribute G S)}
    → Grown z es
    → IsSorted attribute_id_of es × NoAlias z es
Grown-NoAlias z {es} g =
    let (sorted, apart) = Grown-NoClash z g in
    (
      sorted,
      record {
        agree = λ a e b (i, at) (j, there) other mode x y.
            shared-Agree z a e b
              (apart.agree a e (find_id-at attribute_id_of a.attribute_id es i a sorted at refl)
                (find_id-at attribute_id_of e.attribute_id es j e sorted there refl) other)
              mode x y;
      },
    )
