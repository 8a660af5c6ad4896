-- ===== src/Epath/AppPath.antt =====
-- class CipAppPath of cip/cipepath.h and cip/cipepath.cc. `stuff[]`, `tag` and the bits of `pbits`
-- are separate, as in the source: a value stays in `stuff[]` when its bit is cleared. `tag` is the
-- C string up to its NUL. The `int` values of `stuff[]` are taken as their 32 bit patterns.
pub mod Serialize
pub mod Deserialize
pub mod Encode
pub mod Size
pub mod Padding
pub mod Boundary
pub mod Flat
pub mod Segments
pub mod RoundTrip
pub mod Copy
pub mod Total
use cipster.Base.{
  ℕ, zero, suc, ◌+◌, ◌%◌, ◌==◌, ltb, leb, List, [], ◌∷◌, ◌++◌, Bool, true, false, not, ◌&&◌, ◌||◌,
  Option, none, some, if◌then◌else◌, length, drop, bit_and, Result, ok, throws, runtime_error,
  out_of_fuel, ◌>>=◌,
}
use cipster.Bytes.Writer.{Writer, written, put8, append}
use cipster.Bytes.Reader.{Reader, size, consumed, get8, get_bytes, peek, next}
use cipster.Epath.Flags.{omits_class, omits_instance, omits_conn_pt}
use cipster.Epath.Logical.{
  class_segment, instance_segment, member_segment, conn_pt_segment, attribute_segment,
  serialize_logical, deserialize_logical,
}

-- enum Stuff.
pub data Stuff : Type 0 where
  attribute conn_pt instance_id class_id member1 member2 member3 : Stuff

abbrev pub rank : Stuff → ℕ
rank attribute = 0
rank conn_pt = 1
rank instance_id = 2
rank class_id = 3
rank member1 = 4
rank member2 = 5
rank member3 = 6

-- LOGICAL_END.
abbrev pub logical_end : ℕ
logical_end = 4

-- A slot for each member of the enum: the array `stuff[]`, and the bits of `pbits` below TAG.
pub record Slots {ℓ} (A : Type ℓ) : Type ℓ where
  pub attribute_slot : A
  pub conn_pt_slot : A
  pub instance_slot : A
  pub class_slot : A
  pub member1_slot : A
  pub member2_slot : A
  pub member3_slot : A

module _ {ℓ} {A : Type ℓ} where
  abbrev pub slot : Stuff → Slots A → A
  slot attribute s = s.attribute_slot
  slot conn_pt s = s.conn_pt_slot
  slot instance_id s = s.instance_slot
  slot class_id s = s.class_slot
  slot member1 s = s.member1_slot
  slot member2 s = s.member2_slot
  slot member3 s = s.member3_slot

  abbrev pub with_slot : Stuff → A → Slots A → Slots A
  with_slot attribute a s = record s { attribute_slot = a }
  with_slot conn_pt a s = record s { conn_pt_slot = a }
  with_slot instance_id a s = record s { instance_slot = a }
  with_slot class_id a s = record s { class_slot = a }
  with_slot member1 a s = record s { member1_slot = a }
  with_slot member2 a s = record s { member2_slot = a }
  with_slot member3 a s = record s { member3_slot = a }

  abbrev pub all_slots : A → Slots A
  all_slots a = record {
    attribute_slot = a;
    conn_pt_slot = a;
    instance_slot = a;
    class_slot = a;
    member1_slot = a;
    member2_slot = a;
    member3_slot = a;
  }

pub record AppPath : Type 0 where
  pub pbits : Slots Bool
  pub has_symbol : Bool
  pub stuff : Slots ℕ
  pub tag : List ℕ

-- A constructed path. The source leaves `stuff[]` unset.
abbrev pub blank : AppPath
blank = record { pbits = all_slots false; has_symbol = false; stuff = all_slots 0; tag = [] }

abbrev pub has : Stuff → AppPath → Bool
has s p = slot s p.pbits

-- GetClass(), GetInstance() and their kind.
abbrev pub get : Stuff → AppPath → ℕ
get s p = if has s p then slot s p.stuff else 0

-- SetClass(), SetInstance() and their kind.
abbrev pub set_stuff : Stuff → ℕ → AppPath → AppPath
set_stuff s v p = record p { pbits = with_slot s true p.pbits; stuff = with_slot s v p.stuff }

abbrev pub clear : AppPath → AppPath
clear p = record p { pbits = all_slots false; has_symbol = false }

abbrev pub has_any : AppPath → Bool
has_any p =
    has attribute p
    || (has conn_pt p
        || (has instance_id p
            || (has class_id p
                || (has member1 p || (has member2 p || (has member3 p || p.has_symbol))))))

abbrev pub assembly_class : ℕ
assembly_class = 4

abbrev pub is_sufficient : AppPath → Bool
is_sufficient p =
    if get class_id p == assembly_class
    then has class_id p && (has instance_id p || has conn_pt p)
    else has class_id p && has instance_id p

abbrev pub get_instance_or_conn_pt : AppPath → ℕ
get_instance_or_conn_pt p =
    if get class_id p == assembly_class
    then (if has instance_id p then get instance_id p else get conn_pt p)
    else get instance_id p

-- `operator=`: the values come along only if the other path has a class.
unfoldable pub assign : AppPath → AppPath → AppPath
assign self other = record {
  pbits = other.pbits;
  has_symbol = other.has_symbol;
  stuff = if has class_id other then other.stuff else self.stuff;
  tag = if other.has_symbol then other.tag else self.tag;
}

-- `strcmp` gives 0.
abbrev pub same_text : List ℕ → List ℕ → Bool
same_text [] [] = true
same_text [] (b ∷ bs) = false
same_text (a ∷ xs) [] = false
same_text (a ∷ xs) (b ∷ bs) = (a == b) && same_text xs bs

abbrev pub same_bit : Bool → Bool → Bool
same_bit true b = b
same_bit false b = not b

abbrev same_bits : AppPath → AppPath → Bool
same_bits p q =
    same_bit (has attribute p) (has attribute q)
    && (same_bit (has conn_pt p) (has conn_pt q)
        && (same_bit (has instance_id p) (has instance_id q)
            && (same_bit (has class_id p) (has class_id q)
                && (same_bit (has member1 p) (has member1 q)
                    && (same_bit (has member2 p) (has member2 q)
                        && (same_bit (has member3 p) (has member3 q)
                            && same_bit p.has_symbol q.has_symbol))))))

abbrev differs : Stuff → AppPath → AppPath → Bool
differs s p q = has s p && not (slot s p.stuff == slot s q.stuff)

-- `operator==`.
unfoldable pub same_path : AppPath → AppPath → Bool
same_path p q =
    if not (same_bits p q)
    then false
    else if differs class_id p q
    then false
    else if differs instance_id p q
    then false
    else if differs attribute p q
    then false
    else if differs conn_pt p q
    then false
    else if p.has_symbol && not (same_text p.tag q.tag)
    then false
    else true

-- SetSymbol() on a string without its NUL. `tag` holds 42 bytes with it.
abbrev pub tag_size : ℕ
tag_size = 42

unfoldable pub set_symbol : List ℕ → AppPath → AppPath × Bool
set_symbol s p =
    if ltb 41 (length s) then (p, false) else (record p { tag = s; has_symbol = true }, true)
