-- ===== src/Epath/AppPath/Deserialize.antt =====
-- CipAppPath::DeserializeAppPath() of cip/cipepath.cc, and what it calls. Each returns the path and
-- the reader behind the bytes that it took; the count that the source returns is their number. A
-- path half filled when an exception is thrown is dropped.
use cipster.Base.{
  ℕ, zero, suc, ◌%◌, ◌==◌, ltb, leb, List, [], ◌∷◌, Bool, true, not, ◌&&◌, Option, none, some,
  if◌then◌else◌, drop, bit_and, Result, ok, throws, runtime_error, out_of_fuel, ◌>>=◌,
}
use cipster.Bytes.Reader.{Reader, consumed, get8, get_bytes, peek, next}
use cipster.Epath.Logical.{
  class_segment, instance_segment, member_segment, conn_pt_segment, attribute_segment,
  deserialize_logical,
}
use cipster.Epath.AppPath.{
  AppPath, Stuff, attribute, conn_pt, instance_id, class_id, member1, member2, member3, rank,
  logical_end, has, slot, get, set_stuff, clear, assembly_class,
}
use cipster.Epath.AppPath.Serialize.{ansi_symbol}

-- `tag[byte_count] = 0` ends the string there; a NUL before that ends it earlier.
abbrev pub c_string : List ℕ → List ℕ
c_string [] = []
c_string (b ∷ bs) = if b == 0 then [] else b ∷ c_string bs

-- A pad byte is skipped after an odd number of bytes.
unfoldable pub skip_to_even : Reader → Reader → Result Reader
unfolding next
skip_to_even start r = if consumed start r % 2 == 1 then next r else ok r

-- The bytes of a symbol of a known length, and its pad byte.
unfoldable pub read_symbol : Reader → ℕ → Reader → AppPath → Result (AppPath × Reader)
unfolding get_bytes skip_to_even
read_symbol start n r p = do
  (text, r₁) ← get_bytes n r
  r₂ ← skip_to_even start r₁
  ok (record p { tag = c_string text; has_symbol = true }, r₂)

unfoldable pub deserialize_symbolic : Reader → AppPath → Result (AppPath × Reader)
unfolding peek next get8 read_symbol
deserialize_symbolic r p = do
  first ← peek r
  if first == ansi_symbol
      then (do
        r₁ ← next r
        (byte_count, r₂) ← get8 r₁
        if ltb 41 byte_count then throws runtime_error else read_symbol r byte_count r₂ p)
      else if bit_and first 0xe0 == 0x60
      then (do r₁ ← next r; read_symbol r (bit_and first 0x1f) r₁ p)
      else ok (p, r)

-- A logical segment whose first byte is eaten.
unfoldable pub read_logical : ℕ → Stuff → ℕ → Reader → AppPath → Result (AppPath × Reader)
unfolding deserialize_logical
read_logical ctl field format r p = do
  (value, r₁) ← deserialize_logical ctl format r
  ok (set_stuff field value p, r₁)

-- The optional connection point behind a symbol.
unfoldable pub symbol_conn_pt : ℕ → Reader → AppPath → Result (AppPath × Reader)
unfolding peek next read_logical
symbol_conn_pt ctl r p = do
  first ← peek r
  if bit_and first 0xfc == conn_pt_segment
      then (do r₁ ← next r; read_logical ctl conn_pt (bit_and first 3) r₁ p)
      else ok (p, r)

-- The loop over MEMBER1, MEMBER2 and MEMBER3.
unfoldable pub symbol_members : List Stuff → ℕ → Reader → AppPath → Result (AppPath × Reader)
unfolding peek next read_logical
symbol_members [] ctl r p = ok (p, r)
symbol_members (m ∷ ms) ctl [] p = ok (p, [])
symbol_members (m ∷ ms) ctl (first ∷ r) p =
    let rest = (do
      (p₁, r₁) ← read_logical ctl m (bit_and first 3) r p
      symbol_members ms ctl r₁ p₁) in
    if bit_and first 0xfc == member_segment then rest else ok (p, first ∷ r)

abbrev pub members : List Stuff
members = member1 ∷ member2 ∷ member3 ∷ []

unfoldable pub symbol_tail : ℕ → Reader → AppPath → Result (AppPath × Reader)
unfolding symbol_conn_pt symbol_members
symbol_tail ctl [] p = ok (p, [])
symbol_tail ctl (b ∷ r) p = do
  (p₁, r₁) ← symbol_conn_pt ctl (b ∷ r) p
  symbol_members members ctl r₁ p₁

-- The member of `stuff[]` that a logical segment type fills.
unfoldable pub segment_field : ℕ → Option Stuff
segment_field seg =
    if seg == class_segment
    then some class_id
    else if seg == instance_segment
    then some instance_id
    else if seg == attribute_segment
    then some attribute
    else if seg == conn_pt_segment
    then some conn_pt
    else none

-- An assembly path takes an instance or a connection point, not both.
abbrev pub assembly_boundary : AppPath → ℕ → Stuff → Bool
assembly_boundary p last field =
    (get class_id p == assembly_class)
    && ((last == rank instance_id) && (rank field == rank conn_pt))

-- The loop over the logical segments. `last` is the rank of `last_member`, which falls with every
-- segment taken, so the loop takes at most as many rounds as LOGICAL_END counts.
unfoldable pub logical_loop : ℕ → ℕ → ℕ → Reader → AppPath → Result (AppPath × (ℕ × Reader))
unfolding read_logical segment_field
logical_loop fuel ctl last [] p = ok (p, (last, []))
logical_loop zero ctl last (first ∷ r) p = throws out_of_fuel
logical_loop (suc fuel) ctl last (first ∷ r) p =
    let leave : Result (AppPath × (ℕ × Reader)) = ok (p, (last, first ∷ r)) in
    elim (segment_field (bit_and first 0xfc)) [
      | none ↦ leave
      | some field ↦
          let taken : Result (AppPath × (ℕ × Reader)) = (do
            (p₁, r₁) ← read_logical ctl field (bit_and first 3) r p
            logical_loop fuel ctl (rank field) r₁ p₁) in
          if assembly_boundary p last field
          then leave
          else if leb last (rank field)
          then leave
          else taken
    ]

-- One field of inherit() and inherit_assembly().
abbrev pub inherit_field : AppPath → Stuff → AppPath → AppPath
inherit_field previous field p =
    if not (has field p) && has field previous
    then set_stuff field (slot field previous.stuff) p
    else p

abbrev logical_fields : List Stuff
logical_fields = attribute ∷ conn_pt ∷ instance_id ∷ class_id ∷ []

abbrev inherit_fields : AppPath → List Stuff → AppPath → AppPath
inherit_fields previous [] p = p
inherit_fields previous (field ∷ fields) p =
    inherit_fields previous fields (inherit_field previous field p)

-- `for( i = aStart; i < LOGICAL_END; ++i )`.
unfoldable pub inherit : ℕ → AppPath → AppPath → AppPath
inherit start previous p = inherit_fields previous (drop start logical_fields) p

-- A start at INSTANCE skips INSTANCE itself.
unfoldable pub inherit_assembly : ℕ → AppPath → AppPath → AppPath
inherit_assembly start previous p =
    if start == rank instance_id
    then inherit_fields previous (class_id ∷ []) p
    else inherit_fields previous (drop start logical_fields) p

abbrev pub inherit_from : Option AppPath → ℕ → AppPath → AppPath
inherit_from none last p = p
inherit_from (some previous) last p =
    if get class_id previous == assembly_class
    then inherit_assembly (suc last) previous p
    else inherit (suc last) previous p

unfoldable pub deserialize : ℕ → Option AppPath → Reader → AppPath → Result (AppPath × Reader)
unfolding deserialize_symbolic symbol_tail logical_loop inherit inherit_assembly
deserialize ctl previous r self = do
  (p, r₁) ← deserialize_symbolic r (clear self)
  if ltb 0 (consumed r r₁) then symbol_tail ctl r₁ p else (do
    (p₂, (last, r₂)) ← logical_loop 5 ctl logical_end r₁ p
    if ltb 0 (consumed r r₂) then ok (inherit_from previous last p₂, r₂) else ok (p₂, r₂))
