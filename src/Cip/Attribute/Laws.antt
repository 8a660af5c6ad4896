-- ===== src/Cip/Attribute/Laws.antt =====
-- The guard of AttributeInsert() and what it keeps apart.
use cipster.Base.{
  ℕ, ◌≡◌, ◌≢◌, refl, sym, ◌∙◌, arith, ◌==◌, ==_iff, ltb, List, [], ◌∷◌, Bool, Bool-cases, inl, inr,
  true, false, not, ◌&&◌, none, some, if◌then◌else◌,
}
use mathlib.Core.Path.{subst}
use cipster.Cip.Table.{insert_over}
use cipster.Cip.Table.Order.{IsSorted, find_id}
use cipster.Cip.Table.Laws.{insert_over-IsSorted, find_id-insert_over}
use cipster.Cip.Data.{type_code}
use cipster.Cip.Attribute.{
  Attribute, attribute_id_of, Sizes, cip_type_size, same_mode, is_byte_array_type, limit, clashes,
  clashes_any, attribute_insert,
}

and_swap : (a b : Bool) → (a && b) ≡ (b && a)
and_swap true true = refl
and_swap true false = refl
and_swap false true = refl
and_swap false false = refl

and_past : (a b c : Bool) → (a && (b && c)) ≡ (b && (a && c))
and_past true true c = refl
and_past true false c = refl
and_past false true c = refl
and_past false false c = refl

mode_swap : (a b : Bool) → same_mode a b ≡ same_mode b a
mode_swap true true = refl
mode_swap true false = refl
mode_swap false true = refl
mode_swap false false = refl

==_swap : (m n : ℕ) → (m == n) ≡ (n == m)
==_swap m n = ground arith

-- The two sides of a clash, exchanged.
exchange : (p m q r : Bool) → (p && (m && (q && r))) ≡ (q && (m && (p && r)))
exchange true true true r = refl
exchange true true false r = refl
exchange true false true r = refl
exchange true false false r = refl
exchange false true true r = refl
exchange false true false r = refl
exchange false false true r = refl
exchange false false false r = refl

-- What a guard that found nothing has seen.
passed :
    (same clash rest : Bool)
    → (if same then rest else (if clash then true else rest)) ≡ false
    → (rest ≡ false) × (same ≡ false → clash ≡ false)
passed true clash rest h = (h, λ e. cc)
passed false true rest h = cc
passed false false rest h = (h, λ e. refl)

differs : (m n : ℕ) → m ≢ n → (m == n) ≡ false
differs m n h = ground (arith, h)

unequal : (m n : ℕ) → (m == n) ≡ false → n ≢ m
unequal m n h = ground (arith, h)

-- No two attributes of the vector clash, unless they have one id.
pub record NoClash {G S : Type 0} (z : Sizes) (es : List (Attribute G S)) : Type 0 where
  pub agree :
      (a e : Attribute G S)
      → find_id attribute_id_of a.attribute_id es ≡ some a
      → find_id attribute_id_of e.attribute_id es ≡ some e
      → a.attribute_id ≢ e.attribute_id
      → clashes z a e ≡ false

module _ {G S : Type 0} (z : Sizes) where
  -- The guard does not depend on which of the two attributes came first.
  clashes-clashes : (a e : Attribute G S) → clashes z a e ≡ clashes z e a
  unfolding clashes
  clashes-clashes a e =
      rw
        (
          mode_swap e.is_offset_from_instance_start a.is_offset_from_instance_start,
          and_swap (ltb a.place (limit z e)) (ltb e.place (limit z a)),
          ==_swap (type_code a.type) (type_code e.type),
          and_swap (is_byte_array_type a.type) (is_byte_array_type e.type),
        )
        (exchange (not (cip_type_size z a.type == 0)) _ (not (cip_type_size z e.type == 0)) _)

  clashes-any :
      (a e : Attribute G S) (es : List (Attribute G S))
      → clashes_any z a es ≡ false
      → find_id attribute_id_of e.attribute_id es ≡ some e
      → e.attribute_id ≢ a.attribute_id
      → clashes z a e ≡ false
  unfolding clashes_any
  clashes-any a e [] h f d = cc
  clashes-any a e (x ∷ xs) h f d =
      let (rest, here) =
        passed (x.attribute_id == a.attribute_id) (clashes z a x) (clashes_any z a xs) h in
      elim (Bool-cases (x.attribute_id == e.attribute_id)) [
        | inl same ↦
            let it : some x ≡ some e =
              subst
                (λ (b : Bool).
                  (if b then some x else find_id attribute_id_of e.attribute_id xs) ≡ some e)
                same f in
            let x_is : x ≡ e = cc in
            rw (sym x_is) (
              here (
                subst (λ (y : Attribute G S). (y.attribute_id == a.attribute_id) ≡ false) (sym x_is)
                  (differs e.attribute_id a.attribute_id d)))
        | inr other ↦
            clashes-any a e xs rest
              (subst
                (λ (b : Bool).
                  (if b then some x else find_id attribute_id_of e.attribute_id xs) ≡ some e)
                other f)
              d
      ]

  found_in :
      (k : ℕ) (new e : Attribute G S) (es : List (Attribute G S))
      → IsSorted attribute_id_of es
      → find_id attribute_id_of k (insert_over attribute_id_of new es) ≡ some e
      → ((new.attribute_id == k) ≡ true → new ≡ e)
        × ((new.attribute_id == k) ≡ false → find_id attribute_id_of k es ≡ some e)
  found_in k new e es s f =
      let law = sym (find_id-insert_over attribute_id_of k new es s) ∙ f in
      (
        λ same.
            let it : some new ≡ some e =
              subst (λ (b : Bool). (if b then some new else find_id attribute_id_of k es) ≡ some e)
                same law in
            cc,
        λ other.
            subst (λ (b : Bool). (if b then some new else find_id attribute_id_of k es) ≡ some e)
              other law,
      )

  insert_over-NoClash :
      (new : Attribute G S) (es : List (Attribute G S))
      → IsSorted attribute_id_of es
      → NoClash z es
      → clashes_any z new es ≡ false
      → NoClash z (insert_over attribute_id_of new es)
  insert_over-NoClash new es s h guard = record {
    agree = λ a e fa fe d.
        let (a_new, a_old) = found_in a.attribute_id new a es s fa in
        let (e_new, e_old) = found_in e.attribute_id new e es s fe in
        elim (Bool-cases (new.attribute_id == a.attribute_id)) [
          | inl p ↦ elim (Bool-cases (new.attribute_id == e.attribute_id)) [
            | inl q ↦ absurd (
                d (
                  sym ((==_iff new.attribute_id a.attribute_id).0 p)
                  ∙ (==_iff new.attribute_id e.attribute_id).0 q))
            | inr q ↦
                rw (sym (a_new p))
                  (clashes-any new e es guard (e_old q) (unequal new.attribute_id e.attribute_id q))
          ]
          | inr p ↦ elim (Bool-cases (new.attribute_id == e.attribute_id)) [
            | inl q ↦
                clashes-clashes a e
                ∙ rw (sym (e_new q)) (
                    clashes-any new a es guard (a_old p)
                      (unequal new.attribute_id a.attribute_id p))
            | inr q ↦ h.agree a e (a_old p) (e_old q) d
          ]
        ];
  }

  attribute_insert-NoClash :
      (new : Attribute G S) (es ys : List (Attribute G S))
      → IsSorted attribute_id_of es
      → NoClash z es
      → attribute_insert z new es ≡ some ys
      → IsSorted attribute_id_of ys × NoClash z ys
  unfolding attribute_insert
  attribute_insert-NoClash new es ys s h e = elim (Bool-cases (clashes_any z new es)) [
    | inl clash ↦
        let it : none ≡ some ys =
          subst
            (λ (b : Bool).
              (if b then none else some (insert_over attribute_id_of new es)) ≡ some ys)
            clash e in
        cc
    | inr free ↦
        let it : some (insert_over attribute_id_of new es) ≡ some ys =
          subst
            (λ (b : Bool).
              (if b then none else some (insert_over attribute_id_of new es)) ≡ some ys)
            free e in
        let ys_are : insert_over attribute_id_of new es ≡ ys = cc in
        subst (λ (xs : List (Attribute G S)). IsSorted attribute_id_of xs × NoClash z xs) ys_are
          (insert_over-IsSorted attribute_id_of new es s, insert_over-NoClash new es s h free)
  ]

-- The attributes of a class that began without any: an insertion that is refused leaves them.
pub data Grown {G S : Type 0} (z : Sizes) : List (Attribute G S) → Type 0 where
  began : Grown z []
  inserted :
      (new : Attribute G S) (es ys : List (Attribute G S))
      → Grown z es
      → attribute_insert z new es ≡ some ys
      → Grown z ys

pub Grown-NoClash :
    {G S : Type 0} (z : Sizes) {es : List (Attribute G S)}
    → Grown z es
    → IsSorted attribute_id_of es × NoClash z es
Grown-NoClash z began = (_, record { agree = λ a e f g d. cc })
Grown-NoClash z (inserted new es ys g e) =
    let (sorted, apart) = Grown-NoClash z g in attribute_insert-NoClash z new es ys sorted apart e
