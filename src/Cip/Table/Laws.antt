-- ===== src/Cip/Table/Laws.antt =====
-- Insertion and removal keep a vector sorted, and act on what is found in it as on a map.
use cipster.Base.{
  ℕ, ◌<◌, ◌≡◌, refl, sym, arith, ◌==◌, ==_iff, ltb, List, [], ◌∷◌, true, false, Option-cases, none,
  some, if◌then◌else◌, All, Bool-cases, inl, inr,
}
use cipster.Cip.Table.{insert_new, insert_over, remove}
use cipster.Cip.Table.Order.{Above, IsSorted, find_id, find_id-Above, Above-weaken}

module _ {ℓ} {A : Type ℓ} (id : A → ℕ) where
  insert_over-Above :
      (k : ℕ) (a : A) (xs : List A)
      → k < id a
      → All (Above id k) xs
      → All (Above id k) (insert_over id a xs)
  unfolding insert_over
  insert_over-Above k a [] h p = (h, _)
  insert_over-Above k a (x ∷ xs) h p = elim (Bool-cases (ltb (id a) (id x))) [
    | inl e ↦ rw e (h, p)
    | inr e ↦ rw e (elim (Bool-cases (id a == id x)) [
      | inl f ↦ rw f (h, p.1)
      | inr f ↦ rw f (p.0, insert_over-Above k a xs h p.1)
    ])
  ]

  -- A replaced or inserted item keeps the ids strictly growing.
  pub insert_over-IsSorted :
      (a : A) (xs : List A) → IsSorted id xs → IsSorted id (insert_over id a xs)
  unfolding insert_over
  insert_over-IsSorted a [] s = (_, _)
  insert_over-IsSorted a (x ∷ xs) s = elim (Bool-cases (ltb (id a) (id x))) [
    | inl e ↦
        rw e ((ground (arith, e), Above-weaken id (id a) (id x) xs (ground (arith, e)) s.0), s)
    | inr e ↦ rw e (elim (Bool-cases (id a == id x)) [
      | inl f ↦ rw f (rw ((==_iff (id a) (id x)).0 f) s.0, s.1)
      | inr f ↦
          rw f (
            insert_over-Above (id x) a xs (ground (arith, e, f)) s.0,
            insert_over-IsSorted a xs s.1,
          )
    ])
  ]

  pub find_id-insert_over :
      (target : ℕ) (a : A) (xs : List A)
      → IsSorted id xs
      → find_id id target (insert_over id a xs)
        ≡ (if id a == target then some a else find_id id target xs)
  unfolding insert_over
  find_id-insert_over target a [] s = refl
  find_id-insert_over target a (x ∷ xs) s = elim (Bool-cases (ltb (id a) (id x))) [
    | inl e ↦ rw e
    | inr e ↦ rw e (elim (Bool-cases (id a == id x)) [
      | inl f ↦ rw (f, (==_iff (id a) (id x)).0 f) (ground arith)
      | inr f ↦ rw (f, find_id-insert_over target a xs s.1) (ground (arith, f))
    ])
  ]

  -- A refused insertion: the id is taken. An accepted one is the insertion above.
  pub insert_new-insert_over :
      (a : A) (xs : List A)
      → IsSorted id xs
      → insert_new id a xs
        ≡ (elim (find_id id (id a) xs) [ none ↦ some (insert_over id a xs) | some x ↦ none ])
  unfolding insert_new insert_over
  insert_new-insert_over a [] s = refl
  insert_new-insert_over a (x ∷ xs) s = elim (Bool-cases (ltb (id a) (id x))) [
    | inl e ↦ rw (
      differ e,
      find_id-Above id (id a) xs (Above-weaken id (id a) (id x) xs (ground (arith, e)) s.0),
      insert_over,
      e,
    )
    | inr e ↦ rw e (elim (Bool-cases (id a == id x)) [
      | inl f ↦ rw (f, (==_iff (id x) (id a)).1 (sym ((==_iff (id a) (id x)).0 f)))
      | inr f ↦
          rw (f, differ' f, insert_new-insert_over a xs s.1)
            (elim (Option-cases (find_id id (id a) xs)) [
              | inl g ↦ rw (g, insert_over, e, f)
              | inr (y, g) ↦ rw g
            ])
    ])
  ]
    where
      differ : ltb (id a) (id x) ≡ true → (id x == id a) ≡ false
      differ h = ground (arith, h)

      differ' : (id a == id x) ≡ false → (id x == id a) ≡ false
      differ' h = ground (arith, h)

  remove-Above :
      (k target : ℕ) (xs : List A)
      → All (Above id k) xs
      → All (Above id k) ((remove id target xs).1)
  unfolding remove
  remove-Above k target [] p = p
  remove-Above k target (x ∷ xs) p = elim (Bool-cases (target == id x)) [
    | inl e ↦ rw e (p.1)
    | inr e ↦ rw e (p.0, remove-Above k target xs p.1)
  ]

  pub remove-IsSorted :
      (target : ℕ) (xs : List A) → IsSorted id xs → IsSorted id ((remove id target xs).1)
  unfolding remove
  remove-IsSorted target [] s = s
  remove-IsSorted target (x ∷ xs) s = elim (Bool-cases (target == id x)) [
    | inl e ↦ rw e (s.1)
    | inr e ↦ rw e (remove-Above (id x) target xs s.0, remove-IsSorted target xs s.1)
  ]

  -- What is removed is what was found.
  pub remove-find_id : (target : ℕ) (xs : List A) → (remove id target xs).0 ≡ find_id id target xs
  unfolding remove
  remove-find_id target [] = refl
  remove-find_id target (x ∷ xs) = elim (Bool-cases (target == id x)) [
    | inl e ↦ rw (e, (==_iff (id x) target).1 (sym ((==_iff target (id x)).0 e)))
    | inr e ↦ rw (e, flip e) (remove-find_id target xs)
  ]
    where
      flip : (target == id x) ≡ false → (id x == target) ≡ false
      flip h = ground (arith, h)

  pub find_id-remove :
      (k target : ℕ) (xs : List A)
      → IsSorted id xs
      → find_id id k ((remove id target xs).1) ≡ (if target == k then none else find_id id k xs)
  unfolding remove
  find_id-remove k target [] s = ground arith
  find_id-remove k target (x ∷ xs) s = elim (Bool-cases (target == id x)) [
    | inl e ↦ rw e (elim (Bool-cases (target == k)) [
      | inl f ↦
          rw f (
            find_id-Above id k xs
              (rw (sym ((==_iff target k).0 f), (==_iff target (id x)).0 e) s.0))
      | inr f ↦ let other : (id x == k) ≡ false = ground (arith, e, f) in rw (f, other)
    ])
    | inr e ↦ rw (e, find_id-remove k target xs s.1) (ground (arith, e))
  ]
