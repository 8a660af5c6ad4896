-- ===== src/Cip/Table/Order.antt =====
-- A sorted vector, and what a linear search finds in it.
use cipster.Base.{
  ℕ, zero, suc, ◌<◌, ◌≤◌, ◌≡◌, ◌≢◌, refl, sym, arith, ◌==◌, ==_iff, List, [], ◌∷◌, Option, none,
  some, if◌then◌else◌, get_elem?, All, Bool-cases, inl, inr,
}

module _ {ℓ} {A : Type ℓ} (id : A → ℕ) where
  abbrev pub Above : ℕ → A → Type 0
  Above k x = k < id x

  -- Ids grow strictly.
  abbrev pub IsSorted : List A → Type 0
  IsSorted [] = Unit {0}
  IsSorted (x ∷ xs) = All (Above (id x)) xs × IsSorted xs

  -- The first item with an id.
  abbrev pub find_id : ℕ → List A → Option A
  find_id target [] = none
  find_id target (x ∷ xs) = let rest = find_id target xs in if id x == target then some x else rest

  pub Above-weaken : (j k : ℕ) (xs : List A) → j ≤ k → All (Above k) xs → All (Above j) xs
  Above-weaken j k [] h p = p
  Above-weaken j k (x ∷ xs) h p = (omega (arith, p.0), Above-weaken j k xs h p.1)

  pub Above-at :
      (k : ℕ) (xs : List A) (i : ℕ) (x : A) → All (Above k) xs → get_elem? xs i ≡ some x → k < id x
  Above-at k [] i x p e = cc
  Above-at k (y ∷ ys) zero x p e = let q : y ≡ x = cc in rw (sym q) p.0
  Above-at k (y ∷ ys) (suc i) x p e = Above-at k ys i x p.1 e

  pub id-lt :
      (xs : List A) (i j : ℕ) (x y : A)
      → IsSorted xs
      → get_elem? xs i ≡ some x
      → get_elem? xs j ≡ some y
      → i < j
      → id x < id y
  id-lt [] i j x y s e f h = cc
  id-lt (z ∷ zs) i zero x y s e f h = absurd (omega arith)
  id-lt (z ∷ zs) zero (suc j) x y s e f h =
      let q : z ≡ x = cc in rw (sym q) (Above-at (id z) zs j y s.0 f)
  id-lt (z ∷ zs) (suc i) (suc j) x y s e f h = id-lt zs i j x y s.1 e f (omega arith)

  pub find_id-Above : (target : ℕ) (xs : List A) → All (Above target) xs → find_id target xs ≡ none
  find_id-Above target [] p = refl
  find_id-Above target (x ∷ xs) p = ground (arith, p.0, find_id-Above target xs p.1)

  pub find_id-at :
      (target : ℕ) (xs : List A) (i : ℕ) (x : A)
      → IsSorted xs
      → get_elem? xs i ≡ some x
      → id x ≡ target
      → find_id target xs ≡ some x
  find_id-at target [] i x s e h = cc
  find_id-at target (y ∷ ys) zero x s e h = let q : y ≡ x = cc in rw (q, (==_iff (id x) target).1 h)
  find_id-at target (y ∷ ys) (suc i) x s e h =
      let low : id y < id x = Above-at (id y) ys i x s.0 e in
      elim (Bool-cases (id y == target)) [
        | inl f ↦ absurd (omega (arith, (==_iff (id y) target).0 f))
        | inr f ↦ rw f (find_id-at target ys i x s.1 e h)
      ]

  pub find_id-none :
      (target : ℕ) (xs : List A)
      → ((i : ℕ) (x : A) → get_elem? xs i ≡ some x → id x ≢ target)
      → find_id target xs ≡ none
  find_id-none target [] h = refl
  find_id-none target (x ∷ xs) h = elim (Bool-cases (id x == target)) [
    | inl f ↦ absurd (h 0 x refl ((==_iff (id x) target).0 f))
    | inr f ↦ rw f (find_id-none target xs (λ i y e. h (suc i) y e))
  ]
