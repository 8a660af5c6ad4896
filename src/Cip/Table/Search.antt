-- ===== src/Cip/Table/Search.antt =====
-- The binary searches agree with a linear search of a sorted vector.
use cipster.Base.{
  ℕ, zero, suc, ◌+◌, ◌<◌, ◌≤◌, ◌≡◌, refl, sym, ap, ◌∙◌, arith, ltb, le→ltb, lt→ltb, List, [], ◌∷◌,
  false, none, some, length, get_elem?, Bool-cases, inl, inr,
}
use native.Mathlib.Decide.{dec_lt}
use cipster.Cip.Table.{middle, search_loop, vec_search, gte_loop, vec_search_gte}
use cipster.Cip.Table.Order.{IsSorted, find_id, find_id-at, find_id-none, id-lt}

pub get_elem?-some {ℓ} :
    {A : Type ℓ} (xs : List A) (i : ℕ) → i < length xs → (x : A) × (get_elem? xs i ≡ some x)
get_elem?-some [] i h = absurd (omega arith)
get_elem?-some (x ∷ xs) zero h = (x, refl)
get_elem?-some (x ∷ xs) (suc i) h = get_elem?-some xs i (omega arith)

same_item {ℓ} :
    {A : Type ℓ} (xs : List A) (m i : ℕ) (x y : A)
    → get_elem? xs m ≡ some x
    → get_elem? xs i ≡ some y
    → i ≡ m
    → y ≡ x
same_item xs m i x y e f same =
    let found : some y ≡ some x = sym f ∙ ap (get_elem? xs) same ∙ e in cc

module _ {ℓ} {A : Type ℓ} (id : A → ℕ) where
  -- What is in front of the range is below the target, what is behind it above.
  record Brackets (xs : List A) (target begin end : ℕ) : Type ℓ where
    inside : end ≤ length xs
    below : (i : ℕ) (x : A) → get_elem? xs i ≡ some x → i < begin → id x < target
    above : (i : ℕ) (x : A) → get_elem? xs i ≡ some x → end ≤ i → target < id x

  middle-lt :
      (begin end : ℕ) → begin < end → (begin ≤ middle id begin end) × (middle id begin end < end)
  middle-lt begin end h = (omega arith, omega arith)

  lower_half :
      {xs : List A} {target begin end : ℕ} (m : ℕ) (x : A)
      → IsSorted id xs
      → Brackets xs target begin end
      → m < end
      → get_elem? xs m ≡ some x
      → target < id x
      → Brackets xs target begin m
  lower_half {xs = xs} {target = target} m x sorted b h e l = record {
    inside = omega (arith, b.inside, h);
    below = b.below;
    above = λ i y f k. elim (dec_lt m i) [
      | yes q ↦ omega (arith, l, id-lt id xs m i x y sorted e f q)
      | no q ↦ rw (same_item xs m i x y e f (omega arith)) l
    ];
  }

  upper_half :
      {xs : List A} {target begin end : ℕ} (m : ℕ) (x : A)
      → IsSorted id xs
      → Brackets xs target begin end
      → get_elem? xs m ≡ some x
      → id x < target
      → Brackets xs target (m + 1) end
  upper_half {xs = xs} {target = target} m x sorted b e l = record {
    inside = b.inside;
    below = λ i y f k. elim (dec_lt i m) [
      | yes q ↦ omega (arith, l, id-lt id xs i m y x sorted f e q)
      | no q ↦ rw (same_item xs m i x y e f (omega arith)) l
    ];
    above = b.above;
  }

  empty_range :
      {xs : List A} {target begin end : ℕ}
      → Brackets xs target begin end
      → end ≤ begin
      → find_id id target xs ≡ none
  empty_range {xs = xs} {target = target} {begin = begin} b h = find_id-none id target xs (λ i x e.
      elim (dec_lt i begin) [
        | yes q ↦ λ f. absurd (omega (arith, b.below i x e q, f))
        | no q ↦ λ f. absurd (omega (arith, b.above i x e (omega arith), f))
      ])

  same_id :
      (x : A) (target : ℕ) → ltb target (id x) ≡ false → ltb (id x) target ≡ false → id x ≡ target
  same_id x target p q = ground (arith, p, q)

  search_loop-find_id :
      (xs : List A) (target rounds begin end : ℕ)
      → IsSorted id xs
      → Brackets xs target begin end
      → end ≤ begin + rounds
      → search_loop id xs target rounds begin end ≡ find_id id target xs
  unfolding search_loop
  search_loop-find_id xs target zero begin end sorted b h = sym (empty_range b (omega arith))
  search_loop-find_id xs target (suc rounds) begin end sorted b h = elim (dec_lt begin end) [
    | no q ↦ rw (le→ltb begin end (omega arith), empty_range b (omega arith))
    | yes q ↦
        let m = middle id begin end in
        let (low, high) = middle-lt begin end q in
        let (x, e) = get_elem?-some xs m (omega (arith, b.inside, high)) in
        rw (lt→ltb begin end q, e)
          (elim (Bool-cases (ltb target (id x))) [
            | inl l ↦ rw l (
                search_loop-find_id xs target rounds begin m sorted
                  (lower_half m x sorted b high e (ground (arith, l))) (omega (arith, low, high)))
            | inr g ↦ rw g (elim (Bool-cases (ltb (id x) target)) [
              | inl l ↦ rw l (
                  search_loop-find_id xs target rounds (m + 1) end sorted
                    (upper_half m x sorted b e (ground (arith, l))) (omega (arith, low, high)))
              | inr l ↦ rw l (sym (find_id-at id target xs m x sorted e (same_id x target g l)))
            ])
          ])
  ]

  whole : (xs : List A) (target : ℕ) → Brackets xs target 0 (length xs)
  whole xs target = record {
    inside = omega arith;
    below = λ i x e h. absurd (omega arith);
    above = λ i x e h. absurd (beyond xs i x e h);
  }
    where
      beyond : (ys : List A) (j : ℕ) (y : A) → get_elem? ys j ≡ some y → length ys ≤ j → ⊥
      beyond [] j y e h = cc
      beyond (z ∷ zs) zero y e h = absurd (omega arith)
      beyond (z ∷ zs) (suc j) y e h = beyond zs j y e (omega arith)

  -- The binary search of a sorted vector finds what a linear search finds.
  pub vec_search-find_id :
      (target : ℕ) (xs : List A) → IsSorted id xs → vec_search id target xs ≡ find_id id target xs
  unfolding vec_search
  vec_search-find_id target xs sorted =
      search_loop-find_id xs target (length xs) 0 (length xs) sorted (whole xs target) (omega arith)

  -- What vec_search_gte() stands at.
  pub record FirstFrom (xs : List A) (target p : ℕ) : Type ℓ where
    pub in_vector : p ≤ length xs
    pub less : (i : ℕ) (x : A) → get_elem? xs i ≡ some x → i < p → id x < target
    pub more : (i : ℕ) (x : A) → get_elem? xs i ≡ some x → p ≤ i → target ≤ id x

  gte_loop-FirstFrom :
      (xs : List A) (target rounds begin end : ℕ)
      → IsSorted id xs
      → Brackets xs target begin end
      → begin ≤ end
      → end ≤ begin + rounds
      → FirstFrom xs target (gte_loop id xs target rounds begin end)
  unfolding gte_loop
  gte_loop-FirstFrom xs target zero begin end sorted b p h = record {
    in_vector = b.inside;
    less = λ i x e k. b.below i x e (omega arith);
    more = λ i x e k. omega (arith, b.above i x e k);
  }
  gte_loop-FirstFrom xs target (suc rounds) begin end sorted b p h = elim (dec_lt begin end) [
    | no q ↦ rw (le→ltb begin end (omega arith)) (record {
      in_vector = b.inside;
      less = λ i x e k. b.below i x e (omega arith);
      more = λ i x e k. omega (arith, b.above i x e k);
    })
    | yes q ↦
        let m = middle id begin end in
        let (low, high) = middle-lt begin end q in
        let (x, e) = get_elem?-some xs m (omega (arith, b.inside, high)) in
        rw (lt→ltb begin end q, e)
          (elim (Bool-cases (ltb target (id x))) [
            | inl l ↦ rw l (
                gte_loop-FirstFrom xs target rounds begin m sorted
                  (lower_half m x sorted b high e (ground (arith, l))) low
                  (omega (arith, low, high)))
            | inr g ↦ rw g (elim (Bool-cases (ltb (id x) target)) [
              | inl l ↦ rw l (
                  gte_loop-FirstFrom xs target rounds (m + 1) end sorted
                    (upper_half m x sorted b e (ground (arith, l))) (omega (arith, high))
                    (omega (arith, low, high)))
              | inr l ↦ rw l (record {
                in_vector = omega (arith, b.inside, high);
                less = λ i y f k.
                    omega (arith, id-lt id xs i m y x sorted f e k, same_id x target g l);
                more = λ i y f k. elim (dec_lt m i) [
                  | yes r ↦ omega (arith, id-lt id xs m i x y sorted e f r, same_id x target g l)
                  | no r ↦
                      rw (same_item xs m i x y e f (omega arith))
                        (omega (arith, same_id x target g l))
                ];
              })
            ])
          ])
  ]

  -- vec_search_gte() on a sorted vector stands at the first item whose id is the target or above it,
  -- or at the end of the vector if there is none.
  pub vec_search_gte-FirstFrom :
      (target : ℕ) (xs : List A)
      → IsSorted id xs
      → FirstFrom xs target (vec_search_gte id target xs)
  unfolding vec_search_gte
  vec_search_gte-FirstFrom target xs sorted =
      gte_loop-FirstFrom xs target (length xs) 0 (length xs) sorted (whole xs target) (omega arith)
        (omega arith)
