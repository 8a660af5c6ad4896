-- ===== src/Cip/Table/Found.antt =====
-- What the searches find is an item of the vector, and an item of a sorted vector is found.
use cipster.Base.{
  ℕ, zero, suc, ◌+◌, ◌≡◌, ◌∙◌, arith, ltb, List, sym, some, length, get_elem?, IsIn, Bool-cases,
  Option-cases, inl, inr,
}
use cipster.Cip.Table.{middle, search_loop, vec_search}
use cipster.Cip.Table.Order.{IsSorted, find_id-at}
use cipster.Cip.Table.Search.{vec_search-find_id}

module _ {ℓ} {A : Type ℓ} (id : A → ℕ) where
  search_loop-IsIn :
      (xs : List A) (k rounds begin end : ℕ) {x : A}
      → search_loop id xs k rounds begin end ≡ some x
      → IsIn x xs × (id x ≡ k)
  unfolding search_loop
  search_loop-IsIn xs k zero begin end h = cc
  search_loop-IsIn xs k (suc rounds) begin end {x} h =
      let m = middle id begin end in
      elim (Bool-cases (ltb begin end)) [
        | inr stop ↦ cc (rw stop at h)
        | inl more ↦ elim (Option-cases (get_elem? xs m)) [
          | inl out ↦ cc (rw (more, out) at h)
          | inr (y, here) ↦ elim (Bool-cases (ltb k (id y))) [
            | inl low ↦ search_loop-IsIn xs k rounds begin m (rw (more, here, low) at h)
            | inr not_low ↦ elim (Bool-cases (ltb (id y) k)) [
              | inl high ↦
                  search_loop-IsIn xs k rounds (m + 1) end (rw (more, here, not_low, high) at h)
              | inr not_high ↦
                  let it : some y ≡ some x = rw (more, here, not_low, not_high) at h in
                  let y_is : y ≡ x = cc in
                  let same : id y ≡ k = ground (arith, not_low, not_high) in
                  rw (sym y_is) ((m, here), same)
            ]
          ]
        ]
      ]

  pub vec_search-IsIn :
      (xs : List A) (k : ℕ) {x : A} → vec_search id k xs ≡ some x → IsIn x xs × (id x ≡ k)
  unfolding vec_search
  vec_search-IsIn xs k h = search_loop-IsIn xs k (length xs) 0 (length xs) h

  pub vec_search-at :
      (xs : List A) (k : ℕ) (x : A)
      → IsSorted id xs
      → IsIn x xs
      → id x ≡ k
      → vec_search id k xs ≡ some x
  vec_search-at xs k x s (i, here) same =
      vec_search-find_id id k xs s ∙ find_id-at id k xs i x s here same
