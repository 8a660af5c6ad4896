-- ===== src/Cip/Table/Free.antt =====
-- FindUniqueFreeId() of cip/cipclass.cc.
use cipster.Base.{
  ℕ, ◌+◌, ◌<◌, ◌≡◌, ◌≢◌, refl, arith, ◌==◌, ltb, List, [], ◌∷◌, false, none, All, Bool-cases, inl,
  inr,
}
use cipster.Cip.Table.{free_after, find_free_id}
use cipster.Cip.Table.Order.{Above, IsSorted, find_id, find_id-Above, Above-weaken}

module _ {ℓ} {A : Type ℓ} (id : A → ℕ) where
  -- The least free id above `last`.
  pub record LeastFree (last : ℕ) (xs : List A) (r : ℕ) : Type ℓ where
    pub above_last : last < r
    pub is_free : find_id id r xs ≡ none
    pub all_taken : (k : ℕ) → last < k → k < r → find_id id k xs ≢ none

  free_after-LeastFree :
      (last : ℕ) (xs : List A)
      → All (Above id last) xs
      → IsSorted id xs
      → LeastFree last xs (free_after id last xs)
  unfolding free_after
  free_after-LeastFree last [] p s = record {
    above_last = omega arith;
    is_free = refl;
    all_taken = λ k h l. absurd (omega arith);
  }
  free_after-LeastFree last (x ∷ xs) p s = elim (Bool-cases (ltb (last + 1) (id x))) [
    | inl e ↦ rw e (record {
      above_last = omega arith;
      is_free =
          find_id-Above id (last + 1) (x ∷ xs)
            (ground (arith, e), Above-weaken id (last + 1) (id x) xs (ground (arith, e)) s.0);
      all_taken = λ k h l. absurd (omega arith);
    })
    | inr e ↦
        let rest = free_after-LeastFree (id x) xs s.0 s.1 in
        let next : id x ≡ last + 1 = ground (arith, e, p.0) in
        rw e (record {
          above_last = omega (arith, rest.above_last, next);
          is_free =
              let other : (id x == free_after id (id x) xs) ≡ false =
                ground (arith, rest.above_last) in
              rw (other, rest.is_free);
          all_taken = λ k h l. elim (Bool-cases (id x == k)) [
            | inl f ↦ rw f (λ q. cc)
            | inr f ↦ rw f (rest.all_taken k (ground (arith, f, next, h)) l)
          ];
        })
  ]

  -- FindUniqueFreeId() gives the least positive id that no instance has, of a sorted vector of instances
  -- with positive ids.
  pub find_free_id-LeastFree :
      (xs : List A) → All (Above id 0) xs → IsSorted id xs → LeastFree 0 xs (find_free_id id xs)
  unfolding find_free_id
  find_free_id-LeastFree xs p s = free_after-LeastFree 0 xs p s
