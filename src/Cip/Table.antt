-- ===== src/Cip/Table.antt =====
-- The sorted vectors of instances, services and attributes of cip/cipclass.cc, and the searches
-- vec_search() and vec_search_gte() of cip/cipcommon.h. The items are of any type that has an Id();
-- an iterator is an index. Ids are at most 65535 and what is looked for fits an int, so that the sign
-- of `target - Id()` is that of the comparison.
pub mod Order
pub mod Search
pub mod Found
pub mod Laws
pub mod Client
pub mod Free
use cipster.Base.{
  ℕ, zero, suc, ◌+◌, ◌-◌, ◌/◌, ◌==◌, ltb, List, [], ◌∷◌, Bool, true, false, Option, none, some,
  if◌then◌else◌, length, get_elem?,
}

module _ {ℓ} {A : Type ℓ} (id : A → ℕ) where
  -- `begin + (end - begin - 1)/2`.
  abbrev pub middle : ℕ → ℕ → ℕ
  middle begin end = begin + (end - begin - 1) / 2

  -- The loop of vec_search(), with the rounds that are left. The range shrinks in every round, so its
  -- size is rounds enough.
  unfoldable pub search_loop : List A → ℕ → ℕ → ℕ → ℕ → Option A
  search_loop xs target zero begin end = none
  search_loop xs target (suc rounds) begin end =
      let m = middle begin end in
      let lower = search_loop xs target rounds begin m in
      let upper = search_loop xs target rounds (m + 1) end in
      if ltb begin end
      then elim (get_elem? xs m) [
        | none ↦ none
        | some x ↦ if ltb target (id x) then lower else if ltb (id x) target then upper else some x
      ]
      else none

  unfoldable pub vec_search : ℕ → List A → Option A
  unfolding search_loop
  vec_search target xs = search_loop xs target (length xs) 0 (length xs)

  -- The loop of vec_search_gte().
  unfoldable pub gte_loop : List A → ℕ → ℕ → ℕ → ℕ → ℕ
  gte_loop xs target zero begin end = end
  gte_loop xs target (suc rounds) begin end =
      let m = middle begin end in
      let lower = gte_loop xs target rounds begin m in
      let upper = gte_loop xs target rounds (m + 1) end in
      if ltb begin end
      then elim (get_elem? xs m) [
        | none ↦ end
        | some x ↦ if ltb target (id x) then lower else if ltb (id x) target then upper else m
      ]
      else end

  unfoldable pub vec_search_gte : ℕ → List A → ℕ
  unfolding gte_loop
  vec_search_gte target xs = gte_loop xs target (length xs) 0 (length xs)

  abbrev pub push_front : A → Option (List A) → Option (List A)
  push_front x none = none
  push_front x (some xs) = some (x ∷ xs)

  -- The loop of InstanceInsert(): `none` where the id is taken.
  unfoldable pub insert_new : A → List A → Option (List A)
  insert_new a [] = some (a ∷ [])
  insert_new a (x ∷ xs) =
      let rest = push_front x (insert_new a xs) in
      if ltb (id a) (id x) then some (a ∷ x ∷ xs) else if id a == id x then none else rest

  -- The loop of ServiceInsert() and AttributeInsert(): an item of the same id is replaced.
  unfoldable pub insert_over : A → List A → List A
  insert_over a [] = a ∷ []
  insert_over a (x ∷ xs) =
      let rest = insert_over a xs in
      if ltb (id a) (id x) then a ∷ x ∷ xs else if id a == id x then a ∷ xs else x ∷ rest

  -- InstanceRemove() and ServiceRemove(): the item that is passed on, and the vector without it.
  unfoldable pub remove : ℕ → List A → Option A × List A
  remove target [] = (none, [])
  remove target (x ∷ xs) =
      let (found, rest) = remove target xs in
      if target == id x then (some x, xs) else (found, x ∷ rest)

  -- The loop of FindUniqueFreeId(), from `last_id`.
  unfoldable pub free_after : ℕ → List A → ℕ
  free_after last [] = last + 1
  free_after last (x ∷ xs) =
      let rest = free_after (id x) xs in if ltb (last + 1) (id x) then last + 1 else rest

  unfoldable pub find_free_id : List A → ℕ
  unfolding free_after
  find_free_id xs = free_after 0 xs
