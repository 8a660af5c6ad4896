-- ===== src/Cip/Table/Client.antt =====
-- What a client of a sorted vector can observe over any sequence of calls: a map from ids to items.
use cipster.Base.{
  ℕ, ◌≡◌, refl, sym, ◌∙◌, ◌==◌, List, [], ◌∷◌, Option, Option-cases, none, some, if◌then◌else◌, inl,
  inr,
}
use cipster.Cip.Table.{vec_search, insert_new, insert_over, remove}
use cipster.Cip.Table.Order.{IsSorted, find_id}
use cipster.Cip.Table.Search.{vec_search-find_id}
use cipster.Cip.Table.Laws.{
  insert_over-IsSorted, find_id-insert_over, insert_new-insert_over, remove-IsSorted,
  find_id-remove,
}

-- InstanceInsert(), ServiceInsert() or AttributeInsert(), and InstanceRemove() or ServiceRemove().
pub data Op {ℓ} (A : Type ℓ) : Type ℓ where
  add replace : A → Op A
  take_out : ℕ → Op A

module _ {ℓ} {A : Type ℓ} (id : A → ℕ) where
  -- A refused insertion leaves the vector.
  abbrev pub kept : List A → Option (List A) → List A
  kept xs none = xs
  kept xs (some ys) = ys

  unfoldable pub step : Op A → List A → List A
  step (add a) xs = kept xs (insert_new id a xs)
  step (replace a) xs = insert_over id a xs
  step (take_out k) xs = (remove id k xs).1

  unfoldable pub run : List (Op A) → List A → List A
  run [] xs = xs
  run (op ∷ ops) xs = run ops (step op xs)

  -- The same calls on a map.
  abbrev pub update : (ℕ → Option A) → ℕ → Option A → ℕ → Option A
  update f k v j = if k == j then v else f j

  abbrev pub unless_taken : Option A → Option A → Option A → Option A
  unless_taken none new old = new
  unless_taken (some x) new old = old

  abbrev pub act : Op A → (ℕ → Option A) → ℕ → Option A
  act (add a) f j = unless_taken (f (id a)) (update f (id a) (some a) j) (f j)
  act (replace a) f j = update f (id a) (some a) j
  act (take_out k) f j = update f k none j

  abbrev pub replay : List (Op A) → (ℕ → Option A) → ℕ → Option A
  replay [] f = f
  replay (op ∷ ops) f = replay ops (act op f)

  step-IsSorted : (op : Op A) (xs : List A) → IsSorted id xs → IsSorted id (step op xs)
  unfolding step
  step-IsSorted (add a) xs s =
      rw (insert_new-insert_over id a xs s) (elim (Option-cases (find_id id (id a) xs)) [
        | inl e ↦ rw e (insert_over-IsSorted id a xs s)
        | inr (x, e) ↦ rw e s
      ])
  step-IsSorted (replace a) xs s = insert_over-IsSorted id a xs s
  step-IsSorted (take_out k) xs s = remove-IsSorted id k xs s

  find_id-step :
      (op : Op A) (xs : List A) (j : ℕ)
      → IsSorted id xs
      → find_id id j (step op xs) ≡ act op (λ k. find_id id k xs) j
  unfolding step
  find_id-step (add a) xs j s =
      rw (insert_new-insert_over id a xs s) (elim (Option-cases (find_id id (id a) xs)) [
        | inl e ↦ rw e (find_id-insert_over id j a xs s)
        | inr (x, e) ↦ rw e
      ])
  find_id-step (replace a) xs j s = find_id-insert_over id j a xs s
  find_id-step (take_out k) xs j s = find_id-remove id j k xs s

  act-agrees :
      (op : Op A) (f g : ℕ → Option A) → ((j : ℕ) → f j ≡ g j) → (j : ℕ) → act op f j ≡ act op g j
  act-agrees (add a) f g h j = rw (h (id a), h j)
  act-agrees (replace a) f g h j = rw (h j)
  act-agrees (take_out k) f g h j = rw (h j)

  replay-agrees :
      (ops : List (Op A)) (f g : ℕ → Option A)
      → ((j : ℕ) → f j ≡ g j)
      → (j : ℕ) → replay ops f j ≡ replay ops g j
  replay-agrees [] f g h j = h j
  replay-agrees (op ∷ ops) f g h j = replay-agrees ops (act op f) (act op g) (act-agrees op f g h) j

  run-find_id :
      (ops : List (Op A)) (xs : List A)
      → IsSorted id xs
      → IsSorted id (run ops xs)
        × ((j : ℕ) → find_id id j (run ops xs) ≡ replay ops (λ k. find_id id k xs) j)
  unfolding run
  run-find_id [] xs s = (s, λ j. refl)
  run-find_id (op ∷ ops) xs s =
      let (sorted, found) = run-find_id ops (step op xs) (step-IsSorted op xs s) in
      (sorted, λ j. found j ∙ replay-agrees ops _ _ (λ k. find_id-step op xs k s) j)

  -- From a sorted vector, any sequence of insertions and removals ends in a sorted vector, in which
  -- vec_search() finds under every id what the same calls leave in a map: an insertion of an instance
  -- is refused if its id is taken, one of a service or an attribute replaces.
  pub run_refines :
      (ops : List (Op A)) (xs : List A)
      → IsSorted id xs
      → IsSorted id (run ops xs)
        × ((j : ℕ) → vec_search id j (run ops xs) ≡ replay ops (λ k. vec_search id k xs) j)
  run_refines ops xs s =
      let (sorted, found) = run-find_id ops xs s in
      (
        sorted,
        λ j.
            vec_search-find_id id j (run ops xs) sorted
            ∙ found j
            ∙ replay-agrees ops _ _ (λ k. sym (vec_search-find_id id k xs s)) j,
      )
