-- ===== src/Conn/Box/Links.antt =====
-- What a new first connection and the removal of one do to the neighbours in a sequence.
use cipster.Base.{
  ℕ, ◌==◌, ◌≡◌, refl, arith, [], ◌∷◌, true, false, Option, none, some, if◌then◌else◌, Bool-cases,
  Option-cases, inl, inr,
}
use cipster.Conn.Box.{update, update_at, bypass_head}
use cipster.Conn.Box.Chain.{Chain, member, head_of, next_of, prev_of, erase, Distinct}

pub next_of-absent : (p : ℕ) (l : Chain) → member p l ≡ false → next_of p l ≡ none
unfolding next_of member
next_of-absent p [] h = refl
next_of-absent p (x ∷ l) h = ground (arith, next_of-absent p l)

prev_of-absent : (o : Option ℕ) (p : ℕ) (l : Chain) → member p l ≡ false → prev_of o p l ≡ none
unfolding prev_of member
prev_of-absent o p [] h = refl
prev_of-absent o p (x ∷ l) h = ground (arith, prev_of-absent (some x) p l)

-- Insert() sets the link back of the old head.
pub insert-prevs :
    (p q : ℕ) (back : ℕ → Option ℕ) (l : Chain)
    → member p l ≡ false
    → back q ≡ prev_of none q l
    → update_at (update back p none) (head_of l) (some p) q ≡ prev_of none q (p ∷ l)
unfolding prev_of member
insert-prevs p q back [] new h = ground arith
insert-prevs p q back (x ∷ l) new h = ground arith

-- The connection before one of the list is on it.
prev_of-member : (y p z : ℕ) (l : Chain) → prev_of (some y) p l ≡ some z → member z (y ∷ l) ≡ true
unfolding prev_of member
prev_of-member y p z [] h = cc
prev_of-member y p z (x ∷ l) h = ground (arith, prev_of-member x p z l)

-- What erasing `p` does to the links forward, behind a first connection `x`.
next_of-erase_behind :
    (p q x : ℕ) (l : Chain)
    → Distinct (x ∷ l)
    → member p l ≡ true
    → next_of q (x ∷ erase p l)
      ≡ update (update_at (λ r. next_of r (x ∷ l)) (prev_of (some x) p l) (next_of p l)) p none q
unfolding next_of prev_of member erase
next_of-erase_behind p q x [] d h = cc
next_of-erase_behind p q x (y ∷ m) d h = elim (Bool-cases (p == y)) [
  | inl e ↦ ground (arith, next_of-absent p m)
  | inr e ↦ elim (Option-cases (prev_of (some y) p m)) [
    | inl c ↦ ground (arith, next_of-erase_behind p q y m d.1, c)
    | inr (z, c) ↦ ground (arith, next_of-erase_behind p q y m d.1, c, prev_of-member y p z m c)
  ]
]

pub next_of-erase :
    (p q : ℕ) (l : Chain)
    → Distinct l
    → member p l ≡ true
    → next_of q (erase p l)
      ≡ update (update_at (λ r. next_of r l) (prev_of none p l) (next_of p l)) p none q
unfolding next_of prev_of member erase
next_of-erase p q [] d h = cc
next_of-erase p q (x ∷ l) d h = elim (Bool-cases (p == x)) [
  | inl e ↦ ground (arith, next_of-absent p l)
  | inr e ↦ rw e (next_of-erase_behind p q x l d (rw e at h))
]

pub next_of-member : (p z : ℕ) (l : Chain) → next_of p l ≡ some z → member z l ≡ true
unfolding next_of member
next_of-member p z [] h = cc
next_of-member p z (x ∷ []) h = ground arith
next_of-member p z (x ∷ y ∷ l) h = ground (arith, next_of-member p z (y ∷ l))

-- A step of the induction below: `p` is not the first connection.
prev_of-erase_behind :
    (o : Option ℕ) (p q x : ℕ) (l : Chain)
    → (p == x) ≡ false
    → member x l ≡ false
    → prev_of (some x) q (erase p l)
      ≡ update (update_at (λ r. prev_of (some x) r l) (next_of p l) (prev_of (some x) p l)) p none q
    → prev_of o q (x ∷ erase p l)
      ≡ update (update_at (λ r. prev_of o r (x ∷ l)) (next_of p l) (prev_of (some x) p l)) p none q
unfolding prev_of
prev_of-erase_behind o p q x l e out ih = elim (Option-cases (next_of p l)) [
  | inl c ↦ ground (arith, c, ih)
  | inr (z, c) ↦ ground (arith, c, ih, next_of-member p z l c)
]

-- The links back.
pub prev_of-erase :
    (o : Option ℕ) (p q : ℕ) (l : Chain)
    → Distinct l
    → member p l ≡ true
    → prev_of o q (erase p l)
      ≡ update (update_at (λ r. prev_of o r l) (next_of p l) (prev_of o p l)) p none q
unfolding next_of prev_of member erase
prev_of-erase o p q [] d h = cc
prev_of-erase o p q (x ∷ []) d h = ground arith
prev_of-erase o p q (x ∷ y ∷ l) d h = elim (Bool-cases (p == x)) [
  | inl e ↦ ground (arith, prev_of-absent o p (y ∷ l))
  | inr e ↦ rw e (
      prev_of-erase_behind o p q x (y ∷ l) e d.0
        (prev_of-erase (some x) p q (y ∷ l) d.1 (rw e at h)))
]

pub member-erase :
    (p q : ℕ) (l : Chain)
    → Distinct l
    → member q (erase p l) ≡ (if q == p then false else member q l)
unfolding member erase
member-erase p q [] d = ground arith
member-erase p q (x ∷ l) d = ground (arith, member-erase p q l d.1)

pub erase-Distinct : (p : ℕ) (l : Chain) → Distinct l → Distinct (erase p l)
unfolding member erase
erase-Distinct p [] d = d
erase-Distinct p (x ∷ l) d = ground (arith, member-erase p x l d.1, erase-Distinct p l d.1)

prev_of-present :
    (y p : ℕ) (l : Chain) → member p l ≡ true → (z : ℕ) × (prev_of (some y) p l ≡ some z)
unfolding prev_of member
prev_of-present y p [] h = cc
prev_of-present y p (x ∷ l) h = elim (Bool-cases (p == x)) [
  | inl e ↦ (y, rw e)
  | inr e ↦ rw e (prev_of-present x p l (rw e at h))
]

pub head_of-erase :
    (p : ℕ) (l : Chain)
    → member p l ≡ true
    → bypass_head (prev_of none p l) (next_of p l) (head_of l) ≡ head_of (erase p l)
unfolding prev_of next_of member erase
head_of-erase p [] h = cc
head_of-erase p (x ∷ l) h = elim (Bool-cases (p == x)) [
  | inl e ↦ rw e
  | inr e ↦ let (z, c) = prev_of-present x p l (rw e at h) in rw (e, c)
]

pub erase-absent : (p : ℕ) (l : Chain) → member p l ≡ false → erase p l ≡ l
unfolding member erase
erase-absent p [] h = refl
erase-absent p (x ∷ l) h = ground (arith, erase-absent p l)
