-- ===== src/Conn/Close/Shrinks.antt =====
-- Sequences that lose connections, and how far an iterator is from their end.
use cipster.Base.{
  ℕ, suc, ◌≤◌, ◌<◌, ◌==◌, ◌≡◌, refl, sym, ap, ◌∙◌, arith, List, [], ◌∷◌, ◌++◌, true, false, Option,
  none, some, if◌then◌else◌, length, Bool-cases, ==_iff, inl, inr,
}
use cipster.Conn.Box.Chain.{Chain, member, head_of, next_of, erase, Distinct}
use mathlib.Core.Path.{subst}
use cipster.Conn.Box.Links.{next_of-member, member-erase, erase-Distinct}

pub erase_all : List ℕ → Chain → Chain
erase_all [] l = l
erase_all (p ∷ ps) l = erase_all ps (erase p l)

-- What is left of a sequence.
abbrev pub Shrinks : Chain → Chain → Type 0
Shrinks l m = (ps : List ℕ) × (m ≡ erase_all ps l)

pub Shrinks-refl : (l : Chain) → Shrinks l l
unfolding erase_all
Shrinks-refl l = ([], refl)

pub erase-Shrinks : (p : ℕ) (l : Chain) → Shrinks l (erase p l)
unfolding erase_all
erase-Shrinks p l = (p ∷ [], refl)

erase_all-append :
    (ps qs : List ℕ) (l : Chain) → erase_all (ps ++ qs) l ≡ erase_all qs (erase_all ps l)
unfolding erase_all
erase_all-append [] qs l = refl
erase_all-append (p ∷ ps) qs l = erase_all-append ps qs (erase p l)

pub Shrinks-trans : (l m n : Chain) → Shrinks l m → Shrinks m n → Shrinks l n
Shrinks-trans l m n (ps, e) (qs, f) =
    (ps ++ qs, f ∙ ap (erase_all qs) e ∙ sym (erase_all-append ps qs l))

erase_all-Distinct : (ps : List ℕ) (l : Chain) → Distinct l → Distinct (erase_all ps l)
unfolding erase_all
erase_all-Distinct [] l d = d
erase_all-Distinct (p ∷ ps) l d = erase_all-Distinct ps (erase p l) (erase-Distinct p l d)

pub Shrinks-Distinct : (l m : Chain) → Shrinks l m → Distinct l → Distinct m
Shrinks-Distinct l m (ps, e) d = rw e (erase_all-Distinct ps l d)

member-erase_all :
    (ps : List ℕ) (q : ℕ) (l : Chain)
    → Distinct l
    → member q (erase_all ps l) ≡ true
    → member q l ≡ true
unfolding erase_all
member-erase_all [] q l d h = h
member-erase_all (p ∷ ps) q l d h =
    let kept = member-erase_all ps q (erase p l) (erase-Distinct p l d) h in
    ground (arith, kept, member-erase p q l d)

pub member-Shrinks :
    (l m : Chain) (q : ℕ) → Shrinks l m → Distinct l → member q m ≡ true → member q l ≡ true
member-Shrinks l m q (ps, e) d h = member-erase_all ps q l d (rw e at h)

length-erase-le : (p : ℕ) (l : Chain) → length (erase p l) ≤ length l
unfolding erase
length-erase-le p [] = omega arith
length-erase-le p (x ∷ l) = ground (arith, length-erase-le p l)

length-erase_lt : (p : ℕ) (l : Chain) → member p l ≡ true → length (erase p l) < length l
unfolding erase member
length-erase_lt p [] h = cc
length-erase_lt p (x ∷ l) h = ground (arith, length-erase_lt p l)

length-erase_all : (ps : List ℕ) (l : Chain) → length (erase_all ps l) ≤ length l
unfolding erase_all
length-erase_all [] l = omega arith
length-erase_all (p ∷ ps) l = omega (arith, length-erase_all ps (erase p l), length-erase-le p l)

pub length-Shrinks : (l m : Chain) → Shrinks l m → length m ≤ length l
length-Shrinks l m (ps, e) = rw e (length-erase_all ps l)

length-erase_all_lt :
    (ps : List ℕ) (q : ℕ) (l : Chain)
    → Distinct l
    → member q l ≡ true
    → member q (erase_all ps l) ≡ false
    → length (erase_all ps l) < length l
unfolding erase_all
length-erase_all_lt [] q l d h k = cc
length-erase_all_lt (p ∷ ps) q l d h k = elim (Bool-cases (q == p)) [
  | inl e ↦
      omega (arith, length-erase_all ps (erase p l), length-erase_lt p l (ground (arith, e, h)))
  | inr e ↦
      let kept : member q (erase p l) ≡ true = rw (member-erase p q l d, e) h in
      omega (
        arith,
        length-erase_all_lt ps q (erase p l) (erase-Distinct p l d) kept k,
        length-erase-le p l,
      )
]

-- A sequence that lost a connection is shorter.
pub length-Shrinks_lt :
    (l m : Chain) (q : ℕ)
    → Shrinks l m
    → Distinct l
    → member q l ≡ true
    → member q m ≡ false
    → length m < length l
length-Shrinks_lt l m q (ps, e) d h k = rw e (length-erase_all_lt ps q l d h (rw e at k))

-- How many connections stand behind `p`: none if it is gone.
pub behind_of : ℕ → Chain → ℕ
behind_of p [] = 0
behind_of p (x ∷ l) = if p == x then length l else behind_of p l

-- The rounds that an iterator has left.
abbrev pub rounds_left : Option ℕ → Chain → ℕ
rounds_left none l = 0
rounds_left (some p) l = suc (behind_of p l)

behind_of-le : (p : ℕ) (l : Chain) → behind_of p l ≤ length l
unfolding behind_of
behind_of-le p [] = omega arith
behind_of-le p (x ∷ l) = ground (arith, behind_of-le p l)

behind_of-absent : (p : ℕ) (l : Chain) → member p l ≡ false → behind_of p l ≡ 0
unfolding behind_of member
behind_of-absent p [] h = refl
behind_of-absent p (x ∷ l) h = ground (arith, behind_of-absent p l)

behind_of-erase : (p q : ℕ) (l : Chain) → Distinct l → behind_of q (erase p l) ≤ behind_of q l
unfolding behind_of erase
behind_of-erase p q [] d = omega arith
behind_of-erase p q (x ∷ l) d =
    ground (arith, behind_of-erase p q l d.1, length-erase-le p l, behind_of-absent q l)

behind_of-erase_all :
    (ps : List ℕ) (q : ℕ) (l : Chain) → Distinct l → behind_of q (erase_all ps l) ≤ behind_of q l
unfolding erase_all
behind_of-erase_all [] q l d = omega arith
behind_of-erase_all (p ∷ ps) q l d =
    omega
      (arith, behind_of-erase_all ps q (erase p l) (erase-Distinct p l d), behind_of-erase p q l d)

pub rounds_left-Shrinks :
    (it : Option ℕ) (l m : Chain) → Shrinks l m → Distinct l → rounds_left it m ≤ rounds_left it l
rounds_left-Shrinks none l m s d = omega arith
rounds_left-Shrinks (some p) l m (ps, e) d = rw e (omega (arith, behind_of-erase_all ps p l d))

-- An iterator behind the first connection.
behind_first :
    (x : ℕ) (l : Chain) (k : ℕ)
    → member x l ≡ false
    → (o : Option ℕ) → ((z : ℕ) → o ≡ some z → member z l ≡ true)
    → rounds_left o l ≤ k
    → rounds_left o (x ∷ l) ≤ k
unfolding behind_of
behind_first x l k out none on h = h
behind_first x l k out (some z) on h = elim (Bool-cases (z == x)) [
  | inl e ↦
      let same : z ≡ x = (==_iff z x).0 e in
      let there : member x l ≡ true = subst (λ (y : ℕ). member y l ≡ true) same (on z refl) in
      cc (out, there)
  | inr e ↦ rw e h
]

-- A step of the iterator.
pub rounds_left-next :
    (p : ℕ) (l : Chain) → Distinct l → rounds_left (next_of p l) l ≤ behind_of p l
unfolding next_of behind_of member
rounds_left-next p [] d = omega arith
rounds_left-next p (x ∷ []) d = ground arith
rounds_left-next p (x ∷ y ∷ l) d = elim (Bool-cases (p == x)) [
  | inl e ↦ ground arith
  | inr e ↦ rw e (
      behind_first x (y ∷ l) (behind_of p (y ∷ l)) d.0 (next_of p (y ∷ l))
        (λ z. next_of-member p z (y ∷ l)) (rounds_left-next p (y ∷ l) d.1))
]

pub rounds_left-head : (l : Chain) → rounds_left (head_of l) l ≡ length l
unfolding behind_of
rounds_left-head [] = refl
rounds_left-head (x ∷ l) = ground arith
