-- ===== src/Epath/AppPath/Copy.antt =====
-- What `operator=` of an application path copies, and what `operator==` says of the copy.
use cipster.Base.{
  ℕ, ◌≤◌, ◌≡◌, refl, Bool, true, false, ◌&&◌, ◌==◌, if◌then◌else◌, Bool-cases, inl, inr, List, [],
  ◌∷◌, arith,
}
use cipster.Epath.AppPath.{
  AppPath, Stuff, attribute, conn_pt, instance_id, class_id, member1, member2, member3, has, get,
  slot, assign, same_path, same_text, same_bit, rank, set_stuff,
}

-- What a getter returns of a copy. Of a path with a class it is the other's value. Of one without a
-- class, as a symbolic path is, the copy says that it has the same members and gives the values that
-- the object held before the assignment.
get-assign :
    (s : Stuff) (self other : AppPath)
    → get s (assign self other)
      ≡ (if has class_id other then get s other else if has s other then slot s self.stuff else 0)
unfolding assign
get-assign s self other = elim (Bool-cases (has class_id other)) [ inl e ↦ rw e | inr e ↦ rw e ]

same_text_self : (s : List ℕ) → same_text s s ≡ true
same_text_self [] = refl
same_text_self (b ∷ bs) = ground (arith, same_text_self bs)

same_bit_self : (b : Bool) → same_bit b b ≡ true
same_bit_self true = refl
same_bit_self false = refl

number_self : (v : ℕ) → (v == v) ≡ true
number_self v = ground arith

and_false : (b : Bool) → (b && false) ≡ false
and_false true = refl
and_false false = refl

-- A copy of a path that has a class is equal to it, by `operator==`, in both directions.
same_path-assign :
    (self other : AppPath)
    → has class_id other ≡ true
    → (same_path (assign self other) other ≡ true) × (same_path other (assign self other) ≡ true)
unfolding same_path assign
same_path-assign self other h = elim (Bool-cases other.has_symbol) [
  | inl e ↦
      rw (h, e)
        (
          simp (same_text_self, same_bit_self, number_self, and_false),
          simp (same_text_self, same_bit_self, number_self, and_false),
        )
  | inr e ↦
      rw (h, e)
        (simp (same_bit_self, number_self, and_false), simp (same_bit_self, number_self, and_false))
]

-- The member ids do not count: two paths that are the same but for the value of a member id that both
-- have are equal by `operator==`.
same_path_member :
    (s : Stuff) (v v' : ℕ) (p : AppPath)
    → 4 ≤ rank s
    → same_path (set_stuff s v p) (set_stuff s v' p) ≡ true
unfolding same_path
same_path_member attribute v v' p h = absurd (omega arith)
same_path_member conn_pt v v' p h = absurd (omega arith)
same_path_member instance_id v v' p h = absurd (omega arith)
same_path_member class_id v v' p h = absurd (omega arith)
same_path_member member1 v v' p h = simp (same_text_self, same_bit_self, number_self, and_false)
same_path_member member2 v v' p h = simp (same_text_self, same_bit_self, number_self, and_false)
same_path_member member3 v v' p h = simp (same_text_self, same_bit_self, number_self, and_false)
