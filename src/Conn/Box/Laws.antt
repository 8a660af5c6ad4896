-- ===== src/Conn/Box/Laws.antt =====
-- The links of a list of connections implement the sequence of their addresses.
use cipster.Base.{
  ℕ, ◌≡◌, refl, sym, arith, List, [], ◌∷◌, true, false, none, if◌then◌else◌, Bool-cases, inl, inr,
}
use mathlib.Core.Path.{fun_ext}
use cipster.Conn.Box.{Box, empty_box, insert, remove}
use cipster.Conn.Box.Chain.{Chain, member, head_of, next_of, prev_of, erase, Distinct}
use cipster.Conn.Box.Links.{
  insert-prevs, next_of-erase, prev_of-erase, member-erase, erase-Distinct, head_of-erase,
  erase-absent,
}

-- The links are those of the sequence.
pub record Represents (b : Box) (l : Chain) : Type 0 where
  pub heads : b.head ≡ head_of l
  pub nexts : (p : ℕ) → b.next p ≡ next_of p l
  pub prevs : (p : ℕ) → b.prev p ≡ prev_of none p l
  pub members : (p : ℕ) → b.on_list p ≡ member p l
  pub distinct : Distinct l

pub insert-Represents :
    (p : ℕ) (b : Box) (l : Chain)
    → Represents b l
    → member p l ≡ false
    → ((insert p b).0 ≡ true) × Represents (insert p b).1 (p ∷ l)
unfolding insert next_of prev_of member
insert-Represents p b l r new =
    rw (r.members p, new)
      (
        refl,
        record {
          heads = refl;
          nexts = λ q. ground (arith, r.nexts q, r.heads);
          prevs = λ q. rw r.heads (insert-prevs p q b.prev l new (r.prevs q));
          members = λ q. ground (arith, r.members q);
          distinct = (new, r.distinct);
        },
      )

pub remove-Represents :
    (p : ℕ) (b : Box) (l : Chain)
    → Represents b l
    → member p l ≡ true
    → ((remove p b).0 ≡ true) × Represents (remove p b).1 (erase p l)
unfolding remove
remove-Represents p b l r old =
    let forward : b.next ≡ (λ q. next_of q l) = fun_ext r.nexts in
    let back : b.prev ≡ (λ q. prev_of none q l) = fun_ext r.prevs in
    rw (r.members p, old)
      (
        refl,
        record {
          heads = rw (forward, back, r.heads) (head_of-erase p l old);
          nexts = λ q. rw (forward, back) (sym (next_of-erase p q l r.distinct old));
          prevs = λ q. rw (forward, back) (sym (prev_of-erase none p q l r.distinct old));
          members = λ q. ground (arith, r.members q, member-erase p q l r.distinct);
          distinct = erase-Distinct p l r.distinct;
        },
      )

-- Remove() of a connection that is not on the list changes nothing, as Insert() of one that is.
pub remove-absent :
    (p : ℕ) (b : Box) (l : Chain) → Represents b l → member p l ≡ false → remove p b ≡ (false, b)
unfolding remove
remove-absent p b l r h = rw (r.members p, h)

pub insert-present :
    (p : ℕ) (b : Box) (l : Chain) → Represents b l → member p l ≡ true → insert p b ≡ (false, b)
unfolding insert
insert-present p b l r h = rw (r.members p, h)

-- A call on the list.
pub data BoxCall : Type 0 where
  inserting removing : ℕ → BoxCall

-- What the links do, and what the sequence does.
pub run_box : List BoxCall → Box → Box
run_box [] b = b
run_box (inserting p ∷ cs) b = run_box cs (insert p b).1
run_box (removing p ∷ cs) b = run_box cs (remove p b).1

pub run_chain : List BoxCall → Chain → Chain
run_chain [] l = l
run_chain (inserting p ∷ cs) l = run_chain cs (if member p l then l else p ∷ l)
run_chain (removing p ∷ cs) l = run_chain cs (erase p l)

-- Whatever calls of Insert() and Remove() are made, refused ones included, the links of the list are
-- those of the sequence that grows at its head and loses the removed connection.
pub run_box-Represents :
    (cs : List BoxCall) (b : Box) (l : Chain)
    → Represents b l
    → Represents (run_box cs b) (run_chain cs l)
unfolding run_box run_chain
run_box-Represents [] b l r = r
run_box-Represents (inserting p ∷ cs) b l r = elim (Bool-cases (member p l)) [
  | inl e ↦ rw (insert-present p b l r e, e) (run_box-Represents cs b l r)
  | inr e ↦ rw e (run_box-Represents cs (insert p b).1 (p ∷ l) (insert-Represents p b l r e).1)
]
run_box-Represents (removing p ∷ cs) b l r = elim (Bool-cases (member p l)) [
  | inl e ↦ run_box-Represents cs (remove p b).1 (erase p l) (remove-Represents p b l r e).1
  | inr e ↦ rw (remove-absent p b l r e, erase-absent p l e) (run_box-Represents cs b l r)
]

pub empty_box-Represents : Represents empty_box []
unfolding next_of prev_of member
empty_box-Represents = record {
  heads = refl;
  nexts = λ p. refl;
  prevs = λ p. refl;
  members = λ p. refl;
  distinct = tt;
}
