-- ===== src/Conn/Find/Scan.antt =====
-- What a walk over the list of active connections finds, and what it has seen if it finds nothing.
use cipster.Base.{
  ℕ, ◌≡◌, refl, sym, [], ◌∷◌, ◌==◌, ==_iff, Bool, Bool-cases, inl, inr, true, false, none, some,
}
use mathlib.Core.Path.{subst}
use cipster.Conn.Box.Chain.{Chain, member}
use cipster.Conn.State.{Conn}
use cipster.Conn.Close.{find_conn}

module _ (test : Conn → Bool) (f : ℕ → Conn) where
  pub find_conn-some :
      (l : Chain) {q : ℕ} → find_conn test f l ≡ some q → (member q l ≡ true) × (test (f q) ≡ true)
  unfolding find_conn member
  find_conn-some [] h = cc
  find_conn-some (x ∷ l) {q} h = elim (Bool-cases (test (f x))) [
    | inl hit ↦
        let it : some x ≡ some q = rw hit at h in
        let x_is : x ≡ q = cc in rw (sym x_is) (rw ((==_iff x x).1 refl) refl, hit)
    | inr missed ↦
        let (there, good) = find_conn-some l (rw missed at h) in
        elim (Bool-cases (q == x)) [
          | inl same ↦ (rw same refl, good)
          | inr other ↦ (rw other there, good)
        ]
  ]

  pub find_conn-none :
      (l : Chain) (q : ℕ) → find_conn test f l ≡ none → member q l ≡ true → test (f q) ≡ false
  unfolding find_conn member
  find_conn-none [] q h there = cc
  find_conn-none (x ∷ l) q h there = elim (Bool-cases (test (f x))) [
    | inl hit ↦ cc (rw hit at h)
    | inr missed ↦ elim (Bool-cases (q == x)) [
      | inl same ↦ subst (λ (r : ℕ). test (f r) ≡ false) (sym ((==_iff q x).0 same)) missed
      | inr other ↦ find_conn-none l q (rw missed at h) (rw other at there)
    ]
  ]
