-- ===== src/Cip/Class/Registry.antt =====
-- What FindClass() finds is a class of the registry, and a class whose id no other one has is found.
use cipster.Base.{
  ℕ, zero, suc, ◌≡◌, ◌≢◌, refl, sym, ◌==◌, ==_iff, List, [], ◌∷◌, some, get_elem?, All, IsIn,
  Bool-cases, inl, inr,
}
use cipster.Cip.Class.{CipClass, find_class}

module _ {I F : Type 0} where
  pub find_class-IsIn :
      (k : ℕ) (cs : List (CipClass I F)) {c : CipClass I F}
      → find_class k cs ≡ some c
      → IsIn c cs × (c.class_id ≡ k)
  unfolding find_class
  find_class-IsIn k [] h = cc
  find_class-IsIn k (d ∷ cs) {c} h = elim (Bool-cases (d.class_id == k)) [
    | inl same ↦
        let it : some d ≡ some c = rw same at h in
        let d_is : d ≡ c = cc in rw (sym d_is) ((0, refl), (==_iff d.class_id k).0 same)
    | inr other ↦
        let ((i, here), same) = find_class-IsIn k cs (rw other at h) in ((suc i, here), same)
  ]

  -- No id stands twice.
  abbrev pub IsRegistry : List (CipClass I F) → Type 0
  IsRegistry [] = Unit {0}
  IsRegistry (c ∷ cs) = All (λ (d : CipClass I F). d.class_id ≢ c.class_id) cs × IsRegistry cs

  differs_from :
      (k : ℕ) (cs : List (CipClass I F)) (i : ℕ) (c : CipClass I F)
      → All (λ (d : CipClass I F). d.class_id ≢ k) cs
      → get_elem? cs i ≡ some c
      → c.class_id ≢ k
  differs_from k [] i c h here = cc
  differs_from k (d ∷ cs) zero c h here = let d_is : d ≡ c = cc in rw (sym d_is) h.0
  differs_from k (d ∷ cs) (suc i) c h here = differs_from k cs i c h.1 here

  pub find_class-at :
      (cs : List (CipClass I F)) (i : ℕ) (c : CipClass I F)
      → IsRegistry cs
      → get_elem? cs i ≡ some c
      → find_class c.class_id cs ≡ some c
  unfolding find_class
  find_class-at [] i c r here = cc
  find_class-at (d ∷ cs) zero c r here =
      let d_is : d ≡ c = cc in rw (d_is, (==_iff c.class_id c.class_id).1 refl)
  find_class-at (d ∷ cs) (suc i) c r here = elim (Bool-cases (d.class_id == c.class_id)) [
    | inl same ↦
        absurd
          (differs_from d.class_id cs i c r.0 here (sym ((==_iff d.class_id c.class_id).0 same)))
    | inr other ↦ rw other (find_class-at cs i c r.1 here)
  ]
