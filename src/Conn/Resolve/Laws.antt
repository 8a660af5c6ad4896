-- ===== src/Conn/Resolve/Laws.antt =====
-- What the paths of a granted request have been checked for.
use cipster.Base.{
  ℕ, ◌≡◌, refl, arith, Bool, true, false, ◌==◌, Bool-cases, inl, inr, List, Option, none, some,
  if◌then◌else◌, ◌⊎◌, IsIn, Option-cases, ==_iff,
}
use mathlib.Core.Path.{subst}
use cipster.Epath.AppPath.{AppPath, get, class_id, is_sufficient, get_instance_or_conn_pt}
use cipster.Cip.Table.{vec_search}
use cipster.Cip.Table.Found.{vec_search-IsIn}
use cipster.Cip.Class.{
  Instance, CipClass, Target, find_class, instance_of, instance_id_of, as_target,
}
use cipster.Cip.Class.Registry.{find_class-IsIn}
use cipster.Conn.Path.{Index, first, second, third}
use cipster.Conn.Data.{ConnStatus, invalid_segment_type, InstanceRef}
use cipster.Conn.Resolve.{
  Verdict, granted, refused, ◌>>=◌, require, or_status, check_path, found_class, found_instance,
  Plan, plan, check_if,
}

pub >>=-eq-granted {ℓ κ} :
    {A : Type ℓ} {B : Type κ} (m : Verdict A) (f : A → Verdict B) {b : B}
    → (m >>= f) ≡ granted b
    → (a : A) × (m ≡ granted a) × (f a ≡ granted b)
>>=-eq-granted (granted a) f h = (a, refl, h)
>>=-eq-granted (refused s) f h = cc

pub granted-injective {ℓ} :
    {A : Type ℓ} {a b : A} → ◌≡◌ {A = Verdict A} (granted a) (granted b) → a ≡ b
granted-injective h = cc

pub require-granted :
    (b : Bool) (s : ConnStatus) {x : Unit {0}} → require b s ≡ granted x → b ≡ true
require-granted true s h = refl
require-granted false s h = cc

or_status-granted {ℓ} :
    {A : Type ℓ} (s : ConnStatus) (m : Verdict A) {a : A}
    → or_status s m ≡ granted a
    → m ≡ granted a
or_status-granted s (granted b) h = h
or_status-granted s (refused t) h = cc

-- A class is its own instance 0; the others are in its vector.
abbrev pub HoldsInstance : {I F : Type 0} → CipClass I F → ℕ → Type 0
HoldsInstance {I = I} c i = (i ≡ 0) ⊎ ((n : Instance I) × IsIn n c.instances × (n.instance_id ≡ i))

-- A path names an object of a class in the registry.
abbrev pub Names : {I F : Type 0} → List (CipClass I F) → AppPath → Type 0
Names {I = I} {F = F} registry p =
    (c : CipClass I F) × IsIn c registry
    × (c.class_id ≡ get class_id p)
    × HoldsInstance c (get_instance_or_conn_pt p)

as_target-IsIn :
    {I F : Type 0} (c : CipClass I F) (i : ℕ) {t : Target I F}
    → as_target (vec_search instance_id_of i c.instances) ≡ some t
    → HoldsInstance c i
as_target-IsIn c i h = elim (Option-cases (vec_search instance_id_of i c.instances)) [
  | inl e ↦ cc (rw e at h)
  | inr (n, e) ↦
      let (inside, same) = vec_search-IsIn instance_id_of c.instances i e in inr (n, inside, same)
]

instance_of-HoldsInstance :
    {I F : Type 0} (c : CipClass I F) (i : ℕ) {t : Target I F}
    → instance_of i c ≡ some t
    → HoldsInstance c i
unfolding instance_of
instance_of-HoldsInstance c i h = elim (Bool-cases (i == 0)) [
  | inl e ↦ inl ((==_iff i 0).0 e)
  | inr e ↦ as_target-IsIn c i (rw e at h)
]

module _ {I F : Type 0} (registry : List (CipClass I F)) where
  found_instance-HoldsInstance :
      (c : CipClass I F) (k i : ℕ) {r : InstanceRef}
      → found_instance registry k i (instance_of i c) ≡ granted r
      → HoldsInstance c i
  found_instance-HoldsInstance c k i h = elim (Option-cases (instance_of i c)) [
    | inl e ↦ cc (rw e at h)
    | inr (t, e) ↦ instance_of-HoldsInstance c i e
  ]

  found_class-Names :
      (p : AppPath) (o : Option (CipClass I F)) {r : InstanceRef}
      → find_class (get class_id p) registry ≡ o
      → found_class registry (get class_id p) (get_instance_or_conn_pt p) o ≡ granted r
      → Names registry p
  found_class-Names p none e h = cc
  found_class-Names p (some c) e h =
      let (inside, same) = find_class-IsIn (get class_id p) registry e in
      (
        c,
        inside,
        same,
        found_instance-HoldsInstance c (get class_id p) (get_instance_or_conn_pt p) h,
      )

  pub names : (p : AppPath) {r : InstanceRef} → check_path registry p ≡ granted r → Names registry p
  unfolding check_path
  names p h = elim (Bool-cases (is_sufficient p)) [
    | inl e ↦ found_class-Names p (find_class (get class_id p) registry) refl (rw e at h)
    | inr e ↦ cc (rw e at h)
  ]

  pub check_if-granted :
      (s : ConnStatus) (p : AppPath) → check_if registry (some s) p ≡ granted tt → Names registry p
  unfolding check_if
  check_if-granted s p h =
      let (r, e, _) = >>=-eq-granted (or_status s (check_path registry p)) (λ _. granted tt) h in
      names p (or_status-granted s (check_path registry p) e)

abbrev pub IsChecked : Option ConnStatus → Type 0
IsChecked none = ⊥
IsChecked (some s) = Unit {0}

-- A path that a plan uses is the first or is checked.
abbrev pub Allowed : Plan → Option Index → Type 0
Allowed u none = Unit {0}
Allowed u (some first) = Unit {0}
Allowed u (some second) = IsChecked u.check_second
Allowed u (some third) = IsChecked u.check_third

abbrev pub Used : Option Index → Type 0
Used none = ⊥
Used (some i) = Unit {0}

pub record IsPlan (no_o_t no_t_o : Bool) (u : Plan) : Type 0 where
  config_allowed : Allowed u u.config_use
  pub consuming_allowed : Allowed u u.consuming_use
  pub producing_allowed : Allowed u u.producing_use
  pub consuming_used : no_o_t ≡ false → Used u.consuming_use
  pub producing_used : no_t_o ≡ false → Used u.producing_use

-- What a verdict says if it grants.
abbrev Grants {ℓ κ} : {A : Type ℓ} → (A → Type κ) → Verdict A → Type κ
Grants P (granted a) = P a
Grants P (refused s) = Unit

Grants-if {ℓ κ} :
    {A : Type ℓ} (P : A → Type κ) (b : Bool) (m n : Verdict A)
    → Grants P m
    → Grants P n
    → Grants P (if b then m else n)
Grants-if P true m n p q = p
Grants-if P false m n p q = q

pub granted-Grants {ℓ κ} :
    {A : Type ℓ} (P : A → Type κ) (v : Verdict A) {a : A} → Grants P v → v ≡ granted a → P a
granted-Grants P (granted b) p h = subst P (cc) p
granted-Grants P (refused s) p h = cc

one_path :
    (o t : Bool) (count : ℕ) (u : Plan)
    → IsPlan o t u
    → Grants (IsPlan o t) (if count == 1 then granted u else refused invalid_segment_type)
one_path o t count u h =
    Grants-if (IsPlan o t) (count == 1) (granted u) (refused invalid_segment_type) h tt

by_count :
    (o t : Bool) (count : ℕ) (m n k : Verdict Plan)
    → Grants (IsPlan o t) m
    → Grants (IsPlan o t) n
    → Grants (IsPlan o t) k
    → Grants (IsPlan o t) (if count == 1 then m else if count == 2 then n else k)
by_count o t count m n k p q r =
    Grants-if (IsPlan o t) (count == 1) m (if count == 2 then n else k) p
      (Grants-if (IsPlan o t) (count == 2) n k q r)

pub plan-Grants :
    (o t with_data : Bool) (count : ℕ) → Grants (IsPlan o t) (plan o t with_data count)
unfolding plan
plan-Grants true true true count = ground arith
plan-Grants true true false count = one_path true true count _ (ground arith)
plan-Grants false true true count =
    by_count false true count _ _ _ (ground arith) (ground arith) (ground arith)
plan-Grants false true false count = one_path false true count _ (ground arith)
plan-Grants true false true count =
    by_count true false count _ _ _ (ground arith) (ground arith) (ground arith)
plan-Grants true false false count = one_path true false count _ (ground arith)
plan-Grants false false true count =
    by_count false false count _ _ _ (ground arith) (ground arith) (ground arith)
plan-Grants false false false count =
    by_count false false count _ _ _ (ground arith) (ground arith) (ground arith)
