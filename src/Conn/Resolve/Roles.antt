-- ===== src/Conn/Resolve/Roles.antt =====
-- What a request that ResolveInstances() grants may be relied on.
use cipster.Base.{
  ◌≡◌, refl, sym, ap, arith, true, false, ◌==◌, ==_iff, Bool-cases, inl, inr, List, Option, none,
  some, leb, ◌≤◌,
}
use mathlib.Core.Path.{subst}
use cipster.Epath.AppPath.{AppPath, assembly_class}
use cipster.Cip.Class.{CipClass}
use cipster.Conn.Params.{connection_type, is_null_type, transport_class}
use cipster.Conn.Path.{
  Index, first, second, third, assign_app_paths, ConnPath, path_at, consuming_path, producing_path,
  config_path,
}
use cipster.Conn.Data.{
  ConnStatus, invalid_config_path, invalid_consuming_path, invalid_producing_path, InstanceRef,
  ConnData,
}
use cipster.Conn.Resolve.{
  granted, require, check_path, Plan, plan, check_if, assign_roles, ref_of, ref_at, check_class,
  check_io, check_explicit, is_assembly_if, path_count, resolve_instances,
}
use cipster.Conn.Resolve.Laws.{
  >>=-eq-granted, granted-injective, require-granted, Names, names, check_if-granted, IsChecked,
  Allowed, Used, IsPlan, granted-Grants, plan-Grants,
}

-- The object of an end that is in use is there, and is the one that its path names.
abbrev pub HasObject : {I F : Type 0} → List (CipClass I F) → Option InstanceRef → AppPath → Type 0
HasObject registry o p = (o ≡ some (ref_of p)) × Names registry p

abbrev pub OfAssembly : Option InstanceRef → Type 0
OfAssembly none = Unit {0}
OfAssembly (some r) = r.class_id ≡ assembly_class

pub record IsResolved {I F : Type 0} (registry : List (CipClass I F)) (d : ConnData) : Type 0 where
  pub consuming_object :
      is_null_type (connection_type d.consuming.ncp) ≡ false
      → HasObject registry d.consuming.instance_ref (consuming_path d.conn_path)
  pub producing_object :
      is_null_type (connection_type d.producing.ncp) ≡ false
      → HasObject registry d.producing.instance_ref (producing_path d.conn_path)
  pub io_objects :
      transport_class d.trigger ≤ 1
      → OfAssembly d.config_instance
        × OfAssembly d.consuming.instance_ref
        × OfAssembly d.producing.instance_ref

path_at-assign :
    (ix a b c : Option Index) (p : ConnPath) → path_at ix (assign_app_paths a b c p) ≡ path_at ix p
unfolding assign_app_paths
path_at-assign none a b c p = refl
path_at-assign (some first) a b c p = refl
path_at-assign (some second) a b c p = refl
path_at-assign (some third) a b c p = refl

ref_at-assign :
    (ix a b c : Option Index) (p : ConnPath) → ref_at ix (assign_app_paths a b c p) ≡ ref_at ix p
ref_at-assign none a b c p = refl
ref_at-assign (some i) a b c p =
    ap (λ (q : AppPath). some (ref_of q)) (path_at-assign (some i) a b c p)

module _ {I F : Type 0} (registry : List (CipClass I F)) (u : Plan) (p : ConnPath)
    (h₁ : Names registry p.app_path1)
    (h₂ : check_if registry u.check_second p.app_path2 ≡ granted tt)
    (h₃ : check_if registry u.check_third p.app_path3 ≡ granted tt) where
  named_if :
      (s : Option ConnStatus) (a : AppPath)
      → check_if registry s a ≡ granted tt
      → IsChecked s
      → Names registry a
  named_if none a h c = absurd c
  named_if (some s) a h c = check_if-granted registry s a h

  object_named :
      (ix : Option Index) → Allowed u ix → Used ix → HasObject registry (ref_at ix p) (path_at ix p)
  object_named none a x = absurd x
  object_named (some first) a x = (refl, h₁)
  object_named (some second) a x = (refl, named_if u.check_second p.app_path2 h₂ a)
  object_named (some third) a x = (refl, named_if u.check_third p.app_path3 h₃ a)

-- The part that does not depend on the transport class.
record IsAssigned {I F : Type 0} (registry : List (CipClass I F)) (d : ConnData) : Type 0 where
  consuming_there :
      is_null_type (connection_type d.consuming.ncp) ≡ false
      → HasObject registry d.consuming.instance_ref (consuming_path d.conn_path)
  producing_there :
      is_null_type (connection_type d.producing.ncp) ≡ false
      → HasObject registry d.producing.instance_ref (producing_path d.conn_path)
  config_ref : d.config_instance ≡ ref_at d.conn_path.config_index d.conn_path
  consuming_ref : d.consuming.instance_ref ≡ ref_at d.conn_path.consuming_index d.conn_path
  producing_ref : d.producing.instance_ref ≡ ref_at d.conn_path.producing_index d.conn_path

is_assembly-OfAssembly :
    (ix : Option Index) (p : ConnPath)
    → is_assembly_if (ref_at ix p) (path_at ix p) ≡ true
    → OfAssembly (ref_at ix p)
is_assembly-OfAssembly none p h = tt
is_assembly-OfAssembly (some i) p h = (==_iff _ _).0 h

assigned :
    {I F : Type 0} (registry : List (CipClass I F)) (u : Plan) (d : ConnData)
    → Names registry d.conn_path.app_path1
    → check_if registry u.check_second d.conn_path.app_path2 ≡ granted tt
    → check_if registry u.check_third d.conn_path.app_path3 ≡ granted tt
    → IsPlan
        (is_null_type (connection_type d.consuming.ncp))
        (is_null_type (connection_type d.producing.ncp))
        u
    → IsAssigned registry (assign_roles u d)
unfolding assign_roles
assigned registry u d h₁ h₂ h₃ s =
    let p = d.conn_path in
    let same =
      λ (ix : Option Index). path_at-assign ix u.config_use u.consuming_use u.producing_use p in
    record {
      consuming_there = λ z. rw (same u.consuming_use) (
          object_named registry u p h₁ h₂ h₃ u.consuming_use s.consuming_allowed
            (s.consuming_used z));
      producing_there = λ z. rw (same u.producing_use) (
          object_named registry u p h₁ h₂ h₃ u.producing_use s.producing_allowed
            (s.producing_used z));
      config_ref = sym (ref_at-assign u.config_use u.config_use u.consuming_use u.producing_use p);
      consuming_ref =
          sym (ref_at-assign u.consuming_use u.config_use u.consuming_use u.producing_use p);
      producing_ref =
          sym (ref_at-assign u.producing_use u.config_use u.consuming_use u.producing_use p);
    }

module _ {I F : Type 0} (registry : List (CipClass I F)) (d : ConnData)
    (a : IsAssigned registry d) where
  open a use {consuming_there, producing_there, config_ref, consuming_ref, producing_ref}

  with_class :
      (transport_class d.trigger ≤ 1
        → OfAssembly d.config_instance
          × OfAssembly d.consuming.instance_ref
          × OfAssembly d.producing.instance_ref)
      → IsResolved registry d
  with_class h = record {
    consuming_object = consuming_there;
    producing_object = producing_there;
    io_objects = h;
  }

  check_io-IsResolved : {e : ConnData} → check_io d ≡ granted e → IsResolved registry e
  unfolding check_io
  check_io-IsResolved {e} h =
      let (_, hc, k₁) =
        >>=-eq-granted
          (require (is_assembly_if d.config_instance (config_path d.conn_path)) invalid_config_path)
          _ h in
      let (_, ho, k₂) =
        >>=-eq-granted
          (require (is_assembly_if d.consuming.instance_ref (consuming_path d.conn_path))
            invalid_consuming_path)
          _ k₁ in
      let (_, ht, k₃) =
        >>=-eq-granted
          (require (is_assembly_if d.producing.instance_ref (producing_path d.conn_path))
            invalid_producing_path)
          _ k₂ in
      subst (IsResolved registry) (granted-injective k₃) (record {
        consuming_object = consuming_there;
        producing_object = producing_there;
        io_objects = λ _. (
          rw config_ref (
              is_assembly-OfAssembly d.conn_path.config_index d.conn_path
                (rw config_ref at (require-granted _ _ hc))),
          rw consuming_ref (
              is_assembly-OfAssembly d.conn_path.consuming_index d.conn_path
                (rw consuming_ref at (require-granted _ _ ho))),
          rw producing_ref (
              is_assembly-OfAssembly d.conn_path.producing_index d.conn_path
                (rw producing_ref at (require-granted _ _ ht))),
        );
      })

  check_explicit-granted : {e : ConnData} → check_explicit d ≡ granted e → d ≡ e
  unfolding check_explicit
  check_explicit-granted h = ground arith

  check_class-IsResolved : {e : ConnData} → check_class d ≡ granted e → IsResolved registry e
  unfolding check_class
  check_class-IsResolved h = elim (Bool-cases (transport_class d.trigger == 3)) [
    | inl is ↦
        subst (IsResolved registry) (check_explicit-granted (rw is at h))
          (with_class λ low. absurd (ground (arith, (==_iff (transport_class d.trigger) 3).0 is)))
    | inr isnt ↦ elim (Bool-cases (leb (transport_class d.trigger) 1)) [
      | inl low ↦ check_io-IsResolved (rw (isnt, low) at h)
      | inr high ↦
          subst (IsResolved registry) (granted-injective (rw (isnt, high) at h))
            (with_class λ low. absurd (ground arith))
    ]
  ]

-- When ResolveInstances() grants a request, each end that is not null has the object that its path
-- names, and the registry holds a class of the path's class id that is this object itself, where
-- its id is 0, or has an instance of this id in its vector; and for the transport classes 0 and 1
-- every object, the configuration's too, is an assembly.
pub resolve_instances-IsResolved :
    {I F : Type 0} (registry : List (CipClass I F)) (d : ConnData) {e : ConnData}
    → resolve_instances registry d ≡ granted e
    → IsResolved registry e
unfolding resolve_instances assign_roles
resolve_instances-IsResolved registry d h =
    let p = d.conn_path in
    let no_o_t = is_null_type (connection_type d.consuming.ncp) in
    let no_t_o = is_null_type (connection_type d.producing.ncp) in
    let (r, h₁, k₁) = >>=-eq-granted (check_path registry p.app_path1) _ h in
    let (u, planned, k₂) =
      >>=-eq-granted (plan no_o_t no_t_o p.data_seg.has_data (path_count p)) _ k₁ in
    let (_, h₂, k₃) = >>=-eq-granted (check_if registry u.check_second p.app_path2) _ k₂ in
    let (_, h₃, k₄) = >>=-eq-granted (check_if registry u.check_third p.app_path3) _ k₃ in
    let sound =
      granted-Grants (IsPlan no_o_t no_t_o) _
        (plan-Grants no_o_t no_t_o p.data_seg.has_data (path_count p)) planned in
    check_class-IsResolved registry (assign_roles u d)
      (assigned registry u d (names registry p.app_path1 h₁) h₂ h₃ sound) k₄
