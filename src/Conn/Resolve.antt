-- ===== src/Conn/Resolve.antt =====
-- ConnectionData::ResolveInstances() of cip/cipconnection.cc: which application path of a forward open
-- request stands for what, and the objects that they name. A refused request keeps its status only:
-- nothing else of it is looked at behind the refusal.
pub mod Laws
pub mod Roles
use cipster.Base.{
  ℕ, ◌+◌, ◌^◌, ◌==◌, leb, ltb, List, Bool, true, false, not, ◌&&◌, ◌||◌, Option, none, some,
  if◌then◌else◌,
}
use cipster.Epath.AppPath.{
  AppPath, get, class_id, has_any, is_sufficient, get_instance_or_conn_pt, assembly_class,
}
use cipster.Cip.Class.{CipClass, Target, find_class, instance_of}
use cipster.Conn.Params.{connection_type, is_null_type, transport_class, set_server}
use cipster.Conn.Path.{
  Index, first, second, third, ConnPath, path_at, assign_app_paths, config_path, consuming_path,
  producing_path,
}
use cipster.Conn.Data.{
  ConnStatus, invalid_segment_type, inconsistent_path_combo, invalid_config_path,
  invalid_consuming_path, invalid_producing_path, InstanceRef, ConnData,
}

-- kCipErrorSuccess with a value, or kCipErrorConnectionFailure with the extended status.
pub data Verdict {ℓ} (A : Type ℓ) : Type ℓ where
  granted : A → Verdict A
  refused : ConnStatus → Verdict A

infixl 5 ◌>>=◌
abbrev pub ◌>>=◌ {ℓ κ} : {A : Type ℓ} {B : Type κ} → Verdict A → (A → Verdict B) → Verdict B
granted a >>= f = f a
refused s >>= f = refused s

abbrev pub require : Bool → ConnStatus → Verdict (Unit {0})
require true s = granted tt
require false s = refused s

abbrev pub message_router_class : ℕ
message_router_class = 2

-- The status of a refusal, where the caller has one of its own.
abbrev pub or_status {ℓ} : {A : Type ℓ} → ConnStatus → Verdict A → Verdict A
or_status s (granted a) = granted a
or_status s (refused t) = refused s

module _ {I F : Type 0} (registry : List (CipClass I F)) where
  abbrev pub found_instance : ℕ → ℕ → Option (Target I F) → Verdict InstanceRef
  found_instance c i none = refused invalid_segment_type
  found_instance c i (some t) = granted (record { class_id = c; object_id = i })

  -- The class id is compared as a signed number.
  abbrev pub found_class : ℕ → ℕ → Option (CipClass I F) → Verdict InstanceRef
  found_class c i none =
      refused
        (if leb 0xc8 c && ltb c (2 ^ 31) then invalid_segment_type else inconsistent_path_combo)
  found_class c i (some clazz) = found_instance c i (instance_of i clazz)

  -- check_path().
  unfoldable pub check_path : AppPath → Verdict InstanceRef
  unfolding find_class instance_of
  check_path p =
      if not (is_sufficient p)
      then refused invalid_segment_type
      else found_class (get class_id p) (get_instance_or_conn_pt p)
          (find_class (get class_id p) registry)

-- What the paths are for, and which of the last two has to be checked, with the status if it fails.
pub record Plan : Type 0 where
  pub config_use : Option Index
  pub consuming_use : Option Index
  pub producing_use : Option Index
  pub check_second : Option ConnStatus
  pub check_third : Option ConnStatus
  pub managed_by_second : Bool

abbrev pub uses : Option Index → Option Index → Option Index → Plan
uses config consuming producing = record {
  config_use = config;
  consuming_use = consuming;
  producing_use = producing;
  check_second = none;
  check_third = none;
  managed_by_second = false;
}

-- Rows 1 to 4 of the table, with the number of paths and whether there is a data segment.
unfoldable pub plan_null : Bool → ℕ → Verdict Plan
plan_null true count = granted (uses (some first) none none)
plan_null false count =
    if count == 1 then granted (uses none (some first) none) else refused invalid_segment_type

unfoldable pub plan_consuming : Bool → ℕ → Verdict Plan
plan_consuming true count =
    if count == 1
    then granted (uses (some first) (some first) none)
    else if count == 2
    then granted (record (uses (some first) (some second) none) {
      check_second = some invalid_consuming_path;
    })
    else refused invalid_segment_type
plan_consuming false count =
    if count == 1 then granted (uses none (some first) none) else refused invalid_segment_type

unfoldable pub plan_producing : Bool → ℕ → Verdict Plan
plan_producing true count =
    if count == 1
    then granted (uses (some first) none (some first))
    else if count == 2
    then granted (record (uses (some first) none (some second)) {
      check_second = some invalid_producing_path;
    })
    else refused invalid_segment_type
plan_producing false count =
    if count == 1 then granted (uses none none (some first)) else refused invalid_segment_type

unfoldable pub plan_both : Bool → ℕ → Verdict Plan
plan_both true count =
    if count == 1
    then granted (uses (some first) (some first) (some first))
    else if count == 2
    then granted (record (uses (some first) (some second) (some second)) {
      check_second = some invalid_consuming_path;
    })
    else granted (record (uses (some first) (some second) (some third)) {
      check_second = some invalid_consuming_path;
      check_third = some invalid_producing_path;
    })
plan_both false count =
    if count == 1
    then granted (uses none (some first) (some first))
    else if count == 2
    then granted (record (uses none (some first) (some second)) {
      check_second = some invalid_producing_path;
    })
    else granted (record (uses none (some second) (some third)) {
      check_second = some invalid_consuming_path;
      check_third = some invalid_producing_path;
      managed_by_second = true;
    })

unfoldable pub plan : Bool → Bool → Bool → ℕ → Verdict Plan
unfolding plan_null plan_consuming plan_producing plan_both
plan true true with_data count = plan_null with_data count
plan false true with_data count = plan_consuming with_data count
plan true false with_data count = plan_producing with_data count
plan false false with_data count = plan_both with_data count

abbrev pub one_if : Bool → ℕ
one_if true = 1
one_if false = 0

abbrev pub path_count : ConnPath → ℕ
path_count p = 1 + one_if (has_any p.app_path2) + one_if (has_any p.app_path3)

-- The object of a path that has been checked.
abbrev pub ref_of : AppPath → InstanceRef
ref_of p = record { class_id = get class_id p; object_id = get_instance_or_conn_pt p }

abbrev pub ref_at : Option Index → ConnPath → Option InstanceRef
ref_at none p = none
ref_at (some i) p = some (ref_of (path_at (some i) p))

-- The paths, the objects and the class that opens the connection.
unfoldable pub assign_roles : Plan → ConnData → ConnData
unfolding assign_app_paths
assign_roles u d = record d {
  conn_path = assign_app_paths u.config_use u.consuming_use u.producing_use d.conn_path;
  config_instance = ref_at u.config_use d.conn_path;
  consuming = record d.consuming { instance_ref = ref_at u.consuming_use d.conn_path };
  producing = record d.producing { instance_ref = ref_at u.producing_use d.conn_path };
  mgmnt_class =
      if u.managed_by_second
      then get class_id d.conn_path.app_path2
      else get class_id d.conn_path.app_path1;
}

-- `instance && path.GetClass() != kCipAssemblyClass` refuses.
abbrev pub is_assembly_if : Option InstanceRef → AppPath → Bool
is_assembly_if none p = true
is_assembly_if (some i) p = get class_id p == assembly_class

unfoldable pub check_io : ConnData → Verdict ConnData
unfolding set_server
check_io d = do
  _ ← require (is_assembly_if d.config_instance (config_path d.conn_path)) invalid_config_path
  _ ←
      require (is_assembly_if d.consuming.instance_ref (consuming_path d.conn_path))
        invalid_consuming_path
  _ ←
      require (is_assembly_if d.producing.instance_ref (producing_path d.conn_path))
        invalid_producing_path
  granted (record d { trigger = set_server false d.trigger })

unfoldable pub check_explicit : ConnData → Verdict ConnData
check_explicit d =
    let p = consuming_path d.conn_path in
    if not (get class_id p == message_router_class) || not (get_instance_or_conn_pt p == 1)
    then refused inconsistent_path_combo
    else granted d

-- The switch on the transport class.
unfoldable pub check_class : ConnData → Verdict ConnData
unfolding check_io check_explicit
check_class d =
    if transport_class d.trigger == 3
    then check_explicit d
    else if leb (transport_class d.trigger) 1
    then check_io d
    else granted d

module _ {I F : Type 0} (registry : List (CipClass I F)) where
  unfoldable pub check_if : Option ConnStatus → AppPath → Verdict (Unit {0})
  unfolding check_path
  check_if none p = granted tt
  check_if (some s) p = do _ ← or_status s (check_path registry p); granted tt

  -- ResolveInstances().
  unfoldable pub resolve_instances : ConnData → Verdict ConnData
  unfolding plan check_if assign_roles check_class connection_type check_path
  resolve_instances d = do
    _ ← check_path registry d.conn_path.app_path1
    u ←
        plan (is_null_type (connection_type d.consuming.ncp))
          (is_null_type (connection_type d.producing.ncp)) d.conn_path.data_seg.has_data
          (path_count d.conn_path)
    _ ← check_if u.check_second d.conn_path.app_path2
    _ ← check_if u.check_third d.conn_path.app_path3
    check_class (assign_roles u d)
