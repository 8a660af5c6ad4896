-- ===== src/Router/Notify/Laws.antt =====
-- Which service a request reaches, and what the router answers itself.
use cipster.Base.{
  ℕ, ◌≡◌, ◌≢◌, refl, arith, ◌==◌, ==_iff, true, false, IsIn, List, Option, none, some,
  if◌then◌else◌,
}
use cipster.Cip.Table.Order.{find_id}
use cipster.Cip.Table.Found.{vec_search-at}
use cipster.Cip.Table.Search.{vec_search-find_id}
use cipster.Cip.Class.{
  Instance, Service, CipClass, Target, the_class, the_instance, service_of, as_target, services,
  service_id_of, instance_id_of, find_class, instance_of,
}
use cipster.Cip.Class.Laws.{IsClass, service_of-find_id}
use cipster.Cip.Class.Registry.{IsRegistry, find_class-at}
use cipster.Epath.AppPath.{AppPath, has, get, class_id, instance_id}
use cipster.Router.Request.{Request}
use cipster.Router.Response.{set_service}
use cipster.Router.Notify.{
  Exchange, ServiceCall, refuse, addressed, level_of, path_destination_unknown,
  service_not_supported, notify_mr,
}

abbrev pub target_in : {I F : Type 0} → ℕ → CipClass I F → Option (Target I F)
target_in i c =
    if i == 0 then some (the_class c) else as_target (find_id instance_id_of i c.instances)

-- The ways in which a request has no destination.
pub data Unreached {I F : Type 0} (registry : List (CipClass I F)) (q : Request) : Type 0 where
  no_instance : addressed q.path ≡ none → Unreached registry q
  no_class :
      (k i : ℕ)
      → addressed q.path ≡ some (k, i)
      → find_class k registry ≡ none
      → Unreached registry q
  no_member :
      (k i : ℕ) (c : CipClass I F) (s : Service F)
      → addressed q.path ≡ some (k, i)
      → find_class k registry ≡ some c
      → IsClass c
      → find_id service_id_of q.service (services (level_of i) c) ≡ some s
      → target_in i c ≡ none
      → Unreached registry q

-- The exchange with the request's service code in the response.
abbrev pub begun : {W : Type 0} → Request → Exchange W → Exchange W
begun q x = record x { response = set_service q.service x.response }

instance_of-target_in :
    {I F : Type 0} (i : ℕ) (c : CipClass I F) → IsClass c → instance_of i c ≡ target_in i c
unfolding instance_of
instance_of-target_in i c h =
    rw (vec_search-find_id instance_id_of i c.instances h.sorted_instances) refl

-- The class id and the instance id of a path: those of the symbol class, or those that it holds.
pub data Addresses (p : AppPath) : ℕ → ℕ → Type 0 where
  by_symbol : p.has_symbol ≡ true → Addresses p 0x6b 0
  by_ids :
      p.has_symbol ≡ false
      → has instance_id p ≡ true
      → Addresses p (get class_id p) (get instance_id p)

addressed-Addresses : (p : AppPath) {k i : ℕ} → Addresses p k i → addressed p ≡ some (k, i)
addressed-Addresses p (by_symbol e) = rw e
addressed-Addresses p (by_ids e h) = rw (e, h)

-- What a request is for: a class service of the class itself, or an instance service of an instance.
pub data IsFor {I F : Type 0} (q : Request) (c : CipClass I F) (i : ℕ)
    : Service F → Target I F → Type 0 where
  for_class :
      (s : Service F)
      → i ≡ 0
      → IsIn s c.class_services
      → s.service_id ≡ q.service
      → IsFor q c i s (the_class c)
  for_instance :
      (s : Service F) (n : Instance I)
      → i ≢ 0
      → IsIn s c.instance_services
      → s.service_id ≡ q.service
      → IsIn n c.instances
      → n.instance_id ≡ i
      → IsFor q c i s (the_instance n)

IsFor-services :
    {I F : Type 0} (q : Request) (c : CipClass I F) (i : ℕ) {s : Service F} {t : Target I F}
    → IsClass c
    → IsFor q c i s t
    → (service_of (level_of i) q.service c ≡ some s) × (instance_of i c ≡ some t)
unfolding service_of instance_of
IsFor-services q c i h (for_class s zero_id (at, here) code) =
    let found =
      vec_search-at service_id_of c.class_services q.service s h.sorted_class_services (at, here)
        code in
    rw ((==_iff i 0).1 zero_id) (found, refl)
IsFor-services q c i h (for_instance s n other inside code within id) =
    let found =
      vec_search-at service_id_of c.instance_services q.service s h.sorted_instance_services inside
        code in
    let member = vec_search-at instance_id_of c.instances i n h.sorted_instances within id in
    let not_zero : (i == 0) ≡ false = ground (arith, other) in rw not_zero (found, rw member refl)

module _ {I F W : Type 0} (call : ServiceCall I F W) where
  -- A request whose path addresses a class of a registry in which no id stands twice, by a symbol
  -- or by the ids that it holds, and whose code is that of a service in the sorted vectors of the
  -- class, a class service where the instance id is 0 and otherwise an instance service, has the
  -- result of that service, called for the class where the instance id is 0 and otherwise for the
  -- instance of that id in its vector, with the service code set in the response beforehand.
  pub notify_mr_reaches :
      (registry : List (CipClass I F)) (q : Request) (x : Exchange W) (i : ℕ) (c : CipClass I F)
      {s : Service F} {t : Target I F}
      → IsRegistry registry
      → IsIn c registry
      → IsClass c
      → Addresses q.path c.class_id i
      → IsFor q c i s t
      → notify_mr call registry q x
        ≡ call s.service_function t q
            (record x { response = record x.response { reply_service = q.service } })
  unfolding notify_mr
  notify_mr_reaches registry q x i c once (at, here) h path aim =
      let (service, target) = IsFor-services q c i h aim in
      rw (addressed-Addresses q.path path, find_class-at registry at c once here, service, target)
        refl

  -- A request that names a registered class without a service of its code is answered by the status
  -- "service not supported", whether the instance exists or not, and nothing else changes.
  notify_mr_no_service :
      (registry : List (CipClass I F)) (q : Request) (x : Exchange W) (k i : ℕ) (c : CipClass I F)
      → addressed q.path ≡ some (k, i)
      → find_class k registry ≡ some c
      → IsClass c
      → find_id service_id_of q.service (services (level_of i) c) ≡ none
      → notify_mr call registry q x ≡ refuse service_not_supported (begun q x)
  unfolding notify_mr
  notify_mr_no_service registry q x k i c path class h service =
      rw (path, class, service_of-find_id (level_of i) q.service c h, service) refl

  -- A path without an instance or a symbol, an unregistered class, and an instance that a class with
  -- the service does not have, are all answered by the status "path destination unknown", and nothing
  -- else changes.
  pub notify_mr_no_destination :
      (registry : List (CipClass I F)) (q : Request) (x : Exchange W)
      → Unreached registry q
      → notify_mr call registry q x ≡ refuse path_destination_unknown (begun q x)
  unfolding notify_mr
  notify_mr_no_destination registry q x (no_instance path) = rw path refl
  notify_mr_no_destination registry q x (no_class k i path class) = rw (path, class) refl
  notify_mr_no_destination registry q x (no_member k i c s path class h service target) =
      rw
        (
          path,
          class,
          service_of-find_id (level_of i) q.service c h,
          service,
          instance_of-target_in i c h,
          target,
        )
        refl
