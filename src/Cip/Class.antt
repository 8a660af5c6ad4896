-- ===== src/Cip/Class.antt =====
-- class CipClass of cip/cipclass.h and cipclass.cc with its vectors of instances and services, and the
-- class registry. What an instance holds and what a service does are types of the application.
pub mod Laws
pub mod Registry
use cipster.Base.{
  ℕ, ◌==◌, List, [], ◌∷◌, ◌++◌, length, Bool, true, false, Option, none, some, if◌then◌else◌,
}
use cipster.Cip.Table.{vec_search, vec_search_gte, insert_new, insert_over, remove, find_free_id}

-- `owned` is the test of Class().
pub record Instance (I : Type 0) : Type 0 where
  pub instance_id : ℕ
  pub owned : Bool
  pub content : I

pub record Service (F : Type 0) : Type 0 where
  pub service_id : ℕ
  pub service_function : F

-- _I and _C.
pub data Level : Type 0 where
  of_instances of_class : Level

pub record CipClass (I F : Type 0) : Type 0 where
  pub class_id : ℕ
  pub class_content : I
  pub instances : List (Instance I)
  pub instance_services : List (Service F)
  pub class_services : List (Service F)

-- What Instance() gives: the class, which is its own instance 0, or a member of the vector.
pub data Target (I F : Type 0) : Type 0 where
  the_class : CipClass I F → Target I F
  the_instance : Instance I → Target I F

abbrev pub instance_id_of : {I : Type 0} → Instance I → ℕ
instance_id_of i = i.instance_id

abbrev pub service_id_of : {F : Type 0} → Service F → ℕ
service_id_of s = s.service_id

module _ {I F : Type 0} where
  abbrev pub class_id_of : CipClass I F → ℕ
  class_id_of c = c.class_id

  abbrev pub services : Level → CipClass I F → List (Service F)
  services of_instances c = c.instance_services
  services of_class c = c.class_services

  abbrev pub with_services : Level → List (Service F) → CipClass I F → CipClass I F
  with_services of_instances ss c = record c { instance_services = ss }
  with_services of_class ss c = record c { class_services = ss }

  abbrev pub instance_added : CipClass I F → Option (List (Instance I)) → Bool × CipClass I F
  instance_added c none = (false, c)
  instance_added c (some is) = (true, record c { instances = is })

  -- InstanceInsert().
  unfoldable pub instance_insert : Instance I → CipClass I F → Bool × CipClass I F
  unfolding insert_new
  instance_insert i c =
      if i.owned
      then (false, c)
      else instance_added c (insert_new instance_id_of (record i { owned = true }) c.instances)

  -- InstanceRemove().
  unfoldable pub instance_remove : ℕ → CipClass I F → Option (Instance I) × CipClass I F
  unfolding remove
  instance_remove k c =
      let (found, rest) = remove instance_id_of k c.instances in
      (found, record c { instances = rest })

  abbrev pub as_target : Option (Instance I) → Option (Target I F)
  as_target none = none
  as_target (some i) = some (the_instance i)

  -- Instance().
  unfoldable pub instance_of : ℕ → CipClass I F → Option (Target I F)
  unfolding vec_search
  instance_of k c =
      if k == 0 then some (the_class c) else as_target (vec_search instance_id_of k c.instances)

  -- InstanceNext().
  abbrev pub instance_next : ℕ → CipClass I F → ℕ
  instance_next k c = vec_search_gte instance_id_of k c.instances

  -- Service(), ServiceI() and ServiceC().
  unfoldable pub service_of : Level → ℕ → CipClass I F → Option (Service F)
  unfolding vec_search
  service_of level k c = vec_search service_id_of k (services level c)

  -- ServiceInsert().
  unfoldable pub service_insert : Level → Service F → CipClass I F → CipClass I F
  unfolding insert_over
  service_insert level s c = with_services level (insert_over service_id_of s (services level c)) c

  -- ServiceRemove().
  unfoldable pub service_remove : Level → ℕ → CipClass I F → Option (Service F) × CipClass I F
  unfolding remove
  service_remove level k c =
      let (found, rest) = remove service_id_of k (services level c) in
      (found, with_services level rest c)

  -- FindClass(). The order of the hash table makes no difference, as no id stands twice in it.
  unfoldable pub find_class : ℕ → List (CipClass I F) → Option (CipClass I F)
  find_class k [] = none
  find_class k (c ∷ cs) = let rest = find_class k cs in if c.class_id == k then some c else rest

  -- RegisterClass().
  abbrev pub unless_registered :
      Option (CipClass I F) → CipClass I F → List (CipClass I F) → Bool × List (CipClass I F)
  unless_registered none c cs = (true, c ∷ cs)
  unless_registered (some old) c cs = (false, cs)

  unfoldable pub register_class : CipClass I F → List (CipClass I F) → Bool × List (CipClass I F)
  unfolding find_class
  register_class c cs = unless_registered (find_class c.class_id cs) c cs
