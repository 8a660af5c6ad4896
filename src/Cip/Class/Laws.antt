-- ===== src/Cip/Class/Laws.antt =====
-- What a class answers after its insertions and removals.
use cipster.Base.{
  ℕ, ◌≡◌, refl, ap, ◌∙◌, ◌==◌, ◌&&◌, [], Bool, Bool-cases, inl, inr, true, false, Option-cases,
  some, if◌then◌else◌,
}
use cipster.Cip.Table.{insert_over}
use cipster.Cip.Table.Order.{IsSorted, find_id}
use cipster.Cip.Table.Search.{vec_search-find_id}
use cipster.Cip.Table.Laws.{
  insert_over-IsSorted, insert_new-insert_over, remove-IsSorted, find_id-insert_over,
}
use cipster.Cip.Class.{
  Instance, Service, Level, of_instances, of_class, CipClass, services, instance_id_of,
  service_id_of, instance_insert, instance_remove, service_of, service_insert, service_remove,
}

-- The vectors are sorted, and no id stands twice in one.
pub record IsClass {I F : Type 0} (c : CipClass I F) : Type 0 where
  pub sorted_instances : IsSorted instance_id_of c.instances
  pub sorted_instance_services : IsSorted service_id_of c.instance_services
  pub sorted_class_services : IsSorted service_id_of c.class_services

abbrev same_level : Level → Level → Bool
same_level of_instances of_instances = true
same_level of_class of_class = true
same_level _ _ = false

-- The calls that change a class from without.
pub data ClassOp (I F : Type 0) : Type 0 where
  insert_instance : Instance I → ClassOp I F
  remove_instance : ℕ → ClassOp I F
  insert_service : Level → Service F → ClassOp I F
  remove_service : Level → ℕ → ClassOp I F

unfoldable pub apply : {I F : Type 0} → ClassOp I F → CipClass I F → CipClass I F
apply (insert_instance i) c = (instance_insert i c).1
apply (remove_instance k) c = (instance_remove k c).1
apply (insert_service level s) c = service_insert level s c
apply (remove_service level k) c = (service_remove level k c).1

-- A class that began empty.
pub data Built {I F : Type 0} : CipClass I F → Type 0 where
  new :
      (k : ℕ) (x : I)
      → Built (record {
        class_id = k;
        class_content = x;
        instances = [];
        instance_services = [];
        class_services = [];
      })
  after : (op : ClassOp I F) {c : CipClass I F} → Built c → Built (apply op c)

module _ {I F : Type 0} where
  IsSorted-services :
      (level : Level) (c : CipClass I F) → IsClass c → IsSorted service_id_of (services level c)
  IsSorted-services of_instances c h = h.sorted_instance_services
  IsSorted-services of_class c h = h.sorted_class_services

  pub service_of-find_id :
      (level : Level) (k : ℕ) (c : CipClass I F)
      → IsClass c
      → service_of level k c ≡ find_id service_id_of k (services level c)
  unfolding service_of
  service_of-find_id level k c h =
      vec_search-find_id service_id_of k (services level c) (IsSorted-services level c h)

  service_insert-IsClass :
      (level : Level) (s : Service F) (c : CipClass I F)
      → IsClass c
      → IsClass (service_insert level s c)
  unfolding service_insert
  service_insert-IsClass of_instances s c h = record {
    sorted_instances = h.sorted_instances;
    sorted_class_services = h.sorted_class_services;
    sorted_instance_services =
        insert_over-IsSorted service_id_of s c.instance_services h.sorted_instance_services;
  }
  service_insert-IsClass of_class s c h = record {
    sorted_instances = h.sorted_instances;
    sorted_instance_services = h.sorted_instance_services;
    sorted_class_services =
        insert_over-IsSorted service_id_of s c.class_services h.sorted_class_services;
  }

  service_remove-IsClass :
      (level : Level) (k : ℕ) (c : CipClass I F) → IsClass c → IsClass (service_remove level k c).1
  unfolding service_remove
  service_remove-IsClass of_instances k c h = record {
    sorted_instances = h.sorted_instances;
    sorted_class_services = h.sorted_class_services;
    sorted_instance_services =
        remove-IsSorted service_id_of k c.instance_services h.sorted_instance_services;
  }
  service_remove-IsClass of_class k c h = record {
    sorted_instances = h.sorted_instances;
    sorted_instance_services = h.sorted_instance_services;
    sorted_class_services =
        remove-IsSorted service_id_of k c.class_services h.sorted_class_services;
  }

  instance_remove-IsClass : (k : ℕ) (c : CipClass I F) → IsClass c → IsClass (instance_remove k c).1
  unfolding instance_remove
  instance_remove-IsClass k c h = record {
    sorted_instance_services = h.sorted_instance_services;
    sorted_class_services = h.sorted_class_services;
    sorted_instances = remove-IsSorted instance_id_of k c.instances h.sorted_instances;
  }

  instance_insert-IsClass :
      (i : Instance I) (c : CipClass I F) → IsClass c → IsClass (instance_insert i c).1
  unfolding instance_insert
  instance_insert-IsClass i c h = elim (Bool-cases i.owned) [
    | inl e ↦ rw e h
    | inr e ↦
        rw
          (
            e,
            insert_new-insert_over instance_id_of (record i { owned = true }) c.instances
                h.sorted_instances,
          )
          (elim (Option-cases (find_id instance_id_of i.instance_id c.instances)) [
            | inl free ↦ rw free (record {
              sorted_instances =
                  insert_over-IsSorted instance_id_of (record i { owned = true }) c.instances
                    h.sorted_instances;
              sorted_instance_services = h.sorted_instance_services;
              sorted_class_services = h.sorted_class_services;
            })
            | inr (old, taken) ↦ rw taken h
          ])
  ]

  services-insert :
      (level other : Level) (s : Service F) (c : CipClass I F)
      → services other (service_insert level s c) ≡ (
          if same_level level other
          then insert_over service_id_of s (services other c)
          else services other c)
  unfolding service_insert
  services-insert of_instances of_instances s c = refl
  services-insert of_instances of_class s c = refl
  services-insert of_class of_instances s c = refl
  services-insert of_class of_class s c = refl

  -- After ServiceInsert() the class answers with the new service for its id and its level, also if it
  -- had a service of this id, and as before for any other.
  pub service_of-service_insert :
      (level other : Level) (k : ℕ) (s : Service F) (c : CipClass I F)
      → IsClass c
      → service_of other k (service_insert level s c)
        ≡ (if same_level level other && (s.service_id == k) then some s else service_of other k c)
  service_of-service_insert level other k s c h =
      service_of-find_id other k (service_insert level s c) (service_insert-IsClass level s c h)
      ∙ ap (find_id service_id_of k) (services-insert level other s c)
      ∙ rw (service_of-find_id other k c h) (elim (Bool-cases (same_level level other)) [
        | inl e ↦
            rw e (
              find_id-insert_over service_id_of k s (services other c)
                (IsSorted-services other c h))
        | inr e ↦ rw e
      ])

  apply-IsClass : (op : ClassOp I F) (c : CipClass I F) → IsClass c → IsClass (apply op c)
  unfolding apply
  apply-IsClass (insert_instance i) c h = instance_insert-IsClass i c h
  apply-IsClass (remove_instance k) c h = instance_remove-IsClass k c h
  apply-IsClass (insert_service level s) c h = service_insert-IsClass level s c h
  apply-IsClass (remove_service level k) c h = service_remove-IsClass level k c h

-- Whatever instances and services are inserted into a new class and removed again, refused insertions
-- included, its vectors stay sorted by ids of which none stands twice.
pub Built-IsClass : {I F : Type 0} {c : CipClass I F} → Built c → IsClass c
Built-IsClass (new k x) = record {
  sorted_instances = _;
  sorted_instance_services = _;
  sorted_class_services = _;
}
Built-IsClass (after op {c = c} b) = apply-IsClass op c (Built-IsClass b)
