-- ===== src/Epath/Tests.antt =====
-- Paths and segments on concrete bytes.
use cipster.Base.{
  Bounded, ◌≡◌, ◌≤◌, ◌%◌, refl, arith, List, [], ◌∷◌, ◌++◌, true, false, ℕ, ok, some, none,
  out_of_fuel, Avoids,
}
use cipster.Bytes.Writer.{append}
use cipster.Bytes.Append.{fresh}
use cipster.Epath.Flags.{packed}
use cipster.Epath.AppPath.{AppPath, blank, set_stuff, same_path, class_id, instance_id, attribute}
use cipster.Epath.AppPath.Serialize.{serialize, serialized_count}
use cipster.Epath.AppPath.Deserialize.{deserialize}
use cipster.Epath.AppPath.Encode.{serialize_lem, path_bytes}
use cipster.Epath.AppPath.Size.{serialized_count_lem}
use cipster.Epath.AppPath.RoundTrip.{deserialize-serialize}
use cipster.Epath.AppPath.Flat.{IsPlain, IsLogicalPath}
use cipster.Epath.AppPath.Total.{deserialize-Avoids}
use cipster.Epath.Group.{Group, deserialize_group}
use cipster.Epath.Group.Total.{deserialize_group-Bounded, behind_group}
use cipster.Epath.Port.{Port, serialize_port, deserialize_port}
use cipster.Epath.Port.Laws.{deserialize_port-serialize_port, deserialize_port_fifteen}
use cipster.Epath.Key.{Key, serialize_key, deserialize_key}
use cipster.Epath.Key.Laws.{deserialize_key-serialize_key}

abbrev zeros : List ℕ
zeros = 0 ∷ 0 ∷ 0 ∷ 0 ∷ 0 ∷ 0 ∷ 0 ∷ 0 ∷ 0 ∷ 0 ∷ []

-- Class 0x6b, instance 300, attribute 7.
abbrev sample_path : AppPath
sample_path = set_stuff attribute 7 (set_stuff instance_id 300 (set_stuff class_id 0x6b blank))

abbrev sample_bytes : List ℕ
sample_bytes = 0x20 ∷ 0x6b ∷ 0x25 ∷ 0 ∷ 44 ∷ 1 ∷ 0x30 ∷ 7 ∷ []

serialize_lem_example :
    serialize sample_path 0 (fresh zeros) ≡ append (path_bytes sample_path 0) (fresh zeros)
serialize_lem_example = serialize_lem sample_path 0 (fresh zeros)

serialized_count_lem_example :
    (serialized_count sample_path 0 ≡ ok 8) × (8 ≤ 68) × (packed 0 ≡ false → 8 % 2 ≡ 0)
serialized_count_lem_example = serialized_count_lem sample_path 0 (omega arith)

sample-IsPlain : IsPlain 0
sample-IsPlain = record { keeps_class = refl; keeps_instance = refl; keeps_conn_pt = refl }

sample-IsLogicalPath : IsLogicalPath sample_path
sample-IsLogicalPath = record {
  no_symbol = refl;
  no_member1 = refl;
  no_member2 = refl;
  no_member3 = refl;
  has_class = refl;
  one_point = λ e. refl;
  one_item = λ e. refl;
  small_class = omega arith;
  small_instance = omega arith;
  small_conn_pt = omega arith;
  small_attribute = omega arith;
}

deserialize-serialize_example :
    (q : AppPath) × (deserialize 0 none (sample_bytes ++ []) blank ≡ ok (q, []))
    × (same_path q sample_path ≡ true)
deserialize-serialize_example =
    deserialize-serialize sample_path blank 0 [] zeros
      (record { before = sample_bytes; after = 0 ∷ 0 ∷ [] }) sample-IsPlain sample-IsLogicalPath _
      (unfold serialize in refl)

abbrev sample_port : Port
sample_port = record { port = 2; link_address = 10 ∷ 20 ∷ 30 ∷ [] }

deserialize_port-serialize_port_example :
    deserialize_port 0 (0x12 ∷ 3 ∷ 10 ∷ 20 ∷ 30 ∷ 0 ∷ 7 ∷ []) ≡ ok (sample_port, 7 ∷ [])
deserialize_port-serialize_port_example =
    deserialize_port-serialize_port sample_port 0 (7 ∷ []) zeros
      (record { before = 0x12 ∷ 3 ∷ 10 ∷ 20 ∷ 30 ∷ 0 ∷ []; after = 0 ∷ 0 ∷ 0 ∷ 0 ∷ [] })
      (omega arith) (ground arith) (omega arith) (omega arith, (omega arith, (omega arith, _)))
      (unfold serialize_port in refl)

deserialize_port_fifteen_example :
    deserialize_port 0 (15 ∷ 5 ∷ 1 ∷ 2 ∷ []) ≡ ok (record { port = 261; link_address = 2 ∷ [] }, [])
deserialize_port_fifteen_example =
    deserialize_port_fifteen 0 5 1 2 [] zeros
      (record { before = 15 ∷ 5 ∷ []; after = 0 ∷ 0 ∷ 0 ∷ 0 ∷ 0 ∷ 0 ∷ 0 ∷ 0 ∷ [] }) (omega arith)
      (unfold serialize_port in refl)

abbrev sample_key : Key
sample_key = record {
  vendor_id = 300;
  device_type = 14;
  product_code = 5;
  major_revision = 1;
  minor_revision = 2;
}

deserialize_key-serialize_key_example :
    deserialize_key (0x34 ∷ 4 ∷ 44 ∷ 1 ∷ 14 ∷ 0 ∷ 5 ∷ 0 ∷ 1 ∷ 2 ∷ []) sample_key
    ≡ ok (some (sample_key, []))
deserialize_key-serialize_key_example =
    deserialize_key-serialize_key sample_key sample_key [] zeros
      (record { before = 0x34 ∷ 4 ∷ 44 ∷ 1 ∷ 14 ∷ 0 ∷ 5 ∷ 0 ∷ 1 ∷ 2 ∷ []; after = [] })
      (record {
        vendor_fits = omega arith;
        device_fits = omega arith;
        product_fits = omega arith;
        major_fits = omega arith;
        minor_fits = omega arith;
      })
      (unfold serialize_key in refl)

deserialize-Avoids_example :
    Avoids out_of_fuel (deserialize 0 (some sample_path) sample_bytes blank)
deserialize-Avoids_example = deserialize-Avoids 0 (some sample_path) sample_bytes blank

abbrev sample_group : Group
sample_group = record {
  has_key = false;
  has_pit_usecs = false;
  has_pit_msecs = false;
  has_port = true;
  key = sample_key;
  port = sample_port;
  pit_usecs = 0;
}

deserialize_group-Bounded_example :
    Bounded behind_group 7
      (deserialize_group 0 (0x51 ∷ 1 ∷ 44 ∷ 1 ∷ 0x43 ∷ 7 ∷ 0x20 ∷ []) sample_group)
deserialize_group-Bounded_example =
    deserialize_group-Bounded 0 (0x51 ∷ 1 ∷ 44 ∷ 1 ∷ 0x43 ∷ 7 ∷ 0x20 ∷ []) sample_group
