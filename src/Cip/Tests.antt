-- ===== src/Cip/Tests.antt =====
-- Sorted vectors of numbers that are their own ids, and a class with one service and one instance.
use cipster.Base.{ℕ, ◌≡◌, arith, List, [], ◌∷◌, false}
use cipster.Base.{◌≤◌, ◌<◌, take, replicate, ok, some, none, refl, true}
use cipster.Cip.Data.{cip_udint, cip_byte_array, ByteArray, decode_data}
use cipster.Cip.Data.Laws.{decode_data_array, Rewritten}
use cipster.Epath.AppPath.{blank}
use cipster.Router.Request.{Request}
use cipster.Router.Response.{Response, clear_response}
use cipster.Cip.Data.{cip_uint}
use cipster.Cip.Attribute.{Attribute, Sizes, attribute_id_of, attribute_insert}
use cipster.Cip.Attribute.Laws.{began, inserted}
use cipster.Cip.Attribute.Alias.{NoAlias, Grown-NoAlias}
use cipster.Cip.Access.{get_attr_data, set_attr_data}
use cipster.Cip.Access.Laws.{set_attr_data-get_attr_data}
use cipster.Cip.Table.{vec_search, find_free_id}
use cipster.Cip.Table.Order.{IsSorted, find_id}
use cipster.Cip.Table.Search.{vec_search-find_id}
use cipster.Cip.Table.Client.{Op, add, replace, take_out, run, replay, run_refines}
use cipster.Cip.Table.Free.{LeastFree, find_free_id-LeastFree}
use cipster.Cip.Class.{Instance, Service, of_instances, CipClass}
use cipster.Cip.Class.Laws.{
  IsClass, new, after, insert_instance, insert_service, remove_instance, apply, Built-IsClass,
}

abbrev self_id : ℕ → ℕ
self_id k = k

abbrev ids : List ℕ
ids = 2 ∷ 5 ∷ 9 ∷ []

ids-IsSorted : IsSorted self_id ids
ids-IsSorted = ((omega arith, (omega arith, _)), ((omega arith, _), (_, _)))

vec_search-find_id_example : vec_search self_id 5 ids ≡ find_id self_id 5 ids
vec_search-find_id_example = vec_search-find_id self_id 5 ids ids-IsSorted

abbrev calls : List (Op ℕ)
calls = add 7 ∷ add 5 ∷ take_out 2 ∷ replace 9 ∷ []

run_refines_example :
    IsSorted self_id (run self_id calls ids)
    × ((j : ℕ)
        → vec_search self_id j (run self_id calls ids)
          ≡ replay self_id calls (λ k. vec_search self_id k ids) j)
run_refines_example = run_refines self_id calls ids ids-IsSorted

find_free_id-LeastFree_example : LeastFree self_id 0 ids (find_free_id self_id ids)
find_free_id-LeastFree_example =
    find_free_id-LeastFree self_id ids (omega arith, (omega arith, (omega arith, _))) ids-IsSorted

abbrev third : Instance ℕ
third = record { instance_id = 3; owned = false; content = 30 }

abbrev get_single : Service ℕ
get_single = record { service_id = 0x0e; service_function = 1 }

abbrev made : CipClass ℕ ℕ
made = record {
  class_id = 4;
  class_content = 0;
  instances = [];
  instance_services = [];
  class_services = [];
}

Built-IsClass_example : IsClass (
    apply
      (remove_instance 8)
      (apply (insert_instance third) (apply (insert_service of_instances get_single) made)))
Built-IsClass_example = Built-IsClass (
    after (remove_instance 8)
      (after (insert_instance third) (after (insert_service of_instances get_single) (new 4 0))))

abbrev room8 : List ℕ
room8 = replicate 8 0

abbrev letters : List ℕ
letters = 65 ∷ 66 ∷ 67 ∷ []

abbrev array : ByteArray
array = record { storage = replicate 4 0; cap = 4; len = 4 }

decode_data_array_example :
    (3 ≤ 4
      → (b : ByteArray) × (decode_data cip_byte_array array letters ≡ ok (some (b, [])))
        × Rewritten array b
        × (take b.len b.storage ≡ letters))
    × (4 < 3 → decode_data cip_byte_array array letters ≡ ok none)
decode_data_array_example =
    decode_data_array array letters
      (record { whole = refl; in_memory = omega arith; small = omega arith })

abbrev platform : Sizes
platform = record { revision_size = 2; array_size = 16; string_size = 32 }

-- An attribute of 16 bits in the instance, at the offset `offset`.
abbrev word_at : ℕ → ℕ → Attribute ℕ ℕ
word_at k offset = record {
  attribute_id = k;
  type = cip_uint;
  is_getable_all = true;
  place = offset;
  getter = some 1;
  setter = none;
  is_offset_from_instance_start = true;
}

abbrev two_words : List (Attribute ℕ ℕ)
two_words = word_at 1 8 ∷ word_at 3 10 ∷ []

Grown-NoAlias_example : IsSorted attribute_id_of two_words × NoAlias platform two_words
Grown-NoAlias_example = Grown-NoAlias platform (
    inserted (word_at 1 8) (word_at 3 10 ∷ []) two_words
      (inserted (word_at 3 10) [] (word_at 3 10 ∷ []) began (unfold attribute_insert in refl))
      (unfold attribute_insert in refl))

abbrev fresh_response : Response
fresh_response = clear_response room8

abbrev write_request : Request
write_request = record { service = 0x10; path = blank; data_range = [] }

set_attr_data-get_attr_data_example :
    set_attr_data cip_udint 7
      (record write_request { data_range = 0x78 ∷ 0x56 ∷ 0x34 ∷ 0x12 ∷ [] })
      fresh_response
    ≡ ok (0x12345678, fresh_response)
set_attr_data-get_attr_data_example =
    set_attr_data-get_attr_data cip_udint 0x12345678 7 write_request fresh_response
      (record fresh_response {
        buffer = 0x78 ∷ 0x56 ∷ 0x34 ∷ 0x12 ∷ replicate 4 0;
        written_size = 4;
      })
      fresh_response refl (omega arith) (unfold get_attr_data in refl)
