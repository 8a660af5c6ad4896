-- ===== src/Router/Tests.antt =====
-- A request for attribute 1 of instance 3 of class 4, its response, and a class that answers it.
use cipster.Base.{ℕ, ◌+◌, ◌≡◌, refl, arith, List, [], ◌∷◌, true, replicate, none, ok}
use cipster.Bytes.Writer.{Writer, put8, append, advance}
use cipster.Bytes.Append.{fresh}
use cipster.Encap.Session.{SockAddr}
use cipster.Epath.AppPath.{AppPath, blank, set_stuff, class_id, instance_id, attribute}
use cipster.Epath.AppPath.Flat.{IsLogicalPath}
use cipster.Cpf.{Cpf, address_of, null_address, unconnected_data_item, no_saii}
use cipster.Cip.Class.{Instance, Service, CipClass, the_instance}
use cipster.Cip.Class.Laws.{IsClass}
use cipster.Router.Request.{Request}
use cipster.Router.Request.Serialize.{serialize_request, put_path}
use cipster.Router.Request.Laws.{ReadBack, deserialize_mr_req-serialize_request}
use cipster.Router.Response.{Response, serialize_response, deserialize_mr_res, clear_response}
use cipster.Router.Response.Laws.{Same, deserialize_mr_res-serialize_response}
use cipster.Router.Notify.{Exchange, ServiceCall, status_ok_send, notify_mr}
use cipster.Router.Notify.Laws.{by_ids, for_instance, notify_mr_reaches}

abbrev target_path : AppPath
target_path = set_stuff attribute 1 (set_stuff instance_id 3 (set_stuff class_id 4 blank))

target_path-IsLogicalPath : IsLogicalPath target_path
target_path-IsLogicalPath = record {
  no_symbol = refl;
  no_member1 = refl;
  no_member2 = refl;
  no_member3 = refl;
  has_class = refl;
  one_point = λ e. refl;
  one_item = λ e. refl;
  small_class = omega arith;
  small_instance = omega arith;
  small_conn_pt = omega arith;
  small_attribute = omega arith;
}

abbrev request : Request
request = record { service = 0x0e; path = target_path; data_range = 5 ∷ [] }

abbrev sent_bytes : List ℕ
sent_bytes = 0x0e ∷ 3 ∷ 0x20 ∷ 4 ∷ 0x24 ∷ 3 ∷ 0x30 ∷ 1 ∷ 5 ∷ []

deserialize_mr_req-serialize_request_example : ReadBack request blank sent_bytes
deserialize_mr_req-serialize_request_example =
    deserialize_mr_req-serialize_request request blank (replicate 10 0)
      (record { before = sent_bytes; after = 0 ∷ [] }) (omega arith) target_path-IsLogicalPath
      (unfold serialize_request put_path put8 advance append in refl)

abbrev response : Response
response = record {
  reply_service = 0x0e;
  general_status = 0;
  size_of_additional_status = 1;
  additional_status = 9 ∷ 0 ∷ [];
  buffer = 7 ∷ 8 ∷ 9 ∷ [];
  written_size = 2;
}

abbrev response_sent : List ℕ
response_sent = 0x8e ∷ 0 ∷ 0 ∷ 1 ∷ 9 ∷ 0 ∷ 7 ∷ 8 ∷ []

deserialize_mr_res-serialize_response_example :
    (m' : Response) × (deserialize_mr_res response_sent (clear_response []) ≡ ok (m', 7 ∷ 8 ∷ []))
    × Same m' response
deserialize_mr_res-serialize_response_example =
    deserialize_mr_res-serialize_response response (clear_response []) (replicate 9 0)
      (record { before = response_sent; after = 0 ∷ [] })
      (record { places = refl; sized = omega arith; filled = omega arith })
      (record {
        service_fits = omega arith;
        status_fits = omega arith;
        words_fit = (omega arith, (omega arith, _));
      })
      refl (unfold serialize_response in refl)

-- A service that adds its number to a counter.
abbrev count_call : ServiceCall ℕ ℕ ℕ
count_call number target q x = (status_ok_send, record x { world = x.world + number })

abbrev member : Instance ℕ
member = record { instance_id = 3; owned = true; content = 30 }

abbrev get_single : Service ℕ
get_single = record { service_id = 0x0e; service_function = 1 }

abbrev device_class : CipClass ℕ ℕ
device_class = record {
  class_id = 4;
  class_content = 0;
  instances = member ∷ [];
  instance_services = get_single ∷ [];
  class_services = [];
}

device_class-IsClass : IsClass device_class
device_class-IsClass = record {
  sorted_instances = (_, _);
  sorted_instance_services = (_, _);
  sorted_class_services = _;
}

abbrev peer : SockAddr
peer = record { family = 2; port = 0; addr = 0 }

abbrev packet : Cpf
packet = record {
  address_item = address_of null_address 0 0;
  data_item = record { type_id = unconnected_data_item; data_size = 9; bytes = sent_bytes };
  rx = no_saii;
  tx = no_saii;
  payload = none;
  session_handle = 0;
  tcp_peer = peer;
}

abbrev exchange : Exchange ℕ
exchange = record { world = 0; response = clear_response []; packet = packet }

notify_mr_reaches_example :
    notify_mr count_call (device_class ∷ []) request exchange
    ≡ count_call 1
        (the_instance member)
        request
        (record exchange { response = record exchange.response { reply_service = 0x0e } })
notify_mr_reaches_example =
    notify_mr_reaches count_call (device_class ∷ []) request exchange 3 device_class (tt, tt)
      (0, refl) device_class-IsClass (by_ids refl refl)
      (for_instance get_single member (omega arith) (0, refl) refl (0, refl) refl)

abbrev packet_bytes : List ℕ
packet_bytes = 2 ∷ 0 ∷ 0 ∷ 0 ∷ 0 ∷ 0 ∷ 0xb2 ∷ 0 ∷ 9 ∷ 0 ∷ sent_bytes

abbrev reply_room : Writer
reply_room = fresh (replicate 40 0)
