-- ===== src/Router/Dispatch.antt =====
-- Cpf::NotifyCommonPacketFormat() of enet_encap/cpf.cc: an unconnected message in, its reply out.
pub mod Laws
use cipster.Base.{ℕ, List, Option, none, some, Result, ok, ◌>>=◌}
use cipster.Bytes.Reader.{Reader}
use cipster.Bytes.Writer.{Writer}
use cipster.Epath.AppPath.{blank}
use cipster.Encap.Session.{EncapError, incorrect_data}
use cipster.Cpf.{CpfId, null_address, unconnected_data_item, Cpf, set_payload}
use cipster.Cpf.Reading.{Offset, consumed_bytes, problem_at, deserialize_cpf}
use cipster.Cpf.Writing.{serialize_cpf}
use cipster.Cip.Class.{CipClass}
use cipster.Router.Request.{Request, deserialize_mr_req}
use cipster.Router.Response.{Response, clear_response, set_gen_status, response_payload}
use cipster.Router.Notify.{
  EipStatus, status_ok, status_ok_send, status_error, path_segment_error, Exchange, ServiceCall,
  notify_mr,
}

-- `int`: the reply, whose size is returned, or a negated EncapError.
pub data Reply : Type 0 where
  sent : Writer → Reply
  refused : EncapError → Reply

-- SetPayload() and Serialize().
unfoldable pub send_response : {W : Type 0} → Exchange W → Writer → Result (Reply × W)
unfolding serialize_cpf
send_response x w = do
  out ← serialize_cpf (set_payload (response_payload x.response) x.packet) w
  ok (sent out, x.world)

abbrev pub reply_with : {W : Type 0} → EipStatus × Exchange W → Writer → Result (Reply × W)
reply_with (status_error, x) w = ok (refused incorrect_data, x.world)
reply_with (_, x) w = send_response x w

module _ {I F W : Type 0} (call : ServiceCall I F W) (registry : List (CipClass I F)) where
  abbrev pub answer_request : Option (Request × ℕ) → Exchange W → Writer → Result (Reply × W)
  answer_request none x w =
      send_response (record x { response = set_gen_status path_segment_error x.response }) w
  answer_request (some (q, n)) x w = reply_with (notify_mr call registry q x) w

  abbrev pub answer_item : CpfId → CpfId → List ℕ → Exchange W → Writer → Result (Reply × W)
  answer_item null_address unconnected_data_item bytes x w = do
    request ← deserialize_mr_req bytes blank
    answer_request request x w
  answer_item _ _ bytes x w = ok (refused incorrect_data, x.world)

  abbrev pub answer_packet : Offset × Cpf → List ℕ → W → Writer → Result (Reply × W)
  answer_packet (problem_at n, c) room world w = ok (refused incorrect_data, world)
  answer_packet (consumed_bytes n, c) room world w =
      answer_item c.address_item.type_id c.data_item.type_id c.data_item.bytes
        (record { world = world; response = clear_response room; packet = c }) w

  -- `room` is the buffer mmr_temp, which the responses share.
  unfoldable pub notify_common_packet_format :
      Reader → Cpf → List ℕ → W → Writer → Result (Reply × W)
  unfolding deserialize_cpf deserialize_mr_req notify_mr send_response
  notify_common_packet_format command c room world w =
      answer_packet (deserialize_cpf command c) room world w
