-- ===== src/Cpf/Tests.antt =====
-- A connected packet with two bytes of data and one socket address, on its bytes.
use cipster.Base.{ℕ, ◌≡◌, refl, arith, List, [], ◌∷◌, ◌++◌, replicate, none, some}
use cipster.Bytes.Writer.{put16, put32, append, put16_be, put32_be, fill}
use cipster.Bytes.Append.{Puts}
use cipster.Encap.Session.{SockAddr}
use cipster.Cpf.{Cpf, address_of, connected_address, connected_data_item, no_saii}
use cipster.Cpf.Reading.{consumed_bytes, deserialize_cpf}
use cipster.Cpf.Writing.{serialize_cpf, serialize_sockaddr, put_address, put_data, put_io, put_saii}
use cipster.Cpf.Encode.{IsPayload, cpf_bytes, serialize_cpf-append}
use cipster.Cpf.Bounds.{IsInInput, deserialize_cpf-IsInInput}
use cipster.Cpf.RoundTrip.{IsWireCpf, received, deserialize_cpf-serialize_cpf}

abbrev sender : SockAddr
sender = record { family = 2; port = 0x08ae; addr = 0x0a000001 }

abbrev packet : Cpf
packet = record {
  address_item = address_of connected_address 7 2;
  data_item = record { type_id = connected_data_item; data_size = 2; bytes = 1 ∷ 2 ∷ [] };
  rx = no_saii;
  tx = record { o_t = some sender; t_o = none };
  payload = none;
  session_handle = 0;
  tcp_peer = sender;
}

abbrev io_data : List ℕ
io_data = 1 ∷ 2 ∷ []

abbrev packet_bytes : List ℕ
packet_bytes =
    3
    ∷ 0
    ∷ 0xa1
    ∷ 0
    ∷ 4
    ∷ 0
    ∷ 7
    ∷ 0
    ∷ 0
    ∷ 0
    ∷ 0xb1
    ∷ 0
    ∷ 2
    ∷ 0
    ∷ 1
    ∷ 2
    ∷ 0
    ∷ 0x80
    ∷ 16
    ∷ 0
    ∷ 0
    ∷ 2
    ∷ 0x08
    ∷ 0xae
    ∷ 10
    ∷ 0
    ∷ 0
    ∷ 1
    ∷ replicate 8 0

packet-IsPayload : IsPayload packet.payload packet.data_item io_data
packet-IsPayload = (refl, refl)

packet-IsWireCpf : IsWireCpf packet io_data
packet-IsWireCpf = record {
  address_type = refl;
  connection_fits = omega arith;
  sequence_fits = omega arith;
  data_type = refl;
  data_fits = omega arith;
  o_t_fits = record { family_fits = omega arith; port_fits = omega arith; addr_fits = omega arith };
  t_o_fits = _;
}

deserialize_cpf-serialize_cpf_example :
    (deserialize_cpf (packet_bytes ++ (9 ∷ [])) packet
      ≡ (consumed_bytes 36, received packet io_data packet))
    × ((received packet io_data packet).rx ≡ packet.tx)
deserialize_cpf-serialize_cpf_example =
    deserialize_cpf-serialize_cpf packet io_data packet (replicate 40 0)
      (record { before = packet_bytes; after = replicate 4 0 }) (9 ∷ []) packet-IsPayload
      packet-IsWireCpf
      (unfold serialize_cpf put_address put_data put_io put_saii serialize_sockaddr put16 put32
          append put16_be put32_be fill in
        refl)

serialize_cpf-append_example : Puts (serialize_cpf packet) (cpf_bytes packet io_data)
serialize_cpf-append_example = serialize_cpf-append packet io_data packet-IsPayload

deserialize_cpf-IsInInput_example :
    IsInInput
      (1 ∷ 0 ∷ 0xb2 ∷ 0 ∷ 9 ∷ 0 ∷ [])
      (deserialize_cpf (1 ∷ 0 ∷ 0xb2 ∷ 0 ∷ 9 ∷ 0 ∷ []) packet)
deserialize_cpf-IsInInput_example = deserialize_cpf-IsInInput (1 ∷ 0 ∷ 0xb2 ∷ 0 ∷ 9 ∷ 0 ∷ []) packet
