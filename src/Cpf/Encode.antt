-- ===== src/Cpf/Encode.antt =====
-- The bytes that Cpf::Serialize() writes, and how many SerializedCount() says that there are.
use cipster.Base.{
  ℕ, ◌+◌, ◌≡◌, refl, sym, arith, List, [], ◌++◌, Option, none, some, if◌then◌else◌, length,
  length-append, replicate,
}
use cipster.Bytes.Writer.{le16, le32, be16, be32}
use cipster.Bytes.Append.{
  Puts, chain, append_none, Puts-append, put16-append, put32-append, put16_be-append,
  put32_be-append, fill-append,
}
use cipster.Encap.Session.{SockAddr}
use cipster.Cpf.{
  CpfId, empty, null_address, list_identity_response, connected_address, connected_data_item,
  unconnected_data_item, list_service_response, sock_addr_o_t, sock_addr_t_o, sequenced_address,
  id_code, DataItem, Serializeable, Cpf, is_some,
}
use cipster.Cpf.Writing.{
  data_count, address_count, serialized_count_cpf, serialize_sockaddr, put_address, put_io,
  put_connected, put_unconnected, put_data, put_saii, item_count, serialize_cpf,
}

-- What a payload object promises: it writes a run of bytes, as many as it says.
pub record Serializes (s : Serializeable) (ps : List ℕ) : Type 0 where
  pub runs : Puts s.serialize ps
  pub counts : s.serialized_count ≡ length ps

-- The payload of a packet: what the payload object writes, or the bytes of the data item.
abbrev pub IsPayload : Option Serializeable → DataItem → List ℕ → Type 0
IsPayload (some s) d ps = Serializes s ps
IsPayload none d ps = (d.bytes ≡ ps) × (d.data_size ≡ length ps)

abbrev pub address_bytes : CpfId → ℕ → ℕ → List ℕ
address_bytes null_address connection sequence = le16 0x0000 ++ le16 0
address_bytes connected_address connection sequence = le16 0x00a1 ++ (le16 4 ++ le32 connection)
address_bytes sequenced_address connection sequence =
    le16 0x8002 ++ (le16 8 ++ (le32 connection ++ le32 sequence))
address_bytes _ connection sequence = []

-- A payload object in a connected item comes behind the sequence number.
abbrev pub sequenced : CpfId → Option Serializeable → ℕ → List ℕ → List ℕ
sequenced connected_data_item (some s) sequence ps = le16 sequence ++ ps
sequenced _ p sequence ps = ps

abbrev pub item_bytes : CpfId → List ℕ → List ℕ
item_bytes connected_data_item bs = le16 0x00b1 ++ (le16 (length bs) ++ bs)
item_bytes unconnected_data_item bs = le16 0x00b2 ++ (le16 (length bs) ++ bs)
item_bytes _ bs = []

abbrev pub sockaddr_bytes : SockAddr → List ℕ
sockaddr_bytes a = be16 a.family ++ (be16 a.port ++ (be32 a.addr ++ replicate 8 0))

abbrev pub saii_bytes : ℕ → Option SockAddr → List ℕ
saii_bytes type none = []
saii_bytes type (some a) = le16 type ++ (le16 16 ++ sockaddr_bytes a)

abbrev pub cpf_bytes : Cpf → List ℕ → List ℕ
cpf_bytes c ps =
    le16 (item_count c)
    ++ (address_bytes c.address_item.type_id c.address_item.connection_identifier
          c.address_item.encap_sequence_number
        ++ (item_bytes c.data_item.type_id
              (sequenced c.data_item.type_id c.payload c.address_item.encap_sequence_number ps)
            ++ (saii_bytes 0x8000 c.tx.o_t ++ saii_bytes 0x8001 c.tx.t_o)))

put_address-append :
    (t : CpfId) (connection sequence : ℕ)
    → Puts (put_address t connection sequence) (address_bytes t connection sequence)
unfolding put_address
put_address-append null_address v s = chain (put16-append 0) (put16-append 0)
put_address-append connected_address v s =
    chain (put16-append 0xa1) (chain (put16-append 4) (put32-append v))
put_address-append sequenced_address v s =
    chain (put16-append 0x8002) (chain (put16-append 8) (chain (put32-append v) (put32-append s)))
put_address-append empty v s = append_none
put_address-append list_identity_response v s = append_none
put_address-append connected_data_item v s = append_none
put_address-append unconnected_data_item v s = append_none
put_address-append list_service_response v s = append_none
put_address-append sock_addr_o_t v s = append_none
put_address-append sock_addr_t_o v s = append_none

put_io-append :
    (t : CpfId) (d : DataItem) (ps : List ℕ)
    → IsPayload none d ps
    → Puts (put_io t d) (le16 (id_code t) ++ (le16 (length ps) ++ ps))
unfolding put_io
put_io-append t d ps (data_is, size_is) =
    rw (sym size_is, sym data_is)
      (chain (put16-append (id_code t)) (chain (put16-append d.data_size) (Puts-append d.bytes)))

put_data-append :
    (t : CpfId) (p : Option Serializeable) (sequence : ℕ) (d : DataItem) (ps : List ℕ)
    → IsPayload p d ps
    → Puts (put_data t p sequence d) (item_bytes t (sequenced t p sequence ps))
unfolding put_data put_connected put_unconnected
put_data-append connected_data_item (some s) sequence d ps h =
    let size : length (le16 sequence ++ ps) ≡ s.serialized_count + 2 = omega (arith, h.counts) in
    rw size (
      chain (put16-append 0xb1)
        (chain (put16-append (s.serialized_count + 2)) (chain (put16-append sequence) h.runs)))
put_data-append unconnected_data_item (some s) sequence d ps h =
    rw (sym h.counts) (chain (put16-append 0xb2) (chain (put16-append s.serialized_count) h.runs))
put_data-append connected_data_item none sequence d ps h = put_io-append connected_data_item d ps h
put_data-append unconnected_data_item none sequence d ps h =
    put_io-append unconnected_data_item d ps h
put_data-append empty p sequence d ps h = append_none
put_data-append null_address p sequence d ps h = append_none
put_data-append list_identity_response p sequence d ps h = append_none
put_data-append connected_address p sequence d ps h = append_none
put_data-append list_service_response p sequence d ps h = append_none
put_data-append sock_addr_o_t p sequence d ps h = append_none
put_data-append sock_addr_t_o p sequence d ps h = append_none
put_data-append sequenced_address p sequence d ps h = append_none

put_saii-append : (type : ℕ) (a : Option SockAddr) → Puts (put_saii type a) (saii_bytes type a)
unfolding put_saii serialize_sockaddr
put_saii-append type none = append_none
put_saii-append type (some a) = chain (put16-append type) (
    chain (put16-append 16) (
      chain (put16_be-append a.family)
        (chain (put16_be-append a.port) (chain (put32_be-append a.addr) (fill-append 8 0)))))

-- Serialize() of a packet whose payload object keeps its promise appends the number of items, the
-- address item, the data item with the payload, behind the sequence number if it is a payload object in a connected item, and
-- the socket addresses, or overruns where they do not fit.
pub serialize_cpf-append :
    (c : Cpf) (ps : List ℕ)
    → IsPayload c.payload c.data_item ps
    → Puts (serialize_cpf c) (cpf_bytes c ps)
unfolding serialize_cpf
serialize_cpf-append c ps h = chain (put16-append (item_count c)) (
    chain (put_address-append c.address_item.type_id _ _) (
      chain (put_data-append c.data_item.type_id c.payload _ c.data_item ps h)
        (chain (put_saii-append 0x8000 c.tx.o_t) (put_saii-append 0x8001 c.tx.t_o))))

-- The bytes that SerializedCount() counts without need: a data item without a payload object.
abbrev pub surplus : CpfId → Option Serializeable → ℕ
surplus connected_data_item none = 4
surplus unconnected_data_item none = 4
surplus _ p = 0

length-address_bytes : (t : CpfId) (v s : ℕ) → length (address_bytes t v s) ≡ address_count t
length-address_bytes empty v s = refl
length-address_bytes null_address v s = refl
length-address_bytes list_identity_response v s = refl
length-address_bytes connected_address v s = refl
length-address_bytes connected_data_item v s = refl
length-address_bytes unconnected_data_item v s = refl
length-address_bytes list_service_response v s = refl
length-address_bytes sock_addr_o_t v s = refl
length-address_bytes sock_addr_t_o v s = refl
length-address_bytes sequenced_address v s = refl

length-item_bytes :
    (t : CpfId) (p : Option Serializeable) (sequence : ℕ) (d : DataItem) (ps : List ℕ)
    → IsPayload p d ps
    → length (item_bytes t (sequenced t p sequence ps)) + surplus t p ≡ data_count t p d.data_size
length-item_bytes connected_data_item (some s) sequence d ps h = omega (arith, h.counts)
length-item_bytes unconnected_data_item (some s) sequence d ps h = omega (arith, h.counts)
length-item_bytes connected_data_item none sequence d ps h = omega (arith, h.1)
length-item_bytes unconnected_data_item none sequence d ps h = omega (arith, h.1)
length-item_bytes empty p sequence d ps h = refl
length-item_bytes null_address p sequence d ps h = refl
length-item_bytes list_identity_response p sequence d ps h = refl
length-item_bytes connected_address p sequence d ps h = refl
length-item_bytes list_service_response p sequence d ps h = refl
length-item_bytes sock_addr_o_t p sequence d ps h = refl
length-item_bytes sock_addr_t_o p sequence d ps h = refl
length-item_bytes sequenced_address p sequence d ps h = refl

length-saii_bytes :
    (type : ℕ) (a : Option SockAddr) → length (saii_bytes type a) ≡ (if is_some a then 20 else 0)
length-saii_bytes type none = refl
length-saii_bytes type (some a) = refl

-- SerializedCount() is the number of bytes that Serialize() writes, save for a data item without a payload
-- object, where it is 4 more.
serialized_count_cpf_lem :
    (c : Cpf) (ps : List ℕ)
    → IsPayload c.payload c.data_item ps
    → length (cpf_bytes c ps) + surplus c.data_item.type_id c.payload ≡ serialized_count_cpf c
unfolding serialized_count_cpf
serialized_count_cpf_lem c ps h =
    let address =
      address_bytes c.address_item.type_id c.address_item.connection_identifier
        c.address_item.encap_sequence_number in
    let item =
      item_bytes c.data_item.type_id
        (sequenced c.data_item.type_id c.payload c.address_item.encap_sequence_number ps) in
    let o_t = saii_bytes 0x8000 c.tx.o_t in
    let t_o = saii_bytes 0x8001 c.tx.t_o in
    omega (
      arith,
      length-address_bytes c.address_item.type_id c.address_item.connection_identifier
          c.address_item.encap_sequence_number,
      length-item_bytes c.data_item.type_id c.payload c.address_item.encap_sequence_number
          c.data_item ps h,
      length-saii_bytes 0x8000 c.tx.o_t,
      length-saii_bytes 0x8001 c.tx.t_o,
      length-append address (item ++ (o_t ++ t_o)),
      length-append item (o_t ++ t_o),
      length-append o_t t_o,
    )
