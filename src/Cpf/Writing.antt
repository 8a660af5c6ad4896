-- ===== src/Cpf/Writing.antt =====
-- Cpf::Serialize(), SerializedCount() and serialize_sockaddr().
use cipster.Base.{ℕ, ◌+◌, Bool, Option, none, some, if◌then◌else◌, Result, ok, ◌>>=◌}
use cipster.Bytes.Writer.{Writer, put16, put32, put16_be, put32_be, fill, append}
use cipster.Encap.Session.{SockAddr}
use cipster.Cpf.{
  CpfId, null_address, connected_address, connected_data_item, unconnected_data_item,
  sequenced_address, id_code, SockAddrId, o_t, t_o, sock_addr_o_t, sock_addr_t_o, DataItem,
  Serializeable, Cpf, has_addr, has_data, has_tx_o_t, has_tx_t_o, saii_tx, is_some,
}

abbrev pub address_count : CpfId → ℕ
address_count null_address = 4
address_count connected_address = 8
address_count sequenced_address = 12
address_count _ = 0

-- A connected item has a sequence number in front of the payload.
abbrev pub data_count : CpfId → Option Serializeable → ℕ → ℕ
data_count connected_data_item (some s) n = 4 + (s.serialized_count + 2)
data_count unconnected_data_item (some s) n = 4 + s.serialized_count
data_count connected_data_item none n = 4 + (4 + n)
data_count unconnected_data_item none n = 4 + (4 + n)
data_count _ p n = 0

abbrev pub count_saii : SockAddrId → Cpf → ℕ
count_saii type c = if is_some (saii_tx type c) then 20 else 0

unfoldable pub serialized_count_cpf : Cpf → ℕ
serialized_count_cpf c =
    2
    + address_count c.address_item.type_id
    + data_count c.data_item.type_id c.payload c.data_item.data_size
    + count_saii o_t c
    + count_saii t_o c

unfoldable pub serialize_sockaddr : SockAddr → Writer → Result Writer
unfolding put16_be put32_be fill
serialize_sockaddr a w = do
  w₁ ← put16_be a.family w
  w₂ ← put16_be a.port w₁
  w₃ ← put32_be a.addr w₂
  fill 8 0 w₃

unfoldable pub put_address : CpfId → ℕ → ℕ → Writer → Result Writer
unfolding put16 put32
put_address null_address connection sequence w = do w₁ ← put16 (id_code null_address) w; put16 0 w₁
put_address connected_address connection sequence w = do
  w₁ ← put16 (id_code connected_address) w
  w₂ ← put16 4 w₁
  put32 connection w₂
put_address sequenced_address connection sequence w = do
  w₁ ← put16 (id_code sequenced_address) w
  w₂ ← put16 8 w₁
  w₃ ← put32 connection w₂
  put32 sequence w₃
put_address _ connection sequence w = ok w

-- `data_item.data` where there is no payload object.
unfoldable pub put_io : CpfId → DataItem → Writer → Result Writer
unfolding put16 append
put_io type d w = do w₁ ← put16 (id_code type) w; w₂ ← put16 d.data_size w₁; append d.bytes w₂

unfoldable pub put_connected : ℕ → Serializeable → Writer → Result Writer
unfolding put16
put_connected sequence s w = do
  w₁ ← put16 (id_code connected_data_item) w
  w₂ ← put16 (s.serialized_count + 2) w₁
  w₃ ← put16 sequence w₂
  s.serialize w₃

unfoldable pub put_unconnected : Serializeable → Writer → Result Writer
unfolding put16
put_unconnected s w = do
  w₁ ← put16 (id_code unconnected_data_item) w
  w₂ ← put16 s.serialized_count w₁
  s.serialize w₂

unfoldable pub put_data : CpfId → Option Serializeable → ℕ → DataItem → Writer → Result Writer
unfolding put_io put_connected put_unconnected
put_data connected_data_item (some s) sequence d = put_connected sequence s
put_data unconnected_data_item (some s) sequence d = put_unconnected s
put_data connected_data_item none sequence d = put_io connected_data_item d
put_data unconnected_data_item none sequence d = put_io unconnected_data_item d
put_data _ p sequence d = ok

unfoldable pub put_saii : ℕ → Option SockAddr → Writer → Result Writer
unfolding put16 serialize_sockaddr
put_saii type none w = ok w
put_saii type (some a) w = do w₁ ← put16 type w; w₂ ← put16 16 w₁; serialize_sockaddr a w₂

abbrev pub one_if : Bool → ℕ
one_if b = if b then 1 else 0

abbrev pub item_count : Cpf → ℕ
item_count c =
    one_if (has_addr c) + one_if (has_data c) + one_if (has_tx_o_t c) + one_if (has_tx_t_o c)

unfoldable pub serialize_cpf : Cpf → Writer → Result Writer
unfolding put_address put_data put_saii
serialize_cpf c w = do
  w₁ ← put16 (item_count c) w
  w₂ ←
      put_address c.address_item.type_id c.address_item.connection_identifier
        c.address_item.encap_sequence_number w₁
  w₃ ← put_data c.data_item.type_id c.payload c.address_item.encap_sequence_number c.data_item w₂
  w₄ ← put_saii (id_code sock_addr_o_t) c.tx.o_t w₃
  put_saii (id_code sock_addr_t_o) c.tx.t_o w₄
