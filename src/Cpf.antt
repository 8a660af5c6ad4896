-- ===== src/Cpf.antt =====
-- The common packet format of enet_encap/cpf.h and cpf.cc: the items that an encapsulation message
-- carries. A payload pointer is an object with the two operations of class Serializeable.
pub mod Reading
pub mod Writing
pub mod Encode
pub mod Items
pub mod RoundTrip
pub mod Bounds
mod Tests
use cipster.Base.{ℕ, List, [], Bool, true, false, not, Option, none, some, Result}
use cipster.Bytes.Writer.{Writer}
use cipster.Encap.Session.{SockAddr}

pub data CpfId : Type 0 where
  empty null_address list_identity_response connected_address connected_data_item : CpfId
  unconnected_data_item list_service_response sock_addr_o_t sock_addr_t_o sequenced_address : CpfId

-- The numbers of the enumeration, in 16 bits.
abbrev pub id_code : CpfId → ℕ
id_code empty = 0xffff
id_code null_address = 0x0000
id_code list_identity_response = 0x000c
id_code connected_address = 0x00a1
id_code connected_data_item = 0x00b1
id_code unconnected_data_item = 0x00b2
id_code list_service_response = 0x0100
id_code sock_addr_o_t = 0x8000
id_code sock_addr_t_o = 0x8001
id_code sequenced_address = 0x8002

abbrev pub is_empty : CpfId → Bool
is_empty empty = true
is_empty _ = false

pub record AddressItem : Type 0 where
  pub type_id : CpfId
  pub size : ℕ
  pub connection_identifier : ℕ
  pub encap_sequence_number : ℕ

-- The constructor AddressItem().
abbrev pub item_size : CpfId → ℕ
item_size null_address = 4
item_size connected_address = 8
item_size sequenced_address = 12
item_size _ = 0

abbrev pub address_of : CpfId → ℕ → ℕ → AddressItem
address_of type connection sequence = record {
  type_id = type;
  size = item_size type;
  connection_identifier = connection;
  encap_sequence_number = sequence;
}

-- The bytes are those that the pointer `data` and the length delimit.
pub record DataItem : Type 0 where
  pub type_id : CpfId
  pub data_size : ℕ
  pub bytes : List ℕ

abbrev pub data_of : CpfId → DataItem
data_of type = record { type_id = type; data_size = 0; bytes = [] }

-- `none` where has_O_T or has_T_O is false.
pub record SaiiPair : Type 0 where
  pub o_t : Option SockAddr
  pub t_o : Option SockAddr

pub data SockAddrId : Type 0 where
  o_t t_o : SockAddrId

abbrev pub no_saii : SaiiPair
no_saii = record { o_t = none; t_o = none }

pub record Serializeable : Type 0 where
  pub serialized_count : ℕ
  pub serialize : Writer → Result Writer

pub record Cpf : Type 0 where
  pub address_item : AddressItem
  pub data_item : DataItem
  pub rx : SaiiPair
  pub tx : SaiiPair
  pub payload : Option Serializeable
  pub session_handle : ℕ
  pub tcp_peer : SockAddr

-- Clear().
unfoldable pub clear_cpf : Cpf → Cpf
clear_cpf c = record c {
  address_item = record c.address_item { type_id = empty };
  data_item = record c.data_item { type_id = empty };
  rx = no_saii;
  tx = no_saii;
}

abbrev pub has_addr : Cpf → Bool
has_addr c = not (is_empty c.address_item.type_id)

abbrev pub has_data : Cpf → Bool
has_data c = not (is_empty c.data_item.type_id)

abbrev pub is_some {ℓ} : {A : Type ℓ} → Option A → Bool
is_some none = false
is_some (some a) = true

abbrev pub has_tx_o_t : Cpf → Bool
has_tx_o_t c = is_some c.tx.o_t

abbrev pub has_tx_t_o : Cpf → Bool
has_tx_t_o c = is_some c.tx.t_o

abbrev pub add_rx : SockAddrId → SockAddr → Cpf → Cpf
add_rx t_o a c = record c { rx = record c.rx { t_o = some a } }
add_rx o_t a c = record c { rx = record c.rx { o_t = some a } }

abbrev pub add_tx : SockAddrId → SockAddr → Cpf → Cpf
add_tx t_o a c = record c { tx = record c.tx { t_o = some a } }
add_tx o_t a c = record c { tx = record c.tx { o_t = some a } }

abbrev pub saii_tx : SockAddrId → Cpf → Option SockAddr
saii_tx o_t c = c.tx.o_t
saii_tx t_o c = c.tx.t_o

abbrev pub set_data_range : List ℕ → ℕ → Cpf → Cpf
set_data_range bs n c = record c { data_item = record c.data_item { data_size = n; bytes = bs } }

abbrev pub set_data_type : CpfId → Cpf → Cpf
set_data_type type c = record c { data_item = record c.data_item { type_id = type } }

abbrev pub set_payload : Serializeable → Cpf → Cpf
set_payload s c = record c { payload = some s }
