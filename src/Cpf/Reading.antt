-- ===== src/Cpf/Reading.antt =====
-- Cpf::DeserializeCpf() and deserialize_sockaddr(). What the source changes in the object and in its
-- reader before an item fails stays changed, so the result is explicit about both.
use cipster.Base.{
  ℕ, zero, suc, ◌-◌, ◌==◌, leb, Option, none, some, if◌then◌else◌, take, Result, ok, throws, ◌>>=◌,
}
use cipster.Bytes.Reader.{Reader, size, advance, get16, get32, get16_be, get32_be}
use cipster.Encap.Session.{SockAddr}
use cipster.Cpf.{
  CpfId, null_address, list_identity_response, connected_address, connected_data_item,
  unconnected_data_item, list_service_response, sock_addr_o_t, sock_addr_t_o, sequenced_address,
  SockAddrId, o_t, t_o, Cpf, clear_cpf, add_rx, set_data_range, set_data_type,
}

-- `(CpfId) in.get16()`: `none` is a number that no enumerator has.
abbrev pub cpf_id_of : ℕ → Option CpfId
cpf_id_of n =
    if n == 0x0000
    then some null_address
    else if n == 0x000c
    then some list_identity_response
    else if n == 0x00a1
    then some connected_address
    else if n == 0x00b1
    then some connected_data_item
    else if n == 0x00b2
    then some unconnected_data_item
    else if n == 0x0100
    then some list_service_response
    else if n == 0x8000
    then some sock_addr_o_t
    else if n == 0x8001
    then some sock_addr_t_o
    else if n == 0x8002
    then some sequenced_address
    else none

-- Where the parser stands: it goes on, or it left the loop by `goto error` or by an exception.
pub data Progress : Type 0 where
  going stopped : Cpf → Reader → Progress

abbrev pub go_on : Progress → (Cpf → Reader → Progress) → Progress
go_on (going c r) k = k c r
go_on (stopped c r) k = stopped c r

-- A read of `in` that may throw, which leaves `in` where it is.
abbrev pub reading {ℓ} :
    {A : Type ℓ} → Result (A × Reader) → Cpf → Reader → (A → Reader → Progress) → Progress
reading (ok (a, next)) c r k = k a next
reading (throws e) c r k = stopped c r

unfoldable pub deserialize_sockaddr : Reader → Result (SockAddr × Reader)
unfolding get16_be get32_be advance
deserialize_sockaddr r = do
  (family, r₁) ← get16_be r
  (port, r₂) ← get16_be r₁
  (addr, r₃) ← get32_be r₂
  r₄ ← advance 8 r₃
  ok (record { family = family; port = port; addr = addr }, r₄)

abbrev pub set_address : CpfId → ℕ → Cpf → Cpf
set_address type n c = record c {
  address_item = record c.address_item { type_id = type; size = n };
}

abbrev pub set_connection : ℕ → Cpf → Cpf
set_connection v c = record c { address_item = record c.address_item { connection_identifier = v } }

abbrev pub set_sequence : ℕ → Cpf → Cpf
set_sequence v c = record c { address_item = record c.address_item { encap_sequence_number = v } }

-- The case of the three address items.
unfoldable pub read_address : CpfId → ℕ → Cpf → Reader → Progress
unfolding get32
read_address type n c r =
    let c₁ = set_address type n c in
    if leb 4 n
    then reading (get32 r) c₁ r (λ connection r₁.
      let c₂ = set_connection connection c₁ in
      if n == 8
      then reading (get32 r₁) c₂ r₁ (λ sequence r₂. going (set_sequence sequence c₂) r₂)
      else going c₂ r₁)
    else going c₁ r

-- The step over the data item, `in += length`.
abbrev pub skip : ℕ → Reader → Result (ℕ × Reader)
skip n r = do r₁ ← advance n r; ok (n, r₁)

-- The case of the two data items. The range is set before the length is checked: where it goes beyond
-- the input, the model keeps the bytes that there are, and the parser stops.
unfoldable pub read_data : CpfId → ℕ → Cpf → Reader → Progress
unfolding advance
read_data type n c r =
    let c₁ = set_data_range (take n r) n (set_data_type type c) in
    reading (skip n r) c₁ r (λ n r₁. going c₁ r₁)

-- The case of the two socket address items.
unfoldable pub read_saii : SockAddrId → ℕ → Cpf → Reader → Progress
unfolding deserialize_sockaddr
read_saii type n c r =
    if n == 16
    then reading (deserialize_sockaddr r) c r (λ addr r₁. going (add_rx type addr c) r₁)
    else stopped c r

abbrev pub read_body : Option CpfId → ℕ → Cpf → Reader → Progress
read_body (some null_address) = read_address null_address
read_body (some connected_address) = read_address connected_address
read_body (some sequenced_address) = read_address sequenced_address
read_body (some connected_data_item) = read_data connected_data_item
read_body (some unconnected_data_item) = read_data unconnected_data_item
read_body (some sock_addr_o_t) = read_saii o_t
read_body (some sock_addr_t_o) = read_saii t_o
read_body _ = λ n c r. stopped c r

-- A round of the loop.
unfoldable pub read_item : Cpf → Reader → Progress
unfolding get16
read_item c r =
    reading (get16 r) c r
      (λ type r₁. reading (get16 r₁) c r₁ (λ n r₂. read_body (cpf_id_of type) n c r₂))

unfoldable pub read_items : ℕ → Cpf → Reader → Progress
read_items zero c r = going c r
read_items (suc n) c r = go_on (read_item c r) (read_items n)

-- `int`: the bytes consumed, or the offset of the problem, which the source returns negated.
pub data Offset : Type 0 where
  consumed_bytes problem_at : ℕ → Offset

abbrev pub offset : Reader → Progress → Offset × Cpf
offset r (going c r₁) = (consumed_bytes (size r - size r₁), c)
offset r (stopped c r₁) = (problem_at (size r - size r₁), c)

unfoldable pub deserialize_cpf : Reader → Cpf → Offset × Cpf
unfolding get16 clear_cpf
deserialize_cpf r c =
    let cleared = clear_cpf c in
    offset r (reading (get16 r) cleared r (λ n r₁. read_items n cleared r₁))
