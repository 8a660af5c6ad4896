-- ===== src/Cpf/Items.antt =====
-- The loop of Cpf::DeserializeCpf() on items as Serialize() writes them.
use cipster.Base.{
  ℕ, zero, suc, ◌+◌, ◌/◌, ◌%◌, ◌*◌, ◌^◌, ◌<◌, ◌≡◌, refl, ap, ◌∙◌, arith, List, [], ◌++◌,
  append_assoc, Bool, true, false, not, Option, none, some, take-append_self, length, ok, replicate,
}
use cipster.Bytes.Writer.{le16, le32}
use cipster.Bytes.Reader.{Reader}
use cipster.Bytes.RoundTrip.{advance-append}
use cipster.Encap.Session.{SockAddr}
use cipster.Cpf.{
  CpfId, empty, null_address, list_identity_response, connected_address, connected_data_item,
  unconnected_data_item, list_service_response, sock_addr_o_t, sock_addr_t_o, sequenced_address,
  SockAddrId, o_t, t_o, Cpf, add_rx, set_data_range, set_data_type, is_empty, is_some,
}
use cipster.Cpf.Reading.{
  Progress, going, stopped, go_on, cpf_id_of, set_address, set_connection, set_sequence,
  deserialize_sockaddr, read_address, read_data, read_saii, read_body, read_item, read_items,
}
use cipster.Cpf.Writing.{one_if}
use cipster.Cpf.Encode.{address_bytes, item_bytes, saii_bytes, sockaddr_bytes}

-- `n` rounds read the bytes `bs`, whatever follows them, and change the object by `f`.
pub record Reads (n : ℕ) (bs : List ℕ) (f : Cpf → Cpf) : Type 0 where
  pub reads : (c : Cpf) (r : Reader) → read_items n c (bs ++ r) ≡ going (f c) r

pub Reads-none : Reads 0 [] (λ c. c)
unfolding read_items
Reads-none = record { reads = λ c r. refl }

go_on_after :
    (p : Progress) (j k l : Cpf → Reader → Progress)
    → ((c : Cpf) (r : Reader) → j c r ≡ go_on (k c r) l)
    → go_on p j ≡ go_on (go_on p k) l
go_on_after (going c r) j k l h = h c r
go_on_after (stopped c r) j k l h = refl

read_items-add :
    (n m : ℕ) (c : Cpf) (r : Reader)
    → read_items (n + m) c r ≡ go_on (read_items n c r) (read_items m)
unfolding read_items
read_items-add zero m c r =
    let sum : 0 + m ≡ m = omega arith in ap (λ (k : ℕ). read_items k c r) sum
read_items-add (suc n) m c r =
    let sum : suc n + m ≡ suc (n + m) = omega arith in
    ap (λ (k : ℕ). read_items k c r) sum
    ∙ go_on_after (read_item c r) (read_items (n + m)) (read_items n) (read_items m)
        (read_items-add n m)

pub Reads-then :
    {n m : ℕ} {xs ys : List ℕ} {f g : Cpf → Cpf}
    → Reads n xs f
    → Reads m ys g
    → Reads (n + m) (xs ++ ys) (λ c. g (f c))
Reads-then {n} {m} {xs} {ys} {f} {g} p q = record {
  reads = λ c r.
      read_items-add n m c ((xs ++ ys) ++ r)
      ∙ rw (append_assoc xs ys r, p.reads c (ys ++ r)) (q.reads (f c) r);
}

-- An item of a known type whose body is read whole.
Reads-item :
    (t : ℕ) (bs : List ℕ) (f : Cpf → Cpf)
    → t < 2 ^ 16
    → length bs < 2 ^ 16
    → ((c : Cpf) (r : Reader) → read_body (cpf_id_of t) (length bs) c (bs ++ r) ≡ going (f c) r)
    → Reads 1 (le16 t ++ (le16 (length bs) ++ bs)) f
unfolding read_items read_item
Reads-item t bs f type_fits size_fits body = record {
  reads = λ c r.
      let type_is : t % 256 + t / 256 % 256 * 256 ≡ t = omega arith in
      let size_is : length bs % 256 + length bs / 256 % 256 * 256 ≡ length bs = omega arith in
      rw (type_is, size_is, body c r);
}

long :
    (v : ℕ)
    → v < 2 ^ 32
    → v % 256 + v / 256 % 256 * 256 + v / 65536 % 256 * 65536 + v / 16777216 % 256 * 16777216 ≡ v
long v h = omega arith

word : (v : ℕ) → v < 2 ^ 16 → v % 256 + v / 256 % 256 * 256 ≡ v
word v h = omega arith

-- The types that an address item and a data item have.
abbrev pub is_address : CpfId → Bool
is_address empty = true
is_address null_address = true
is_address connected_address = true
is_address sequenced_address = true
is_address _ = false

abbrev pub is_data : CpfId → Bool
is_data empty = true
is_data connected_data_item = true
is_data unconnected_data_item = true
is_data _ = false

abbrev pub saii_code : SockAddrId → ℕ
saii_code o_t = 0x8000
saii_code t_o = 0x8001

-- What the parser takes from an address item.
abbrev pub got_address : CpfId → ℕ → ℕ → Cpf → Cpf
got_address null_address v s c = set_address null_address 0 c
got_address connected_address v s c = set_connection v (set_address connected_address 4 c)
got_address sequenced_address v s c =
    set_sequence s (set_connection v (set_address sequenced_address 8 c))
got_address _ v s c = c

abbrev pub got_data : CpfId → List ℕ → Cpf → Cpf
got_data connected_data_item bs c =
    set_data_range bs (length bs) (set_data_type connected_data_item c)
got_data unconnected_data_item bs c =
    set_data_range bs (length bs) (set_data_type unconnected_data_item c)
got_data _ bs c = c

abbrev pub got_saii : SockAddrId → Option SockAddr → Cpf → Cpf
got_saii type none c = c
got_saii type (some a) c = add_rx type a c

pub Reads-address :
    (t : CpfId) (v s : ℕ)
    → v < 2 ^ 32
    → s < 2 ^ 32
    → is_address t ≡ true
    → Reads (one_if (not (is_empty t))) (address_bytes t v s) (got_address t v s)
unfolding read_address
Reads-address empty v s hv hs e = Reads-none
Reads-address null_address v s hv hs e =
    Reads-item 0 [] (got_address null_address v s) (omega arith) (omega arith) (λ c r. refl)
Reads-address connected_address v s hv hs e =
    Reads-item 0xa1 (le32 v) (got_address connected_address v s) (omega arith) (omega arith)
      (λ c r. rw (long v hv))
Reads-address sequenced_address v s hv hs e =
    Reads-item 0x8002 (le32 v ++ le32 s) (got_address sequenced_address v s) (omega arith)
      (omega arith) (λ c r. rw (long v hv, long s hs))
Reads-address list_identity_response v s hv hs e = cc
Reads-address connected_data_item v s hv hs e = cc
Reads-address unconnected_data_item v s hv hs e = cc
Reads-address list_service_response v s hv hs e = cc
Reads-address sock_addr_o_t v s hv hs e = cc
Reads-address sock_addr_t_o v s hv hs e = cc

read_data-append :
    (t : CpfId) (bs : List ℕ) (c : Cpf) (r : Reader)
    → read_data t (length bs) c (bs ++ r)
      ≡ going (set_data_range bs (length bs) (set_data_type t c)) r
unfolding read_data
read_data-append t bs c r = rw (take-append_self bs r, advance-append r bs)

pub Reads-data :
    (t : CpfId) (bs : List ℕ)
    → length bs < 2 ^ 16
    → is_data t ≡ true
    → Reads (one_if (not (is_empty t))) (item_bytes t bs) (got_data t bs)
Reads-data empty bs h e = Reads-none
Reads-data connected_data_item bs h e =
    Reads-item 0xb1 bs (got_data connected_data_item bs) (omega arith) h
      (read_data-append connected_data_item bs)
Reads-data unconnected_data_item bs h e =
    Reads-item 0xb2 bs (got_data unconnected_data_item bs) (omega arith) h
      (read_data-append unconnected_data_item bs)
Reads-data null_address bs h e = cc
Reads-data list_identity_response bs h e = cc
Reads-data connected_address bs h e = cc
Reads-data list_service_response bs h e = cc
Reads-data sock_addr_o_t bs h e = cc
Reads-data sock_addr_t_o bs h e = cc
Reads-data sequenced_address bs h e = cc

-- A socket address that fits its places on the wire.
pub record IsWireSockAddr (a : SockAddr) : Type 0 where
  pub family_fits : a.family < 2 ^ 16
  pub port_fits : a.port < 2 ^ 16
  pub addr_fits : a.addr < 2 ^ 32

abbrev pub IsWireSaii : Option SockAddr → Type 0
IsWireSaii none = Unit
IsWireSaii (some a) = IsWireSockAddr a

deserialize_sockaddr-bytes :
    (a : SockAddr) (r : Reader)
    → IsWireSockAddr a
    → deserialize_sockaddr (sockaddr_bytes a ++ r) ≡ ok (a, r)
unfolding deserialize_sockaddr
deserialize_sockaddr-bytes a r f = rw (
  advance-append r (replicate 8 0),
  word a.family f.family_fits,
  word a.port f.port_fits,
  long a.addr f.addr_fits,
)

pub Reads-saii :
    (type : SockAddrId) (a : Option SockAddr)
    → IsWireSaii a
    → Reads (one_if (is_some a)) (saii_bytes (saii_code type) a) (got_saii type a)
unfolding read_saii
Reads-saii type none f = Reads-none
Reads-saii o_t (some a) f =
    Reads-item 0x8000 (sockaddr_bytes a) (got_saii o_t (some a)) (omega arith) (omega arith)
      (λ c r. rw (deserialize_sockaddr-bytes a r f))
Reads-saii t_o (some a) f =
    Reads-item 0x8001 (sockaddr_bytes a) (got_saii t_o (some a)) (omega arith) (omega arith)
      (λ c r. rw (deserialize_sockaddr-bytes a r f))
