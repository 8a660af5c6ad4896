-- ===== src/Cpf/RoundTrip.antt =====
-- What Cpf::DeserializeCpf() takes from the bytes that Serialize() wrote.
use cipster.Base.{
  ℕ, ◌+◌, ◌-◌, ◌/◌, ◌%◌, ◌*◌, ◌^◌, ◌<◌, ◌≡◌, refl, ap, ◌∙◌, arith, List, ◌++◌, Bool, true, false,
  Option, none, some, length, length-append, ok, ◌≤◌,
}
use mathlib.Core.Path.{subst}
use cipster.Bytes.Writer.{Writer, le16}
use cipster.Bytes.Reader.{Reader}
use cipster.Bytes.Append.{fresh, Puts-before}
use cipster.Encap.Session.{SockAddr}
use cipster.Cpf.{
  SaiiPair, no_saii, CpfId, empty, null_address, list_identity_response, connected_address,
  connected_data_item, unconnected_data_item, list_service_response, sock_addr_o_t, sock_addr_t_o,
  sequenced_address, Cpf, has_addr, has_data, has_tx_o_t, has_tx_t_o, o_t, t_o, clear_cpf,
}
use cipster.Cpf.Reading.{consumed_bytes, deserialize_cpf}
use cipster.Cpf.Writing.{serialize_cpf, item_count, one_if}
use cipster.Cpf.Encode.{IsPayload, sequenced, cpf_bytes, serialize_cpf-append}
use cipster.Cpf.Items.{
  Reads, Reads-then, Reads-address, Reads-data, Reads-saii, got_address, got_data, got_saii,
  is_address, is_data, IsWireSaii,
}

-- The data of a packet's data item on the wire.
abbrev pub sent_data : Cpf → List ℕ → List ℕ
sent_data c ps = sequenced c.data_item.type_id c.payload c.address_item.encap_sequence_number ps

-- Fields that fit their places on the wire, and items of the types that their places are for.
pub record IsWireCpf (c : Cpf) (ps : List ℕ) : Type 0 where
  pub address_type : is_address c.address_item.type_id ≡ true
  pub connection_fits : c.address_item.connection_identifier < 2 ^ 32
  pub sequence_fits : c.address_item.encap_sequence_number < 2 ^ 32
  pub data_type : is_data c.data_item.type_id ≡ true
  pub data_fits : length (sent_data c ps) < 2 ^ 16
  pub o_t_fits : IsWireSaii c.tx.o_t
  pub t_o_fits : IsWireSaii c.tx.t_o

-- What the receiver, which held `old`, takes from the packet `c`.
abbrev pub received : Cpf → List ℕ → Cpf → Cpf
received c ps old = got_saii t_o c.tx.t_o (
    got_saii o_t c.tx.o_t (
      got_data c.data_item.type_id (sent_data c ps) (
        got_address c.address_item.type_id c.address_item.connection_identifier
          c.address_item.encap_sequence_number (clear_cpf old))))

-- A packet of fewer than 2^16 items.
Reads-all :
    {n : ℕ} {bs : List ℕ} {f : Cpf → Cpf} (old : Cpf) (r : Reader)
    → n < 2 ^ 16
    → Reads n bs f
    → deserialize_cpf (le16 n ++ (bs ++ r)) old
      ≡ (consumed_bytes (length (le16 n ++ bs)), f (clear_cpf old))
unfolding deserialize_cpf
Reads-all {n} {bs} {f} old r h p =
    let count_is : n % 256 + n / 256 % 256 * 256 ≡ n = omega arith in
    let size_is : length (le16 n ++ (bs ++ r)) - length r ≡ length (le16 n ++ bs) =
      omega (arith, length-append bs r) in
    rw (count_is, p.reads (clear_cpf old) r)
      (ap (λ (k : ℕ). (consumed_bytes k, f (clear_cpf old))) size_is)

renumber : (bs : List ℕ) (f : Cpf → Cpf) {n m : ℕ} → n ≡ m → Reads n bs f → Reads m bs f
renumber bs f e p = subst (λ (k : ℕ). Reads k bs f) e p

one_if-le : (b : Bool) → one_if b ≤ 1
one_if-le true = omega arith
one_if-le false = omega arith

item_count-lt : (c : Cpf) → item_count c < 2 ^ 16
item_count-lt c = omega (
  arith,
  one_if-le (has_addr c),
  one_if-le (has_data c),
  one_if-le (has_tx_o_t c),
  one_if-le (has_tx_t_o c),
)

deserialize_cpf-bytes :
    (c : Cpf) (ps : List ℕ) (old : Cpf) (r : Reader)
    → IsWireCpf c ps
    → deserialize_cpf (cpf_bytes c ps ++ r) old
      ≡ (consumed_bytes (length (cpf_bytes c ps)), received c ps old)
deserialize_cpf-bytes c ps old r f =
    let a = c.address_item in
    let assoc : one_if (has_addr c)
          + (one_if (has_data c) + (one_if (has_tx_o_t c) + one_if (has_tx_t_o c)))
        ≡ item_count c =
      omega arith in
    let all =
      Reads-then
        (Reads-address a.type_id a.connection_identifier a.encap_sequence_number f.connection_fits
          f.sequence_fits f.address_type)
        (Reads-then (Reads-data c.data_item.type_id (sent_data c ps) f.data_fits f.data_type)
          (Reads-then (Reads-saii o_t c.tx.o_t f.o_t_fits) (Reads-saii t_o c.tx.t_o f.t_o_fits))) in
    Reads-all old r (item_count-lt c) (renumber _ _ assoc all)

got_address-rx : (t : CpfId) (v n : ℕ) (c : Cpf) → (got_address t v n c).rx ≡ c.rx
got_address-rx empty v n c = refl
got_address-rx null_address v n c = refl
got_address-rx list_identity_response v n c = refl
got_address-rx connected_address v n c = refl
got_address-rx connected_data_item v n c = refl
got_address-rx unconnected_data_item v n c = refl
got_address-rx list_service_response v n c = refl
got_address-rx sock_addr_o_t v n c = refl
got_address-rx sock_addr_t_o v n c = refl
got_address-rx sequenced_address v n c = refl

got_data-rx : (t : CpfId) (bs : List ℕ) (c : Cpf) → (got_data t bs c).rx ≡ c.rx
got_data-rx empty bs c = refl
got_data-rx null_address bs c = refl
got_data-rx list_identity_response bs c = refl
got_data-rx connected_address bs c = refl
got_data-rx connected_data_item bs c = refl
got_data-rx unconnected_data_item bs c = refl
got_data-rx list_service_response bs c = refl
got_data-rx sock_addr_o_t bs c = refl
got_data-rx sock_addr_t_o bs c = refl
got_data-rx sequenced_address bs c = refl

got_saii-rx :
    (a b : Option SockAddr) (c : Cpf)
    → c.rx ≡ no_saii
    → (got_saii t_o b (got_saii o_t a c)).rx ≡ record { o_t = a; t_o = b }
got_saii-rx none none c h = h
got_saii-rx none (some b) c h = ap (λ (s : SaiiPair). record s { t_o = some b }) h
got_saii-rx (some a) none c h = ap (λ (s : SaiiPair). record s { o_t = some a }) h
got_saii-rx (some a) (some b) c h = refl

received-rx : (c : Cpf) (ps : List ℕ) (old : Cpf) → (received c ps old).rx ≡ c.tx
unfolding clear_cpf
received-rx c ps old = got_saii-rx c.tx.o_t c.tx.t_o _ (
    got_data-rx c.data_item.type_id (sent_data c ps) _
    ∙ got_address-rx c.address_item.type_id _ _ (clear_cpf old))

-- A packet of well-formed items that Serialize() wrote without an overrun is read back by
-- DeserializeCpf(), whatever follows it and whatever the reader's object held: all its bytes are
-- consumed, the address, the data and the payload are those sent, and the received socket addresses
-- are those that were to be transmitted.
pub deserialize_cpf-serialize_cpf :
    (c : Cpf) (ps : List ℕ) (old : Cpf) (room : List ℕ) (w : Writer) (r : Reader)
    → IsPayload c.payload c.data_item ps
    → IsWireCpf c ps
    → serialize_cpf c (fresh room) ≡ ok w
    → (deserialize_cpf (w.before ++ r) old ≡ (consumed_bytes (length w.before), received c ps old))
      × ((received c ps old).rx ≡ c.tx)
deserialize_cpf-serialize_cpf c ps old room w r h f e =
    rw (Puts-before (serialize_cpf-append c ps h) room w e)
      (deserialize_cpf-bytes c ps old r f, received-rx c ps old)
