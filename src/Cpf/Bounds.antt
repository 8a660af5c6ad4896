-- ===== src/Cpf/Bounds.antt =====
-- Where Cpf::DeserializeCpf() stands in its input, whatever that holds.
use cipster.Base.{
  ℕ, zero, suc, ◌+◌, ◌≤◌, ◌≡◌, arith, [], ◌∷◌, if◌then◌else◌, Bool, true, false, ◌==◌, leb, le→ltb,
  lt→ltb, Option, none, some, length, length-take, length-drop, length-drop, Result, ok, throws,
  Bounded, returns, fails, Bounded->>=,
}
use native.Mathlib.Decide.{dec_lt}
use cipster.Bytes.Reader.{Reader, advance}
use cipster.Bytes.Total.{
  behind, get16-Bounded, get32-Bounded, get16_be-Bounded, get32_be-Bounded, advance-Bounded,
}
use cipster.Encap.Session.{SockAddr}
use cipster.Cpf.{
  Cpf, CpfId, empty, null_address, list_identity_response, connected_address, connected_data_item,
  unconnected_data_item, list_service_response, sock_addr_o_t, sock_addr_t_o, sequenced_address,
  is_empty, SockAddrId, o_t, t_o, add_rx, clear_cpf,
}
use cipster.Cpf.Reading.{
  Progress, going, stopped, go_on, reading, cpf_id_of, deserialize_sockaddr, read_address,
  read_data, read_saii, read_body, read_item, read_items, Offset, consumed_bytes, problem_at,
  offset, deserialize_cpf,
}

-- The bytes of the data item, if there is one, are all in the input.
pub record HasWholeData (c : Cpf) : Type 0 where
  pub whole :
      is_empty c.data_item.type_id ≡ false → length c.data_item.bytes ≡ c.data_item.data_size

-- At most `k` bytes are left.
data Within (k : ℕ) : Progress → Type 0 where
  goes_on : {c : Cpf} {r : Reader} → length r ≤ k → HasWholeData c → Within k (going c r)
  stops : {c : Cpf} {r : Reader} → length r ≤ k → Within k (stopped c r)

Within-reading {ℓ} :
    {A : Type ℓ} {m : Result (A × Reader)} (c : Cpf) (r : Reader) {f : A → Reader → Progress}
    → Bounded behind (length r) m
    → ((a : A) (next : Reader) → length next ≤ length r → Within (length r) (f a next))
    → Within (length r) (reading m c r f)
Within-reading {m = ok (a, next)} c r (returns h) g = g a next h
Within-reading {m = throws e} c r (fails h) g = stops (omega arith)

Within-mono : {p : Progress} (j k : ℕ) → j ≤ k → Within j p → Within k p
Within-mono {p = going c r} j k h (goes_on l w) = goes_on (omega arith) w
Within-mono {p = stopped c r} j k h (stops l) = stops (omega arith)

Within-if :
    {p q : Progress} {k : ℕ} (b : Bool) → Within k p → Within k q → Within k (if b then p else q)
Within-if true p q = p
Within-if false p q = q

read_address-Within :
    (t : CpfId) (n : ℕ) (c : Cpf) (r : Reader)
    → HasWholeData c
    → Within (length r) (read_address t n c r)
unfolding read_address
read_address-Within t n c r w =
    Within-if (leb 4 n)
      (Within-reading _ r (get32-Bounded r) (λ v r₁ h.
        Within-if (n == 8)
          (Within-mono (length r₁) (length r) h (
            Within-reading _ r₁ (get32-Bounded r₁)
              (λ s r₂ h₂. goes_on h₂ (record { whole = w.whole }))))
          (goes_on h (record { whole = w.whole }))))
      (goes_on (omega arith) (record { whole = w.whole }))

read_data-Within :
    (t : CpfId) (n : ℕ) (c : Cpf) (r : Reader) → Within (length r) (read_data t n c r)
unfolding read_data advance
read_data-Within t n c r = elim (dec_lt (length r) n) [
  | yes over ↦ rw (lt→ltb (length r) n over) (stops (omega arith))
  | no fits ↦ rw (le→ltb (length r) n (omega arith)) (
      goes_on (omega (arith, length-drop n r))
        (record { whole = λ e. length-take n r (omega arith) }))
]

deserialize_sockaddr-Bounded : (r : Reader) → Bounded behind (length r) (deserialize_sockaddr r)
unfolding deserialize_sockaddr
deserialize_sockaddr-Bounded r = Bounded->>= (get16_be-Bounded r) (λ x h.
    Bounded->>= (get16_be-Bounded x.1) (λ y k.
      Bounded->>= (get32_be-Bounded y.1)
        (λ z l. Bounded->>= (advance-Bounded 8 z.1) (λ u m. returns (omega arith)))))

add_rx-HasWholeData :
    (t : SockAddrId) (a : SockAddr) (c : Cpf) → HasWholeData c → HasWholeData (add_rx t a c)
add_rx-HasWholeData o_t a c w = record { whole = w.whole }
add_rx-HasWholeData t_o a c w = record { whole = w.whole }

read_saii-Within :
    (t : SockAddrId) (n : ℕ) (c : Cpf) (r : Reader)
    → HasWholeData c
    → Within (length r) (read_saii t n c r)
unfolding read_saii
read_saii-Within t n c r w =
    Within-if (n == 16)
      (Within-reading c r (deserialize_sockaddr-Bounded r)
        (λ a r₁ h. goes_on h (add_rx-HasWholeData t a c w)))
      (stops (omega arith))

read_body-Within :
    (t : Option CpfId) (n : ℕ) (c : Cpf) (r : Reader)
    → HasWholeData c
    → Within (length r) (read_body t n c r)
read_body-Within (some null_address) n c r w = read_address-Within null_address n c r w
read_body-Within (some connected_address) n c r w = read_address-Within connected_address n c r w
read_body-Within (some sequenced_address) n c r w = read_address-Within sequenced_address n c r w
read_body-Within (some connected_data_item) n c r w = read_data-Within connected_data_item n c r
read_body-Within (some unconnected_data_item) n c r w = read_data-Within unconnected_data_item n c r
read_body-Within (some sock_addr_o_t) n c r w = read_saii-Within o_t n c r w
read_body-Within (some sock_addr_t_o) n c r w = read_saii-Within t_o n c r w
read_body-Within (some empty) n c r w = stops (omega arith)
read_body-Within (some list_identity_response) n c r w = stops (omega arith)
read_body-Within (some list_service_response) n c r w = stops (omega arith)
read_body-Within none n c r w = stops (omega arith)

read_item-Within : (c : Cpf) (r : Reader) → HasWholeData c → Within (length r) (read_item c r)
unfolding read_item
read_item-Within c r w = Within-reading c r (get16-Bounded r) (λ t r₁ h.
    Within-mono (length r₁) (length r) h (
      Within-reading c r₁ (get16-Bounded r₁) (λ n r₂ h₂.
        Within-mono (length r₂) (length r₁) h₂ (read_body-Within (cpf_id_of t) n c r₂ w))))

go_on-Within :
    {p : Progress} {k : ℕ} {f : Cpf → Reader → Progress}
    → Within k p
    → ((c : Cpf) (r : Reader) → HasWholeData c → Within (length r) (f c r))
    → Within k (go_on p f)
go_on-Within {p = going c r} (goes_on h w) g = Within-mono (length r) _ h (g c r w)
go_on-Within {p = stopped c r} (stops h) g = stops h

read_items-Within :
    (n : ℕ) (c : Cpf) (r : Reader) → HasWholeData c → Within (length r) (read_items n c r)
unfolding read_items
read_items-Within zero c r w = goes_on (omega arith) w
read_items-Within (suc n) c r w =
    go_on-Within (read_item-Within c r w) (λ c₁ r₁ w₁. read_items-Within n c₁ r₁ w₁)

-- A result of the parser that its callers can use.
pub data IsInInput (r : Reader) : Offset × Cpf → Type 0 where
  whole_packet :
      {n : ℕ} {c : Cpf} → 2 ≤ n → n ≤ length r → HasWholeData c → IsInInput r (consumed_bytes n, c)
  bad_packet : {n : ℕ} {c : Cpf} → n ≤ length r → IsInInput r (problem_at n, c)

-- From the first reads on: `reading` may stop behind them.
offset-IsInInput :
    {p : Progress} (r : Reader) (k : ℕ)
    → k ≤ length r
    → Within k p
    → k + 2 ≤ length r
    → IsInInput r (offset r p)
offset-IsInInput {p = going c r₁} r k h (goes_on l w) two =
    whole_packet (omega arith) (omega arith) w
offset-IsInInput {p = stopped c r₁} r k h (stops l) two = bad_packet (omega arith)

cleared-HasWholeData : (c : Cpf) → HasWholeData (clear_cpf c)
unfolding clear_cpf
cleared-HasWholeData c = record { whole = λ e. cc }

-- DeserializeCpf() ends on every input. It has consumed two bytes at least and no more than there are,
-- and the data item that it found, if any, is whole and in the input, or it names an offset in the
-- input.
pub deserialize_cpf-IsInInput : (r : Reader) (c : Cpf) → IsInInput r (deserialize_cpf r c)
unfolding deserialize_cpf
deserialize_cpf-IsInInput [] c = bad_packet (omega arith)
deserialize_cpf-IsInInput (a ∷ []) c = bad_packet (omega arith)
deserialize_cpf-IsInInput (a ∷ b ∷ r) c =
    offset-IsInInput (a ∷ b ∷ r) (length r) (omega arith)
      (read_items-Within _ (clear_cpf c) r (cleared-HasWholeData c)) (omega arith)
