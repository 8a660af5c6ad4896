-- ===== src/Conn/Receive/Twice.antt =====
-- RecvConnectedData() of cip/cipconnectionmanager.cc for a packet that comes twice.
use cipster.Base.{
  ℕ, ◌^◌, ◌==◌, ◌≡◌, refl, sym, ap, ◌∙◌, arith, [], ◌∷◌, Bool, ◌&&◌, Option, none, some,
  if◌then◌else◌, Bool-cases, ==_iff, inl, inr, ◌<◌,
}
use mathlib.Core.Path.{subst}
use cipster.Bytes.Reader.{Reader}
use cipster.Encap.Session.{SockAddr}
use cipster.Cpf.{Cpf}
use cipster.Cpf.Reading.{Offset, consumed_bytes, problem_at, deserialize_cpf}
use cipster.Conn.Box.Chain.{Chain}
use cipster.Conn.State.{Conn, set_watchdog}
use cipster.Conn.Close.{find_conn}
use cipster.Conn.Receive.{
  Plant, plant_of, handle_received, track, newer, with_conn, admit, take_frame, consumes,
  connection_by_consuming_id, from_peer, recv_packet, recv_parsed, recv_connected_data, seq_gt32,
}
use cipster.Conn.Receive.{is_connected_address, is_connected_data}
use cipster.Conn.Receive.Laws.{Tracks, handle_received-Tracks, take_frame-take_frame}

-- What finds the connection of a frame.
abbrev FoundAlike : Conn → Conn → Type 0
FoundAlike c d = (d.state ≡ c.state) × (d.params ≡ c.params) × (d.recv_address ≡ c.recv_address)

abbrev Finds : Plant → Plant → Type 0
Finds f g =
    (g.world.active ≡ f.world.active) × ((q : ℕ) → FoundAlike (f.world.conns q) (g.world.conns q))

Finds-refl : (f : Plant) → Finds f f
Finds-refl f = (refl, λ q. (refl, refl, refl))

put-Finds :
    (p : ℕ) (c : Conn) (f : Plant)
    → FoundAlike (f.world.conns p) c
    → (q : ℕ) → FoundAlike (f.world.conns q) ((with_conn p c f).world.conns q)
put-Finds p c f a q = elim (Bool-cases (q == p)) [
  | inl same ↦
      rw same (subst (λ (r : ℕ). FoundAlike (f.world.conns r) c) (sym ((==_iff q p).0 same)) a)
  | inr other ↦ rw other (refl, refl, refl)
]

Tracks-Finds : (f g h : Plant) → Finds f g → Tracks g h → Finds f h
Tracks-Finds f g h (a, x) t =
    (t.same_list ∙ a, λ q. let b = t.alike q in let c = x q in (b.0 ∙ c.0, b.1 ∙ c.1, b.2 ∙ c.2))

track_found : (sequence : ℕ) (c : Conn) → FoundAlike c (track sequence c)
unfolding track
track_found sequence c = (ground arith, ground arith, ground arith)

newer_found : (now sequence : ℕ) (c d : Conn) → FoundAlike c d → FoundAlike c (newer now sequence d)
unfolding newer set_watchdog
newer_found now sequence c d a = a

module _ (likes : Plant → Bool) where
  take_frame-Finds :
      (now sequence : ℕ) (bytes : Reader) (p : ℕ) (f : Plant)
      → Finds f (plant_of (take_frame likes now sequence bytes p f))
  unfolding take_frame admit
  take_frame-Finds now sequence bytes p f =
      let c = track sequence (f.world.conns p) in
      let tracked = track_found sequence (f.world.conns p) in
      let there = with_conn p (newer now sequence c) f in
      elim (Bool-cases (seq_gt32 sequence c.eip_count_consuming)) [
        | inl more ↦ rw more (
            Tracks-Finds f there (plant_of (handle_received likes p bytes there))
              (
                refl,
                put-Finds p (newer now sequence c) f
                    (newer_found now sequence (f.world.conns p) c tracked),
              )
              (handle_received-Tracks likes p bytes there))
        | inr less ↦ rw less (refl, put-Finds p c f tracked)
      ]

  find_conn-Finds :
      (id : ℕ) (f g : ℕ → Conn) (l : Chain)
      → ((q : ℕ) → FoundAlike (f q) (g q))
      → find_conn (consumes id) g l ≡ find_conn (consumes id) f l
  unfolding find_conn
  find_conn-Finds id f g [] a = refl
  find_conn-Finds id f g (x ∷ l) a =
      rw ((a x).0, (a x).1)
        (ap (λ (o : Option ℕ). if consumes id (f x) then some x else o)
          (find_conn-Finds id f g l a))

  connection-Finds :
      (id : ℕ) (f g : Plant)
      → Finds f g
      → connection_by_consuming_id id g.world ≡ connection_by_consuming_id id f.world
  unfolding connection_by_consuming_id
  connection-Finds id f g (a, x) =
      ap (find_conn (consumes id) g.world.conns) a
      ∙ find_conn-Finds id f.world.conns g.world.conns f.world.active x

  from_peer-Finds :
      (now : ℕ) (sender : SockAddr) (sequence : ℕ) (bytes : Reader) (o : Option ℕ) (f : Plant)
      → Finds f (plant_of (from_peer likes now sender sequence bytes o f))
  from_peer-Finds now sender sequence bytes none f = Finds-refl f
  from_peer-Finds now sender sequence bytes (some p) f =
      elim (Bool-cases (sender.addr == SockAddr.addr (Conn.recv_address (f.world.conns p)))) [
        | inl same ↦ rw same (take_frame-Finds now sequence bytes p f)
        | inr other ↦ rw other (Finds-refl f)
      ]

  module _ (now later : ℕ) (sender : SockAddr) where
    from_peer-from_peer :
        (sequence : ℕ) (bytes : Reader) (o o' : Option ℕ) (f : Plant)
        → sequence < 2 ^ 32
        → o' ≡ o
        → plant_of (
            from_peer likes later sender sequence bytes o'
              (plant_of (from_peer likes now sender sequence bytes o f)))
          ≡ plant_of (from_peer likes now sender sequence bytes o f)
    from_peer-from_peer sequence bytes none o' f h e = rw e
    from_peer-from_peer sequence bytes (some p) o' f h e =
        elim (Bool-cases (sender.addr == SockAddr.addr (Conn.recv_address (f.world.conns p)))) [
          | inl same ↦
              let g = plant_of (take_frame likes now sequence bytes p f) in
              let again =
                ap (λ (a : SockAddr). sender.addr == a.addr)
                  ((take_frame-Finds now sequence bytes p f).1 p).2
                ∙ same in
              rw (e, same)
                (rw again (take_frame-take_frame likes sequence p h now later bytes bytes f))
          | inr other ↦ rw (e, other) (rw other)
        ]

    recv_packet-recv_packet :
        (c : Cpf) (f : Plant)
        → c.address_item.encap_sequence_number < 2 ^ 32
        → plant_of (recv_packet likes later sender c (plant_of (recv_packet likes now sender c f)))
          ≡ plant_of (recv_packet likes now sender c f)
    unfolding recv_packet
    recv_packet-recv_packet c f h =
        let sequence = c.address_item.encap_sequence_number in
        let id = c.address_item.connection_identifier in
        let bytes = c.data_item.bytes in
        let o = connection_by_consuming_id id f.world in
        let g = plant_of (from_peer likes now sender sequence bytes o f) in
        elim (Bool-cases
          (is_connected_address c.address_item.type_id && is_connected_data c.data_item.type_id)) [
            | inl kinds ↦ rw kinds (
                from_peer-from_peer sequence bytes o (connection_by_consuming_id id g.world) f h
                  (connection-Finds id f g (from_peer-Finds now sender sequence bytes o f)))
            | inr others ↦ rw others
          ]

    parsed_twice :
        (x : Offset × Cpf) (f : Plant)
        → x.1.address_item.encap_sequence_number < 2 ^ 32
        → plant_of (recv_parsed likes later sender x (plant_of (recv_parsed likes now sender x f)))
          ≡ plant_of (recv_parsed likes now sender x f)
    parsed_twice (problem_at n, c) f h = refl
    parsed_twice (consumed_bytes n, c) f h = recv_packet-recv_packet c f h

    -- Whatever RecvConnectedData() makes of a packet whose sequence number is a 32-bit number, the
    -- same packet from the same sender at any later time changes nothing more: no connection, no
    -- assembly, no timer, and the application is not told again. So a sequence number that is
    -- equal to the last one is not taken, though a comment in the code says that it is.
    pub recv_connected_data-recv_connected_data :
        (fresh : Cpf) (command : Reader) (f : Plant)
        → (deserialize_cpf command fresh).1.address_item.encap_sequence_number < 2 ^ 32
        → plant_of (
            recv_connected_data likes later sender fresh command
              (plant_of (recv_connected_data likes now sender fresh command f)))
          ≡ plant_of (recv_connected_data likes now sender fresh command f)
    unfolding recv_connected_data
    recv_connected_data-recv_connected_data fresh command f h =
        parsed_twice (deserialize_cpf command fresh) f h
