-- ===== src/Conn/Receive/Laws.antt =====
-- Frames that come twice.
use cipster.Base.{
  ℕ, ◌+◌, ◌-◌, ◌%◌, ◌^◌, ◌==◌, ◌≡◌, refl, sym, ap, ◌∙◌, arith, [], ◌∷◌, Bool, true, false, Option,
  none, some, if◌then◌else◌, Result, ok, throws, Bool-cases, ==_iff, inl, inr, ◌<◌,
}
use mathlib.Core.Path.{subst, fun_ext}
use cipster.Bytes.Reader.{Reader, get16, get32}
use cipster.Router.Notify.{status_ok}
use cipster.Conn.Params.{transport_class}
use cipster.Conn.Data.{InstanceRef, ConnData, is_header_32_bit}
use cipster.Conn.State.{Conn, set_watchdog}
use cipster.Conn.Close.{put_conn}
use cipster.Conn.Receive.{
  Plant, Outcome, returns, plant_of, recv_data, recv_by, note_run_idle, handle_payload,
  behind_header, behind_count, handle_received, track, newer, with_conn, admit, take_frame,
  seq_gt32, seq_leq16,
}

-- What finds and admits a frame is the same.
abbrev TrackedAlike : Conn → Conn → Type 0
TrackedAlike c d =
    (d.state ≡ c.state)
    × (d.params ≡ c.params)
    × (d.recv_address ≡ c.recv_address)
    × (d.eip_count_consuming ≡ c.eip_count_consuming)
    × (d.first_frame ≡ c.first_frame)

tracked_refl : (c : Conn) → TrackedAlike c c
tracked_refl c = (refl, refl, refl, refl, refl)

pub record Tracks (f g : Plant) : Type 0 where
  pub same_list : g.world.active ≡ f.world.active
  pub alike : (q : ℕ) → TrackedAlike (f.world.conns q) (g.world.conns q)

Tracks-refl : (f : Plant) → Tracks f f
Tracks-refl f = record { same_list = refl; alike = λ q. tracked_refl (f.world.conns q) }

Tracks-trans : {f g h : Plant} → Tracks f g → Tracks g h → Tracks f h
Tracks-trans s t = record {
  same_list = t.same_list ∙ s.same_list;
  alike = λ q.
      let a = s.alike q in
      let b = t.alike q in (b.0 ∙ a.0, b.1 ∙ a.1, b.2 ∙ a.2, b.3 ∙ a.3, b.4 ∙ a.4);
}

put-Tracks :
    (p : ℕ) (c : Conn) (f : Plant)
    → TrackedAlike (f.world.conns p) c
    → Tracks f (record f { world = put_conn p c f.world })
put-Tracks p c f a = record {
  same_list = refl;
  alike = λ q. elim (Bool-cases (q == p)) [
    | inl same ↦
        rw same (subst (λ (r : ℕ). TrackedAlike (f.world.conns r) c) (sym ((==_iff q p).0 same)) a)
    | inr other ↦ rw other (tracked_refl (f.world.conns q))
  ];
}

Tracks-if :
    {f : Plant} (b : Bool) (x y : Outcome)
    → Tracks f x.1
    → Tracks f y.1
    → Tracks f (plant_of (if b then x else y))
Tracks-if true x y s t = s
Tracks-if false x y s t = t

note_run_idle-Tracks : (p v : ℕ) (f : Plant) → Tracks f (note_run_idle p v f)
unfolding note_run_idle
note_run_idle-Tracks p v f =
    let headed = record (f.world.conns p) { consuming_header = v } in
    let moved = put-Tracks p headed f (tracked_refl headed) in
    elim (Bool-cases (f.run_idle == v)) [
      | inl e ↦ rw e (record { same_list = refl; alike = moved.alike })
      | inr e ↦ rw e (record { same_list = refl; alike = moved.alike })
    ]

module _ (likes : Plant → Bool) where
  recv_data-Tracks :
      (c : Conn) (i : InstanceRef) (r : Reader) (f : Plant) → Tracks f (recv_data likes c i r f).1
  unfolding recv_data
  recv_data-Tracks c i r f =
      Tracks-if _ _ _ (Tracks-refl f)
        (record { same_list = refl; alike = λ q. tracked_refl (f.world.conns q) })

  recv_by-Tracks :
      (c : Conn) (o : Option InstanceRef) (r : Reader) (f : Plant)
      → Tracks f (plant_of (recv_by likes c o r f))
  recv_by-Tracks c none r f = Tracks-refl f
  recv_by-Tracks c (some i) r f = recv_data-Tracks c i r f

  behind_header-Tracks :
      (p : ℕ) (m : Result (ℕ × Reader)) (f : Plant)
      → Tracks f (plant_of (behind_header likes p m f))
  behind_header-Tracks p (throws e) f = Tracks-refl f
  behind_header-Tracks p (ok (v, r)) f =
      Tracks-trans (note_run_idle-Tracks p v f) (recv_by-Tracks _ _ r (note_run_idle p v f))

  handle_payload-Tracks :
      (p : ℕ) (r : Reader) (f : Plant) → Tracks f (plant_of (handle_payload likes p r f))
  unfolding handle_payload
  handle_payload-Tracks p [] f = Tracks-refl f
  handle_payload-Tracks p (b ∷ r) f =
      let c = f.world.conns p in
      let o = c.params.consuming.instance_ref in
      Tracks-if (is_header_32_bit c.params.consuming.fmt) (behind_header likes p (get32 (b ∷ r)) f)
        (recv_by likes c o (b ∷ r) f) (behind_header-Tracks p (get32 (b ∷ r)) f)
        (recv_by-Tracks c o (b ∷ r) f)

  behind_count-Tracks :
      (p : ℕ) (m : Result (ℕ × Reader)) (f : Plant) → Tracks f (plant_of (behind_count likes p m f))
  behind_count-Tracks p (throws e) f = Tracks-refl f
  behind_count-Tracks p (ok (sequence, r)) f =
      let counted = record (f.world.conns p) { count_consuming = sequence } in
      let moved = record f { world = put_conn p counted f.world } in
      Tracks-if (seq_leq16 sequence (Conn.count_consuming (f.world.conns p))) (returns status_ok, f)
        (handle_payload likes p r moved) (Tracks-refl f)
        (Tracks-trans (put-Tracks p counted f (tracked_refl counted))
          (handle_payload-Tracks p r moved))

  -- What the data of a frame change does not change what admits frames.
  pub handle_received-Tracks :
      (p : ℕ) (r : Reader) (f : Plant) → Tracks f (plant_of (handle_received likes p r f))
  unfolding handle_received
  handle_received-Tracks p r f =
      Tracks-if (transport_class (ConnData.trigger (Conn.params (f.world.conns p))) == 1)
        (behind_count likes p (get16 r) f) (handle_payload likes p r f)
        (behind_count-Tracks p (get16 r) f) (handle_payload-Tracks p r f)

  module _ (sequence p : ℕ) (small : sequence < 2 ^ 32) where
    -- The connection has seen this frame.
    abbrev Seen : Plant → Type 0
    Seen f =
        (Conn.first_frame (f.world.conns p) ≡ false)
        × (seq_gt32 sequence (Conn.eip_count_consuming (f.world.conns p)) ≡ false)

    put_same : (f : Plant) → record f { world = put_conn p (f.world.conns p) f.world } ≡ f
    put_same f =
        ap (λ (g : ℕ → Conn). record f { world = record f.world { conns = g } })
          (fun_ext λ q. elim (Bool-cases (q == p)) [
            | inl same ↦ rw same (ap f.world.conns (sym ((==_iff q p).0 same)))
            | inr other ↦ rw other
          ])

    tracked_once : (c : Conn) → c.first_frame ≡ false → track sequence c ≡ c
    unfolding track
    tracked_once c e = simp e

    refused_as_is :
        (now : ℕ) (bytes : Reader) (c : Conn) (f : Plant)
        → seq_gt32 sequence c.eip_count_consuming ≡ false
        → plant_of (admit likes now sequence bytes p c f) ≡ with_conn p c f
    unfolding admit
    refused_as_is now bytes c f old = rw old

    -- A frame that has been seen changes nothing.
    known_again :
        (now : ℕ) (bytes : Reader) (f : Plant)
        → Seen f
        → plant_of (take_frame likes now sequence bytes p f) ≡ f
    unfolding take_frame
    known_again now bytes f (first, old) =
        ap (λ (c : Conn). plant_of (admit likes now sequence bytes p c f))
          (tracked_once (f.world.conns p) first)
        ∙ refused_as_is now bytes (f.world.conns p) f old
        ∙ put_same f

    not_newer : seq_gt32 sequence sequence ≡ false
    not_newer = ground arith

    tracked_leader : seq_gt32 sequence ((sequence + (2 ^ 32 - 1)) % 2 ^ 32) ≡ true
    tracked_leader = ground arith

    first_put : (c : Conn) (f : Plant) → (with_conn p c f).world.conns p ≡ c
    first_put c f = rw ((==_iff p p).1 refl)

    Seen-Tracks : (f g : Plant) → Tracks f g → Seen f → Seen g
    Seen-Tracks f g t (first, old) =
        let a = t.alike p in (a.4 ∙ first, ap (seq_gt32 sequence) a.3 ∙ old)

    Seen-newer :
        (now : ℕ) (c : Conn) (f : Plant)
        → c.first_frame ≡ false
        → Seen (with_conn p (newer now sequence c) f)
    unfolding newer set_watchdog
    Seen-newer now c f e = rw ((==_iff p p).1 refl) (e, not_newer)

    track-first : (c : Conn) → (track sequence c).first_frame ≡ false
    unfolding track
    track-first c = ground arith

    take_frame-Seen :
        (now : ℕ) (bytes : Reader) (f : Plant)
        → Seen (plant_of (take_frame likes now sequence bytes p f))
    unfolding take_frame admit
    take_frame-Seen now bytes f =
        let c = track sequence (f.world.conns p) in
        elim (Bool-cases (seq_gt32 sequence c.eip_count_consuming)) [
          | inl more ↦
              let there = with_conn p (newer now sequence c) f in
              rw more (
                Seen-Tracks there (plant_of (handle_received likes p bytes there))
                  (handle_received-Tracks p bytes there)
                  (Seen-newer now c f (track-first (f.world.conns p))))
          | inr less ↦ rw (less, (==_iff p p).1 refl) (track-first (f.world.conns p), less)
        ]

    -- The frame again, with whatever data and whenever.
    pub take_frame-take_frame :
        (now later : ℕ) (bytes others : Reader) (f : Plant)
        → plant_of (
            take_frame likes later sequence others p
              (plant_of (take_frame likes now sequence bytes p f)))
          ≡ plant_of (take_frame likes now sequence bytes p f)
    take_frame-take_frame now later bytes others f =
        known_again later others (plant_of (take_frame likes now sequence bytes p f))
          (take_frame-Seen now bytes f)
