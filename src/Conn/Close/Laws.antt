-- ===== src/Conn/Close/Laws.antt =====
-- Changes of the list that only lose connections and leave the others open.
use cipster.Base.{
  ℕ, ◌==◌, ◌≡◌, refl, sym, ap, ◌∙◌, Bool, true, false, if◌then◌else◌, Bool-cases, ==_iff, inl, inr,
}
use mathlib.Core.Path.{subst}
use cipster.Conn.Box.Chain.{member, Distinct}
use cipster.Conn.State.{Conn, is_non_existent}
use cipster.Conn.Close.{World, Event, emit, put_conn}
use cipster.Conn.Close.Shrinks.{Shrinks, Shrinks-refl, member-Shrinks, Shrinks-trans}

-- No connection stands twice on the list, and those on it are open.
pub record IsSound (w : World) : Type 0 where
  pub distinct : Distinct w.active
  pub alive : (p : ℕ) → member p w.active ≡ true → is_non_existent (Conn.state (w.conns p)) ≡ false

-- What the watchdog looks at is the same.
abbrev pub WatchedAlike : Conn → Conn → Type 0
WatchedAlike c d =
    (d.state ≡ c.state)
    × (d.watchdog_timer ≡ c.watchdog_timer)
    × (d.expected_packet_rate ≡ c.expected_packet_rate)
    × (d.params ≡ c.params)

pub alike_refl : (c : Conn) → WatchedAlike c c
alike_refl c = (refl, refl, refl, refl)

-- The list only loses connections, a sound world stays sound, and those left on the list are as they
-- were for the watchdog.
pub record Closes (w w' : World) : Type 0 where
  pub shrinks : Shrinks w.active w'.active
  pub keeps : IsSound w → IsSound w'
  pub watched :
      IsSound w → (q : ℕ) → member q w'.active ≡ true → WatchedAlike (w.conns q) (w'.conns q)

pub Closes-refl : (w : World) → Closes w w
Closes-refl w = record {
  shrinks = Shrinks-refl w.active;
  keeps = λ s. s;
  watched = λ s q h. alike_refl (w.conns q);
}

pub Closes-trans : {u v w : World} → Closes u v → Closes v w → Closes u w
Closes-trans {u} {v} {w} p q = record {
  shrinks = Shrinks-trans u.active v.active w.active p.shrinks q.shrinks;
  keeps = λ s. q.keeps (p.keeps s);
  watched = λ s r h.
      let sound : IsSound v = p.keeps s in
      let near = p.watched s r (member-Shrinks v.active w.active r q.shrinks sound.distinct h) in
      let far = q.watched sound r h in
      (far.0 ∙ near.0, far.1 ∙ near.1, far.2 ∙ near.2, far.3 ∙ near.3);
}

pub Closes-if : {u v w : World} (b : Bool) → Closes u v → Closes u w → Closes u (if b then v else w)
Closes-if true p q = p
Closes-if false p q = q

pub same_list-Closes : (w w' : World) → w'.active ≡ w.active → w'.conns ≡ w.conns → Closes w w'
same_list-Closes w w' a c = record {
  shrinks = rw a (Shrinks-refl w.active);
  keeps = λ s. record { distinct = rw a s.distinct; alive = λ p h. rw c (s.alive p (rw a at h)) };
  watched = λ s q h. rw c (alike_refl (w.conns q));
}

pub emit-Closes : (e : Event) (w : World) → Closes w (emit e w)
emit-Closes e w = same_list-Closes w (emit e w) refl refl

pub update_alike :
    (p q : ℕ) (c : Conn) (w : World)
    → WatchedAlike (w.conns p) c
    → WatchedAlike (w.conns q) ((put_conn p c w).conns q)
update_alike p q c w a = elim (Bool-cases (q == p)) [
  | inl same ↦ rw same (subst (λ (r : ℕ). WatchedAlike (w.conns r) c) (sym ((==_iff q p).0 same)) a)
  | inr other ↦ rw other (alike_refl (w.conns q))
]

-- A connection that changes but is as it was for the watchdog.
pub put_conn-Closes :
    (p : ℕ) (c : Conn) (w : World) → WatchedAlike (w.conns p) c → Closes w (put_conn p c w)
put_conn-Closes p c w a = record {
  shrinks = Shrinks-refl w.active;
  keeps = λ s. record {
    distinct = s.distinct;
    alive = λ q h. ap is_non_existent ((update_alike p q c w a).0) ∙ s.alive q h;
  };
  watched = λ s q h. update_alike p q c w a;
}
