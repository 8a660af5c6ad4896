-- ===== src/Conn/Close/Steps.antt =====
-- What closing does to the list: Close(), timeOut() and what they call.
use cipster.Base.{
  ℕ, zero, suc, ◌≤◌, ◌==◌, ◌≡◌, refl, sym, ◌∙◌, arith, Bool, ◌&&◌, Option, none, some,
  if◌then◌else◌, length, Bool-cases, inl, inr,
}
use cipster.Conn.Box.Chain.{head_of, next_of}
use cipster.Conn.Box.Links.{member-erase, erase-Distinct}
use cipster.Conn.State.{
  Conn, InstanceType, explicit, exclusive_owner, input_only, listen_only, is_non_existent, is_io,
}
use cipster.Cpf.{is_some}
use cipster.Encap.Session.{close_by_handle}
use cipster.Conn.Close.{
  find_conn, World, Event, closed, timed_out, notified, released, emit, put_conn, release_if,
  release_conn, close_plain, to_close, close_loop, close_same_type, give_to, masters, resign,
  hand_over, hand_over_late, close_conn, close_idle_session, abandon, time_out, resigned, abandoned,
  is_multicast_producer, next_non_control_master, input_point,
}
use cipster.Conn.Close.Shrinks.{erase-Shrinks, rounds_left, rounds_left-Shrinks, rounds_left-next}
use cipster.Conn.Close.Laws.{
  IsSound, WatchedAlike, alike_refl, Closes, Closes-refl, Closes-trans, Closes-if, same_list-Closes,
  emit-Closes, update_alike, put_conn-Closes,
}

release_if-Closes : (o : Option ℕ) (w : World) → Closes w (release_if o w)
release_if-Closes none w = Closes-refl w
release_if-Closes (some s) w = emit-Closes (released s) w

release_if_conns : (o : Option ℕ) (w : World) → (release_if o w).conns ≡ w.conns
release_if_conns none w = refl
release_if_conns (some s) w = refl

release_both :
    (p : ℕ) (w : World)
    → World.conns (
        release_if
          (Conn.producing_socket (w.conns p))
          (release_if (Conn.consuming_socket (w.conns p)) w))
      ≡ w.conns
release_both p w =
    let c = w.conns p in
    release_if_conns c.producing_socket (release_if c.consuming_socket w)
    ∙ release_if_conns c.consuming_socket w

release_conn-Closes : (p : ℕ) (w : World) → Closes w (release_conn p w)
unfolding release_conn
release_conn-Closes p w = record {
  shrinks = erase-Shrinks p w.active;
  keeps = λ s. record {
    distinct = erase-Distinct p w.active s.distinct;
    alive = λ q h. elim (Bool-cases (q == p)) [
      | inl same ↦ cc (rw (member-erase p q w.active s.distinct, same) at h)
      | inr other ↦
          rw (other, release_both p w)
            (s.alive q (rw (member-erase p q w.active s.distinct, other) at h))
    ];
  };
  watched = λ s q h. elim (Bool-cases (q == p)) [
    | inl same ↦ cc (rw (member-erase p q w.active s.distinct, same) at h)
    | inr other ↦ rw (other, release_both p w) (alike_refl (w.conns q))
  ];
}

close_plain-Closes : (p : ℕ) (w : World) → Closes w (close_plain p w)
unfolding close_plain
close_plain-Closes p w = Closes-if (is_non_existent (Conn.state (w.conns p))) (Closes-refl w) (
    Closes-trans
      (Closes-if (is_io (Conn.instance_type (w.conns p))) (emit-Closes (notified closed p) w)
        (Closes-refl w))
      (release_conn-Closes p _))

closing_step_of :
    (close : ℕ → World → World)
    → ((p : ℕ) (w : World) → Closes w (close p w))
    → (point : ℕ) (type : InstanceType) (p : ℕ) (w : World)
    → Closes w (if to_close point type (w.conns p) then close p (emit (notified closed p) w) else w)
closing_step_of close h point type p w =
    Closes-if (to_close point type (w.conns p))
      (Closes-trans (emit-Closes (notified closed p) w) (h p (emit (notified closed p) w)))
      (Closes-refl w)

module _ (close : ℕ → World → World) (h : (p : ℕ) (w : World) → Closes w (close p w)) where
  close_loop-Closes :
      (fuel point : ℕ) (type : InstanceType) (it : Option ℕ) (w : World)
      → Closes w (close_loop close fuel point type it w)
  unfolding close_loop
  close_loop-Closes zero point type it w = Closes-refl w
  close_loop-Closes (suc fuel) point type none w = Closes-refl w
  close_loop-Closes (suc fuel) point type (some p) w =
      Closes-trans (closing_step_of close h point type p w)
        (close_loop-Closes fuel point type (next_of p w.active) _)

  close_same_type-Closes :
      (point : ℕ) (type : InstanceType) (w : World) → Closes w (close_same_type close point type w)
  unfolding close_same_type
  close_same_type-Closes point type w =
      close_loop-Closes (length w.active) point type (head_of w.active) w

  -- As many rounds as the iterator has left are enough: more change nothing.
  close_loop_enough :
      (more fuel point : ℕ) (type : InstanceType) (it : Option ℕ) (w : World)
      → IsSound w
      → rounds_left it w.active ≤ fuel
      → fuel ≤ more
      → close_loop close more point type it w ≡ close_loop close fuel point type it w
  unfolding close_loop
  close_loop_enough zero zero point type it w s r m = refl
  close_loop_enough zero (suc fuel) point type it w s r m = absurd (omega arith)
  close_loop_enough (suc more) zero point type none w s r m = refl
  close_loop_enough (suc more) zero point type (some p) w s r m = absurd (omega arith)
  close_loop_enough (suc more) (suc fuel) point type none w s r m = refl
  close_loop_enough (suc more) (suc fuel) point type (some p) w s r m =
      let w' =
        if to_close point type (w.conns p) then close p (emit (notified closed p) w) else w in
      let step : Closes w w' = closing_step_of close h point type p w in
      let next = next_of p w.active in
      close_loop_enough more fuel point type next w' (step.keeps s)
        (omega (
          arith,
          rounds_left-Shrinks next w.active w'.active step.shrinks s.distinct,
          rounds_left-next p w.active s.distinct,
        ))
        (omega arith)

give_to-Closes :
    (p : ℕ) (transfer : Conn → Conn → Conn) (o : Option ℕ) (otherwise : World → World) (w : World)
    → ((a b : Conn) → WatchedAlike b (transfer a b))
    → Closes w (otherwise w)
    → Closes w (give_to p transfer o otherwise w)
give_to-Closes p transfer none otherwise w t h = h
give_to-Closes p transfer (some q) otherwise w t h =
    let heir = transfer (w.conns p) (w.conns q) in
    let heired = put_conn q heir w in
    let there = update_alike q p heir w (t (w.conns p) (w.conns q)) in
    Closes-trans (put_conn-Closes q heir w (t (w.conns p) (w.conns q))) (
      put_conn-Closes p (record (w.conns p) { producing_socket = none }) heired
        (sym there.0, sym there.1, sym there.2, sym there.3))

resign-Closes :
    (transfer : Conn → Conn → Conn) (p : ℕ) (w : World)
    → ((a b : Conn) → WatchedAlike b (transfer a b))
    → Closes w (resign transfer p w)
unfolding resign
resign-Closes transfer p w t =
    give_to-Closes p transfer (next_non_control_master (input_point (w.conns p)) w) _ w t (
      close_same_type-Closes close_plain close_plain-Closes (input_point (w.conns p)) listen_only w)

notified-Closes : (b : Bool) (e : Event) (w : World) → Closes w (if b then emit e w else w)
notified-Closes b e w = Closes-if b (emit-Closes e w) (Closes-refl w)

pub resigned-Closes : (p : ℕ) (w : World) → Closes w (resigned p w)
unfolding resigned
resigned-Closes p w =
    let w₁ = if is_io (Conn.instance_type (w.conns p)) then emit (notified closed p) w else w in
    Closes-trans (notified-Closes (is_io (Conn.instance_type (w.conns p))) (notified closed p) w) (
      Closes-if (masters (w.conns p)) (resign-Closes hand_over p w₁ (λ a b. alike_refl b))
        (Closes-refl w₁))

-- Close() only takes connections off the list, and those left on it are open.
pub close_conn-Closes : (p : ℕ) (w : World) → Closes w (close_conn p w)
unfolding close_conn
close_conn-Closes p w =
    Closes-if (is_non_existent (Conn.state (w.conns p))) (Closes-refl w)
      (Closes-trans (resigned-Closes p w) (release_conn-Closes p (resigned p w)))

abandon-Closes : (type : InstanceType) (p : ℕ) (w : World) → Closes w (abandon type p w)
unfolding abandon
abandon-Closes explicit p w = Closes-refl w
abandon-Closes exclusive_owner p w =
    let point = input_point (w.conns p) in
    Closes-trans (close_same_type-Closes close_conn close_conn-Closes point input_only w)
      (close_same_type-Closes close_conn close_conn-Closes point listen_only _)
abandon-Closes input_only p w =
    Closes-if _ (resign-Closes hand_over_late p w (λ a b. alike_refl b)) (Closes-refl w)
abandon-Closes listen_only p w = Closes-refl w

close_idle_session-Closes : (handle : ℕ) (w : World) → Closes w (close_idle_session handle w)
unfolding close_idle_session
close_idle_session-Closes handle w =
    let dropped : World = record w { sessions = (close_by_handle handle w.sessions).1 } in
    Closes-if (is_some (find_conn (λ c. Conn.encap_session c == handle) w.conns w.active))
      (Closes-refl w) (same_list-Closes w dropped refl refl)

pub abandoned-Closes : (p : ℕ) (w : World) → Closes w (abandoned p w)
unfolding abandoned
abandoned-Closes p w =
    let c = w.conns p in
    let w₁ = if is_io c.instance_type then emit (notified timed_out p) w else w in
    Closes-trans (notified-Closes (is_io c.instance_type) (notified timed_out p) w) (
      Closes-if (is_io c.instance_type && is_multicast_producer c)
        (abandon-Closes c.instance_type p w₁) (Closes-refl w₁))

pub time_out-Closes : (p : ℕ) (w : World) → Closes w (time_out p w)
unfolding time_out
time_out-Closes p w =
    let before = abandoned p w in
    let handle = Conn.encap_session (before.conns p) in
    let after = close_conn p before in
    Closes-trans (abandoned-Closes p w) (
      Closes-trans (close_conn-Closes p before)
        (Closes-if (handle == 0) (Closes-refl after) (close_idle_session-Closes handle after)))
