-- ===== src/Conn/Manage/Laws.antt =====
-- What one call of ManageConnections() does to the connections that have timed out.
use cipster.Base.{
  ℕ, zero, suc, ◌≤◌, ◌<◌, ◌==◌, ◌≡◌, refl, sym, ap, ◌∙◌, arith, [], ◌∷◌, ◌++◌, Bool, true, false,
  ◌⊎◌, Option, none, some, if◌then◌else◌, length, append_assoc, Bool-cases, ==_iff, inl, inr,
}
use mathlib.Core.Path.{subst}
use cipster.Conn.Box.Chain.{Chain, member, head_of, next_of, Distinct}
use cipster.Conn.State.{Conn, bump_transmission_timer, set_inhibit_timer, has_watchdog}
use cipster.Conn.Close.{World, sent, time_out}
use cipster.Conn.Close.Shrinks.{length-Shrinks, length-Shrinks_lt}
use cipster.Conn.Close.Laws.{
  IsSound, WatchedAlike, Closes, Closes-refl, Closes-trans, Closes-if, put_conn-Closes, emit-Closes,
}
use cipster.Conn.Close.Steps.{time_out-Closes}
use cipster.Conn.Close.Gone.{member-time_out}
use cipster.Conn.Manage.{is_expired, count_sent, reload_inhibit, produce, visit, visit_loop}

-- Sending leaves what the watchdog looks at.
sent_alike :
    (now : ℕ) (news : Bool) (c : Conn)
    → WatchedAlike c (
        reload_inhibit now
          (bump_transmission_timer c.params.producing.rpi_usecs (count_sent news c)))
unfolding reload_inhibit set_inhibit_timer bump_transmission_timer count_sent
sent_alike now news c = (ground arith, ground arith, ground arith, ground arith)

produce-Closes :
    (now : ℕ) (has_news : ℕ → Bool) (p : ℕ) (w : World) → Closes w (produce now has_news p w)
unfolding produce
produce-Closes now has_news p w =
    Closes-trans (put_conn-Closes p _ w (sent_alike now (has_news p) (w.conns p)))
      (emit-Closes (sent p) _)

produce_active :
    (now : ℕ) (has_news : ℕ → Bool) (p : ℕ) (w : World)
    → (produce now has_news p w).active ≡ w.active
unfolding produce
produce_active now has_news p w = refl

pub is_expired_alike :
    (now : ℕ) (c d : Conn) → WatchedAlike c d → is_expired now d ≡ is_expired now c
unfolding is_expired has_watchdog
is_expired_alike now c d (s, t, r, q) = rw (s, t, r, q)

-- The second half of a visit.
maybe_produce-Closes :
    (now : ℕ) (has_news : ℕ → Bool) (p : ℕ) (b : Bool) (w : World)
    → Closes w (if b then produce now has_news p w else w)
maybe_produce-Closes now has_news p b w =
    Closes-if b (produce-Closes now has_news p w) (Closes-refl w)

maybe_produce_active :
    (now : ℕ) (has_news : ℕ → Bool) (p : ℕ) (b : Bool) (w : World)
    → World.active (if b then produce now has_news p w else w) ≡ w.active
maybe_produce_active now has_news p true w = produce_active now has_news p w
maybe_produce_active now has_news p false w = refl

module _ (now : ℕ) (has_news : ℕ → Bool) where
  visit-Closes : (p : ℕ) (w : World) → Closes w (visit now has_news p w)
  unfolding visit
  visit-Closes p w =
      Closes-trans (Closes-if (is_expired now (w.conns p)) (time_out-Closes p w) (Closes-refl w))
        (maybe_produce-Closes now has_news p _ _)

  visit_quiet :
      (p : ℕ) (w : World)
      → is_expired now (w.conns p) ≡ false
      → (visit now has_news p w).active ≡ w.active
  unfolding visit
  visit_quiet p w e = rw e (maybe_produce_active now has_news p _ w)

  pub visit_expired :
      (p : ℕ) (w : World)
      → is_expired now (w.conns p) ≡ true
      → IsSound w
      → member p (visit now has_news p w).active ≡ false
  unfolding visit
  visit_expired p w e s =
      rw e (
        ap (member p) (maybe_produce_active now has_news p _ (time_out p w))
        ∙ member-time_out p w s)

  pub visit_loop-Closes :
      (fuel : ℕ) (it : Option ℕ) (w : World) → Closes w (visit_loop fuel now has_news it w)
  unfolding visit_loop
  visit_loop-Closes zero it w = Closes-refl w
  visit_loop-Closes (suc fuel) none w = Closes-refl w
  visit_loop-Closes (suc fuel) (some p) w =
      Closes-trans (visit-Closes p w) (visit_loop-Closes fuel _ (visit now has_news p w))

member-middle : (p : ℕ) (before after : Chain) → member p (before ++ (p ∷ after)) ≡ true
unfolding member
member-middle p [] after = ground arith
member-middle p (x ∷ before) after = ground (arith, member-middle p before after)

-- The iterator's next stop, in the midst of the list.
next_of-middle :
    (p : ℕ) (before after : Chain)
    → Distinct (before ++ (p ∷ after))
    → next_of p (before ++ (p ∷ after)) ≡ head_of after
unfolding next_of
next_of-middle p [] after d = ground arith
next_of-middle p (x ∷ before) after d = elim (Bool-cases (p == x)) [
  | inl same ↦
      let there : member x (before ++ (p ∷ after)) ≡ true =
        subst (λ (y : ℕ). member y (before ++ (p ∷ after)) ≡ true) ((==_iff p x).0 same)
          (member-middle p before after) in
      cc (d.0, there)
  | inr other ↦ rw other (next_of-middle p before after d.1)
]

-- What a pass comes to: a shorter list, or nobody on it from the iterator on has timed out.
abbrev Quiet : ℕ → World → Chain → Type 0
Quiet now w ahead = (q : ℕ) → member q ahead ≡ true → is_expired now (w.conns q) ≡ false

abbrev pub Outcome : ℕ → World → World → Chain → Type 0
Outcome now w r ahead =
    (length r.active < length w.active) ⊎ ((r.active ≡ w.active) × Quiet now w ahead)

module _ (now : ℕ) (has_news : ℕ → Bool) where
  Quiet-none : (w : World) → Quiet now w []
  unfolding member
  Quiet-none w q h = cc

  -- The outcome of the rest of the list is that of the list.
  outcome_first :
      (p : ℕ) (after : Chain) (w w' r : World)
      → w'.active ≡ w.active
      → (Quiet now w' after → Quiet now w (p ∷ after))
      → Outcome now w' r after
      → Outcome now w r (p ∷ after)
  outcome_first p after w w' r same quiet (inl shorter) = inl (rw⁻¹ same shorter)
  outcome_first p after w w' r same quiet (inr (kept, rest)) = inr (kept ∙ same, quiet rest)

  Quiet-first :
      (p : ℕ) (after : Chain) (w w' : World)
      → is_expired now (w.conns p) ≡ false
      → Closes w w'
      → IsSound w
      → w'.active ≡ w.active
      → ((q : ℕ) → member q after ≡ true → member q w.active ≡ true)
      → Quiet now w' after
      → Quiet now w (p ∷ after)
  unfolding member
  Quiet-first p after w w' e c s a on rest q h = elim (Bool-cases (q == p)) [
    | inl same ↦ subst (λ (r : ℕ). is_expired now (w.conns r) ≡ false) (sym ((==_iff q p).0 same)) e
    | inr other ↦
        let there : member q after ≡ true = rw other at h in
        let alike = c.watched s q (rw a (on q there)) in
        sym (is_expired_alike now (w.conns q) (w'.conns q) alike) ∙ rest q there
  ]

  member-behind :
      (before after : Chain) (p q : ℕ)
      → member q after ≡ true
      → member q (before ++ (p ∷ after)) ≡ true
  unfolding member
  member-behind [] after p q h = ground arith
  member-behind (x ∷ before) after p q h = ground (arith, member-behind before after p q h)

  pub visit_loop-Outcome :
      (fuel : ℕ) (before ahead : Chain) (w : World)
      → IsSound w
      → w.active ≡ before ++ ahead
      → length ahead ≤ fuel
      → Outcome now w (visit_loop fuel now has_news (head_of ahead) w) ahead
  unfolding visit_loop
  visit_loop-Outcome zero before [] w s e f = inr (refl, Quiet-none w)
  visit_loop-Outcome (suc fuel) before [] w s e f = inr (refl, Quiet-none w)
  visit_loop-Outcome zero before (p ∷ after) w s e f = absurd (omega arith)
  visit_loop-Outcome (suc fuel) before (p ∷ after) w s e f =
      let w' = visit now has_news p w in
      let step : Closes w w' = visit-Closes now has_news p w in
      let rest = visit_loop-Closes now has_news fuel (next_of p w'.active) w' in
      elim (Bool-cases (is_expired now (w.conns p))) [
        | inl x ↦ inl (
            omega (
              arith,
              length-Shrinks w'.active _ rest.shrinks,
              length-Shrinks_lt w.active w'.active p step.shrinks s.distinct
                  (rw e (member-middle p before after)) (visit_expired now has_news p w x s),
            ))
        | inr x ↦
            let same : w'.active ≡ w.active = visit_quiet now has_news p w x in
            let onward : next_of p w'.active ≡ head_of after =
              ap (next_of p) (same ∙ e)
              ∙ next_of-middle p before after (subst Distinct e s.distinct) in
            let on : (q : ℕ) → member q after ≡ true → member q w.active ≡ true =
              λ q h. rw e (member-behind before after p q h) in
            let ih =
              visit_loop-Outcome fuel (before ++ (p ∷ [])) after w' (step.keeps s)
                (same ∙ e ∙ sym (append_assoc before (p ∷ []) after)) (omega arith) in
            outcome_first p after w w' (visit_loop fuel now has_news (next_of p w'.active) w') same
              (Quiet-first p after w w' x step s same on)
              (subst (λ (it : Option ℕ). Outcome now w' (visit_loop fuel now has_news it w') after)
                (sym onward) ih)
      ]
