-- ===== src/Conn/Manage/Overdue.antt =====
-- Connections whose inactivity timer is due are closed in the end.
use cipster.Base.{
  ℕ, zero, suc, ◌≤◌, ◌<◌, ◌≡◌, refl, ap, ◌∙◌, arith, List, [], ◌∷◌, Bool, true, false, Option, none,
  length, All, Bool-cases, inl, inr,
}
use cipster.Conn.Box.Chain.{Chain, member, head_of}
use cipster.Conn.Box.Links.{next_of-absent}
use cipster.Conn.Close.{World}
use cipster.Conn.Close.Shrinks.{member-Shrinks}
use cipster.Conn.Close.Laws.{IsSound, WatchedAlike, Closes, Closes-refl, Closes-trans}
use cipster.Conn.Manage.{is_expired, visit, visit_loop, manage_connections}
use cipster.Conn.Manage.Laws.{
  is_expired_alike, visit_expired, visit_loop-Closes, Outcome, visit_loop-Outcome,
}

-- The calls of ManageConnections() at the times `ts`.
pub run_passes : (ℕ → ℕ → Bool) → List ℕ → World → World
run_passes has_news [] w = w
run_passes has_news (t ∷ ts) w = run_passes has_news ts (manage_connections t (has_news t) w)

pub manage_connections-Closes :
    (now : ℕ) (has_news : ℕ → Bool) (w : World) → Closes w (manage_connections now has_news w)
unfolding manage_connections
manage_connections-Closes now has_news w =
    visit_loop-Closes now has_news (length w.active) (head_of w.active) w

-- One pass shortens the list, unless none of its connections has timed out.
pass-Outcome :
    (now : ℕ) (has_news : ℕ → Bool) (w : World)
    → IsSound w
    → Outcome now w (manage_connections now has_news w) w.active
unfolding manage_connections
pass-Outcome now has_news w s =
    visit_loop-Outcome now has_news (length w.active) [] w.active w s refl (omega arith)

run_passes-Closes :
    (has_news : ℕ → ℕ → Bool) (ts : List ℕ) (w : World) → Closes w (run_passes has_news ts w)
unfolding run_passes
run_passes-Closes has_news [] w = Closes-refl w
run_passes-Closes has_news (t ∷ ts) w =
    Closes-trans (manage_connections-Closes t (has_news t) w)
      (run_passes-Closes has_news ts (manage_connections t (has_news t) w))

module _ (has_news : ℕ → ℕ → Bool) (p : ℕ) where
  abbrev Overdue : List ℕ → World → Type 0
  Overdue ts w = All (λ t. is_expired t (w.conns p) ≡ true) ts

  Overdue-alike :
      (ts : List ℕ) (w w' : World)
      → WatchedAlike (w.conns p) (w'.conns p)
      → Overdue ts w
      → Overdue ts w'
  Overdue-alike [] w w' a h = h
  Overdue-alike (t ∷ ts) w w' a h =
      (is_expired_alike t (w.conns p) (w'.conns p) a ∙ h.0, Overdue-alike ts w w' a h.1)

  nobody : (l : Chain) → length l ≤ 0 → member p l ≡ false
  unfolding member
  nobody [] h = refl
  nobody (x ∷ l) h = absurd (omega arith)

  stays_off :
      (ts : List ℕ) (w : World)
      → IsSound w
      → member p w.active ≡ false
      → member p (run_passes has_news ts w).active ≡ false
  stays_off ts w s off =
      let r = run_passes has_news ts w in
      elim (Bool-cases (member p r.active)) [
        | inl there ↦
            let c : Closes w r = run_passes-Closes has_news ts w in
            cc (off, member-Shrinks w.active r.active p c.shrinks s.distinct there)
        | inr out ↦ out
      ]

  -- A pass that leaves an overdue connection on the list has shortened the list.
  still_there :
      (ts : List ℕ) (w w' : World) (t : ℕ)
      → IsSound w
      → Closes w w'
      → member p w'.active ≡ true
      → Overdue (t ∷ ts) w
      → Outcome t w w' w.active
      → {P : Type 0} → (length w'.active < length w.active → P)
      → P
  still_there ts w w' t s c there h (inl shorter) k = k shorter
  still_there ts w w' t s c there h (inr (kept, quiet)) k =
      let on : member p w.active ≡ true =
        member-Shrinks w.active w'.active p c.shrinks s.distinct there in
      let fine : is_expired t (w.conns p) ≡ false = quiet p on in
      let late : is_expired t (w.conns p) ≡ true = h.0 in cc (fine, late)

  -- A connection that is overdue whenever ManageConnections() looks, since no packet comes for it, is
  -- closed and off the list after at most as many calls as there are active connections, whatever
  -- timed out before it and whatever was sent meanwhile.
  pub late_is_closed :
      (ts : List ℕ) (w : World)
      → IsSound w
      → length w.active ≤ length ts
      → Overdue ts w
      → member p (run_passes has_news ts w).active ≡ false
  unfolding run_passes
  late_is_closed [] w s f h = nobody w.active (omega arith)
  late_is_closed (t ∷ ts) w s f h =
      let w' = manage_connections t (has_news t) w in
      let step : Closes w w' = manage_connections-Closes t (has_news t) w in
      elim (Bool-cases (member p w'.active)) [
        | inr gone ↦ stays_off ts w' (step.keeps s) gone
        | inl there ↦
            still_there ts w w' t s step there h (pass-Outcome t (has_news t) w s) (λ shorter.
              late_is_closed ts w' (step.keeps s) (omega arith)
                (Overdue-alike ts w w' (step.watched s p there) h.1))
      ]

visit_loop_end :
    (now : ℕ) (has_news : ℕ → Bool) (n : ℕ) (w : World) → visit_loop n now has_news none w ≡ w
unfolding visit_loop
visit_loop_end now has_news zero w = refl
visit_loop_end now has_news (suc n) w = refl

-- Behind a connection that timed out, a pass visits no other one: the iterator is at the end.
pub manage_connections_stops :
    (now : ℕ) (has_news : ℕ → Bool) (p : ℕ) (l : Chain) (w : World)
    → IsSound w
    → w.active ≡ p ∷ l
    → is_expired now (w.conns p) ≡ true
    → manage_connections now has_news w ≡ visit now has_news p w
unfolding manage_connections visit_loop
manage_connections_stops now has_news p l w s e x =
    let w' = visit now has_news p w in
    ap (λ (m : Chain). visit_loop (length m) now has_news (head_of m) w) e
    ∙ ap (λ (it : Option ℕ). visit_loop (length l) now has_news it w')
        (next_of-absent p w'.active (visit_expired now has_news p w x s))
    ∙ visit_loop_end now has_news (length l) w'
