-- ===== src/Conn/Find/Laws.antt =====
-- CloseAllConnections() closes all connections.
use cipster.Base.{ℕ, zero, suc, ◌≤◌, ◌<◌, ◌≡◌, refl, ap, ◌∙◌, arith, [], ◌∷◌, length, ==_iff}
use cipster.Conn.Box.Chain.{Chain, member, head_of}
use cipster.Conn.Close.{World, close_conn}
use cipster.Conn.Close.Shrinks.{length-Shrinks_lt}
use cipster.Conn.Close.Laws.{IsSound, Closes}
use cipster.Conn.Close.Steps.{close_conn-Closes}
use cipster.Conn.Close.Gone.{member-close_conn}
use cipster.Conn.Find.{close_heads, close_all_connections}

nothing_left : (l : Chain) → length l ≤ 0 → l ≡ []
nothing_left [] h = refl
nothing_left (x ∷ l) h = absurd (omega arith)

module _ (p : ℕ) (l : Chain) (w : World) (e : w.active ≡ p ∷ l) (s : IsSound w) where
  head_goes : length (close_conn p w).active < length w.active
  unfolding member
  head_goes =
      length-Shrinks_lt w.active (close_conn p w).active p (Closes.shrinks (close_conn-Closes p w))
        s.distinct (rw e (rw ((==_iff p p).1 refl) refl)) (member-close_conn p w s)

close_heads_enough :
    (fuel : ℕ) (l : Chain) (w : World)
    → w.active ≡ l
    → IsSound w
    → length l ≤ fuel
    → (close_heads fuel (head_of l) w).active ≡ []
unfolding close_heads
close_heads_enough zero l w e s f = e ∙ nothing_left l f
close_heads_enough (suc fuel) [] w e s f = e
close_heads_enough (suc fuel) (p ∷ l) w e s f =
    let after = close_conn p w in
    let fewer : length after.active < length w.active = head_goes p l w e s in
    close_heads_enough fuel after.active after refl (Closes.keeps (close_conn-Closes p w) s)
      (ground (arith, fewer, ap length e))

-- CloseAllConnections() ends with an empty list, in as many rounds as there are connections, if no
-- connection stands twice on the list and those on it are open: one that is not would never leave it.
pub close_all_connections_empties : (w : World) → IsSound w → (close_all_connections w).active ≡ []
unfolding close_all_connections
close_all_connections_empties w s =
    close_heads_enough (length w.active) w.active w refl s (omega arith)
