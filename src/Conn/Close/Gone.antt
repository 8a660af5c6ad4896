-- ===== src/Conn/Close/Gone.antt =====
-- A connection that is closed, or has timed out, is not on the list.
use cipster.Base.{
  ℕ, ◌==◌, ◌≡◌, refl, ap, ◌∙◌, Bool, false, if◌then◌else◌, Bool-cases, ==_iff, inl, inr,
}
use cipster.Conn.Box.Chain.{member}
use cipster.Conn.Box.Links.{member-erase}
use cipster.Conn.State.{Conn, is_non_existent}
use cipster.Cpf.{is_some}
use cipster.Conn.Close.{
  find_conn, World, release_conn, close_conn, close_idle_session, time_out, resigned, abandoned,
}
use cipster.Conn.Close.Shrinks.{Shrinks}
use cipster.Conn.Close.Laws.{IsSound, Closes}
use cipster.Conn.Close.Steps.{resigned-Closes, abandoned-Closes, time_out-Closes}

member-release_conn : (p : ℕ) (w : World) → IsSound w → member p (release_conn p w).active ≡ false
unfolding release_conn
member-release_conn p w s =
    member-erase p p w.active s.distinct
    ∙ ap (λ (b : Bool). if b then false else member p w.active) ((==_iff p p).1 refl)

-- A closed connection is not on the list.
pub member-close_conn : (p : ℕ) (w : World) → IsSound w → member p (close_conn p w).active ≡ false
unfolding close_conn
member-close_conn p w s = elim (Bool-cases (is_non_existent (Conn.state (w.conns p)))) [
  | inl gone ↦ rw gone (elim (Bool-cases (member p w.active)) [
    | inl there ↦ cc (s.alive p there, gone)
    | inr out ↦ out
  ])
  | inr open_still ↦
      rw open_still (member-release_conn p (resigned p w) (Closes.keeps (resigned-Closes p w) s))
]

close_idle_session_active :
    (handle : ℕ) (w : World) → (close_idle_session handle w).active ≡ w.active
unfolding close_idle_session
close_idle_session_active handle w =
    elim (Bool-cases (is_some (find_conn (λ c. Conn.encap_session c == handle) w.conns w.active))) [
      | inl e ↦ rw e
      | inr e ↦ rw e
    ]

unless_zero_active :
    (handle : ℕ) (w : World)
    → World.active (if handle == 0 then w else close_idle_session handle w) ≡ w.active
unless_zero_active handle w = elim (Bool-cases (handle == 0)) [
  | inl e ↦ rw e
  | inr e ↦ rw e (close_idle_session_active handle w)
]

-- Nor is one that timed out.
pub member-time_out : (p : ℕ) (w : World) → IsSound w → member p (time_out p w).active ≡ false
unfolding time_out
member-time_out p w s =
    let before = abandoned p w in
    ap (member p) (unless_zero_active (Conn.encap_session (before.conns p)) (close_conn p before))
    ∙ member-close_conn p before (Closes.keeps (abandoned-Closes p w) s)

-- A connection that times out while no connection stands twice on the list and those on it are open
-- leaves the list, which loses connections only, and the list stays so.
pub time_out-IsSound :
    (p : ℕ) (w : World)
    → IsSound w
    → IsSound (time_out p w)
      × Shrinks w.active (time_out p w).active
      × (member p (time_out p w).active ≡ false)
time_out-IsSound p w s =
    let c = time_out-Closes p w in (c.keeps s, c.shrinks, member-time_out p w s)
