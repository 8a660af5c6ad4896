-- ===== src/Conn/Manage.antt =====
-- CipConnMgrClass::ManageConnections() of cip/cipconnectionmanager.cc, from its loop on. SendConnectedData()
-- is the two counts that it raises and the datagram; whether the application has new data, and whether
-- the socket takes the datagram, make no difference to the connection beyond that.
pub mod Laws
pub mod Overdue
use cipster.Base.{
  ℕ, zero, suc, ◌+◌, ◌^◌, ◌%◌, ◌==◌, Bool, true, false, not, ◌&&◌, Option, none, some,
  if◌then◌else◌, length,
}
use cipster.Cpf.{is_some}
use cipster.Epath.Group.{get_pit_usecs}
use cipster.Conn.Box.Chain.{head_of, next_of}
use cipster.Conn.Params.{is_server, trigger_type, cyclic}
use cipster.Conn.State.{
  Conn, is_established, is_due, has_watchdog, bump_transmission_timer, set_inhibit_timer,
}
use cipster.Conn.Close.{World, sent, emit, put_conn, time_out}

-- The connection has timed out.
unfoldable pub is_expired : ℕ → Conn → Bool
unfolding has_watchdog
is_expired now c = is_established c.state && (has_watchdog c && is_due c.watchdog_timer now)

-- SendConnectedData(). `has_news` is what BeforeAssemblyDataSend() returns.
unfoldable pub count_sent : Bool → Conn → Conn
count_sent has_news c = record c {
  eip_count_producing = (c.eip_count_producing + 1) % 2 ^ 32;
  count_producing = if has_news then (c.count_producing + 1) % 2 ^ 16 else c.count_producing;
}

-- The inhibit time of a connection that is not cyclic.
unfoldable pub reload_inhibit : ℕ → Conn → Conn
unfolding set_inhibit_timer
reload_inhibit now c =
    if trigger_type c.params.trigger == cyclic
    then c
    else set_inhibit_timer now (get_pit_usecs c.params.conn_path.port_segs) c

-- A client with a rate and a socket whose time has come.
unfoldable pub sends_now : ℕ → Conn → Bool
sends_now now c =
    not (is_server c.params.trigger)
    && (not (c.expected_packet_rate == 0)
        && (is_some c.producing_socket && is_due c.transmission_timer now))

unfoldable pub produce : ℕ → (ℕ → Bool) → ℕ → World → World
unfolding count_sent reload_inhibit bump_transmission_timer
produce now has_news p w =
    let c = w.conns p in
    emit (sent p) (
      put_conn p
        (reload_inhibit now
          (bump_transmission_timer c.params.producing.rpi_usecs (count_sent (has_news p) c)))
        w)

-- What becomes of one connection of the list.
unfoldable pub visit : ℕ → (ℕ → Bool) → ℕ → World → World
unfolding is_expired time_out sends_now produce
visit now has_news p w =
    let w₁ = if is_expired now (w.conns p) then time_out p w else w in
    let c = w₁.conns p in
    if is_established c.state && sends_now now c then produce now has_news p w₁ else w₁

-- The loop: the iterator moves on from its connection after that was visited, and is at the end if
-- that left the list.
unfoldable pub visit_loop : ℕ → ℕ → (ℕ → Bool) → Option ℕ → World → World
unfolding visit next_of
visit_loop zero now has_news it w = w
visit_loop (suc fuel) now has_news none w = w
visit_loop (suc fuel) now has_news (some p) w =
    let after = visit now has_news p w in
    visit_loop fuel now has_news (next_of p after.active) after

unfoldable pub manage_connections : ℕ → (ℕ → Bool) → World → World
unfolding visit_loop
manage_connections now has_news w = visit_loop (length w.active) now has_news (head_of w.active) w
