-- ===== src/Conn/State/Timers.antt =====
-- When a timer is due.
use cipster.Base.{ℕ, ◌+◌, ◌^◌, ◌%◌, ◌<◌, ◌≡◌, arith, leb}
use cipster.Conn.State.{Conn, is_due, set_watchdog}

-- The inactivity timer that is set to a time ahead of less than 2^31 microseconds is due exactly when that
-- time has passed, as long as it is looked at within 2^31 microseconds, whether the clock wraps
-- around or not.
pub set_watchdog-due :
    (now future later : ℕ) (c : Conn)
    → future < 2 ^ 31
    → later < 2 ^ 31
    → is_due (Conn.watchdog_timer (set_watchdog now future c)) ((now + later) % 2 ^ 32)
      ≡ leb future later
unfolding set_watchdog
set_watchdog-due now future later c f l = ground arith
