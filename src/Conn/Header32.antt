-- ===== src/Conn/Header32.antt =====
-- enum OpMode and class Header32Bit of cip/cipconnection.h: the run/idle header of a frame, 32 bits. The
-- values of a mode that is set, and of an ownership of outputs, fit their fields.
use cipster.Base.{ℕ, ◌<◌, ◌==◌, ◌≡◌, arith, Bool, true, false, if◌then◌else◌}
use cipster.Conn.Params.{field, with_field, bit}

data OpMode : Type 0 where
  idle run unknown : OpMode

abbrev Header32 : Type 0
Header32 = ℕ

unfoldable mode : Header32 → OpMode
mode h = if field 0 1 h == 1 then run else idle

abbrev is_run : OpMode → Bool
is_run run = true
is_run _ = false

unfoldable set_mode : OpMode → Header32 → Header32
set_mode m h = with_field 0 1 (bit (is_run m)) h

unfoldable has_coo : Header32 → Bool
has_coo h = field 1 1 h == 1

unfoldable set_coo : Bool → Header32 → Header32
set_coo b h = with_field 1 1 (bit b) h

unfoldable roo : Header32 → ℕ
roo h = field 2 2 h

unfoldable set_roo : ℕ → Header32 → Header32
set_roo v h = with_field 2 2 v h

-- A field that is set is read back, and the other fields are as before.
roo-set_roo : (v : ℕ) (h : Header32) → v < 4 → roo (set_roo v h) ≡ v
unfolding roo set_roo
roo-set_roo v h f = ground arith

has_coo-set_roo : (v : ℕ) (h : Header32) → v < 4 → has_coo (set_roo v h) ≡ has_coo h
unfolding has_coo set_roo
has_coo-set_roo v h f = ground arith

roo-set_coo : (b : Bool) (h : Header32) → roo (set_coo b h) ≡ roo h
unfolding roo set_coo
roo-set_coo true h = ground arith
roo-set_coo false h = ground arith

mode-set_mode : (h : Header32) → mode (set_mode run h) ≡ run
unfolding mode set_mode
mode-set_mode h = ground arith
