-- ===== src/Encap/Session/Age/Laws.antt =====
-- Which sessions AgeInactivity() closes, and what Shutdown() leaves.
use cipster.Base.{
  ℕ, suc, zero, ◌+◌, ◌*◌, ◌^◌, ◌<◌, ◌≤◌, ◌≡◌, ◌⊎◌, refl, ap, arith, ◌==◌, ==_iff, List, [], ◌∷◌,
  Bool-cases, inl, inr, length, if◌then◌else◌,
}
use mathlib.Core.Logic.{◌↔◌}
use cipster.Encap.Session.{Session, Sessions, nth, socket_invalid, clear_session}
use cipster.Encap.Session.Age.{timeout_usecs, is_stale, age_slots, close_slots, shutdown}
use cipster.Encap.Session.Invariant.{Shrinks}

-- The timeout is the configured number of seconds exactly up to 2147 seconds: above, the product of
-- int wraps around.
timeout_usecs_lem :
    (secs : ℕ) → secs < 2 ^ 16 → (timeout_usecs secs ≡ secs * 1000000) ↔ (secs ≤ 2147)
unfolding timeout_usecs
timeout_usecs_lem secs h = (ground arith, ground arith)

-- What becomes of one session.
abbrev pub aged : ℕ → ℕ → Session → Session
aged now timeout s = if is_stale now timeout s then clear_session s else s

pub nth-age_slots :
    (handle now timeout : ℕ) (ss : List Session) (i : ℕ)
    → nth ((age_slots handle now timeout ss).0) i ≡ aged now timeout (nth ss i)
unfolding age_slots is_stale
nth-age_slots handle now timeout [] i = refl
nth-age_slots handle now timeout (s ∷ ss) zero = elim (Bool-cases (is_stale now timeout s)) [
  | inl e ↦ rw e
  | inr e ↦ rw e
]
nth-age_slots handle now timeout (s ∷ ss) (suc i) = elim (Bool-cases (is_stale now timeout s)) [
  | inl e ↦ rw e (nth-age_slots (handle + 1) now timeout ss i)
  | inr e ↦ rw e (nth-age_slots (handle + 1) now timeout ss i)
]

length-age_slots :
    (handle now timeout : ℕ) (ss : List Session)
    → length ((age_slots handle now timeout ss).0) ≡ length ss
unfolding age_slots
length-age_slots handle now timeout [] = refl
length-age_slots handle now timeout (s ∷ ss) = elim (Bool-cases (is_stale now timeout s)) [
  | inl e ↦ rw e (ap suc (length-age_slots (handle + 1) now timeout ss))
  | inr e ↦ rw e (ap suc (length-age_slots (handle + 1) now timeout ss))
]

pub age_slots-Shrinks :
    (handle now timeout : ℕ) (ss : List Session) → Shrinks ss ((age_slots handle now timeout ss).0)
age_slots-Shrinks handle now timeout ss = record {
  same_size = length-age_slots handle now timeout ss;
  slotwise = λ i.
      rw (nth-age_slots handle now timeout ss i)
        (elim (Bool-cases (is_stale now timeout (nth ss i))) [
          | inl e ↦ rw e (inr refl)
          | inr e ↦ rw e (inl refl)
        ]);
}

nth-close_slots :
    (ss : List Session) (i : ℕ)
    → (Session.socket (nth ((close_slots ss).0) i) ≡ socket_invalid)
      × ((nth ((close_slots ss).0) i ≡ nth ss i)
          ⊎ (nth ((close_slots ss).0) i ≡ clear_session (nth ss i)))
unfolding close_slots
nth-close_slots [] i = (refl, inl refl)
nth-close_slots (s ∷ ss) zero = elim (Bool-cases (s.socket == socket_invalid)) [
  | inl e ↦ rw e ((==_iff s.socket socket_invalid).0 e, inl refl)
  | inr e ↦ rw e (refl, inr refl)
]
nth-close_slots (s ∷ ss) (suc i) = elim (Bool-cases (s.socket == socket_invalid)) [
  | inl e ↦ rw e (nth-close_slots ss i)
  | inr e ↦ rw e (nth-close_slots ss i)
]

length-close_slots : (ss : List Session) → length ((close_slots ss).0) ≡ length ss
unfolding close_slots
length-close_slots [] = refl
length-close_slots (s ∷ ss) = elim (Bool-cases (s.socket == socket_invalid)) [
  | inl e ↦ rw e (ap suc (length-close_slots ss))
  | inr e ↦ rw e (ap suc (length-close_slots ss))
]

pub close_slots-Shrinks : (ss : List Session) → Shrinks ss ((close_slots ss).0)
close_slots-Shrinks ss = record {
  same_size = length-close_slots ss;
  slotwise = λ i. (nth-close_slots ss i).1;
}

-- After Shutdown() no slot holds a socket.
shutdown_lem :
    (m : Sessions) (i : ℕ) → Session.socket (nth (Sessions.slots (shutdown m)) i) ≡ socket_invalid
unfolding shutdown
shutdown_lem m i = (nth-close_slots m.slots i).0
