-- ===== src/Encap/Session/Table.antt =====
-- The table of sessions: what a slot holds after a change, and what finds a socket.
use cipster.Base.{
  ℕ, suc, zero, ◌<◌, ◌≡◌, ◌≢◌, refl, sym, ap, arith, ◌==◌, ==_iff, List, [], ◌∷◌, Bool-cases, inl,
  inr, Option-cases, none, some, length, set, if◌then◌else◌,
}
use cipster.Encap.Session.{Session, nth, socket_invalid, find_socket}

pub nth-set_same :
    (ss : List Session) (i : ℕ) (s : Session) → i < length ss → nth (set ss i s) i ≡ s
nth-set_same [] i s h = absurd (omega arith)
nth-set_same (x ∷ xs) zero s h = refl
nth-set_same (x ∷ xs) (suc i) s h = nth-set_same xs i s (omega arith)

pub nth-set_other :
    (ss : List Session) (i j : ℕ) (s : Session) → i ≢ j → nth (set ss i s) j ≡ nth ss j
nth-set_other [] i j s h = refl
nth-set_other (x ∷ xs) zero zero s h = absurd (h refl)
nth-set_other (x ∷ xs) zero (suc j) s h = refl
nth-set_other (x ∷ xs) (suc i) zero s h = refl
nth-set_other (x ∷ xs) (suc i) (suc j) s h = nth-set_other xs i j s (λ e. h (ap suc e))

-- A slot that holds a socket is in the table.
pub nth_inside :
    (ss : List Session) (i : ℕ) → Session.socket (nth ss i) ≢ socket_invalid → i < length ss
nth_inside [] i h = absurd (h refl)
nth_inside (x ∷ xs) zero h = omega arith
nth_inside (x ∷ xs) (suc i) h = omega (arith, nth_inside xs i h)

pub find_socket-some :
    (sock : ℕ) (ss : List Session) (i : ℕ)
    → find_socket sock ss ≡ some i
    → (i < length ss) × (Session.socket (nth ss i) ≡ sock)
unfolding find_socket
find_socket-some sock [] i h = cc
find_socket-some sock (x ∷ xs) i h = elim (Option-cases (find_socket sock xs)) [
  | inl e ↦ grind (arith, e)
  | inr (k, e) ↦ grind (arith, e, find_socket-some sock xs k e)
]

pub find_socket-none :
    (sock : ℕ) (ss : List Session)
    → find_socket sock ss ≡ none
    → (i : ℕ) → i < length ss
    → Session.socket (nth ss i) ≢ sock
unfolding find_socket
find_socket-none sock [] h i k = absurd (omega arith)
find_socket-none sock (x ∷ xs) h zero k = ground (arith, h)
find_socket-none sock (x ∷ xs) h (suc i) k = elim (Option-cases (find_socket sock xs)) [
  | inl e ↦ find_socket-none sock xs e i (omega arith)
  | inr (j, e) ↦ absurd (ground (arith, h, e))
]

pub nth-set :
    (ss : List Session) (i k : ℕ) (s : Session)
    → i < length ss
    → nth (set ss i s) k ≡ (if i == k then s else nth ss k)
nth-set ss i k s h = elim (Bool-cases (i == k)) [
  | inl e ↦ rw (e, sym ((==_iff i k).0 e)) (nth-set_same ss i s h)
  | inr e ↦ rw e (nth-set_other ss i k s (λ q. ground (arith, e, q)))
]
