-- ===== src/Encap/Session/Reach.antt =====
-- The session manager as a state machine: every table that its calls reach is sound.
use cipster.Base.{ℕ, suc, zero, ◌<◌, ◌≡◌, ◌≢◌, refl, Option, replicate, length-replicate}
use cipster.Encap.Session.{
  Sessions, SockAddr, nth, socket_invalid, free_session, no_sessions, register_tcp,
  register_session, update_tcp, close_by_handle, close_by_socket, unregister,
}
use cipster.Encap.Session.Age.{age_inactivity, shutdown}
use cipster.Encap.Session.Age.Laws.{age_slots-Shrinks, close_slots-Shrinks}
use cipster.Encap.Session.Invariant.{
  IsSound, socket_at, Shrinks-IsSound, register_tcp-IsSound, register_session-IsSound,
  update_tcp-IsSound, unregister-IsSound, close_by_socket-IsSound, close_by_handle-IsSound,
}

-- The calls of the network handler and of the encapsulation layer, in any order. accept() returns a
-- socket that is open nowhere else, and a message comes from a valid socket. `getpeername` is the
-- system call.
pub data Step (getpeername : ℕ → Option SockAddr) : Sessions → Sessions → Type 0 where
  accept :
      {m : Sessions} (now sock : ℕ)
      → sock ≢ socket_invalid
      → ((j : ℕ) → socket_at m j ≢ sock)
      → Step getpeername m ((register_tcp getpeername now sock m).2)
  register :
      {m : Sessions} (sock : ℕ)
      → sock ≢ socket_invalid
      → Step getpeername m ((register_session sock m).2)
  receive : {m : Sessions} (now sock : ℕ) → Step getpeername m ((update_tcp now sock m).1)
  unregistering :
      {m : Sessions} (handle sock : ℕ) → Step getpeername m ((unregister handle sock m).1)
  hang_up : {m : Sessions} (sock : ℕ) → Step getpeername m ((close_by_socket sock m).1)
  drop_handle : {m : Sessions} (handle : ℕ) → Step getpeername m ((close_by_handle handle m).1)
  tick : {m : Sessions} (now secs : ℕ) → Step getpeername m (age_inactivity now secs m)
  stop : {m : Sessions} → Step getpeername m (shutdown m)

pub data Reachable (getpeername : ℕ → Option SockAddr) (n : ℕ) : Sessions → Type 0 where
  start : Reachable getpeername n (no_sessions n)
  after :
      {m m' : Sessions}
      → Reachable getpeername n m
      → Step getpeername m m'
      → Reachable getpeername n m'

nth-free : (n i : ℕ) → nth (replicate n free_session) i ≡ free_session
nth-free zero i = refl
nth-free (suc n) zero = refl
nth-free (suc n) (suc i) = nth-free n i

start-IsSound : (n : ℕ) → 0 < n → IsSound n (no_sessions n)
start-IsSound n h = record {
  size = length-replicate n free_session;
  in_range = h;
  registered_open = λ i. rw (nth-free n i) (λ e. cc);
  distinct = λ i j. rw (nth-free n i) (λ p q. absurd (p refl));
}

pub Step-IsSound :
    {getpeername : ℕ → Option SockAddr} {n : ℕ} {m m' : Sessions}
    → Step getpeername m m'
    → IsSound n m
    → IsSound n m'
unfolding age_inactivity shutdown
Step-IsSound {getpeername = g} (accept now sock valid fresh) s =
    register_tcp-IsSound s g now sock valid fresh
Step-IsSound (register sock valid) s = register_session-IsSound s sock valid
Step-IsSound (receive now sock) s = update_tcp-IsSound s now sock
Step-IsSound (unregistering handle sock) s = unregister-IsSound s handle sock
Step-IsSound (hang_up sock) s = close_by_socket-IsSound s sock
Step-IsSound (drop_handle handle) s = close_by_handle-IsSound s handle
Step-IsSound (tick now secs) s = Shrinks-IsSound _ _ (age_slots-Shrinks 1 now _ _) s
Step-IsSound stop s = Shrinks-IsSound _ _ (close_slots-Shrinks _) s

-- Whatever calls the session manager takes, in whatever order, from an empty table of at least one
-- slot: the table keeps its size, the search index stays in it, a registered session has a socket, and
-- no two slots hold the same socket.
pub Reachable-IsSound :
    {getpeername : ℕ → Option SockAddr} {n : ℕ} {m : Sessions}
    → 0 < n
    → Reachable getpeername n m
    → IsSound n m
Reachable-IsSound {n = n} h start = start-IsSound n h
Reachable-IsSound h (after r step) = Step-IsSound step (Reachable-IsSound h r)
