-- ===== src/Encap/Session/Life.antt =====
-- The life of a session: a connection takes a slot, is registered, is found by its handle, and is
-- gone when it is unregistered.
use cipster.Base.{
  ℕ, ◌<◌, ◌^◌, ◌≡◌, ◌≢◌, refl, sym, ap, ◌∙◌, arith, ltb, lt→ltb, ==_iff, Bool, true, false,
  Bool-cases, inl, inr, Option, Option-cases, none, some, length, length-set, if◌then◌else◌,
  if_same,
}
use mathlib.Core.Logic.{◌↔◌}
use cipster.Encap.Session.{
  Session, Sessions, SockAddr, EncapError, success, insufficient_memory, nth, socket_invalid,
  find_free, inc_wrap, put_slot, clear_session, occupy, register_tcp, find_socket, register_session,
  close_slot, unregister, slot_of, check_session, get_session,
}
use cipster.Encap.Session.Table.{nth-set_same, nth_inside, find_socket-some, find_socket-none}
use cipster.Encap.Session.Search.{find_free-true, find_free-full}
use cipster.Encap.Session.Taken.{TakesSlot, register_tcp-success}
use cipster.Encap.Session.Invariant.{IsSound, socket_at, next_index, register_tcp-IsSound}

occupy_error :
    (peer : Option SockAddr) (now sock i : ℕ) (m : Sessions)
    → (occupy peer now sock i m).0 ≢ insufficient_memory
unfolding occupy
occupy_error none now sock i m e = cc
occupy_error (some peer) now sock i m e = cc

-- A connection is refused for want of memory exactly if every slot holds a socket.
pub register_tcp-refuses :
    (getpeername : ℕ → Option SockAddr) (n now sock : ℕ) (m : Sessions)
    → IsSound n m
    → ((register_tcp getpeername now sock m).0 ≡ insufficient_memory)
      ↔ ((i : ℕ) → i < n → socket_at m i ≢ socket_invalid)
unfolding register_tcp
register_tcp-refuses getpeername n now sock m sound =
    elim (Bool-cases ((find_free k k m.slots begin).0)) [
      | inl e ↦
          let (inside, free) = find_free-true k k m.slots begin (next_index sound) e in
          rw e (
            λ h. absurd (occupy_error (getpeername sock) now sock _ _ h),
            λ busy. absurd (busy _ (omega (arith, sound.size, inside)) free),
          )
      | inr e ↦ rw e (
        λ _ i h. find_free-full k m.slots begin (next_index sound) e i (omega (arith, sound.size)),
        λ _. refl,
      )
    ]
  where
    k : ℕ
    k = length m.slots

    begin : ℕ
    begin = inc_wrap k m.index

-- What CheckRegisteredSession() says of a handle whose slot holds the socket.
check_holds :
    (handle sock i : ℕ) (b : Bool) (m : Sessions)
    → slot_of handle ≡ i
    → i < length m.slots
    → socket_at m i ≡ sock
    → Session.registered (nth m.slots i) ≡ b
    → check_session handle sock m ≡ (if b then some i else none)
unfolding check_session
check_holds handle sock i b m e h s r =
    rw (e, lt→ltb i (length m.slots) h, r, s, (==_iff sock sock).1 refl)

check_cleared :
    (handle sock i : ℕ) (m : Sessions)
    → slot_of handle ≡ i
    → Session.registered (nth m.slots i) ≡ false
    → check_session handle sock m ≡ none
unfolding check_session
check_cleared handle sock i m e r = rw (e, r) (ground arith)

find_socket-only :
    {n : ℕ} {m : Sessions} (sock i : ℕ)
    → IsSound n m
    → sock ≢ socket_invalid
    → socket_at m i ≡ sock
    → find_socket sock m.slots ≡ some i
find_socket-only {m = m} sock i sound valid holds = elim (Option-cases (find_socket sock m.slots)) [
  | inl e ↦
      absurd (
        find_socket-none sock m.slots e i (nth_inside m.slots i (λ q. valid (sym holds ∙ q))) holds)
  | inr (k, e) ↦
      let (inside, same) = find_socket-some sock m.slots k e in
      e ∙ ap some (sym (sound.distinct i k (λ q. valid (sym holds ∙ q)) (holds ∙ sym same)))
]

get_closed :
    (handle i : ℕ) (m : Sessions)
    → slot_of handle ≡ i
    → socket_at m i ≡ socket_invalid
    → get_session handle m ≡ none
unfolding get_session
get_closed handle i m e c = rw (e, c) (if_same (ltb i (length m.slots)) none)

-- A new connection on a socket that no slot holds, taken in with a handle by a sound table of fewer
-- than 2^32 slots: the handle is no session before RegisterSession(), which succeeds and gives the same
-- handle; then the handle is a session on this socket; UnregisterSession() succeeds, and then the
-- handle is neither a session nor a connection.
pub session_life :
    (getpeername : ℕ → Option SockAddr) (n now sock handle : ℕ) (m m₁ : Sessions)
    → IsSound n m
    → n < 2 ^ 32
    → sock ≢ socket_invalid
    → ((j : ℕ) → socket_at m j ≢ sock)
    → register_tcp getpeername now sock m ≡ (success, some handle, m₁)
    → (check_session handle sock m₁ ≡ none)
      × (m₂ : Sessions) × (register_session sock m₁ ≡ (success, some handle, m₂))
      × (check_session handle sock m₂ ≡ some (slot_of handle))
      × (m₃ : Sessions) × (unregister handle sock m₂ ≡ (success, m₃))
      × (check_session handle sock m₃ ≡ none)
      × (get_session handle m₃ ≡ none)
unfolding register_session unregister close_slot
session_life getpeername n now sock handle m m₁ sound small valid fresh taken = (
  check_cleared handle sock i m₁ slot takes.waits,
  m₂,
  rw (
    find_socket-only sock i sound₁ valid takes.holds,
    register_session,
    takes.waits,
    takes.handle_of,
  ),
  check_holds handle sock i true m₂ slot low₂ holds₂ (ap Session.registered here₂)
      ∙ ap some (sym slot),
  close_slot i m₂,
  rw (slot, lt→ltb i (length m₂.slots) low₂, holds₂, (==_iff sock sock).1 refl),
  check_cleared handle sock i m₃ slot (ap Session.registered here₃),
  get_closed handle i m₃ slot (ap Session.socket here₃),
)
  where
    i : ℕ
    i = (register_tcp-success getpeername n now sock handle m m₁ sound taken).0

    takes : TakesSlot n sock handle i m₁
    takes = (register_tcp-success getpeername n now sock handle m m₁ sound taken).1

    slot : slot_of handle ≡ i
    slot = omega (arith, takes.handle_of, takes.inside)

    low : i < length m₁.slots
    low = omega (arith, takes.inside, takes.same_size)

    sound₁ : IsSound n m₁
    sound₁ =
        rw (sym (ap (λ (x : EncapError × Option ℕ × Sessions). x.2) taken))
          (register_tcp-IsSound sound getpeername now sock valid fresh)

    m₂ : Sessions
    m₂ = put_slot i (record (nth m₁.slots i) { registered = true }) m₁

    here₂ : nth m₂.slots i ≡ record (nth m₁.slots i) { registered = true }
    here₂ = nth-set_same m₁.slots i _ low

    low₂ : i < length m₂.slots
    low₂ = omega (arith, low, length-set m₁.slots i (record (nth m₁.slots i) { registered = true }))

    holds₂ : socket_at m₂ i ≡ sock
    holds₂ = ap Session.socket here₂ ∙ takes.holds

    m₃ : Sessions
    m₃ = close_slot i m₂

    here₃ : nth m₃.slots i ≡ clear_session (nth m₂.slots i)
    here₃ = nth-set_same m₂.slots i _ low₂
