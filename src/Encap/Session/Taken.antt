-- ===== src/Encap/Session/Taken.antt =====
-- The slot that RegisterTcpConnection() gives to a new connection.
use cipster.Base.{
  ℕ, ◌+◌, ◌<◌, ◌≡◌, sym, ap, ◌∙◌, arith, Bool, true, false, Bool-cases, inl, inr, Option, none,
  some, length, set, length-set,
}
use cipster.Encap.Session.{
  Session, Sessions, SockAddr, success, insufficient_memory, nth, socket_invalid, find_free,
  inc_wrap, put_slot, occupy, register_tcp,
}
use cipster.Encap.Session.Table.{nth-set_same}
use cipster.Encap.Session.Search.{find_free-true}
use cipster.Encap.Session.Invariant.{IsSound, socket_at, next_index}

-- What a connection that was taken in leaves: a slot with its socket, not registered yet, whose
-- number the handle is.
pub record TakesSlot (n sock handle i : ℕ) (m : Sessions) : Type 0 where
  pub inside : i < n
  pub handle_of : handle ≡ i + 1
  pub same_size : length m.slots ≡ n
  pub holds : socket_at m i ≡ sock
  pub waits : Session.registered (nth m.slots i) ≡ false

occupy-success :
    (peer : Option SockAddr) (n now sock i handle : ℕ) (m m₁ : Sessions)
    → length m.slots ≡ n
    → i < n
    → Session.registered (nth m.slots i) ≡ false
    → occupy peer now sock i m ≡ (success, some handle, m₁)
    → TakesSlot n sock handle i m₁
unfolding occupy
occupy-success none n now sock i handle m m₁ size h r e = cc
occupy-success (some peer) n now sock i handle m m₁ size h r e = rw (sym table) (record {
  inside = h;
  handle_of = sym handles;
  same_size = length-set m.slots i taken ∙ size;
  holds = ap Session.socket here;
  waits = ap Session.registered here ∙ r;
})
  where
    taken : Session
    taken = record (nth m.slots i) { socket = sock; peer = peer; last_activity = now }

    table : put_slot i taken m ≡ m₁
    table = ap (λ x. x.2) e

    handles : i + 1 ≡ handle
    handles = let q : some (i + 1) ≡ some handle = ap (λ x. x.1) e in cc

    here : nth (set m.slots i taken) i ≡ taken
    here = nth-set_same m.slots i taken (omega (arith, size))

abbrev search : Sessions → Bool × ℕ
search m = find_free (length m.slots) (length m.slots) m.slots (inc_wrap (length m.slots) m.index)

register_tcp_found :
    (getpeername : ℕ → Option SockAddr) (now sock : ℕ) (m : Sessions)
    → (search m).0 ≡ true
    → register_tcp getpeername now sock m
      ≡ occupy (getpeername sock) now sock ((search m).1) (record m { index = (search m).1 })
unfolding register_tcp
register_tcp_found getpeername now sock m e = rw e

register_tcp_full :
    (getpeername : ℕ → Option SockAddr) (now sock : ℕ) (m : Sessions)
    → (search m).0 ≡ false
    → (register_tcp getpeername now sock m).0 ≡ insufficient_memory
unfolding register_tcp
register_tcp_full getpeername now sock m e = rw e

free_waits :
    {n : ℕ} {m : Sessions} (i : ℕ)
    → IsSound n m
    → socket_at m i ≡ socket_invalid
    → Session.registered (nth m.slots i) ≡ false
free_waits {m = m} i sound free = elim (Bool-cases (Session.registered (nth m.slots i))) [
  | inl r ↦ absurd (sound.registered_open i r free)
  | inr r ↦ r
]

pub register_tcp-success :
    (getpeername : ℕ → Option SockAddr) (n now sock handle : ℕ) (m m₁ : Sessions)
    → IsSound n m
    → register_tcp getpeername now sock m ≡ (success, some handle, m₁)
    → (i : ℕ) × TakesSlot n sock handle i m₁
register_tcp-success getpeername n now sock handle m m₁ sound taken =
    elim (Bool-cases ((search m).0)) [
      | inl e ↦
          let (inside, free) =
            find_free-true (length m.slots) (length m.slots) m.slots
              (inc_wrap (length m.slots) m.index) (next_index sound) e in
          let low : (search m).1 < n = omega (arith, sound.size, inside) in
          (
            (search m).1,
            occupy-success (getpeername sock) n now sock ((search m).1) handle
                (record m { index = (search m).1 }) m₁ sound.size low (free_waits _ sound free)
                (sym (register_tcp_found getpeername now sock m e) ∙ taken),
          )
      | inr e ↦
          let q : insufficient_memory ≡ success =
            sym (register_tcp_full getpeername now sock m e) ∙ ap (λ x. x.0) taken in
          absurd cc
    ]
