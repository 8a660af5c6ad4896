-- ===== src/Encap/Session/Invariant.antt =====
-- What every operation of the session manager keeps.
use cipster.Base.{
  ℕ, suc, zero, ◌<◌, ◌≡◌, ◌≢◌, ◌⊎◌, refl, sym, ◌∙◌, arith, ◌==◌, leb, ltb, ==_iff, List, [], ◌∷◌,
  true, Bool-cases, inl, inr, ◌&&◌, Option, Option-cases, none, some, length, set, length-set,
  if◌then◌else◌,
}
use cipster.Encap.Session.{
  Session, Sessions, SockAddr, Call, nth, socket_invalid, find_free, inc_wrap, put_slot,
  clear_session, occupy, register_tcp, find_socket, register_session, update_tcp, close_slot,
  close_by_handle, close_by_socket, unregister, slot_of,
}
use cipster.Encap.Session.Table.{nth-set, find_socket-some}
use cipster.Encap.Session.Search.{find_free-true, find_free-lt, inc_wrap-lt}

abbrev pub socket_at : Sessions → ℕ → ℕ
socket_at m i = Session.socket (nth m.slots i)

-- A table of the size it was made with, whose registered sessions have a socket, and where no two
-- slots hold the same one.
pub record IsSound (n : ℕ) (m : Sessions) : Type 0 where
  pub size : length m.slots ≡ n
  pub in_range : m.index < n
  pub registered_open :
      (i : ℕ) → Session.registered (nth m.slots i) ≡ true → socket_at m i ≢ socket_invalid
  pub distinct : (i j : ℕ) → socket_at m i ≢ socket_invalid → socket_at m i ≡ socket_at m j → i ≡ j

-- A slot takes a session whose socket, if it has one, is in no other slot.
pub put_slot-IsSound :
    {n : ℕ} {m : Sessions} (i : ℕ) (s : Session)
    → IsSound n m
    → i < n
    → (s.registered ≡ true → s.socket ≢ socket_invalid)
    → (s.socket ≢ socket_invalid → (j : ℕ) → i ≢ j → socket_at m j ≢ s.socket)
    → IsSound n (put_slot i s m)
put_slot-IsSound {n = n} {m = m} i s sound h live fresh = record {
  size = length-set m.slots i s ∙ sound.size;
  in_range = sound.in_range;
  registered_open = λ k.
      rw (here k)
        (elim (Bool-cases (i == k)) [ inl e ↦ rw e live | inr e ↦ rw e (sound.registered_open k) ]);
  distinct = λ j k.
      rw (here j, here k)
        (elim (Bool-cases (i == j)) [
          | inl e ↦ rw e (elim (Bool-cases (i == k)) [
            | inl f ↦ rw f (λ _ _. sym ((==_iff i j).0 e) ∙ (==_iff i k).0 f)
            | inr f ↦ rw f (λ p q. absurd (fresh p k (λ r. ground (arith, f, r)) (sym q)))
          ])
          | inr e ↦ rw e (elim (Bool-cases (i == k)) [
            | inl f ↦ rw f (λ p q. absurd (fresh (λ r. p (q ∙ r)) j (λ r. ground (arith, e, r)) q))
            | inr f ↦ rw f (sound.distinct j k)
          ])
        ]);
}
  where
    here : (k : ℕ) → nth (set m.slots i s) k ≡ (if i == k then s else nth m.slots k)
    here k = nth-set m.slots i k s (omega (arith, sound.size))

-- Some slots are cleared, the others stay.
pub record Shrinks (ss ss' : List Session) : Type 0 where
  pub same_size : length ss' ≡ length ss
  pub slotwise : (i : ℕ) → (nth ss' i ≡ nth ss i) ⊎ (nth ss' i ≡ clear_session (nth ss i))

pub Shrinks-IsSound :
    {n : ℕ} {m : Sessions} (ss : List Session) (calls : List Call)
    → Shrinks m.slots ss
    → IsSound n m
    → IsSound n (record m { slots = ss; calls = calls })
Shrinks-IsSound {n = n} {m = m} ss calls shrinks sound = record {
  size = shrinks.same_size ∙ sound.size;
  in_range = sound.in_range;
  registered_open = λ i. elim (shrinks.slotwise i) [
    | inl e ↦ rw e (sound.registered_open i)
    | inr e ↦ rw e (λ h. cc)
  ];
  distinct = λ i j. elim (shrinks.slotwise i) [
    | inl e ↦ rw e (elim (shrinks.slotwise j) [
      | inl f ↦ rw f (sound.distinct i j)
      | inr f ↦ rw f (λ p q. absurd (p q))
    ])
    | inr e ↦ rw e (λ p q. absurd (p refl))
  ];
}

set_clear :
    (ss : List Session) (i k : ℕ)
    → (nth (set ss i (clear_session (nth ss i))) k ≡ nth ss k)
      ⊎ (nth (set ss i (clear_session (nth ss i))) k ≡ clear_session (nth ss k))
set_clear [] i k = inl refl
set_clear (x ∷ xs) zero zero = inr refl
set_clear (x ∷ xs) zero (suc k) = inl refl
set_clear (x ∷ xs) (suc i) zero = inl refl
set_clear (x ∷ xs) (suc i) (suc k) = set_clear xs i k

pub close_slot-Shrinks :
    (ss : List Session) (i : ℕ) → Shrinks ss (set ss i (clear_session (nth ss i)))
close_slot-Shrinks ss i = record {
  same_size = length-set ss i (clear_session (nth ss i));
  slotwise = set_clear ss i;
}

module _ {n : ℕ} {m : Sessions} (sound : IsSound n m) where
  pub close_slot-IsSound : (i : ℕ) → IsSound n (close_slot i m)
  unfolding close_slot
  close_slot-IsSound i = Shrinks-IsSound _ _ (close_slot-Shrinks m.slots i) sound

  occupy-IsSound :
      (peer : Option SockAddr) (now sock i : ℕ)
      → i < n
      → socket_at m i ≡ socket_invalid
      → sock ≢ socket_invalid
      → ((j : ℕ) → socket_at m j ≢ sock)
      → IsSound n ((occupy peer now sock i (record m { index = i })).2)
  unfolding occupy
  occupy-IsSound none now sock i h free valid fresh =
      put_slot-IsSound i (record (nth m.slots i) { socket = sock }) moved h (λ _. valid)
        (λ _ j _. fresh j)
    where
      moved : IsSound n (record m { index = i })
      moved = record {
        size = sound.size;
        in_range = h;
        registered_open = sound.registered_open;
        distinct = sound.distinct;
      }
  occupy-IsSound (some peer) now sock i h free valid fresh =
      put_slot-IsSound i
        (record (nth m.slots i) { socket = sock; peer = peer; last_activity = now }) moved h
        (λ _. valid) (λ _ j _. fresh j)
    where
      moved : IsSound n (record m { index = i })
      moved = record {
        size = sound.size;
        in_range = h;
        registered_open = sound.registered_open;
        distinct = sound.distinct;
      }

  pub next_index : inc_wrap (length m.slots) m.index < length m.slots
  next_index = inc_wrap-lt (length m.slots) m.index (omega (arith, sound.size, sound.in_range))

  pub register_tcp-IsSound :
      (getpeername : ℕ → Option SockAddr) (now sock : ℕ)
      → sock ≢ socket_invalid
      → ((j : ℕ) → socket_at m j ≢ sock)
      → IsSound n ((register_tcp getpeername now sock m).2)
  unfolding register_tcp
  register_tcp-IsSound getpeername now sock valid fresh =
      let k = length m.slots in
      let start = inc_wrap k m.index in
      elim (Bool-cases ((find_free k k m.slots start).0)) [
        | inl e ↦
            let (inside, free) = find_free-true k k m.slots start next_index e in
            rw e (
              occupy-IsSound (getpeername sock) now sock _ (omega (arith, sound.size, inside)) free
                valid fresh)
        | inr e ↦ rw e (record {
          size = sound.size;
          in_range = omega (arith, sound.size, find_free-lt k k m.slots start next_index);
          registered_open = sound.registered_open;
          distinct = sound.distinct;
        })
      ]

  -- A change of a slot that keeps its socket.
  pub keep_socket :
      (i : ℕ) (s : Session)
      → i < n
      → s.socket ≡ socket_at m i
      → (s.registered ≡ true → s.socket ≢ socket_invalid)
      → IsSound n (put_slot i s m)
  keep_socket i s h same live =
      put_slot-IsSound i s sound h live
        (λ p j ne q. ne (sound.distinct i j (λ r. p (same ∙ r)) (sym (q ∙ same))))

  pub register_session-IsSound :
      (sock : ℕ) → sock ≢ socket_invalid → IsSound n ((register_session sock m).2)
  unfolding register_session
  register_session-IsSound sock valid = elim (Option-cases (find_socket sock m.slots)) [
    | inl e ↦ rw (e, register_session) sound
    | inr (i, e) ↦
        let (inside, here) = find_socket-some sock m.slots i e in
        rw (e, register_session)
          (elim (Bool-cases (Session.registered (nth m.slots i))) [
            | inl r ↦ rw r sound
            | inr r ↦ rw r (
                keep_socket i (record (nth m.slots i) { registered = true })
                  (omega (arith, sound.size, inside)) refl (λ _ q. valid (sym here ∙ q)))
          ])
  ]

  pub update_tcp-IsSound : (now sock : ℕ) → IsSound n ((update_tcp now sock m).1)
  unfolding update_tcp
  update_tcp-IsSound now sock = elim (Option-cases (find_socket sock m.slots)) [
    | inl e ↦ rw (e, update_tcp) sound
    | inr (i, e) ↦
        let (inside, here) = find_socket-some sock m.slots i e in
        rw (e, update_tcp)
          (keep_socket i (record (nth m.slots i) { last_activity = now })
            (omega (arith, sound.size, inside)) refl (sound.registered_open i))
  ]

  pub unregister-IsSound : (handle sock : ℕ) → IsSound n ((unregister handle sock m).1)
  unfolding unregister
  unregister-IsSound handle sock =
      elim (Bool-cases (
        ltb (slot_of handle) (length m.slots)
        && (Session.socket (nth m.slots (slot_of handle)) == sock))) [
          | inl e ↦ rw e (close_slot-IsSound (slot_of handle))
          | inr e ↦ rw e sound
        ]

  pub close_by_socket-IsSound : (sock : ℕ) → IsSound n ((close_by_socket sock m).1)
  unfolding close_by_socket
  close_by_socket-IsSound sock = elim (Option-cases (find_socket sock m.slots)) [
    | inl e ↦ rw (e, close_by_socket) sound
    | inr (i, e) ↦ rw (e, close_by_socket) (close_slot-IsSound i)
  ]

  pub close_by_handle-IsSound : (handle : ℕ) → IsSound n ((close_by_handle handle m).1)
  unfolding close_by_handle
  close_by_handle-IsSound handle = elim (Bool-cases (leb (length m.slots) (slot_of handle))) [
    | inl e ↦ rw e sound
    | inr e ↦ rw e (elim (Bool-cases (socket_at m (slot_of handle) == socket_invalid)) [
      | inl f ↦ rw f sound
      | inr f ↦ rw f (close_slot-IsSound (slot_of handle))
    ])
  ]
