-- ===== src/Conn/Box.antt =====
-- class CipConnBox of cip/cipconnectionmanager.h and cipconnectionmanager.cc: the doubly linked list
-- of the active connections, by the members `next`, `prev` and `on_list` of the connections. A
-- connection is its address.
pub mod Chain
pub mod Links
pub mod Laws
use cipster.Base.{ℕ, ◌==◌, Bool, true, false, not, Option, none, some, if◌then◌else◌}

pub record Box : Type 0 where
  pub head : Option ℕ
  pub next : ℕ → Option ℕ
  pub prev : ℕ → Option ℕ
  pub on_list : ℕ → Bool

-- What CipConn::Clear() leaves: no connection is on the list.
abbrev pub empty_box : Box
empty_box = record { head = none; next = λ p. none; prev = λ p. none; on_list = λ p. false }

-- `p->member = v`.
abbrev pub update {ℓ} : {A : Type ℓ} → (ℕ → A) → ℕ → A → ℕ → A
update f p v q = if q == p then v else f q

abbrev pub update_at {ℓ} : {A : Type ℓ} → (ℕ → A) → Option ℕ → A → ℕ → A
update_at f none v = f
update_at f (some p) v = update f p v

-- Insert(), at the head.
unfoldable pub insert : ℕ → Box → Bool × Box
insert p b = if b.on_list p then (false, b) else (
  true,
  record {
    head = some p;
    next = update b.next p b.head;
    prev = update_at (update b.prev p none) b.head (some p);
    on_list = update b.on_list p true;
  },
)

-- `prev ? prev->next = next : head = next`.
abbrev pub bypass_head : Option ℕ → Option ℕ → Option ℕ → Option ℕ
bypass_head none after head = after
bypass_head (some before) after head = head

-- Remove(): the removed connection's own links are cleared.
unfoldable pub remove : ℕ → Box → Bool × Box
remove p b = if not (b.on_list p) then (false, b) else (
  true,
  record {
    head = bypass_head (b.prev p) (b.next p) b.head;
    next = update (update_at b.next (b.prev p) (b.next p)) p none;
    prev = update (update_at b.prev (b.next p) (b.prev p)) p none;
    on_list = update b.on_list p false;
  },
)
