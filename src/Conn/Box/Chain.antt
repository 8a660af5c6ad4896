-- ===== src/Conn/Box/Chain.antt =====
-- The list of active connections as a sequence of addresses, the newest first. An iterator at a
-- connection that has been removed is at the end.
use cipster.Base.{ℕ, ◌==◌, ◌≡◌, List, [], ◌∷◌, Bool, false, ◌||◌, Option, none, some, if◌then◌else◌}

abbrev pub Chain : Type 0
Chain = List ℕ

unfoldable pub member : ℕ → Chain → Bool
member p [] = false
member p (x ∷ l) = (p == x) || member p l

abbrev pub head_of : Chain → Option ℕ
head_of [] = none
head_of (x ∷ l) = some x

-- The connection behind `p`, and the one before it.
unfoldable pub next_of : ℕ → Chain → Option ℕ
next_of p [] = none
next_of p (x ∷ l) = if p == x then head_of l else next_of p l

unfoldable pub prev_of : Option ℕ → ℕ → Chain → Option ℕ
prev_of before p [] = none
prev_of before p (x ∷ l) = if p == x then before else prev_of (some x) p l

unfoldable pub erase : ℕ → Chain → Chain
erase p [] = []
erase p (x ∷ l) = if p == x then l else x ∷ erase p l

-- No connection stands twice.
abbrev pub Distinct : Chain → Type 0
Distinct [] = Unit {0}
Distinct (x ∷ l) = (member x l ≡ false) × Distinct l
