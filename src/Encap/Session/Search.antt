-- ===== src/Encap/Session/Search.antt =====
-- The circular search for a free slot visits every slot, so a connection is refused only by a full
-- table.
use cipster.Base.{
  ℕ, suc, zero, ◌+◌, ◌-◌, ◌<◌, ◌≤◌, ◌≡◌, ◌≢◌, sym, ap, ◌∙◌, arith, ◌==◌, leb, ==_iff, List, Bool,
  true, false, Bool-cases, inl, inr, if◌then◌else◌,
}
use cipster.Encap.Session.{Session, nth, socket_invalid, find_free, inc_wrap}

-- The slot that is `j` rounds behind `i`.
abbrev ahead : ℕ → ℕ → ℕ → ℕ
ahead n i j = if leb n (i + j) then i + j - n else i + j

pub inc_wrap-lt : (n i : ℕ) → i < n → inc_wrap n i < n
inc_wrap-lt n i h = ground arith

ahead-zero : (n i : ℕ) → i < n → ahead n i 0 ≡ i
ahead-zero n i h = ground arith

ahead-suc : (n i j : ℕ) → i < n → suc j ≤ n → ahead n (inc_wrap n i) j ≡ ahead n i (suc j)
ahead-suc n i j h k = ground arith

find_free_here :
    (n rounds : ℕ) (ss : List Session) (i : ℕ)
    → (Session.socket (nth ss i) == socket_invalid) ≡ true
    → find_free n (suc rounds) ss i ≡ (true, i)
unfolding find_free
find_free_here n rounds ss i e = rw e

find_free_on :
    (n rounds : ℕ) (ss : List Session) (i : ℕ)
    → (Session.socket (nth ss i) == socket_invalid) ≡ false
    → find_free n (suc rounds) ss i ≡ find_free n rounds ss (inc_wrap n i)
unfolding find_free
find_free_on n rounds ss i e = rw e

-- The search stops at a slot of the table.
pub find_free-lt :
    (n rounds : ℕ) (ss : List Session) (i : ℕ) → i < n → (find_free n rounds ss i).1 < n
unfolding find_free
find_free-lt n zero ss i h = h
find_free-lt n (suc rounds) ss i h =
    elim (Bool-cases (Session.socket (nth ss i) == socket_invalid)) [
      | inl e ↦ rw e h
      | inr e ↦ rw e (find_free-lt n rounds ss (inc_wrap n i) (inc_wrap-lt n i h))
    ]

pub find_free-true :
    (n rounds : ℕ) (ss : List Session) (i : ℕ)
    → i < n
    → (find_free n rounds ss i).0 ≡ true
    → ((find_free n rounds ss i).1 < n)
      × (Session.socket (nth ss (find_free n rounds ss i).1) ≡ socket_invalid)
unfolding find_free
find_free-true n zero ss i h f = cc
find_free-true n (suc rounds) ss i h f =
    elim (Bool-cases (Session.socket (nth ss i) == socket_invalid)) [
      | inl e ↦ rw e (h, (==_iff _ _).0 e)
      | inr e ↦ rw e (
          find_free-true n rounds ss (inc_wrap n i) (inc_wrap-lt n i h)
            (sym (ap (λ (r : Bool × ℕ). r.0) (find_free_on n rounds ss i e)) ∙ f))
    ]

pub find_free-false :
    (n rounds : ℕ) (ss : List Session) (i : ℕ)
    → i < n
    → rounds ≤ n
    → (find_free n rounds ss i).0 ≡ false
    → (j : ℕ) → j < rounds
    → Session.socket (nth ss (ahead n i j)) ≢ socket_invalid
unfolding find_free
find_free-false n zero ss i h k f j l = absurd (omega arith)
find_free-false n (suc rounds) ss i h k f zero l = rw (ahead-zero n i h) (λ free.
    let done : true ≡ false =
      sym (ap (λ (r : Bool × ℕ). r.0) (find_free_here n rounds ss i ((==_iff _ _).1 free))) ∙ f in
    cc)
find_free-false n (suc rounds) ss i h k f (suc j) l =
    rw (sym (ahead-suc n i j h (omega arith)))
      (elim (Bool-cases (Session.socket (nth ss i) == socket_invalid)) [
        | inl e ↦
            let done : true ≡ false =
              sym (ap (λ (r : Bool × ℕ). r.0) (find_free_here n rounds ss i e)) ∙ f in
            absurd cc
        | inr e ↦
            find_free-false n rounds ss (inc_wrap n i) (inc_wrap-lt n i h) (omega arith)
              (sym (ap (λ (r : Bool × ℕ). r.0) (find_free_on n rounds ss i e)) ∙ f) j (omega arith)
      ])

-- Every slot is some rounds ahead.
abbrev back : ℕ → ℕ → ℕ → ℕ
back n i t = if leb i t then t - i else t + n - i

ahead-back : (n i t : ℕ) → i < n → t < n → (back n i t < n) × (ahead n i (back n i t) ≡ t)
ahead-back n i t h k = (ground arith, ground arith)

-- A search over all slots that fails has seen them all taken.
pub find_free-full :
    (n : ℕ) (ss : List Session) (i : ℕ)
    → i < n
    → (find_free n n ss i).0 ≡ false
    → (t : ℕ) → t < n
    → Session.socket (nth ss t) ≢ socket_invalid
find_free-full n ss i h f t k =
    let (near, there) = ahead-back n i t h k in
    rw (sym there) (find_free-false n n ss i h (omega arith) f (back n i t) near)
