-- ===== src/Base/Bounds.antt =====
-- Runs that need no fuel and leave at most a given size, such as that of the input behind them.
use Prim.Native.Nat.{ℕ, ◌≤◌}
use mathlib.Core.Path.{◌≡◌}
use mathlib.Core.Bool.{Bool, true, false}
use native.Mathlib.Omega.{arith}
use cipster.Base.Tests.{if◌then◌else◌}
use cipster.Base.Outcome.{Error, Result, ok, throws, out_of_fuel, ◌>>=◌}

pub data Bounded {ℓ} {A : Type ℓ} (size : A → ℕ) (k : ℕ) : Result A → Type ℓ where
  returns : {a : A} → size a ≤ k → Bounded size k (ok a)
  fails : {e : Error} → ¬ (e ≡ out_of_fuel) → Bounded size k (throws e)

pub Bounded->>= {ℓ κ} :
    {A : Type ℓ} {B : Type κ} {size : A → ℕ} {size' : B → ℕ} {j k : ℕ} {m : Result A}
    {f : A → Result B}
    → Bounded size j m
    → ((a : A) → size a ≤ j → Bounded size' k (f a))
    → Bounded size' k (m >>= f)
Bounded->>= {m = ok a} (returns h) g = g a h
Bounded->>= {m = throws e} (fails h) g = fails h

pub Bounded-if {ℓ} :
    {A : Type ℓ} {size : A → ℕ} {k : ℕ} {m n : Result A} (b : Bool)
    → Bounded size k m
    → Bounded size k n
    → Bounded size k (if b then m else n)
Bounded-if true p q = p
Bounded-if false p q = q

pub Bounded-mono {ℓ} :
    {A : Type ℓ} {size : A → ℕ} {j k : ℕ} {m : Result A}
    → j ≤ k
    → Bounded size j m
    → Bounded size k m
Bounded-mono {m = ok a} h (returns p) = returns (omega arith)
Bounded-mono {m = throws e} h (fails p) = fails p
