-- ===== src/Base/Outcome.antt =====
-- What a C++ call gives: a value, or the exception that it throws.
use mathlib.Core.Path.{◌≡◌, ap}
use mathlib.Core.Bool.{Bool, true, false}
use cipster.Base.Tests.{if◌then◌else◌}

-- The exceptions of byte_bufs.cc and of the parsers: std::overflow_error, std::range_error,
-- std::runtime_error and std::invalid_argument. `out_of_fuel` is no exception of the program: a
-- bounded loop of the model was cut short.
pub data Error : Type 0 where
  overflow_error range_error runtime_error invalid_argument out_of_fuel : Error

pub data Result {ℓ} (A : Type ℓ) : Type ℓ where
  ok : A → Result A
  throws : Error → Result A

throws-injective {ℓ} : {A : Type ℓ} {e f : Error} → ◌≡◌ {A = Result A} (throws e) (throws f) → e ≡ f
throws-injective p = cc

infixl 5 ◌>>=◌
abbrev pub ◌>>=◌ {ℓ₁ ℓ₂} :
    {Value : Type ℓ₁} {Next : Type ℓ₂} → Result Value → (Value → Result Next) → Result Next
throws e >>= then_do = throws e
ok value >>= then_do = then_do value

-- A run that no exception `e` ends.
pub record Avoids {ℓ} {A : Type ℓ} (e : Error) (m : Result A) : Type ℓ where
  pub avoids : ¬ (m ≡ throws e)

pub Avoids-ok {ℓ} : {A : Type ℓ} {e : Error} {a : A} → Avoids e (ok a)
Avoids-ok = record { avoids = λ p. cc }

pub Avoids-throws {ℓ} : {A : Type ℓ} {e f : Error} → ¬ (f ≡ e) → Avoids {A = A} e (throws f)
Avoids-throws {A = A} h = record { avoids = λ p. h (throws-injective {A = A} p) }

pub Avoids->>= {ℓ κ} :
    {A : Type ℓ} {B : Type κ} {e : Error} {m : Result A} {k : A → Result B}
    → Avoids e m
    → ((a : A) → Avoids e (k a))
    → Avoids e (m >>= k)
Avoids->>= {m = ok a} p q = q a
Avoids->>= {B = B} {m = throws x} p q = record {
  avoids = λ h. p.avoids (ap throws (throws-injective {A = B} h));
}

pub Avoids-if {ℓ} :
    {A : Type ℓ} {e : Error} {m n : Result A} (b : Bool)
    → Avoids e m
    → Avoids e n
    → Avoids e (if b then m else n)
Avoids-if true p q = p
Avoids-if false p q = q
