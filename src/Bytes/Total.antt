-- ===== src/Bytes/Total.antt =====
-- The reads of BufReader throw nothing but range errors, so a chain of them needs no fuel, and leave
-- no more than they were given.
use cipster.Base.{
  ℕ, ◌-◌, suc, arith, le→ltb, length, length-drop, [], ◌∷◌, ltb, out_of_fuel, Avoids, Avoids-ok,
  Avoids-throws, Avoids-if, Bounded, returns, fails, Bounded-if,
}
use cipster.Bytes.Reader.{
  Reader, size, advance, next, peek, get8, get16, get32, get16_be, get32_be, get_bytes,
}

pub advance-Avoids : (n : ℕ) (r : Reader) → Avoids out_of_fuel (advance n r)
unfolding advance
advance-Avoids n r = Avoids-if (ltb (size r) n) (Avoids-throws (λ e. cc)) Avoids-ok

pub next-Avoids : (r : Reader) → Avoids out_of_fuel (next r)
unfolding next
next-Avoids r = advance-Avoids 1 r

pub peek-Avoids : (r : Reader) → Avoids out_of_fuel (peek r)
unfolding peek
peek-Avoids [] = Avoids-throws (λ e. cc)
peek-Avoids (b ∷ r) = Avoids-ok

pub get8-Avoids : (r : Reader) → Avoids out_of_fuel (get8 r)
unfolding get8
get8-Avoids [] = Avoids-throws (λ e. cc)
get8-Avoids (b ∷ r) = Avoids-ok

pub get16-Avoids : (r : Reader) → Avoids out_of_fuel (get16 r)
unfolding get16
get16-Avoids [] = Avoids-throws (λ e. cc)
get16-Avoids (a ∷ []) = Avoids-throws (λ e. cc)
get16-Avoids (a ∷ b ∷ r) = Avoids-ok

pub get32-Avoids : (r : Reader) → Avoids out_of_fuel (get32 r)
unfolding get32
get32-Avoids [] = Avoids-throws (λ e. cc)
get32-Avoids (a ∷ []) = Avoids-throws (λ e. cc)
get32-Avoids (a ∷ b ∷ []) = Avoids-throws (λ e. cc)
get32-Avoids (a ∷ b ∷ c ∷ []) = Avoids-throws (λ e. cc)
get32-Avoids (a ∷ b ∷ c ∷ d ∷ r) = Avoids-ok

pub get_bytes-Avoids : (n : ℕ) (r : Reader) → Avoids out_of_fuel (get_bytes n r)
unfolding get_bytes
get_bytes-Avoids n r = Avoids-if (ltb (size r) n) (Avoids-throws (λ e. cc)) Avoids-ok

-- The size of the input behind a value.
abbrev pub behind {ℓ} : {A : Type ℓ} → A × Reader → ℕ
behind x = length x.1

pub next-Bounded : (r : Reader) → Bounded length (length r - 1) (next r)
unfolding next advance
next-Bounded [] = fails (λ e. cc)
next-Bounded (b ∷ r) = rw (le→ltb (suc (length r)) 1 (omega arith)) (returns (omega arith))

pub get8-Bounded : (r : Reader) → Bounded behind (length r - 1) (get8 r)
unfolding get8
get8-Bounded [] = fails (λ e. cc)
get8-Bounded (b ∷ r) = returns (omega arith)

pub get16-Bounded : (r : Reader) → Bounded behind (length r) (get16 r)
unfolding get16
get16-Bounded [] = fails (λ e. cc)
get16-Bounded (a ∷ []) = fails (λ e. cc)
get16-Bounded (a ∷ b ∷ r) = returns (omega arith)

pub get32-Bounded : (r : Reader) → Bounded behind (length r) (get32 r)
unfolding get32
get32-Bounded [] = fails (λ e. cc)
get32-Bounded (a ∷ []) = fails (λ e. cc)
get32-Bounded (a ∷ b ∷ []) = fails (λ e. cc)
get32-Bounded (a ∷ b ∷ c ∷ []) = fails (λ e. cc)
get32-Bounded (a ∷ b ∷ c ∷ d ∷ r) = returns (omega arith)

pub get16_be-Bounded : (r : Reader) → Bounded behind (length r) (get16_be r)
unfolding get16_be
get16_be-Bounded [] = fails (λ e. cc)
get16_be-Bounded (a ∷ []) = fails (λ e. cc)
get16_be-Bounded (a ∷ b ∷ r) = returns (omega arith)

pub get32_be-Bounded : (r : Reader) → Bounded behind (length r) (get32_be r)
unfolding get32_be
get32_be-Bounded [] = fails (λ e. cc)
get32_be-Bounded (a ∷ []) = fails (λ e. cc)
get32_be-Bounded (a ∷ b ∷ []) = fails (λ e. cc)
get32_be-Bounded (a ∷ b ∷ c ∷ []) = fails (λ e. cc)
get32_be-Bounded (a ∷ b ∷ c ∷ d ∷ r) = returns (omega arith)

pub advance-Bounded : (n : ℕ) (r : Reader) → Bounded length (length r) (advance n r)
unfolding advance
advance-Bounded n r =
    Bounded-if (ltb (length r) n) (fails (λ e. cc)) (returns (omega (arith, length-drop n r)))
