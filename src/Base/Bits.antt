-- ===== src/Base/Bits.antt =====
-- Masks on one byte as arithmetic: each law is a table of at most 256 entries, checked by evaluation.
use Prim.Native.Nat.{ℕ, zero, suc, ◌+◌, ◌*◌, ◌/◌, ◌%◌, ◌<◌, bit_and, bit_or, compare, Ordering}
use mathlib.Core.Path.{◌≡◌, refl}
use mathlib.Core.Bool.{Bool, true, false, ◌&&◌}
use native.Mathlib.Omega.{arith}

module _ (f g : ℕ → ℕ) where
  same : ℕ → Bool
  same n = elim (compare (f n) (g n)) [ Ordering.eq ↦ true | _ ↦ false ]

  agree_below : ℕ → Bool
  unfolding same
  agree_below zero = true
  agree_below (suc n) = same n && agree_below n

  agree_below_sound : (n : ℕ) → agree_below n ≡ true → (i : ℕ) → i < n → f i ≡ g i
  unfolding agree_below
  agree_below_sound zero e i h = absurd (omega arith)
  agree_below_sound (suc n) e i h = ground (arith, agree_below_sound n (ground arith) i)

pub bit_and_e0 : (b : ℕ) → b < 256 → bit_and b 0xe0 ≡ b / 32 * 32
unfolding agree_below
bit_and_e0 = agree_below_sound _ _ 256 refl

pub bit_and_fc : (b : ℕ) → b < 256 → bit_and b 0xfc ≡ b / 4 * 4
unfolding agree_below
bit_and_fc = agree_below_sound _ _ 256 refl

pub bit_and_03 : (b : ℕ) → b < 256 → bit_and b 3 ≡ b % 4
unfolding agree_below
bit_and_03 = agree_below_sound _ _ 256 refl

pub bit_and_0f : (b : ℕ) → b < 256 → bit_and b 0x0f ≡ b % 16
unfolding agree_below
bit_and_0f = agree_below_sound _ _ 256 refl

pub bit_and_1f : (b : ℕ) → b < 256 → bit_and b 0x1f ≡ b % 32
unfolding agree_below
bit_and_1f = agree_below_sound _ _ 256 refl

pub bit_and_10 : (b : ℕ) → b < 256 → bit_and b 0x10 ≡ b / 16 % 2 * 16
unfolding agree_below
bit_and_10 = agree_below_sound _ _ 256 refl

pub bit_or_10 : (b : ℕ) → b < 16 → bit_or 0x10 b ≡ 16 + b
unfolding agree_below
bit_or_10 = agree_below_sound _ _ 16 refl

pub bit_and_7f : (b : ℕ) → b < 256 → bit_and b 0x7f ≡ b % 128
unfolding agree_below
bit_and_7f = agree_below_sound _ _ 256 refl

pub bit_or_80 : (b : ℕ) → b < 128 → bit_or b 0x80 ≡ b + 128
unfolding agree_below
bit_or_80 = agree_below_sound _ _ 128 refl
