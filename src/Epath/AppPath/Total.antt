-- ===== src/Epath/AppPath/Total.antt =====
-- DeserializeAppPath() ends on every input: no fuel of the model runs out.
use cipster.Base.{
  ℕ, ◌%◌, arith, List, [], ◌∷◌, ◌==◌, ltb, Option, bit_and, out_of_fuel, Avoids, Avoids-ok,
  Avoids-throws, Avoids->>=, Avoids-if,
}
use cipster.Bytes.Reader.{Reader, consumed}
use cipster.Bytes.Total.{get8-Avoids, get_bytes-Avoids, next-Avoids, peek-Avoids}
use cipster.Epath.Logical.{conn_pt_segment, member_segment}
use cipster.Epath.AppPath.{AppPath, Stuff, conn_pt, clear, logical_end}
use cipster.Epath.AppPath.Serialize.{ansi_symbol}
use cipster.Epath.AppPath.Deserialize.{
  deserialize, deserialize_symbolic, read_symbol, skip_to_even, symbol_conn_pt, symbol_members,
  symbol_tail, members,
}
use cipster.Epath.AppPath.Boundary.{logical_loop-Avoids, read_logical-Avoids}

pub skip_to_even-Avoids : (start r : Reader) → Avoids out_of_fuel (skip_to_even start r)
unfolding skip_to_even
skip_to_even-Avoids start r = Avoids-if (consumed start r % 2 == 1) (next-Avoids r) Avoids-ok

read_symbol-Avoids :
    (start : Reader) (n : ℕ) (r : Reader) (p : AppPath)
    → Avoids out_of_fuel (read_symbol start n r p)
unfolding read_symbol
read_symbol-Avoids start n r p =
    Avoids->>= (get_bytes-Avoids n r)
      (λ x. Avoids->>= (skip_to_even-Avoids start x.1) (λ _. Avoids-ok))

deserialize_symbolic-Avoids :
    (r : Reader) (p : AppPath) → Avoids out_of_fuel (deserialize_symbolic r p)
unfolding deserialize_symbolic
deserialize_symbolic-Avoids r p = Avoids->>= (peek-Avoids r) (λ first.
    Avoids-if (first == ansi_symbol)
      (Avoids->>= (next-Avoids r) (λ r₁.
        Avoids->>= (get8-Avoids r₁)
          (λ x. Avoids-if (ltb 41 x.0) (Avoids-throws (λ e. cc)) (read_symbol-Avoids r x.0 x.1 p))))
      (Avoids-if (bit_and first 0xe0 == 0x60)
        (Avoids->>= (next-Avoids r) (λ r₁. read_symbol-Avoids r (bit_and first 0x1f) r₁ p))
        Avoids-ok))

symbol_members-Avoids :
    (ms : List Stuff) (ctl : ℕ) (r : Reader) (p : AppPath)
    → Avoids out_of_fuel (symbol_members ms ctl r p)
unfolding symbol_members
symbol_members-Avoids [] ctl r p = Avoids-ok
symbol_members-Avoids (m ∷ ms) ctl [] p = Avoids-ok
symbol_members-Avoids (m ∷ ms) ctl (first ∷ r) p =
    Avoids-if (bit_and first 0xfc == member_segment)
      (Avoids->>= (read_logical-Avoids ctl m (bit_and first 3) r p)
        (λ x. symbol_members-Avoids ms ctl x.1 x.0))
      Avoids-ok

symbol_conn_pt-Avoids :
    (ctl : ℕ) (r : Reader) (p : AppPath) → Avoids out_of_fuel (symbol_conn_pt ctl r p)
unfolding symbol_conn_pt
symbol_conn_pt-Avoids ctl r p = Avoids->>= (peek-Avoids r) (λ first.
    Avoids-if (bit_and first 0xfc == conn_pt_segment)
      (Avoids->>= (next-Avoids r) (λ r₁. read_logical-Avoids ctl conn_pt (bit_and first 3) r₁ p))
      Avoids-ok)

symbol_tail-Avoids : (ctl : ℕ) (r : Reader) (p : AppPath) → Avoids out_of_fuel (symbol_tail ctl r p)
unfolding symbol_tail
symbol_tail-Avoids ctl [] p = Avoids-ok
symbol_tail-Avoids ctl (b ∷ r) p =
    Avoids->>= (symbol_conn_pt-Avoids ctl (b ∷ r) p)
      (λ x. symbol_members-Avoids members ctl x.1 x.0)

-- DeserializeAppPath() returns or throws an exception of its own on every input, for every path to
-- inherit from: the five rounds that the model gives its loop are enough.
pub deserialize-Avoids :
    (ctl : ℕ) (previous : Option AppPath) (r : Reader) (self : AppPath)
    → Avoids out_of_fuel (deserialize ctl previous r self)
unfolding deserialize
deserialize-Avoids ctl previous r self =
    Avoids->>= (deserialize_symbolic-Avoids r (clear self)) (λ x.
      Avoids-if (ltb 0 (consumed r x.1)) (symbol_tail-Avoids ctl x.1 x.0) (
        Avoids->>= (logical_loop-Avoids 5 ctl logical_end x.1 x.0 (omega arith))
          (λ y. Avoids-if (ltb 0 (consumed r y.1.1)) Avoids-ok Avoids-ok)))
