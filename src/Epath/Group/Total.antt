-- ===== src/Epath/Group/Total.antt =====
-- Every round of the loop over a segment group takes a byte at least, so the loop ends.
use cipster.Base.{
  ℕ, zero, suc, ◌-◌, ◌≤◌, ◌%◌, ◌≡◌, refl, arith, [], ◌∷◌, ◌==◌, not, Bool-cases, inl, inr, Option,
  none, some, length, bit_and, Result, ok, throws, overflow_error, invalid_argument, range_error,
  runtime_error, out_of_fuel, Bounded, returns, fails, Bounded->>=, Bounded-if, Bounded-mono,
}
use cipster.Bytes.Reader.{Reader, size, consumed}
use cipster.Bytes.Total.{behind, next-Bounded, get8-Bounded, get16-Bounded, get32-Bounded}
use cipster.Epath.Flags.{packed}
use cipster.Epath.AppPath.Deserialize.{skip_to_even}
use cipster.Epath.Port.{get_link, get_port_head, deserialize_port}
use cipster.Epath.Key.{Key, key_segment, get_key, get_format, catch_range}
use cipster.Epath.Group.{
  Group, Round, exit, failed, taken, key_round, get_usecs, group_round, group_loop,
  deserialize_group, msecs_segment, usecs_segment, clear_group,
}

get_link-Bounded : (n : ℕ) (r : Reader) → Bounded behind (length r) (get_link n r)
unfolding get_link
get_link-Bounded zero r = returns (omega arith)
get_link-Bounded (suc n) r =
    Bounded->>= (get8-Bounded r)
      (λ x h. Bounded->>= (get_link-Bounded n x.1) (λ y k. returns (omega arith)))

skip_to_even-Bounded : (start r : Reader) → Bounded length (length r) (skip_to_even start r)
unfolding skip_to_even
skip_to_even-Bounded start r =
    Bounded-if (consumed start r % 2 == 1) (Bounded-mono (omega arith) (next-Bounded r))
      (returns (omega arith))

get_port_head-Bounded : (r : Reader) → Bounded (λ x. length x.1.1) (length r - 1) (get_port_head r)
unfolding get_port_head
get_port_head-Bounded r = Bounded->>= (get8-Bounded r) (λ x h.
    Bounded->>= {size = behind} {j = length x.1}
      (Bounded-if (bit_and x.0 0x10 == 0) (returns (omega arith))
        (Bounded-mono (omega arith) (get8-Bounded x.1)))
      (λ y k.
        Bounded->>= {size = behind} {j = length y.1}
          (Bounded-if (bit_and x.0 0x0f == 15) (get16-Bounded y.1) (returns (omega arith)))
          (λ z l. returns (omega arith))))

deserialize_port-Bounded :
    (ctl : ℕ) (r : Reader) → Bounded behind (length r - 1) (deserialize_port ctl r)
unfolding deserialize_port
deserialize_port-Bounded ctl r = Bounded->>= (get_port_head-Bounded r) (λ x h.
    Bounded->>= (get_link-Bounded x.0 x.1.1) (λ y k.
      Bounded->>= {size = length} {j = length y.1}
        (Bounded-if (packed ctl) (returns (omega arith)) (skip_to_even-Bounded r y.1))
        (λ z l. returns (omega arith))))

get_key-Bounded : (r : Reader) → Bounded behind (length r) (get_key r)
unfolding get_key
get_key-Bounded r = Bounded->>= (get16-Bounded r) (λ a ha. Bounded->>= (get16-Bounded a.1) (λ b hb.
    Bounded->>= (get16-Bounded b.1) (λ c hc.
      Bounded->>= (get8-Bounded c.1)
        (λ d hd. Bounded->>= (get8-Bounded d.1) (λ e he. returns (omega arith))))))

abbrev behind_some : Option (Key × Reader) → ℕ
behind_some none = 0
behind_some (some x) = behind x

get_format-Bounded : (r : Reader) → Bounded behind_some (length r - 1) (get_format r)
unfolding get_format
get_format-Bounded r = Bounded->>= (next-Bounded r) (λ r₁ h. Bounded->>= (get8-Bounded r₁) (λ x k.
    Bounded-if (not (x.0 == 4)) (returns (omega arith))
      (Bounded->>= (get_key-Bounded x.1) (λ y l. returns (omega arith)))))

catch_range-Bounded :
    (k : ℕ) (m : Result (Option (Key × Reader)))
    → Bounded behind_some k m
    → Bounded behind_some k (catch_range m)
catch_range-Bounded k (ok a) h = h
catch_range-Bounded k (throws range_error) (fails h) = returns (omega arith)
catch_range-Bounded k (throws overflow_error) (fails h) = fails h
catch_range-Bounded k (throws runtime_error) (fails h) = fails h
catch_range-Bounded k (throws invalid_argument) (fails h) = fails h
catch_range-Bounded k (throws out_of_fuel) (fails h) = fails h

-- A key behind its first byte.
key_read-Bounded :
    (first : ℕ) (r : Reader) → Bounded behind_some (length r) (catch_range (get_format (first ∷ r)))
key_read-Bounded first r =
    catch_range-Bounded (length r) (get_format (first ∷ r))
      (Bounded-mono (omega arith) (get_format-Bounded (first ∷ r)))

get_usecs-Bounded : (r : Reader) → Bounded behind (length r) (get_usecs r)
unfolding get_usecs
get_usecs-Bounded r = Bounded->>= (get8-Bounded r) (λ x h.
    Bounded-if (x.0 == 1) (Bounded-mono (omega arith) (get16-Bounded x.1))
      (Bounded-if (x.0 == 2) (Bounded-mono (omega arith) (get32-Bounded x.1)) (fails (λ e. cc))))

-- The size of the input behind a round that takes a segment.
abbrev left_by : Round → ℕ
left_by exit = 0
left_by failed = 0
left_by (taken g r) = length r

left_by-key_round :
    (g : Group) (o : Option (Key × Reader)) → left_by (key_round g o) ≡ behind_some o
left_by-key_round g none = refl
left_by-key_round g (some x) = refl

group_round-Bounded :
    (ctl first : ℕ) (r : Reader) (g : Group)
    → Bounded left_by (length r) (group_round ctl first (first ∷ r) g)
unfolding group_round
group_round-Bounded ctl first r g =
    Bounded-if (bit_and first 0xe0 == 0)
      (Bounded->>= (deserialize_port-Bounded ctl (first ∷ r)) (λ x h. returns (omega arith)))
      (elim (Bool-cases (first == key_segment)) [
        | inl e ↦ rw e (
            Bounded->>= (key_read-Bounded first r)
              (λ o h. returns (omega (arith, left_by-key_round g o))))
        | inr e ↦ rw e (
            Bounded-if (first == msecs_segment)
              (Bounded->>= (next-Bounded (first ∷ r))
                (λ r₁ h. Bounded->>= (get8-Bounded r₁) (λ x k. returns (omega arith))))
              (Bounded-if (first == usecs_segment)
                (Bounded->>= (next-Bounded (first ∷ r))
                  (λ r₁ h. Bounded->>= (get_usecs-Bounded r₁) (λ x k. returns (omega arith))))
                (returns (omega arith))))
      ])

abbrev pub behind_group : Option (Group × Reader) → ℕ
behind_group none = 0
behind_group (some x) = length x.1

group_loop-Bounded :
    (fuel ctl : ℕ) (r : Reader) (g : Group)
    → length r ≤ fuel
    → Bounded behind_group (length r) (group_loop fuel ctl r g)
unfolding group_loop
group_loop-Bounded fuel ctl [] g h = returns (omega arith)
group_loop-Bounded zero ctl (first ∷ r) g h = absurd (omega arith)
group_loop-Bounded (suc fuel) ctl (first ∷ r) g h =
    Bounded->>= (group_round-Bounded ctl first r g) (λ round k.
      elim round
          as (λ round.
            left_by round ≤ length r
            → Bounded behind_group (suc (length r)) (elim round [
              | exit ↦ ok (some (g, first ∷ r))
              | failed ↦ ok none
              | taken g₁ r₁ ↦ group_loop fuel ctl r₁ g₁
            ])) [
              | exit ↦ λ k. returns (omega arith)
              | failed ↦ λ k. returns (omega arith)
              | taken g₁ r₁ ↦
                  λ k. Bounded-mono (omega arith) (group_loop-Bounded fuel ctl r₁ g₁ (omega arith))
            ]
        k)

-- DeserializePortSegmentGroup() ends on every input: as many rounds as there are bytes are enough, and
-- it leaves at most as many bytes as it was given.
pub deserialize_group-Bounded :
    (ctl : ℕ) (r : Reader) (self : Group)
    → Bounded behind_group (length r) (deserialize_group ctl r self)
unfolding deserialize_group
deserialize_group-Bounded ctl r self =
    group_loop-Bounded (size r) ctl r (clear_group self) (omega arith)
