-- ===== src/Epath/AppPath/Boundary.antt =====
-- The loop over the logical segments: it never runs out of rounds, it takes a segment of a lower
-- rank than the last one, and it stops before any other byte.
use cipster.Base.{
  ℕ, zero, suc, ◌%◌, ◌≤◌, ◌<◌, ◌≡◌, ◌⊎◌, inl, inr, refl, ap, ◌∙◌, arith, [], ◌∷◌, ◌++◌, Bool, true,
  false, ◌==◌, ltb, leb, lt→leb, leb→lt, le→leb, lt→ltb, if◌then◌else◌, Bool-cases, Option-cases,
  none, some, bit_and, bit_or, Result, ok, out_of_fuel, ◌>>=◌, Avoids, Avoids-ok, Avoids-throws,
  Avoids->>=, Avoids-if, if_same,
}
use mathlib.Core.Path.{fun_ext}
use cipster.Bytes.Reader.{Reader}
use cipster.Bytes.Writer.{le8, le16}
use cipster.Bytes.Total.{get8-Avoids, get16-Avoids, get32-Avoids, next-Avoids}
use cipster.Epath.Segment.{skip_pad-Avoids}
use cipster.Epath.Logical.{
  class_segment, instance_segment, conn_pt_segment, attribute_segment, deserialize_logical,
}
use cipster.Epath.Segment.{segment_bytes, pad_bytes, read_byte, read_word}
use cipster.Epath.AppPath.{
  AppPath, Stuff, attribute, conn_pt, instance_id, class_id, member1, member2, member3, rank,
  set_stuff, logical_end,
}
use cipster.Epath.AppPath.Deserialize.{logical_loop, read_logical, segment_field, assembly_boundary}

-- Two fuels above the last rank give the same run.
pub logical_loop_fuel :
    (f g ctl last : ℕ) (r : Reader) (p : AppPath)
    → last < f
    → last < g
    → logical_loop f ctl last r p ≡ logical_loop g ctl last r p
unfolding logical_loop
logical_loop_fuel zero g ctl last r p h k = absurd (omega arith)
logical_loop_fuel (suc f) zero ctl last r p h k = absurd (omega arith)
logical_loop_fuel (suc f) (suc g) ctl last [] p h k = refl
logical_loop_fuel (suc f) (suc g) ctl last (b ∷ r) p h k =
    elim (Option-cases (segment_field (bit_and b 0xfc))) [
      | inl e ↦ rw (e, logical_loop)
      | inr (field, e) ↦
          rw (e, logical_loop)
            (elim (Bool-cases (leb last (rank field))) [
              | inl low ↦ rw low
              | inr high ↦ rw high (
                  ap
                    (λ (go : AppPath × Reader → Result (AppPath × (ℕ × Reader))).
                      if assembly_boundary p last field
                      then ok (p, (last, b ∷ r))
                      else (read_logical ctl field (bit_and b 3) r p >>= go))
                    (fun_ext λ x.
                      logical_loop_fuel f g ctl (rank field) x.1 x.0
                        (omega (arith, leb→lt last (rank field) high))
                        (omega (arith, leb→lt last (rank field) high))))
            ])
    ]

deserialize_logical-Avoids :
    (ctl format : ℕ) (r : Reader) → Avoids out_of_fuel (deserialize_logical ctl format r)
unfolding deserialize_logical
deserialize_logical-Avoids ctl format r = Avoids-if (format == 0) (get8-Avoids r) (
    Avoids-if (format == 1) (Avoids->>= (skip_pad-Avoids ctl r) get16-Avoids) (
      Avoids-if (format == 2)
        (Avoids->>= (skip_pad-Avoids ctl r) (λ r₁. Avoids->>= (next-Avoids r₁) get32-Avoids))
        (Avoids-throws (λ e. cc))))

pub read_logical-Avoids :
    (ctl : ℕ) (field : Stuff) (format : ℕ) (r : Reader) (p : AppPath)
    → Avoids out_of_fuel (read_logical ctl field format r p)
unfolding read_logical
read_logical-Avoids ctl field format r p =
    Avoids->>= (deserialize_logical-Avoids ctl format r) (λ x. Avoids-ok)

-- The last rank falls with every segment taken, so the loop never runs out of rounds.
pub logical_loop-Avoids :
    (f ctl last : ℕ) (r : Reader) (p : AppPath)
    → last < f
    → Avoids out_of_fuel (logical_loop f ctl last r p)
unfolding logical_loop
logical_loop-Avoids zero ctl last r p h = absurd (omega arith)
logical_loop-Avoids (suc f) ctl last [] p h = Avoids-ok
logical_loop-Avoids (suc f) ctl last (b ∷ r) p h =
    elim (Option-cases (segment_field (bit_and b 0xfc))) [
      | inl e ↦ rw (e, logical_loop) Avoids-ok
      | inr (field, e) ↦
          rw (e, logical_loop)
            (Avoids-if (assembly_boundary p last field) Avoids-ok
              (elim (Bool-cases (leb last (rank field))) [
                | inl low ↦ rw low Avoids-ok
                | inr high ↦ rw high (
                    Avoids->>= (read_logical-Avoids ctl field (bit_and b 3) r p) (λ x.
                      logical_loop-Avoids f ctl (rank field) x.1 x.0
                        (omega (arith, leb→lt last (rank field) high))))
              ]))
    ]

-- The segment type of a field.
abbrev pub segment_of : Stuff → ℕ
segment_of attribute = attribute_segment
segment_of conn_pt = conn_pt_segment
segment_of instance_id = instance_segment
segment_of class_id = class_segment
segment_of m = 0

-- Nothing that an application path could take next: the end of the input, a byte that begins no
-- logical segment of a path, or a segment of the same or a higher level.
abbrev pub Ends : ℕ → Reader → Type 0
Ends last [] = Unit {0}
Ends last (b ∷ r) =
    (segment_field (bit_and b 0xfc) ≡ none)
    ⊎ ((field : Stuff) × (segment_field (bit_and b 0xfc) ≡ some field) × (last ≤ rank field))

pub logical_loop_stops :
    (f ctl last : ℕ) (r : Reader) (p : AppPath)
    → Ends last r
    → logical_loop (suc f) ctl last r p ≡ ok (p, (last, r))
unfolding logical_loop
logical_loop_stops f ctl last [] p h = refl
logical_loop_stops f ctl last (b ∷ r) p (inl e) = rw (e, logical_loop)
logical_loop_stops f ctl last (b ∷ r) p (inr (field, e, low)) =
    rw (e, logical_loop, le→leb last (rank field) low) (if_same (assembly_boundary p last field) _)

-- One round that takes a segment.
logical_loop_takes :
    (f ctl last b v : ℕ) (field : Stuff) (r r' : Reader) (p : AppPath)
    → segment_field (bit_and b 0xfc) ≡ some field
    → assembly_boundary p last field ≡ false
    → rank field < last
    → deserialize_logical ctl (bit_and b 3) r ≡ ok (v, r')
    → logical_loop (suc f) ctl last (b ∷ r) p
      ≡ logical_loop f ctl (rank field) r' (set_stuff field v p)
unfolding logical_loop
logical_loop_takes f ctl last b v field r r' p e inside low d =
    rw (e, logical_loop, inside, lt→leb last (rank field) low, read_logical, d)

-- The segment byte of a field, with a format, gives both back.
abbrev Decodes : Stuff → ℕ → ℕ → Type 0
Decodes field format b = (segment_field (bit_and b 0xfc) ≡ some field) × (bit_and b 3 ≡ format)

abbrev IsLogical : Stuff → Type 0
IsLogical field = rank field < logical_end

segment_of-Decodes :
    (field : Stuff)
    → IsLogical field
    → Decodes field 0 (segment_of field % 256) × Decodes field 1 (bit_or (segment_of field) 1 % 256)
unfolding segment_field
segment_of-Decodes attribute h = ((refl, refl), (refl, refl))
segment_of-Decodes conn_pt h = ((refl, refl), (refl, refl))
segment_of-Decodes instance_id h = ((refl, refl), (refl, refl))
segment_of-Decodes class_id h = ((refl, refl), (refl, refl))
segment_of-Decodes member1 h = absurd (omega arith)
segment_of-Decodes member2 h = absurd (omega arith)
segment_of-Decodes member3 h = absurd (omega arith)

-- A segment of a lower level is taken, in each of its two short formats.
take_segment :
    (field : Stuff) (f ctl last v : ℕ) (r : Reader) (p : AppPath)
    → IsLogical field
    → v < 65536
    → assembly_boundary p last field ≡ false
    → rank field < last
    → logical_loop (suc f) ctl last (segment_bytes ctl (segment_of field) v ++ r) p
      ≡ logical_loop f ctl (rank field) r (set_stuff field v p)
take_segment field f ctl last v r p hf hv inside low =
    let (byte, word) = segment_of-Decodes field hf in
    elim (Bool-cases (ltb v 256)) [
      | inl e ↦ rw e (
          logical_loop_takes f ctl last (segment_of field % 256) v field (le8 v ++ r) r p byte.0
            inside low (rw byte.1 (read_byte ctl v (ground arith) r)))
      | inr e ↦
          rw (e, lt→ltb v 65536 hv)
            (logical_loop_takes f ctl last (bit_or (segment_of field) 1 % 256) v field
              ((pad_bytes ctl ++ le16 v) ++ r) r p word.0 inside low
              (rw word.1 (read_word ctl v hv r)))
    ]

-- An optional segment, with a run of the loop that has fuel for every level.
pub take_optional :
    (b : Bool) (field : Stuff) (ctl last v : ℕ) (r : Reader) (p : AppPath)
    → IsLogical field
    → last ≤ logical_end
    → v < 65536
    → (b ≡ true → assembly_boundary p last field ≡ false)
    → (b ≡ true → rank field < last)
    → logical_loop 5 ctl last ((if b then segment_bytes ctl (segment_of field) v else []) ++ r) p
      ≡ logical_loop 5 ctl (if b then rank field else last) r (if b then set_stuff field v p else p)
take_optional true field ctl last v r p hf hl hv inside low =
    take_segment field 4 ctl last v r p hf hv (inside refl) (low refl)
    ∙ logical_loop_fuel 4 5 ctl (rank field) r (set_stuff field v p) (omega arith) (omega arith)
take_optional false field ctl last v r p hf hl hv inside low = refl
