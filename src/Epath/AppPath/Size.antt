-- ===== src/Epath/AppPath/Size.antt =====
-- How many bytes a path takes: a padded path is a whole number of words, and every path fits the
-- buffer that SerializedCount() measures it in.
use cipster.Base.{
  ℕ, ◌+◌, ◌%◌, ◌≤◌, ◌<◌, ◌≡◌, refl, ap, arith, List, [], ◌++◌, Bool, true, false, not, ◌&&◌, ◌==◌,
  ltb, Bool-cases, inl, inr, if◌then◌else◌, length, length-append, ==_iff, append-nil, bit_or, ok,
}
use cipster.Bytes.Writer.{le8, le16, le32}
use cipster.Bytes.Append.{append_fits}
use cipster.Epath.Flags.{packed, omits_class, omits_instance, omits_conn_pt}
use cipster.Epath.Logical.{
  class_segment, instance_segment, member_segment, conn_pt_segment, attribute_segment,
}
use cipster.Epath.Segment.{segment_bytes, pad_bytes}
use cipster.Epath.AppPath.{
  AppPath, attribute, conn_pt, instance_id, class_id, member1, member2, member3, has, get,
  assembly_class, tag_size,
}
use cipster.Epath.AppPath.Serialize.{serialized_count, stack_buf, ansi_symbol}
use cipster.Epath.AppPath.Encode.{
  opt_segment, padded, member_bytes, symbol_bytes, symbolic_bytes, class_bytes, attribute_bytes,
  assembly_path_bytes, class_path_bytes, path_bytes, serialize_lem, written-store,
}

-- At most `k` bytes, and a whole number of words if the path is padded.
record Fits (ctl k : ℕ) (bs : List ℕ) : Type 0 where
  bound : length bs ≤ k
  even : packed ctl ≡ false → length bs % 2 ≡ 0

module _ {ctl : ℕ} where
  Fits-append :
      {j k : ℕ} {xs ys : List ℕ} → Fits ctl j xs → Fits ctl k ys → Fits ctl (j + k) (xs ++ ys)
  Fits-append {xs = xs} {ys = ys} p q = record {
    bound = omega (arith, length-append xs ys);
    even = λ e. omega (arith, length-append xs ys, p.even e, q.even e);
  }

  Fits-if :
      {k : ℕ} {xs ys : List ℕ} (b : Bool)
      → Fits ctl k xs
      → Fits ctl k ys
      → Fits ctl k (if b then xs else ys)
  Fits-if true p q = p
  Fits-if false p q = q

  Fits-none : {k : ℕ} → Fits ctl k []
  Fits-none = record { bound = omega arith; even = λ _. refl }

  Fits-wide :
      (k seg_type : ℕ) (bs : List ℕ)
      → length bs + 2 ≤ k
      → length bs % 2 ≡ 0
      → Fits ctl k (le8 seg_type ++ (pad_bytes ctl ++ bs))
  Fits-wide k seg_type bs h e = elim (Bool-cases (packed ctl)) [
    | inl q ↦ rw q (record { bound = omega arith; even = λ f. cc })
    | inr q ↦ rw q (record { bound = omega arith; even = λ _. omega arith })
  ]

  Fits-segment : (seg_type v : ℕ) → Fits ctl 6 (segment_bytes ctl seg_type v)
  Fits-segment seg_type v =
      Fits-if (ltb v 256) (record { bound = omega arith; even = λ _. refl })
        (Fits-if (ltb v 65536) (Fits-wide 6 (bit_or seg_type 1) (le16 v) (omega arith) refl)
          (Fits-wide 6 (bit_or seg_type 2) (le32 v) (omega arith) refl))

  Fits-opt : (b : Bool) (seg_type v : ℕ) → Fits ctl 6 (opt_segment b ctl seg_type v)
  Fits-opt b seg_type v = Fits-if b (Fits-segment seg_type v) Fits-none

Fits-padded : (ctl k : ℕ) (bs : List ℕ) → length bs < k → Fits ctl k (padded bs)
Fits-padded ctl k bs h = elim (Bool-cases (length bs % 2 == 1)) [
  | inl e ↦ rw e (record {
    bound = omega (arith, length-append bs (le8 0));
    even = λ _. omega (arith, length-append bs (le8 0), (==_iff (length bs % 2) 1).0 e);
  })
  | inr e ↦ rw (e, append-nil bs) (record { bound = omega arith; even = λ _. ground (arith, e) })
]

module _ (p : AppPath) (ctl : ℕ) where
  Fits-symbol : Fits ctl (length p.tag + 3) (symbol_bytes p.tag)
  Fits-symbol =
      Fits-padded ctl (length p.tag + 3) (le8 ansi_symbol ++ (le8 (length p.tag) ++ p.tag))
        (omega arith)

  Fits-members : Fits ctl (6 + (6 + 6)) (member_bytes p ctl)
  Fits-members = Fits-append (Fits-opt (has member1 p) member_segment (get member1 p)) (
      Fits-append (Fits-opt (has member1 p && has member2 p) member_segment (get member2 p)) (
        Fits-opt (has member1 p && (has member2 p && has member3 p)) member_segment
          (get member3 p)))

  Fits-symbolic : Fits ctl (length p.tag + 3 + (6 + (6 + (6 + 6)))) (symbolic_bytes p ctl)
  Fits-symbolic =
      Fits-append Fits-symbol
        (Fits-append (Fits-opt (has conn_pt p) conn_pt_segment (get conn_pt p)) Fits-members)

  Fits-class_bytes : Fits ctl 6 (class_bytes p ctl)
  Fits-class_bytes =
      Fits-opt (has class_id p && not (omits_class ctl)) class_segment (get class_id p)

  Fits-attribute : Fits ctl 6 (attribute_bytes p ctl)
  Fits-attribute = Fits-opt (has attribute p) attribute_segment (get attribute p)

  Fits-assembly : Fits ctl (6 + (6 + 6)) (assembly_path_bytes p ctl)
  Fits-assembly = Fits-append Fits-class_bytes (
      Fits-append
        (Fits-if (has instance_id p && not (omits_instance ctl))
          (Fits-segment instance_segment (get instance_id p))
          (Fits-opt (has conn_pt p && not (omits_conn_pt ctl)) conn_pt_segment (get conn_pt p)))
        Fits-attribute)

  Fits-class : Fits ctl (6 + (6 + 6)) (class_path_bytes p ctl)
  Fits-class = Fits-append Fits-class_bytes (
      Fits-append
        (Fits-opt (has instance_id p && not (omits_instance ctl)) instance_segment
          (get instance_id p))
        (Fits-if (not (has conn_pt p)) Fits-attribute
          (Fits-opt (has conn_pt p) conn_pt_segment (get conn_pt p))))

Fits-mono : {ctl j k : ℕ} {bs : List ℕ} → j ≤ k → Fits ctl j bs → Fits ctl k bs
Fits-mono h f = record { bound = omega arith; even = f.even }

Fits-path : (p : AppPath) (ctl : ℕ) → length p.tag < tag_size → Fits ctl 68 (path_bytes p ctl)
Fits-path p ctl h = Fits-if p.has_symbol (Fits-mono (omega arith) (Fits-symbolic p ctl)) (
    Fits-if (get class_id p == assembly_class) (Fits-mono (omega arith) (Fits-assembly p ctl))
      (Fits-mono (omega arith) (Fits-class p ctl)))

-- SerializedCount() of a path whose symbol fits its field never overruns its buffer of 200 bytes, is
-- the number of bytes that Serialize() appends, is at most 68, and is even for a padded path.
pub serialized_count_lem :
    (p : AppPath) (ctl : ℕ)
    → length p.tag < tag_size
    → (serialized_count p ctl ≡ ok (length (path_bytes p ctl)))
      × (length (path_bytes p ctl) ≤ 68)
      × (packed ctl ≡ false → length (path_bytes p ctl) % 2 ≡ 0)
unfolding serialized_count
serialized_count_lem p ctl h = (
  rw (serialize_lem p ctl stack_buf, append_fits (path_bytes p ctl) stack_buf roomy)
      (ap ok (written-store (path_bytes p ctl) stack_buf)),
  fits.bound,
  fits.even,
)
  where
    fits : Fits ctl 68 (path_bytes p ctl)
    fits = Fits-path p ctl h

    roomy : length (path_bytes p ctl) ≤ 200
    roomy = omega (arith, fits.bound)
