-- ===== src/Epath/AppPath/RoundTrip.antt =====
-- DeserializeAppPath() reads back the logical paths that Serialize() writes.
use cipster.Base.{
  ℕ, ◌≡◌, inl, inr, refl, arith, List, ◌++◌, append_assoc, Bool, true, false, ◌==◌, ltb, le→ltb,
  if_same, Bool-cases, none, ok,
}
use cipster.Bytes.Reader.{Reader, consumed}
use cipster.Bytes.Writer.{Writer}
use cipster.Epath.Logical.{class_segment}
use cipster.Epath.Segment.{segment_bytes}
use cipster.Epath.AppPath.{
  AppPath, attribute, conn_pt, instance_id, class_id, has, get, clear, logical_end, same_path,
}
use cipster.Bytes.Append.{fresh, Puts-before}
use cipster.Epath.AppPath.Serialize.{serialize}
use cipster.Epath.AppPath.Encode.{path_bytes, serialize-append}
use cipster.Epath.AppPath.Deserialize.{deserialize, deserialize_symbolic, logical_loop}
use cipster.Epath.AppPath.Boundary.{Ends, segment_of}
use cipster.Epath.AppPath.Segments.{read_path, after_attribute, read_segments}
use cipster.Epath.AppPath.Flat.{
  IsPlain, IsLogicalPath, last_rank, instance_part, conn_pt_part, attribute_part, flat_bytes,
  path_bytes-flat,
}

not_symbolic :
    (ctl v : ℕ) (r : Reader) (p : AppPath)
    → deserialize_symbolic (segment_bytes ctl class_segment v ++ r) p
      ≡ ok (p, segment_bytes ctl class_segment v ++ r)
unfolding deserialize_symbolic
not_symbolic ctl v r p = elim (Bool-cases (ltb v 256)) [
  | inl e ↦ rw e
  | inr e ↦ rw e (elim (Bool-cases (ltb v 65536)) [ inl f ↦ rw f | inr f ↦ rw f ])
]

eq_self : (v : ℕ) → (v == v) ≡ true
eq_self v = ground arith

not_symbolic_flat :
    (p : AppPath) (ctl : ℕ) (rest : Reader) (self : AppPath)
    → deserialize_symbolic (flat_bytes p ctl ++ rest) (clear self)
      ≡ ok (clear self, flat_bytes p ctl ++ rest)
not_symbolic_flat p ctl rest self =
    rw
      (append_assoc (segment_bytes ctl (segment_of class_id) (get class_id p))
        (instance_part p ctl ++ (conn_pt_part p ctl ++ attribute_part p ctl)) rest)
      (not_symbolic ctl (get class_id p) _ (clear self))

read_path-same :
    (p self : AppPath) (i c a : Bool)
    → IsLogicalPath p
    → has instance_id p ≡ i
    → has conn_pt p ≡ c
    → has attribute p ≡ a
    → same_path (read_path p self i c a) p ≡ true
unfolding same_path read_path
read_path-same p self true true true l hi hc ha =
    rw (hi, hc, ha, l.has_class, l.no_symbol, l.no_member1, l.no_member2, l.no_member3)
      (simp eq_self)
read_path-same p self true true false l hi hc ha =
    rw (hi, hc, ha, l.has_class, l.no_symbol, l.no_member1, l.no_member2, l.no_member3)
      (simp eq_self)
read_path-same p self true false true l hi hc ha =
    rw (hi, hc, ha, l.has_class, l.no_symbol, l.no_member1, l.no_member2, l.no_member3)
      (simp eq_self)
read_path-same p self true false false l hi hc ha =
    rw (hi, hc, ha, l.has_class, l.no_symbol, l.no_member1, l.no_member2, l.no_member3)
      (simp eq_self)
read_path-same p self false true true l hi hc ha =
    rw (hi, hc, ha, l.has_class, l.no_symbol, l.no_member1, l.no_member2, l.no_member3)
      (simp eq_self)
read_path-same p self false true false l hi hc ha =
    rw (hi, hc, ha, l.has_class, l.no_symbol, l.no_member1, l.no_member2, l.no_member3)
      (simp eq_self)
read_path-same p self false false true l hi hc ha =
    rw (hi, hc, ha, l.has_class, l.no_symbol, l.no_member1, l.no_member2, l.no_member3)
      (simp eq_self)
read_path-same p self false false false l hi hc ha =
    rw (hi, hc, ha, l.has_class, l.no_symbol, l.no_member1, l.no_member2, l.no_member3)
      (simp eq_self)

deserialize_logical_path :
    (ctl last : ℕ) (bs rest : Reader) (self q : AppPath)
    → deserialize_symbolic bs (clear self) ≡ ok (clear self, bs)
    → logical_loop 5 ctl logical_end bs (clear self) ≡ ok (q, (last, rest))
    → deserialize ctl none bs self ≡ ok (q, rest)
unfolding deserialize
deserialize_logical_path ctl last bs rest self q d e =
    let none_taken : ltb 0 (consumed bs bs) ≡ false = le→ltb 0 (consumed bs bs) (omega arith) in
    rw (d, none_taken, e) (if_same (ltb 0 (consumed bs rest)) (ok (q, rest)))

pub deserialize-path_bytes :
    (p self : AppPath) (ctl : ℕ) (rest : Reader)
    → IsPlain ctl
    → IsLogicalPath p
    → Ends (last_rank p) rest
    → (q : AppPath) × (deserialize ctl none (path_bytes p ctl ++ rest) self ≡ ok (q, rest))
      × (same_path q p ≡ true)
deserialize-path_bytes p self ctl rest k l ends = (
  after_attribute p self,
  rw (path_bytes-flat p ctl k l) (
      deserialize_logical_path ctl (last_rank p) (flat_bytes p ctl ++ rest) rest self
        (after_attribute p self) (not_symbolic_flat p ctl rest self)
        (read_segments p self ctl rest l ends)),
  read_path-same p self _ _ _ l refl refl refl,
)

-- A logical path with values of at most 16 bits that Serialize() wrote without an overrun, padded or
-- packed, is read back from the bytes written, whatever stands behind them that is no further segment
-- of it: the path that is read is equal to the one written by operator==, and the reader stands behind
-- its bytes.
pub deserialize-serialize :
    (p self : AppPath) (ctl : ℕ) (rest : Reader) (room : List ℕ) (w : Writer)
    → IsPlain ctl
    → IsLogicalPath p
    → Ends (last_rank p) rest
    → serialize p ctl (fresh room) ≡ ok w
    → (q : AppPath) × (deserialize ctl none (w.before ++ rest) self ≡ ok (q, rest))
      × (same_path q p ≡ true)
deserialize-serialize p self ctl rest room w k l ends e =
    rw (Puts-before (serialize-append p ctl) room w e)
      (deserialize-path_bytes p self ctl rest k l ends)
