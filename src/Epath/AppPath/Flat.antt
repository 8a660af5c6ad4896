-- ===== src/Epath/AppPath/Flat.antt =====
-- The paths that have a logical form, and their bytes as one run of optional segments.
use cipster.Base.{
  ℕ, ◌<◌, ◌≡◌, inl, inr, refl, sym, ap, List, [], ◌++◌, append-nil, append_assoc, Bool, true, false,
  not, ◌&&◌, ◌==◌, if◌then◌else◌, Bool-cases,
}
use cipster.Epath.Flags.{omits_class, omits_instance, omits_conn_pt}
use cipster.Epath.Segment.{segment_bytes}
use cipster.Epath.AppPath.{
  AppPath, attribute, conn_pt, instance_id, class_id, member1, member2, member3, has, get, slot,
  assembly_class,
}
use cipster.Epath.AppPath.Encode.{opt_segment, path_bytes}
use cipster.Epath.AppPath.Boundary.{segment_of}

-- No segment is left out.
pub record IsPlain (ctl : ℕ) : Type 0 where
  pub keeps_class : omits_class ctl ≡ false
  pub keeps_instance : omits_instance ctl ≡ false
  pub keeps_conn_pt : omits_conn_pt ctl ≡ false

-- A logical path that the grammar has a form for, with values of at most 16 bits.
pub record IsLogicalPath (p : AppPath) : Type 0 where
  pub no_symbol : p.has_symbol ≡ false
  pub no_member1 : has member1 p ≡ false
  pub no_member2 : has member2 p ≡ false
  pub no_member3 : has member3 p ≡ false
  pub has_class : has class_id p ≡ true
  pub one_point :
      (get class_id p == assembly_class) ≡ true → (has instance_id p && has conn_pt p) ≡ false
  pub one_item :
      (get class_id p == assembly_class) ≡ false → (has conn_pt p && has attribute p) ≡ false
  pub small_class : get class_id p < 65536
  pub small_instance : get instance_id p < 65536
  pub small_conn_pt : get conn_pt p < 65536
  pub small_attribute : get attribute p < 65536

-- The lowest level that the path has a segment of.
abbrev pub last_rank : AppPath → ℕ
last_rank p =
    if has attribute p then 0 else if has conn_pt p then 1 else if has instance_id p then 2 else 3

keep : (b o : Bool) → o ≡ false → (b && not o) ≡ b
keep true true h = cc
keep true false h = refl
keep false o h = refl

pub and_false : (b : Bool) → (b && false) ≡ false
and_false true = refl
and_false false = refl

pub and_and_false : (a b : Bool) → (a && (b && false)) ≡ false
and_and_false true b = and_false b
and_and_false false b = refl

pub assoc_four :
    (xs ys zs ts rest : List ℕ)
    → (xs ++ (ys ++ (zs ++ ts))) ++ rest ≡ xs ++ (ys ++ (zs ++ (ts ++ rest)))
assoc_four xs ys zs ts rest = simp append_assoc

-- An instance or a connection point, as a choice and as a run.
one_of :
    (i c : Bool) (xs ys zs : List ℕ)
    → (i && c) ≡ false
    → (if i then xs else (if c then ys else [])) ++ zs
      ≡ (if i then xs else []) ++ ((if c then ys else []) ++ zs)
one_of true true xs ys zs h = cc
one_of true false xs ys zs h = refl
one_of false c xs ys zs h = refl

item_of :
    (c a : Bool) (ys zs : List ℕ)
    → (c && a) ≡ false
    → (if not c then (if a then zs else []) else (if c then ys else []))
      ≡ (if c then ys else []) ++ (if a then zs else [])
item_of true true ys zs h = cc
item_of true false ys zs h = sym (append-nil ys)
item_of false a ys zs h = refl

module _ (p : AppPath) (ctl : ℕ) where
  abbrev pub instance_part : List ℕ
  instance_part = opt_segment (has instance_id p) ctl (segment_of instance_id) (get instance_id p)

  abbrev pub conn_pt_part : List ℕ
  conn_pt_part = opt_segment (has conn_pt p) ctl (segment_of conn_pt) (get conn_pt p)

  abbrev pub attribute_part : List ℕ
  attribute_part = opt_segment (has attribute p) ctl (segment_of attribute) (get attribute p)

  abbrev pub flat_bytes : List ℕ
  flat_bytes =
      segment_bytes ctl (segment_of class_id) (get class_id p)
      ++ (instance_part ++ (conn_pt_part ++ attribute_part))

  -- In a canonical path the segments stand in the order of their levels, whatever its class.
  pub path_bytes-flat : IsPlain ctl → IsLogicalPath p → path_bytes p ctl ≡ flat_bytes
  path_bytes-flat k l = elim (Bool-cases (get class_id p == assembly_class)) [
    | inl e ↦
        rw (l.no_symbol, e, kept_class, kept_instance, kept_conn_pt, l.has_class)
          (ap (◌++◌ (segment_bytes ctl (segment_of class_id) (slot class_id p.stuff)))
            (one_of (has instance_id p) (has conn_pt p) _ _ _ (l.one_point e)))
    | inr e ↦
        rw (l.no_symbol, e, kept_class, kept_instance, l.has_class)
          (ap
            (λ (t : List ℕ).
              segment_bytes ctl (segment_of class_id) (slot class_id p.stuff)
              ++ (opt_segment (has instance_id p) ctl (segment_of instance_id) (get instance_id p)
                  ++ t))
            (item_of (has conn_pt p) (has attribute p) _ _ (l.one_item e)))
  ]
    where
      kept_class : (has class_id p && not (omits_class ctl)) ≡ has class_id p
      kept_class = keep (has class_id p) (omits_class ctl) k.keeps_class

      kept_instance : (has instance_id p && not (omits_instance ctl)) ≡ has instance_id p
      kept_instance = keep (has instance_id p) (omits_instance ctl) k.keeps_instance

      kept_conn_pt : (has conn_pt p && not (omits_conn_pt ctl)) ≡ has conn_pt p
      kept_conn_pt = keep (has conn_pt p) (omits_conn_pt ctl) k.keeps_conn_pt

-- What the loop has filled in behind each of the four segments.
