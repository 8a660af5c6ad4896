-- ===== src/Epath/AppPath/Segments.antt =====
-- What the loop over the logical segments reads of the bytes of a logical path.
use cipster.Base.{
  ℕ, ◌≡◌, inl, inr, refl, ap, ◌∙◌, arith, ◌++◌, Bool, true, false, ◌==◌, if◌then◌else◌, Bool-cases,
  Result, ok,
}
use cipster.Bytes.Reader.{Reader}
use cipster.Epath.Segment.{segment_bytes}
use cipster.Epath.AppPath.{
  AppPath, attribute, conn_pt, instance_id, class_id, has, get, set_stuff, clear, logical_end,
  assembly_class,
}
use cipster.Epath.AppPath.Deserialize.{logical_loop, assembly_boundary}
use cipster.Epath.AppPath.Boundary.{Ends, segment_of, take_optional, logical_loop_stops}
use cipster.Epath.AppPath.Flat.{
  IsLogicalPath, last_rank, and_false, and_and_false, assoc_four, instance_part, conn_pt_part,
  attribute_part, flat_bytes,
}

module _ (p self : AppPath) where
  unfoldable pub read_path : Bool → Bool → Bool → AppPath
  read_path i c a = record {
    pbits = record {
      attribute_slot = a;
      conn_pt_slot = c;
      instance_slot = i;
      class_slot = true;
      member1_slot = false;
      member2_slot = false;
      member3_slot = false;
    };
    has_symbol = false;
    stuff = record self.stuff {
      class_slot = get class_id p;
      instance_slot = if i then get instance_id p else self.stuff.instance_slot;
      conn_pt_slot = if c then get conn_pt p else self.stuff.conn_pt_slot;
      attribute_slot = if a then get attribute p else self.stuff.attribute_slot;
    };
    tag = self.tag;
  }

  abbrev after_class : AppPath
  after_class = read_path false false false

  abbrev after_instance : AppPath
  after_instance = read_path (has instance_id p) false false

  abbrev after_conn_pt : AppPath
  after_conn_pt = read_path (has instance_id p) (has conn_pt p) false

  abbrev pub after_attribute : AppPath
  after_attribute = read_path (has instance_id p) (has conn_pt p) (has attribute p)

  read_class : set_stuff class_id (get class_id p) (clear self) ≡ after_class
  unfolding read_path
  read_class = refl

  read_instance :
      (b : Bool)
      → (if b then set_stuff instance_id (get instance_id p) after_class else after_class)
        ≡ read_path b false false
  unfolding read_path
  read_instance true = refl
  read_instance false = refl

  read_conn_pt :
      (i b : Bool)
      → (if b
          then set_stuff conn_pt (get conn_pt p) (read_path i false false)
          else read_path i false false)
        ≡ read_path i b false
  unfolding read_path
  read_conn_pt i true = refl
  read_conn_pt i false = refl

  read_attribute :
      (i c b : Bool)
      → (if b
          then set_stuff attribute (get attribute p) (read_path i c false)
          else read_path i c false)
        ≡ read_path i c b
  unfolding read_path
  read_attribute i c true = refl
  read_attribute i c false = refl

  rank_instance : ℕ
  rank_instance = if has instance_id p then 2 else 3

  rank_conn_pt : ℕ
  unfolding rank_instance
  rank_conn_pt = if has conn_pt p then 1 else rank_instance

  no_boundary :
      IsLogicalPath p
      → has conn_pt p ≡ true
      → assembly_boundary after_instance rank_instance conn_pt ≡ false
  unfolding rank_instance read_path
  no_boundary l h = elim (Bool-cases (has instance_id p)) [
    | inl i ↦ elim (Bool-cases (get class_id p == assembly_class)) [
      | inl assembly ↦ ground (arith, l.one_point assembly)
      | inr other ↦ rw (i, other)
    ]
    | inr n ↦ rw (n, and_false (get class_id p == assembly_class))
  ]

  pub read_segments :
      (ctl : ℕ) (rest : Reader)
      → IsLogicalPath p
      → Ends (last_rank p) rest
      → logical_loop 5 ctl logical_end (flat_bytes p ctl ++ rest) (clear self)
        ≡ ok (after_attribute, (last_rank p, rest))
  unfolding rank_conn_pt
  read_segments ctl rest l ends =
      ap (λ (bs : Reader). logical_loop 5 ctl logical_end bs (clear self))
        (assoc_four (segment_bytes ctl (segment_of class_id) (get class_id p)) (instance_part p ctl)
          (conn_pt_part p ctl) (attribute_part p ctl) rest)
      ∙ take_optional true class_id ctl logical_end (get class_id p)
          (instance_part p ctl ++ (conn_pt_part p ctl ++ (attribute_part p ctl ++ rest)))
          (clear self) (omega arith) (omega arith) l.small_class (λ _. refl) (λ _. omega arith)
      ∙ ap (goes 3 (instance_part p ctl ++ (conn_pt_part p ctl ++ (attribute_part p ctl ++ rest))))
          read_class
      ∙ take_optional (has instance_id p) instance_id ctl 3 (get instance_id p)
          (conn_pt_part p ctl ++ (attribute_part p ctl ++ rest)) after_class (omega arith)
          (omega arith) l.small_instance
          (λ _. and_false (get class_id after_class == assembly_class)) (λ _. omega arith)
      ∙ ap (goes rank_instance (conn_pt_part p ctl ++ (attribute_part p ctl ++ rest)))
          (read_instance (has instance_id p))
      ∙ take_optional (has conn_pt p) conn_pt ctl rank_instance (get conn_pt p)
          (attribute_part p ctl ++ rest) after_instance (omega arith) (ground arith) l.small_conn_pt
          (no_boundary l) (λ _. ground arith)
      ∙ ap (goes rank_conn_pt (attribute_part p ctl ++ rest))
          (read_conn_pt (has instance_id p) (has conn_pt p))
      ∙ take_optional (has attribute p) attribute ctl rank_conn_pt (get attribute p) rest
          after_conn_pt (omega arith) (ground arith) l.small_attribute
          (λ _. and_and_false (get class_id after_conn_pt == assembly_class) (rank_conn_pt == 2))
          (λ _. ground arith)
      ∙ ap (goes (last_rank p) rest)
          (read_attribute (has instance_id p) (has conn_pt p) (has attribute p))
      ∙ logical_loop_stops 4 ctl (last_rank p) rest after_attribute ends
    where
      goes : ℕ → Reader → AppPath → Result (AppPath × (ℕ × Reader))
      goes last r q = logical_loop 5 ctl last r q

-- No symbol stands where a class segment does.
