-- ===== src/Epath/AppPath/Encode.antt =====
-- The bytes of an application path, by the grammar that the comments of cip/cipepath.cc quote, and
-- what CipAppPath::Serialize() has to do with them.
use cipster.Base.{
  ℕ, ◌%◌, ◌≡◌, sym, ◌∙◌, arith, List, [], ◌++◌, Bool, not, ◌&&◌, ◌==◌, if◌then◌else◌, length,
  length-append, Result, ◌>>=◌,
}
use native.Mathlib.Decide.{dec_lt}
use cipster.Bytes.Writer.{Writer, capacity, written, store, le8, append}
use cipster.Bytes.Append.{
  Puts, chain, choose, append_none, Puts-append, put8-append, append_fits, append_overruns,
  append_after_store,
}
use cipster.Epath.Flags.{omits_class, omits_instance, omits_conn_pt}
use cipster.Epath.Logical.{
  class_segment, instance_segment, member_segment, conn_pt_segment, attribute_segment,
}
use cipster.Epath.Segment.{segment_bytes, serialize_logical-append}
use cipster.Epath.AppPath.{
  AppPath, attribute, conn_pt, instance_id, class_id, member1, member2, member3, has, get,
  assembly_class,
}
use cipster.Epath.AppPath.Serialize.{
  pad_to_even, segment_if, ansi_symbol, serialize_members, serialize_tag, serialize_symbol,
  serialize_symbolic, serialize_assembly, serialize_class, serialize,
}

-- An optional segment.
abbrev pub opt_segment : Bool → ℕ → ℕ → ℕ → List ℕ
opt_segment b ctl seg_type v = if b then segment_bytes ctl seg_type v else []

-- A zero that makes the count of the bytes even.
abbrev pub padded : List ℕ → List ℕ
padded bs = bs ++ (if length bs % 2 == 1 then le8 0 else [])

abbrev pub member_bytes : AppPath → ℕ → List ℕ
member_bytes p ctl =
    opt_segment (has member1 p) ctl member_segment (get member1 p)
    ++ (opt_segment (has member1 p && has member2 p) ctl member_segment (get member2 p)
        ++ opt_segment (has member1 p && (has member2 p && has member3 p)) ctl member_segment
            (get member3 p))

abbrev pub symbol_bytes : List ℕ → List ℕ
symbol_bytes tag = padded (le8 ansi_symbol ++ (le8 (length tag) ++ tag))

-- symbolic_application_path.
abbrev pub symbolic_bytes : AppPath → ℕ → List ℕ
symbolic_bytes p ctl =
    symbol_bytes p.tag
    ++ (opt_segment (has conn_pt p) ctl conn_pt_segment (get conn_pt p) ++ member_bytes p ctl)

abbrev pub class_bytes : AppPath → ℕ → List ℕ
class_bytes p ctl =
    opt_segment (has class_id p && not (omits_class ctl)) ctl class_segment (get class_id p)

abbrev pub attribute_bytes : AppPath → ℕ → List ℕ
attribute_bytes p ctl = opt_segment (has attribute p) ctl attribute_segment (get attribute p)

-- assembly_class_application_path.
abbrev pub assembly_path_bytes : AppPath → ℕ → List ℕ
assembly_path_bytes p ctl =
    class_bytes p ctl
    ++ ((if has instance_id p && not (omits_instance ctl)
          then segment_bytes ctl instance_segment (get instance_id p)
          else opt_segment (has conn_pt p && not (omits_conn_pt ctl)) ctl conn_pt_segment
              (get conn_pt p))
        ++ attribute_bytes p ctl)

-- class_application_path.
abbrev pub class_path_bytes : AppPath → ℕ → List ℕ
class_path_bytes p ctl =
    class_bytes p ctl
    ++ (opt_segment (has instance_id p && not (omits_instance ctl)) ctl instance_segment
          (get instance_id p)
        ++ (if not (has conn_pt p)
            then attribute_bytes p ctl
            else opt_segment (has conn_pt p) ctl conn_pt_segment (get conn_pt p)))

abbrev pub path_bytes : AppPath → ℕ → List ℕ
path_bytes p ctl =
    if p.has_symbol
    then symbolic_bytes p ctl
    else if get class_id p == assembly_class
    then assembly_path_bytes p ctl
    else class_path_bytes p ctl

pub written-store : (bs : List ℕ) (w : Writer) → written w (store bs w) ≡ length bs
unfolding store
written-store bs w = omega (arith, length-append w.before bs)

pad_to_even-store :
    (bs : List ℕ) (w : Writer)
    → pad_to_even w (store bs w) ≡ append (if length bs % 2 == 1 then le8 0 else []) (store bs w)
unfolding pad_to_even
pad_to_even-store bs w =
    rw (written-store bs w)
      ((choose (length bs % 2 == 1) (put8-append 0) append_none).puts (store bs w))

-- What is put, and the pad byte behind it.
pub Puts-padded :
    {f : Writer → Result Writer} {bs : List ℕ}
    → Puts f bs
    → Puts (λ w. f w >>= pad_to_even w) (padded bs)
Puts-padded {f = f} {bs = bs} p = record {
  puts = λ w. rw (p.puts w) (elim (dec_lt (capacity w) (length bs)) [
    | yes over ↦ rw (append_overruns bs w over) (
        sym (
          append_overruns (padded bs) w
            (omega (arith, length-append bs (if length bs % 2 == 1 then le8 0 else [])))))
    | no fits ↦ rw (append_fits bs w (omega arith)) (
        pad_to_even-store bs w
        ∙ append_after_store bs (if length bs % 2 == 1 then le8 0 else []) w (omega arith))
  ]);
}

segment_if-append :
    (b : Bool) (ctl seg_type v : ℕ)
    → Puts (segment_if b ctl seg_type v) (opt_segment b ctl seg_type v)
unfolding segment_if
segment_if-append b ctl seg_type v = choose b (serialize_logical-append ctl seg_type v) append_none

module _ (p : AppPath) (ctl : ℕ) where
  serialize_members-append : Puts (serialize_members p ctl) (member_bytes p ctl)
  unfolding serialize_members
  serialize_members-append =
      chain (segment_if-append (has member1 p) ctl member_segment (get member1 p)) (
        chain
          (segment_if-append (has member1 p && has member2 p) ctl member_segment (get member2 p))
          (segment_if-append (has member1 p && (has member2 p && has member3 p)) ctl member_segment
            (get member3 p)))

  serialize_tag-append : Puts (serialize_tag p) (le8 ansi_symbol ++ (le8 (length p.tag) ++ p.tag))
  unfolding serialize_tag
  serialize_tag-append =
      chain (put8-append ansi_symbol) (chain (put8-append (length p.tag)) (Puts-append p.tag))

  serialize_symbol-append : Puts (serialize_symbol p) (symbol_bytes p.tag)
  unfolding serialize_symbol
  serialize_symbol-append = Puts-padded serialize_tag-append

  serialize_symbolic-append : Puts (serialize_symbolic p ctl) (symbolic_bytes p ctl)
  unfolding serialize_symbolic
  serialize_symbolic-append = chain serialize_symbol-append (
      chain (segment_if-append (has conn_pt p) ctl conn_pt_segment (get conn_pt p))
        serialize_members-append)

  class-append :
      Puts
        (segment_if (has class_id p && not (omits_class ctl)) ctl class_segment (get class_id p))
        (class_bytes p ctl)
  class-append = segment_if-append _ ctl class_segment (get class_id p)

  attribute-append :
      Puts
        (segment_if (has attribute p) ctl attribute_segment (get attribute p))
        (attribute_bytes p ctl)
  attribute-append = segment_if-append (has attribute p) ctl attribute_segment (get attribute p)

  serialize_assembly-append : Puts (serialize_assembly p ctl) (assembly_path_bytes p ctl)
  unfolding serialize_assembly
  serialize_assembly-append = chain class-append (
      chain
        (choose (has instance_id p && not (omits_instance ctl))
          (serialize_logical-append ctl instance_segment (get instance_id p))
          (segment_if-append (has conn_pt p && not (omits_conn_pt ctl)) ctl conn_pt_segment
            (get conn_pt p)))
        attribute-append)

  serialize_class-append : Puts (serialize_class p ctl) (class_path_bytes p ctl)
  unfolding serialize_class
  serialize_class-append = chain class-append (
      chain
        (segment_if-append (has instance_id p && not (omits_instance ctl)) ctl instance_segment
          (get instance_id p))
        (choose (not (has conn_pt p)) attribute-append
          (segment_if-append (has conn_pt p) ctl conn_pt_segment (get conn_pt p))))

  pub serialize-append : Puts (serialize p ctl) (path_bytes p ctl)
  unfolding serialize
  serialize-append =
      choose p.has_symbol serialize_symbolic-append
        (choose (get class_id p == assembly_class) serialize_assembly-append serialize_class-append)

-- Serialize() appends the bytes of the path that the grammar gives, in one run, or overruns where
-- they do not fit.
pub serialize_lem :
    (p : AppPath) (ctl : ℕ) (w : Writer) → serialize p ctl w ≡ append (path_bytes p ctl) w
serialize_lem p ctl w = (serialize-append p ctl).puts w
