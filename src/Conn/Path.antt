-- ===== src/Conn/Path.antt =====
-- class ConnectionPath of cip/cipconnection.h and cip/cipconnection.cc: the port segments, up to three
-- application paths and a data segment of a forward open request.
use cipster.Base.{
  ℕ, ◌%◌, ◌==◌, [], ◌∷◌, Bool, not, ◌&&◌, ◌||◌, Option, none, some, if◌then◌else◌, Result, ok,
  throws, range_error, runtime_error, ◌>>=◌,
}
use cipster.Bytes.Writer.{Writer}
use cipster.Bytes.Reader.{Reader, size, next}
use cipster.Epath.Flags.{uncompressed, omit_class, omit_instance, omit_conn_pt}
use cipster.Epath.Group.{Group, clear_group, deserialize_group, serialize_group}
use cipster.Epath.AppPath.{
  AppPath, attribute, conn_pt, instance_id, class_id, has, get, has_any, clear, blank,
}
use cipster.Epath.AppPath.Serialize.{serialize}
use cipster.Epath.AppPath.Deserialize.{deserialize}
use cipster.Epath.DataSegment.{DataSegment, no_data, deserialize_data, serialize_data}

-- An index into `app_path[]`.
pub data Index : Type 0 where
  first second third : Index

-- `none` is the index -1.
pub record ConnPath : Type 0 where
  pub port_segs : Group
  pub app_path1 : AppPath
  pub app_path2 : AppPath
  pub app_path3 : AppPath
  pub data_seg : DataSegment
  pub config_index : Option Index
  pub consuming_index : Option Index
  pub producing_index : Option Index

abbrev pub clear_path : ConnPath → ConnPath
clear_path p = record p {
  port_segs = clear_group p.port_segs;
  app_path1 = clear p.app_path1;
  app_path2 = clear p.app_path2;
  app_path3 = clear p.app_path3;
  data_seg = no_data;
}

-- `app_path[index]`, or HasAny_No.
abbrev pub path_at : Option Index → ConnPath → AppPath
path_at none p = blank
path_at (some first) p = p.app_path1
path_at (some second) p = p.app_path2
path_at (some third) p = p.app_path3

abbrev pub config_path : ConnPath → AppPath
config_path p = path_at p.config_index p

abbrev pub consuming_path : ConnPath → AppPath
consuming_path p = path_at p.consuming_index p

abbrev pub producing_path : ConnPath → AppPath
producing_path p = path_at p.producing_index p

unfoldable pub assign_app_paths : Option Index → Option Index → Option Index → ConnPath → ConnPath
assign_app_paths config consuming producing p = record p {
  config_index = config;
  consuming_index = consuming;
  producing_index = producing;
}

-- `if( in.size() ) in += path.DeserializeAppPath( in, previous, aCtl )`.
unfoldable pub next_path : ℕ → Option AppPath → AppPath → Reader → Result (AppPath × Reader)
unfolding deserialize
next_path ctl previous self [] = ok (self, [])
next_path ctl previous self (b ∷ r) = deserialize ctl previous (b ∷ r) self

unfoldable pub next_data : Reader → Result (DataSegment × Reader)
unfolding deserialize_data
next_data [] = ok (no_data, [])
next_data (b ∷ r) = deserialize_data (b ∷ r)

-- The application paths and the data segment, behind the port segments.
unfoldable pub read_paths : ℕ → ConnPath → Reader → Result (ConnPath × Reader)
unfolding next_path next_data
read_paths ctl p r = do
  (a₁, r₁) ← next_path ctl none p.app_path1 r
  (a₂, r₂) ← next_path ctl (some a₁) p.app_path2 r₁
  (a₃, r₃) ← next_path ctl (some a₂) p.app_path3 r₂
  (d, r₄) ← next_data r₃
  ok (record p { app_path1 = a₁; app_path2 = a₂; app_path3 = a₃; data_seg = d }, r₄)

-- The catch clauses: a range error comes out as a runtime error.
abbrev pub rethrow {ℓ} : {A : Type ℓ} → Result A → Result A
rethrow (ok a) = ok a
rethrow (throws range_error) = throws runtime_error
rethrow (throws e) = throws e

-- What may be left: nothing, or one pad byte of an input of even size.
unfoldable pub take_pad : Reader → ConnPath → Reader → Result (ConnPath × Reader)
unfolding next
take_pad input p [] = ok (p, [])
take_pad input p (b ∷ r) =
    if (size (b ∷ r) == 1) && (size input % 2 == 0)
    then (do rest ← next (b ∷ r); ok (p, rest))
    else throws runtime_error

unfoldable pub read_behind_group : ℕ → Reader → ConnPath → Reader → Result (ConnPath × Reader)
unfolding read_paths take_pad
read_behind_group ctl input p r = do (q, rest) ← rethrow (read_paths ctl p r); take_pad input q rest

abbrev pub behind_group :
    ℕ → Reader → ConnPath → Option (Group × Reader) → Result (Option (ConnPath × Reader))
behind_group ctl input p none = ok none
behind_group ctl input p (some (g, r)) = do
  read ← read_behind_group ctl input (record p { port_segs = g }) r
  ok (some read)

-- Deserialize(). The result is `none` where the port segments give a negative count: it is added to
-- the reader, whose pointer then stands outside of its buffer.
unfoldable pub deserialize_path : ℕ → Reader → ConnPath → Result (Option (ConnPath × Reader))
unfolding deserialize_group read_behind_group
deserialize_path ctl input self =
    let p = clear_path self in
    do segs ← rethrow (deserialize_group ctl input p.port_segs); behind_group ctl input p segs

-- The segments that a path leaves out behind the one before it.
unfoldable pub omissions : ℕ → Option AppPath → AppPath → ℕ
unfolding omit_class omit_instance omit_conn_pt
omissions ctl none cur = ctl
omissions ctl (some prev) cur =
    let same_class = get class_id prev == get class_id cur in
    let same_instance =
      (has conn_pt cur || has attribute cur) && (get instance_id prev == get instance_id cur) in
    let same_conn_pt = has attribute cur && (get conn_pt prev == get conn_pt cur) in
    let c₁ = if same_class then omit_class ctl else ctl in
    let c₂ = if same_instance then omit_instance c₁ else c₁ in
    if same_conn_pt then omit_conn_pt c₂ else c₂

-- One round of the loop over the paths: the path before, if any, and the writer.
unfoldable pub put_path : ℕ → AppPath → Option AppPath × Writer → Result (Option AppPath × Writer)
unfolding omissions serialize
put_path ctl cur (prev, w) =
    if not (has_any cur)
    then ok (prev, w)
    else (do w₁ ← serialize cur (omissions ctl prev cur) w; ok (some cur, w₁))

unfoldable pub put_compressed : ConnPath → ℕ → Writer → Result Writer
unfolding put_path
put_compressed p ctl w = do
  s₁ ← put_path ctl p.app_path1 (none, w)
  s₂ ← put_path ctl p.app_path2 s₁
  s₃ ← put_path ctl p.app_path3 s₂
  ok s₃.1

unfoldable pub put_if : AppPath → ℕ → Writer → Result Writer
unfolding serialize
put_if a ctl w = if has_any a then serialize a ctl w else ok w

unfoldable pub put_uncompressed : ConnPath → ℕ → Writer → Result Writer
unfolding put_if
put_uncompressed p ctl w = do
  w₁ ← put_if p.app_path1 ctl w
  w₂ ← put_if p.app_path2 ctl w₁
  put_if p.app_path3 ctl w₂

abbrev pub has_segments : Group → Bool
has_segments g = g.has_key || (g.has_pit_usecs || (g.has_pit_msecs || g.has_port))

-- Serialize().
unfoldable pub serialize_path : ConnPath → ℕ → Writer → Result Writer
unfolding serialize_group put_compressed put_uncompressed serialize_data
serialize_path p ctl w = do
  w₁ ← if has_segments p.port_segs then serialize_group p.port_segs ctl w else ok w
  w₂ ← if uncompressed ctl then put_uncompressed p ctl w₁ else put_compressed p ctl w₁
  if p.data_seg.has_data then serialize_data p.data_seg w₂ else ok w₂
