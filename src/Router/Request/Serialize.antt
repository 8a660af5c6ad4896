-- ===== src/Router/Request/Serialize.antt =====
-- CipMessageRouterRequest::Serialize() and SerializedCount().
use cipster.Base.{ℕ, ◌+◌, ◌/◌, ◌++◌, length, take, drop, Result, ok, ◌>>=◌}
use cipster.Bytes.Writer.{Writer, written, put8, append, advance}
use cipster.Epath.AppPath.{AppPath}
use cipster.Epath.AppPath.Serialize.{serialize, serialized_count}
use cipster.Router.Request.{Request}

-- The place of `out` in the memory as `filled`, a writer further on, has left it.
abbrev pub resume : Writer → Writer → Writer
resume out filled = record {
  before = take (length out.before) (filled.before ++ filled.after);
  after = drop (length out.before) (filled.before ++ filled.after);
}

-- The path is written behind the byte of its word count, which is set afterwards.
unfoldable pub put_path : AppPath → ℕ → Writer → Result Writer
unfolding serialize
put_path p ctl out = do
  start ← advance 1 out
  filled ← serialize p ctl start
  counted ← put8 (written start filled / 2) (resume out filled)
  advance (written start filled) counted

unfoldable pub serialize_request : Request → ℕ → Writer → Result Writer
unfolding put_path
serialize_request q ctl w = do
  w₁ ← put8 q.service w
  w₂ ← put_path q.path ctl w₁
  append q.data_range w₂

unfoldable pub serialized_count_request : Request → ℕ → Result ℕ
unfolding serialized_count
serialized_count_request q ctl = do
  n ← serialized_count q.path ctl
  ok (2 + n + length q.data_range)
