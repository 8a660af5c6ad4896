-- ===== src/Conn/Count.antt =====
-- SerializedCount() of ConnectionPath and ConnectionData of cip/cipconnection.cc. The first serializes to a
-- buffer of 128 bytes, and measures; the second counts the path even where the flag leaves it out.
use cipster.Base.{
  ℕ, ◌+◌, ◌≡◌, refl, length, Bool-cases, inl, inr, [], replicate, if◌then◌else◌, Result, ok, ◌>>=◌,
}
use cipster.Bytes.Writer.{Writer, written}
use cipster.Epath.Flags.{is_forward_open, is_forward_close}
use cipster.Conn.Params.{Ncp, ncp_count}
use cipster.Conn.Path.{ConnPath, serialize_path}
use cipster.Conn.Data.{ConnData}
use cipster.Conn.Data.RoundTrip.{open_bytes}

abbrev path_buf : Writer
path_buf = record { before = []; after = replicate 128 0 }

-- ConnectionPath::SerializedCount().
unfoldable serialized_count_path : ConnPath → ℕ → Result ℕ
unfolding serialize_path
serialized_count_path p ctl = do out ← serialize_path p ctl path_buf; ok (written path_buf out)

-- ConnectionData::SerializedCount().
unfoldable serialized_count_data : ConnData → ℕ → Result ℕ
unfolding serialized_count_path
serialized_count_data d ctl =
    let path = serialized_count_path d.conn_path ctl in
    let open_count = (do
      n ← path
      ok (31 + ncp_count d.consuming.ncp + ncp_count d.producing.ncp + 1 + n)) in
    let close_count = (do n ← path; ok (12 + n)) in
    do
      a ← if is_forward_open ctl then open_count else ok 0
      b ← if is_forward_close ctl then close_count else ok 0
      ok (a + b)

-- The fixed part of a forward open request has the bytes that are counted for it.
length-open_bytes :
    (d : ConnData)
    → length (open_bytes d) ≡ 31 + ncp_count d.consuming.ncp + ncp_count d.producing.ncp
length-open_bytes d = elim (Bool-cases (Ncp.not_large d.consuming.ncp)) [
  | inl c ↦ elim (Bool-cases (Ncp.not_large d.producing.ncp)) [
    | inl p ↦ rw (c, p) refl
    | inr p ↦ rw (c, p) refl
  ]
  | inr c ↦ elim (Bool-cases (Ncp.not_large d.producing.ncp)) [
    | inl p ↦ rw (c, p) refl
    | inr p ↦ rw (c, p) refl
  ]
]
