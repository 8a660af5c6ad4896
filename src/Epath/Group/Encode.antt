-- ===== src/Epath/Group/Encode.antt =====
-- The bytes of a segment group: the key, the network segments, and the port segment as the last.
use cipster.Base.{ℕ, ◌<◌, ◌≤◌, ◌≡◌, List, [], ◌++◌, le→ltb, if◌then◌else◌, length}
use cipster.Bytes.Writer.{Writer, le8, le32, append}
use cipster.Bytes.Append.{Puts, chain, choose, append_none, put8-append, put32-append}
use cipster.Epath.Port.Laws.{port_bytes, serialize_port-append}
use cipster.Epath.Key.Laws.{key_bytes, serialize_key-append}
use cipster.Epath.Group.{
  Group, get_pit_usecs, get_pit_msecs, put_usecs, put_msecs, serialize_group, msecs_segment,
  usecs_segment,
}

abbrev pub group_bytes : Group → ℕ → List ℕ
group_bytes g ctl =
    (if g.has_key then key_bytes g.key else [])
    ++ ((if g.has_pit_usecs then le8 usecs_segment ++ (le8 2 ++ le32 (get_pit_usecs g)) else [])
        ++ ((if g.has_pit_msecs then le8 msecs_segment ++ le8 (get_pit_msecs g) else [])
            ++ (if g.has_port then port_bytes g.port ctl else [])))

put_msecs-append :
    (g : Group)
    → get_pit_msecs g ≤ 255
    → Puts (put_msecs g) (le8 msecs_segment ++ le8 (get_pit_msecs g))
unfolding put_msecs
put_msecs-append g h = record {
  puts = λ w.
      rw (le→ltb 255 (get_pit_msecs g) h)
        ((chain (put8-append msecs_segment) (put8-append (get_pit_msecs g))).puts w);
}

put_usecs-append :
    (g : Group) → Puts (put_usecs g) (le8 usecs_segment ++ (le8 2 ++ le32 (get_pit_usecs g)))
unfolding put_usecs
put_usecs-append g =
    chain (put8-append usecs_segment) (chain (put8-append 2) (put32-append (get_pit_usecs g)))

-- A group with an inhibit time of at most 255 milliseconds and a link address of at most 255 bytes:
-- Serialize() appends the key, the inhibit time in microseconds, the one in milliseconds and the port
-- segment, those that the group has, in this order and in one run, or overruns where they do not fit.
serialize_group_lem :
    (g : Group) (ctl : ℕ) (w : Writer)
    → get_pit_msecs g ≤ 255
    → length g.port.link_address < 256
    → serialize_group g ctl w ≡ append (group_bytes g ctl) w
unfolding serialize_group
serialize_group_lem g ctl w h k =
    (chain (choose g.has_key (serialize_key-append g.key) append_none) (
        chain (choose g.has_pit_usecs (put_usecs-append g) append_none) (
          chain (choose g.has_pit_msecs (put_msecs-append g h) append_none)
            (choose g.has_port (serialize_port-append g.port ctl k) append_none)))).puts
      w
