-- ===== src/Conn/Data/RoundTrip.antt =====
-- The fixed part of the requests on the wire, which an originator writes and a target reads.
use cipster.Base.{
  ℕ, ◌^◌, ◌<◌, ◌≡◌, refl, sym, ap, ◌∙◌, List, [], ◌∷◌, ◌++◌, append_assoc, Bool, true, false, not,
  if◌then◌else◌, Result, ok, throws, ◌>>=◌,
}
use cipster.Bytes.Writer.{Writer, le8, le16, le32}
use cipster.Bytes.Reader.{Reader}
use cipster.Bytes.Append.{
  Puts, chain, choose, Puts-before, fresh, put8-append, put16-append, put32-append, fill-append,
}
use cipster.Bytes.RoundTrip.{advance-append, le8-value, le16-value, le32-value}
use cipster.Epath.Flags.{is_forward_open, is_forward_close, omits_path}
use cipster.Conn.Params.{Ncp, serialize_ncp, serialize_trigger}
use cipster.Conn.Data.{
  Triad, End, ConnData, get_ncp, deserialize_forward_open, deserialize_forward_close, put_triad,
  put_end, put_ticks, put_ids, put_open, put_close, serialize_conn_data,
}

abbrev triad_bytes : Triad → List ℕ
triad_bytes t = le16 t.serial_number ++ (le16 t.vendor_id ++ le32 t.originator_serial)

abbrev ncp_bytes : Ncp → List ℕ
ncp_bytes n = if n.not_large then le16 n.bits else le32 n.bits

abbrev end_bytes : End → List ℕ
end_bytes e = le32 e.rpi_usecs ++ ncp_bytes e.ncp

abbrev ticks_bytes : ConnData → List ℕ
ticks_bytes d = le8 d.priority_timetick ++ le8 d.timeout_ticks

abbrev id_bytes : ConnData → List ℕ
id_bytes d = le32 d.producing.connection_id ++ le32 d.consuming.connection_id

abbrev pub open_bytes : ConnData → List ℕ
open_bytes d =
    ticks_bytes d
    ++ (id_bytes d
        ++ (triad_bytes d.triad
            ++ (le8 d.multiplier_value
                ++ ((0 ∷ 0 ∷ 0 ∷ [])
                    ++ (end_bytes d.producing ++ (end_bytes d.consuming ++ le8 d.trigger))))))

put_triad-append : (t : Triad) → Puts (put_triad t) (triad_bytes t)
unfolding put_triad
put_triad-append t =
    chain (put16-append t.serial_number)
      (chain (put16-append t.vendor_id) (put32-append t.originator_serial))

serialize_ncp-append : (n : Ncp) → Puts (serialize_ncp n) (ncp_bytes n)
unfolding serialize_ncp
serialize_ncp-append n = choose n.not_large (put16-append n.bits) (put32-append n.bits)

put_end-append : (e : End) → Puts (put_end e) (end_bytes e)
unfolding put_end
put_end-append e = chain (put32-append e.rpi_usecs) (serialize_ncp-append e.ncp)

put_ticks-append : (d : ConnData) → Puts (put_ticks d) (ticks_bytes d)
unfolding put_ticks
put_ticks-append d = chain (put8-append d.priority_timetick) (put8-append d.timeout_ticks)

put_ids-append : (d : ConnData) → Puts (put_ids d) (id_bytes d)
unfolding put_ids
put_ids-append d =
    chain (put32-append d.producing.connection_id) (put32-append d.consuming.connection_id)

put_open-append : (d : ConnData) → Puts (put_open d) (open_bytes d)
unfolding put_open serialize_trigger
put_open-append d = chain (put_ticks-append d) (
    chain (put_ids-append d) (
      chain (put_triad-append d.triad) (
        chain (put8-append d.multiplier_value) (
          chain (fill-append 3 0) (
            chain (put_end-append d.producing)
              (chain (put_end-append d.consuming) (put8-append d.trigger)))))))

-- Fields that fit their places on the wire, and connection parameters of the request's form.
pub record IsWireEnd (is_large : Bool) (e : End) : Type 0 where
  pub rpi_fits : e.rpi_usecs < 2 ^ 32
  pub id_fits : e.connection_id < 2 ^ 32
  pub ncp_form : e.ncp.not_large ≡ not is_large
  pub ncp_fits : e.ncp.bits < (if is_large then 2 ^ 32 else 2 ^ 16)

pub record IsWireTriad (t : Triad) : Type 0 where
  pub serial_fits : t.serial_number < 2 ^ 16
  pub vendor_fits : t.vendor_id < 2 ^ 16
  pub originator_fits : t.originator_serial < 2 ^ 32

pub record IsWireData (is_large : Bool) (d : ConnData) : Type 0 where
  pub tick_fits : d.priority_timetick < 2 ^ 8
  pub ticks_fit : d.timeout_ticks < 2 ^ 8
  pub multiplier_fits : d.multiplier_value < 2 ^ 8
  pub trigger_fits : d.trigger < 2 ^ 8
  pub triad_fits : IsWireTriad d.triad
  pub consuming_fits : IsWireEnd is_large d.consuming
  pub producing_fits : IsWireEnd is_large d.producing

-- What an end takes from one on the wire.
abbrev pub end_from : End → End → End
end_from sent own = record own {
  rpi_usecs = sent.rpi_usecs;
  ncp = sent.ncp;
  connection_id = sent.connection_id;
}

get_ncp-bytes :
    (is_large : Bool) (n : Ncp) (r : Reader)
    → n.not_large ≡ not is_large
    → n.bits < (if is_large then 2 ^ 32 else 2 ^ 16)
    → get_ncp is_large (ncp_bytes n ++ r) ≡ ok (n, r)
unfolding get_ncp
get_ncp-bytes true n r e h =
    simp (e, le32-value n.bits h) (ap (λ (b : Bool). ok (record n { not_large = b }, r)) (sym e))
get_ncp-bytes false n r e h =
    simp (e, le16-value n.bits h) (ap (λ (b : Bool). ok (record n { not_large = b }, r)) (sym e))

-- What a target's object holds behind a forward open request: the sender's producing end is its
-- consuming end.
abbrev pub opened_by : ConnData → ConnData → ConnData
opened_by sent self = record self {
  triad = sent.triad;
  trigger = sent.trigger;
  priority_timetick = sent.priority_timetick;
  timeout_ticks = sent.timeout_ticks;
  multiplier_value = sent.multiplier_value;
  consuming = end_from sent.producing self.consuming;
  producing = end_from sent.consuming self.producing;
}

deserialize_forward_open-bytes :
    (is_large : Bool) (d self : ConnData) (r : Reader)
    → IsWireData is_large d
    → deserialize_forward_open is_large self (open_bytes d ++ r) ≡ ok (opened_by d self, r)
unfolding deserialize_forward_open
deserialize_forward_open-bytes is_large d self r f =
    let behind = le8 d.trigger ++ r in
    let ends = end_bytes d.producing ++ (end_bytes d.consuming ++ behind) in
    simp append_assoc (
      simp
        (
          advance-append ends (0 ∷ 0 ∷ 0 ∷ []),
          get_ncp-bytes is_large d.producing.ncp (end_bytes d.consuming ++ behind)
              f.producing_fits.ncp_form f.producing_fits.ncp_fits,
          get_ncp-bytes is_large d.consuming.ncp behind f.consuming_fits.ncp_form
              f.consuming_fits.ncp_fits,
        )
        (simp (
          le8-value d.priority_timetick f.tick_fits,
          le8-value d.timeout_ticks f.ticks_fit,
          le8-value d.multiplier_value f.multiplier_fits,
          le8-value d.trigger f.trigger_fits,
          le16-value d.triad.serial_number f.triad_fits.serial_fits,
          le16-value d.triad.vendor_id f.triad_fits.vendor_fits,
          le32-value d.triad.originator_serial f.triad_fits.originator_fits,
          le32-value d.producing.connection_id f.producing_fits.id_fits,
          le32-value d.consuming.connection_id f.consuming_fits.id_fits,
          le32-value d.producing.rpi_usecs f.producing_fits.rpi_fits,
          le32-value d.consuming.rpi_usecs f.consuming_fits.rpi_fits,
        )))

put_close-append : (d : ConnData) → Puts (put_close d) (ticks_bytes d ++ triad_bytes d.triad)
unfolding put_close
put_close-append d = chain (put_ticks-append d) (put_triad-append d.triad)

>>=-ok : {A : Type 0} (m : Result A) → (m >>= ok) ≡ m
>>=-ok (ok a) = refl
>>=-ok (throws x) = refl

module _ (d : ConnData) (ctl : ℕ) (room : List ℕ) (w : Writer) where
  written :
      is_forward_open ctl ≡ true
      → omits_path ctl ≡ true
      → serialize_conn_data d ctl (fresh room) ≡ ok w
      → put_open d (fresh room) ≡ ok w
  unfolding serialize_conn_data
  written o m e = sym (>>=-ok (put_open d (fresh room))) ∙ rw (o, m) at e

  closing :
      is_forward_open ctl ≡ false
      → is_forward_close ctl ≡ true
      → omits_path ctl ≡ true
      → serialize_conn_data d ctl (fresh room) ≡ ok w
      → put_close d (fresh room) ≡ ok w
  unfolding serialize_conn_data
  closing n o m e = sym (>>=-ok (put_close d (fresh room))) ∙ rw (n, o, m) at e

-- A forward open request, short or large, that Serialize() wrote without an overrun and without its
-- path, is read back by DeserializeForwardOpenRequest(), with the ends exchanged: what the originator
-- produces the target consumes.
pub deserialize_forward_open-serialize :
    (is_large : Bool) (d self : ConnData) (ctl : ℕ) (r : Reader) (room : List ℕ) (w : Writer)
    → is_forward_open ctl ≡ true
    → omits_path ctl ≡ true
    → IsWireData is_large d
    → serialize_conn_data d ctl (fresh room) ≡ ok w
    → deserialize_forward_open is_large self (w.before ++ r) ≡ ok (opened_by d self, r)
unfolding serialize_conn_data
deserialize_forward_open-serialize is_large d self ctl r room w o m f e =
    let fixed : put_open d (fresh room) ≡ ok w = written d ctl room w o m e in
    rw (Puts-before (put_open-append d) room w fixed)
      (deserialize_forward_open-bytes is_large d self r f)

-- Likewise a forward close request.
pub deserialize_forward_close-serialize :
    (d self : ConnData) (ctl : ℕ) (r : Reader) (room : List ℕ) (w : Writer)
    → is_forward_open ctl ≡ false
    → is_forward_close ctl ≡ true
    → omits_path ctl ≡ true
    → IsWireData false d
    → serialize_conn_data d ctl (fresh room) ≡ ok w
    → deserialize_forward_close self (w.before ++ r)
      ≡ ok (
        record self {
          triad = d.triad;
          priority_timetick = d.priority_timetick;
          timeout_ticks = d.timeout_ticks;
        },
        r,
      )
unfolding deserialize_forward_close
deserialize_forward_close-serialize d self ctl r room w n o m f e =
    rw (Puts-before (put_close-append d) room w (closing d ctl room w n o m e)) (
      simp (
        le8-value d.priority_timetick f.tick_fits,
        le8-value d.timeout_ticks f.ticks_fit,
        le16-value d.triad.serial_number f.triad_fits.serial_fits,
        le16-value d.triad.vendor_id f.triad_fits.vendor_fits,
        le32-value d.triad.originator_serial f.triad_fits.originator_fits,
      ))
