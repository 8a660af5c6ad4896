-- ===== src/Bytes/Append.antt =====
-- Every put of BufWriter is one `append` of the bytes that it stores, also when it overruns, and
-- puts in a row are one `append` of all their bytes.
use cipster.Base.{
  ℕ, ◌-◌, ◌%◌, ◌≤◌, ◌<◌, ◌≡◌, refl, sym, ap, ◌∙◌, arith, List, [], ◌∷◌, ◌++◌, append-nil,
  append_assoc, Bool, true, false, ◌&&◌, ◌==◌, le→ltb, lt→ltb, if◌then◌else◌, length, drop,
  replicate, length-append, length-drop, length-replicate, drop-drop, Result, ok, throws,
  overflow_error, ◌>>=◌,
}
use native.Mathlib.Decide.{dec_lt}
use mathlib.Core.Path.{fun_ext}
use cipster.Bytes.Writer.{
  Writer, capacity, store, le8, le16, le32, le64, be16, be32, put8, put16, put32, put64, put16_be,
  put32_be, append, fill, put_short_string, put_string, put_units, put_string2,
}

pub append_fits :
    (bs : List ℕ) (w : Writer) → length bs ≤ capacity w → append bs w ≡ ok (store bs w)
unfolding append
append_fits bs w h = rw (le→ltb (capacity w) (length bs) h)

pub append_overruns :
    (bs : List ℕ) (w : Writer) → capacity w < length bs → append bs w ≡ throws overflow_error
unfolding append
append_overruns bs w h = rw (lt→ltb (capacity w) (length bs) h)

store-store : (xs bs : List ℕ) (w : Writer) → store bs (store xs w) ≡ store (xs ++ bs) w
unfolding store
store-store xs bs w = λ i. record {
  before = append_assoc w.before xs bs i;
  after =
      (drop-drop (length xs) (length bs) w.after
          ∙ ap (λ (k : ℕ). drop k w.after) (sym (length-append xs bs)))
        i;
}

-- What is left of the room behind a store.
capacity-store : (bs : List ℕ) (w : Writer) → capacity (store bs w) ≡ capacity w - length bs
unfolding store
capacity-store bs w = length-drop (length bs) w.after

pub append_after_store :
    (xs bs : List ℕ) (w : Writer)
    → length xs ≤ capacity w
    → append bs (store xs w) ≡ append (xs ++ bs) w
append_after_store xs bs w h = elim (dec_lt (capacity w) (length (xs ++ bs))) [
  | yes over ↦
      append_overruns bs (store xs w) (omega (arith, capacity-store xs w, length-append xs bs))
      ∙ sym (append_overruns (xs ++ bs) w over)
  | no fits ↦
      append_fits bs (store xs w) (omega (arith, capacity-store xs w, length-append xs bs))
      ∙ ap ok (store-store xs bs w)
      ∙ sym (append_fits (xs ++ bs) w (omega arith))
]

-- Two appends in a row are one append of both runs of bytes, on overrun too.
pub append-append :
    (xs bs : List ℕ) (w : Writer) → (append xs w >>= append bs) ≡ append (xs ++ bs) w
append-append xs bs w = elim (dec_lt (capacity w) (length xs)) [
  | yes over ↦
      rw (append_overruns xs w over)
        (sym (append_overruns (xs ++ bs) w (omega (arith, length-append xs bs))))
  | no fits ↦ rw (append_fits xs w (omega arith)) (append_after_store xs bs w (omega arith))
]

-- `f` appends `bs`: it stores them and moves behind them, or overruns where they do not fit.
pub record Puts (f : Writer → Result Writer) (bs : List ℕ) : Type 0 where
  pub puts : (w : Writer) → f w ≡ append bs w

pub chain :
    {f k : Writer → Result Writer} {xs bs : List ℕ}
    → Puts f xs
    → Puts k bs
    → Puts (λ w. f w >>= k) (xs ++ bs)
chain {k = k} {xs = xs} {bs = bs} p q = record {
  puts = λ w.
      ap (λ (m : Result Writer). m >>= k) (p.puts w)
      ∙ ap (λ (g : Writer → Result Writer). append xs w >>= g) (fun_ext q.puts)
      ∙ append-append xs bs w;
}

pub choose :
    {f g : Writer → Result Writer} {xs ys : List ℕ} (b : Bool)
    → Puts f xs
    → Puts g ys
    → Puts (λ w. if b then f w else g w) (if b then xs else ys)
choose true p q = p
choose false p q = q

pub append_none : Puts ok []
unfolding append store
append_none = record {
  puts = λ w. sym (
      append_fits [] w (omega arith)
      ∙ ap (λ (b : List ℕ). ok (record w { before = b })) (append-nil w.before));
}

pub Puts-append : (bs : List ℕ) → Puts (append bs) bs
Puts-append bs = record { puts = λ w. refl }

-- A writer at the start of its buffer.
abbrev pub fresh : List ℕ → Writer
fresh room = record { before = []; after = room }

-- What a put has left in the buffer, if it did not overrun.
pub Puts-before :
    {f : Writer → Result Writer} {bs : List ℕ} (p : Puts f bs) (room : List ℕ) (w : Writer)
    → f (fresh room) ≡ ok w
    → w.before ≡ bs
Puts-before {bs = bs} p room w h = elim (dec_lt (length room) (length bs)) [
  | yes over ↦ cc (h, p.puts (fresh room), append_overruns bs (fresh room) over)
  | no fits ↦
      let stored : w ≡ store bs (fresh room) =
        ground (arith, h, p.puts (fresh room), append_fits bs (fresh room) (omega arith)) in
      ap (λ (v : Writer). v.before) stored ∙ unfold store in refl
]

pub put8-append : (v : ℕ) → Puts (put8 v) (le8 v)
unfolding put8 append
put8-append v = record { puts = λ w. refl }

pub put16-append : (v : ℕ) → Puts (put16 v) (le16 v)
unfolding put16 append
put16-append v = record { puts = λ w. refl }

pub put32-append : (v : ℕ) → Puts (put32 v) (le32 v)
unfolding put32 append
put32-append v = record { puts = λ w. refl }

pub put64-append : (v : ℕ) → Puts (put64 v) (le64 v)
unfolding put64 append
put64-append v = record { puts = λ w. refl }

pub put16_be-append : (v : ℕ) → Puts (put16_be v) (be16 v)
unfolding put16_be append
put16_be-append v = record { puts = λ w. refl }

pub put32_be-append : (v : ℕ) → Puts (put32_be v) (be32 v)
unfolding put32_be append
put32_be-append v = record { puts = λ w. refl }

pub fill-append : (n v : ℕ) → Puts (fill n v) (replicate n v)
unfolding fill append
fill-append n v = record { puts = λ w. rw length-replicate }

-- The bytes of the two length-prefixed strings and of the 16 bit units.
abbrev pub short_string_bytes : List ℕ → Bool → List ℕ
short_string_bytes s pad =
    le8 (length s) ++ (s ++ (if pad && (length s % 2 == 0) then le8 0 else []))

abbrev pub string_bytes : List ℕ → Bool → List ℕ
string_bytes s pad = le16 (length s) ++ (s ++ (if pad && (length s % 2 == 1) then le8 0 else []))

abbrev pub units : List ℕ → List ℕ
units [] = []
units (c ∷ cs) = le16 c ++ units cs

-- A SHORT_STRING is its length in one byte, its bytes, and a zero where that makes the count even.
pub put_short_string-append :
    (s : List ℕ) (pad : Bool) → Puts (put_short_string s pad) (short_string_bytes s pad)
unfolding put_short_string
put_short_string-append s pad =
    chain (put8-append (length s))
      (chain (Puts-append s) (choose (pad && (length s % 2 == 0)) (put8-append 0) append_none))

-- A STRING is its length in two bytes, its bytes, and a zero where that makes the count even.
pub put_string-append : (s : List ℕ) (pad : Bool) → Puts (put_string s pad) (string_bytes s pad)
unfolding put_string
put_string-append s pad =
    chain (put16-append (length s))
      (chain (Puts-append s) (choose (pad && (length s % 2 == 1)) (put8-append 0) append_none))

put_units-append : (s : List ℕ) → Puts (put_units s) (units s)
unfolding put_units
put_units-append [] = append_none
put_units-append (c ∷ cs) = chain (put16-append c) (put_units-append cs)

-- A STRING2 is its length in two bytes and a 16 bit unit for each byte.
pub put_string2-append : (s : List ℕ) → Puts (put_string2 s) (le16 (length s) ++ units s)
unfolding put_string2
put_string2-append s = chain (put16-append (length s)) (put_units-append s)
