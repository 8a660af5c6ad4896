-- ===== src/Router/Request/Encode.antt =====
-- The bytes of a request.
use cipster.Base.{
  ℕ, ◌/◌, ◌≤◌, ◌<◌, ◌≡◌, refl, sym, ap, ◌∙◌, arith, List, [], ◌∷◌, ◌++◌, append_assoc, length,
  length-append, drop, take-append_self, drop-append_self, le→ltb, ok, throws, overflow_error,
  ◌>>=◌,
}
use native.Mathlib.Decide.{dec_lt}
use cipster.Bytes.Writer.{Writer, capacity, store, put8, append, advance, le8}
use cipster.Bytes.Append.{Puts, chain, Puts-append, put8-append, append_fits, append_overruns}
use cipster.Epath.AppPath.{AppPath}
use cipster.Epath.AppPath.Encode.{path_bytes, serialize-append, written-store}
use cipster.Router.Request.{Request}
use cipster.Router.Request.Serialize.{resume, put_path, serialize_request}

abbrev pub counted_path : AppPath → ℕ → List ℕ
counted_path p ctl = le8 (length (path_bytes p ctl) / 2) ++ path_bytes p ctl

abbrev pub request_bytes : Request → ℕ → List ℕ
request_bytes q ctl = le8 q.service ++ (counted_path q.path ctl ++ q.data_range)

-- The memory once `ps` is stored one byte behind `before`.
abbrev stored_behind : List ℕ → ℕ → List ℕ → List ℕ → Writer
stored_behind before x after ps = store ps (record { before = before ++ (x ∷ []); after = after })

resume-stored_behind :
    (before : List ℕ) (x : ℕ) (after ps : List ℕ)
    → resume (record { before = before; after = x ∷ after }) (stored_behind before x after ps)
      ≡ record { before = before; after = x ∷ (ps ++ drop (length ps) after) }
unfolding store
resume-stored_behind before x after ps =
    let rest = drop (length ps) after in
    let memory : ((before ++ (x ∷ [])) ++ ps) ++ rest ≡ before ++ (x ∷ (ps ++ rest)) =
      simp append_assoc in
    rw memory (λ i. record {
      before = take-append_self before (x ∷ (ps ++ rest)) i;
      after = drop-append_self before (x ∷ (ps ++ rest)) i;
    })

step_over :
    (before : List ℕ) (x : ℕ) (after : List ℕ)
    → advance 1 (record { before = before; after = x ∷ after })
      ≡ ok (record { before = before ++ (x ∷ []); after = after })
unfolding advance
step_over before x after = rw (le→ltb (length (x ∷ after)) 1 (omega arith)) refl

-- The count is put before the path, which is then stepped over.
count_and_step :
    (before : List ℕ) (v x : ℕ) (after ps : List ℕ)
    → (put8 v (record { before = before; after = x ∷ (ps ++ drop (length ps) after) })
        >>= advance (length ps))
      ≡ ok (store (le8 v ++ ps) (record { before = before; after = x ∷ after }))
unfolding put8 store advance
count_and_step before v x after ps =
    let rest = drop (length ps) after in
    rw (
      le→ltb (length (x ∷ (ps ++ rest))) 1 (omega arith),
      le→ltb (length (ps ++ rest)) (length ps) (omega (arith, length-append ps rest)),
      take-append_self ps rest,
      drop-append_self ps rest,
      append_assoc before (le8 v) ps,
    )

put_path_fits :
    (p : AppPath) (ctl x : ℕ) (before after : List ℕ)
    → length (path_bytes p ctl) ≤ length after
    → put_path p ctl (record { before = before; after = x ∷ after })
      ≡ ok (store (counted_path p ctl) (record { before = before; after = x ∷ after }))
unfolding put_path
put_path_fits p ctl x before after h =
    let ps = path_bytes p ctl in
    let start : Writer = record { before = before ++ (x ∷ []); after = after } in
    rw
      (
        step_over before x after,
        (serialize-append p ctl).puts start,
        append_fits ps start h,
        written-store ps start,
      )
      (ap (λ (out : Writer). put8 (length ps / 2) out >>= advance (length ps))
          (resume-stored_behind before x after ps)
        ∙ count_and_step before (length ps / 2) x after ps)

put_path_overruns :
    (p : AppPath) (ctl : ℕ) (b after : List ℕ)
    → length after < length (counted_path p ctl)
    → put_path p ctl (record { before = b; after = after }) ≡ throws overflow_error
unfolding put_path advance
put_path_overruns p ctl b [] h = refl
put_path_overruns p ctl b (x ∷ after) h =
    let start : Writer = record { before = b ++ (x ∷ []); after = after } in
    rw (
      step_over b x after,
      (serialize-append p ctl).puts start,
      append_overruns (path_bytes p ctl) start (omega (arith, h)),
    )

roomy :
    (p : AppPath) (ctl : ℕ) (b after : List ℕ)
    → length (counted_path p ctl) ≤ length after
    → put_path p ctl (record { before = b; after = after })
      ≡ append (counted_path p ctl) (record { before = b; after = after })
roomy p ctl b [] h = ground (arith, h)
roomy p ctl b (x ∷ after) h =
    put_path_fits p ctl x b after (omega (arith, h))
    ∙ sym (append_fits (counted_path p ctl) (record { before = b; after = x ∷ after }) h)

put_path-append : (p : AppPath) (ctl : ℕ) → Puts (put_path p ctl) (counted_path p ctl)
put_path-append p ctl = record {
  puts = λ w. elim (dec_lt (capacity w) (length (counted_path p ctl))) [
    | yes over ↦
        put_path_overruns p ctl w.before w.after over
        ∙ sym (append_overruns (counted_path p ctl) w over)
    | no fits ↦ roomy p ctl w.before w.after (omega arith)
  ];
}

-- Serialize() of a request appends the service code, half the number of the path's bytes, the path and
-- the data, in one run, or overruns where they do not fit: the byte of the count, which is skipped and
-- set behind the path's serialization, is not disturbed by it.
pub serialize_request-append :
    (q : Request) (ctl : ℕ) → Puts (serialize_request q ctl) (request_bytes q ctl)
unfolding serialize_request
serialize_request-append q ctl =
    chain (put8-append q.service) (chain (put_path-append q.path ctl) (Puts-append q.data_range))
