-- ===== src/Conn/Sizes/Laws.antt =====
-- Which sizes CorrectSizes() accepts.
use cipster.Base.{
  ℕ, zero, suc, ◌%◌, ◌==◌, ◌&&◌, not, refl, sym, ap, ◌∙◌, ◌+◌, ◌<◌, ◌≤◌, ◌≡◌, arith, Bool, true,
  false, Bool-cases, inl, inr, Option, none, some, Option-cases, if◌then◌else◌,
}
use mathlib.Core.Logic.{◌↔◌}
use cipster.Cpf.{is_some}
use cipster.Conn.Params.{
  Trigger, transport_class, connection_type, is_null_type, connection_size, is_fixed,
}
use mathlib.Core.Path.{subst}
use cipster.Conn.Data.{
  RealTimeFmt, modeless, zero_length_data, heartbeat, header_32_bit, safety, is_header_32_bit,
  ConnStatus, invalid_o_t_size, invalid_t_o_size, InstanceRef, End, ConnData,
}
use cipster.Conn.Sizes.{overhead, corrected, size_if, correct_sizes}

overhead-le : (t : Trigger) (n : ℕ) (e : End) → overhead t n e ≤ 6
unfolding overhead
overhead-le t n e = ground arith

overhead_same :
    (t : Trigger) (n : ℕ) (e e' : End) → e'.fmt ≡ e.fmt → overhead t n e' ≡ overhead t n e
unfolding overhead
overhead_same t n e e' f = rw f

-- The bytes of a frame beside those of the assembly: a sequence count in transport class 1, and a
-- run/idle header for an assembly that has bytes.
abbrev pub count_bytes : ℕ → ℕ
count_bytes zero = 0
count_bytes (suc zero) = 2
count_bytes (suc (suc k)) = 0

abbrev pub header_bytes : RealTimeFmt → ℕ → ℕ
header_bytes header_32_bit zero = 0
header_bytes header_32_bit (suc n) = 4
header_bytes _ n = 0

abbrev pub bytes_beside : Trigger → ℕ → End → ℕ
bytes_beside t attr_size e = count_bytes (t % 16) + header_bytes e.fmt attr_size

count_bytes-class : (k : ℕ) → (if k == 1 then 2 else 0) ≡ count_bytes k
count_bytes-class zero = refl
count_bytes-class (suc zero) = refl
count_bytes-class (suc (suc k)) = ground arith

header_bytes-fmt :
    (f : RealTimeFmt) (n : ℕ)
    → (if is_header_32_bit f && not (n == 0) then 4 else 0) ≡ header_bytes f n
header_bytes-fmt modeless n = refl
header_bytes-fmt zero_length_data n = refl
header_bytes-fmt heartbeat n = refl
header_bytes-fmt header_32_bit zero = refl
header_bytes-fmt header_32_bit (suc n) = ground arith
header_bytes-fmt safety n = refl

low_bits : (t : Trigger) → transport_class t ≡ t % 16
low_bits t = omega arith

overhead-bytes_beside : (t : Trigger) (n : ℕ) (e : End) → overhead t n e ≡ bytes_beside t n e
unfolding overhead
overhead-bytes_beside t n e =
    ap
      (λ (k : ℕ).
        (if k == 1 then 2 else 0) + (if is_header_32_bit e.fmt && not (n == 0) then 4 else 0))
      (low_bits t)
    ∙ rw (count_bytes-class (t % 16), header_bytes-fmt e.fmt n) refl

-- A fixed size is exact, a variable one at most that.
abbrev FitsBeside : ℕ → ℕ → End → Type 0
FitsBeside beside attr_size e =
    (beside ≤ connection_size e.ncp)
    × (connection_size e.ncp ≤ attr_size + beside)
    × (is_fixed e.ncp ≡ true → connection_size e.ncp ≡ attr_size + beside)

abbrev pub Fits : Trigger → ℕ → End → Type 0
Fits t attr_size e = FitsBeside (bytes_beside t attr_size e) attr_size e

abbrev refusal : ConnStatus → Option ℕ → Option ConnStatus
refusal s none = none
refusal s (some n) = some s

corrected-FitsBeside :
    (t : Trigger) (n : ℕ) (e : End) → corrected t n e ≡ none → FitsBeside (overhead t n e) n e
unfolding corrected
corrected-FitsBeside t n e h = ground arith

corrected-Fits : (t : Trigger) (n : ℕ) (e : End) → corrected t n e ≡ none → Fits t n e
corrected-Fits t n e h =
    subst (λ (k : ℕ). FitsBeside k n e) (overhead-bytes_beside t n e) (corrected-FitsBeside t n e h)

FitsBeside-corrected :
    (t : Trigger) (n : ℕ) (e : End) → FitsBeside (overhead t n e) n e → corrected t n e ≡ none
unfolding corrected
FitsBeside-corrected t n e (lo, hi, exact) = elim (Bool-cases (is_fixed e.ncp)) [
  | inl f ↦ rw f (ground (arith, exact f))
  | inr v ↦ rw v (ground arith)
]

Fits-corrected : (t : Trigger) (n : ℕ) (e : End) → Fits t n e → corrected t n e ≡ none
Fits-corrected t n e h =
    FitsBeside-corrected t n e
      (subst (λ (k : ℕ). FitsBeside k n e) (sym (overhead-bytes_beside t n e)) h)

module _ (size_bytes : InstanceRef → ℕ) (d : ConnData) where
  abbrev o_t_null : Bool
  o_t_null = is_null_type (connection_type d.consuming.ncp)

  abbrev t_o_null : Bool
  t_o_null = is_null_type (connection_type d.producing.ncp)

  -- The sizes of both ends are good, where they are not null.
  abbrev pub SizesFit : Type 0
  SizesFit =
      (o_t_null ≡ false → Fits d.trigger (size_if size_bytes d.consuming.instance_ref) d.consuming)
      × (t_o_null ≡ false
          → Fits d.trigger (size_if size_bytes d.producing.instance_ref) d.producing)

  abbrev consuming_corrected : Option ℕ
  consuming_corrected =
      corrected d.trigger (size_if size_bytes d.consuming.instance_ref) d.consuming

  abbrev producing_corrected : Option ℕ
  producing_corrected =
      corrected d.trigger (size_if size_bytes d.producing.instance_ref) d.producing

  -- What the two checks come to.
  by_ends : (correct_sizes size_bytes d).1 ≡ (
      if o_t_null
      then (if t_o_null then none else refusal invalid_t_o_size producing_corrected)
      else if is_some consuming_corrected
      then some invalid_o_t_size
      else if t_o_null
      then none
      else refusal invalid_t_o_size producing_corrected)
  unfolding correct_sizes
  by_ends = elim (Bool-cases o_t_null) [
    | inl e ↦ elim (Bool-cases t_o_null) [
      | inl k ↦ rw (e, k)
      | inr k ↦ elim (Option-cases producing_corrected) [
        | inl c ↦ rw (e, k, c)
        | inr (n, c) ↦ rw (e, k, c)
      ]
    ]
    | inr e ↦ elim (Option-cases consuming_corrected) [
      | inl b ↦ elim (Bool-cases t_o_null) [
        | inl k ↦ rw (e, b, k)
        | inr k ↦ elim (Option-cases producing_corrected) [
          | inl c ↦ rw (e, b, k, c)
          | inr (n, c) ↦ rw (e, b, k, c)
        ]
      ]
      | inr (n, b) ↦ rw (e, b)
    ]
  ]

  module _ (h : (correct_sizes size_bytes d).1 ≡ none) where
    consuming_good : o_t_null ≡ false → consuming_corrected ≡ none
    consuming_good e = elim (Option-cases consuming_corrected) [
      | inl c ↦ c
      | inr (n, c) ↦ cc (rw (by_ends, e, c) at h)
    ]

    producing_good : t_o_null ≡ false → producing_corrected ≡ none
    producing_good k = elim (Option-cases producing_corrected) [
      | inl c ↦ c
      | inr (n, c) ↦ elim (Bool-cases o_t_null) [
        | inl e ↦ cc (rw (by_ends, e, k, c) at h)
        | inr e ↦ cc (rw (by_ends, e, consuming_good e, k, c) at h)
      ]
    ]

  both_good :
      (o_t_null ≡ false → consuming_corrected ≡ none)
      → (t_o_null ≡ false → producing_corrected ≡ none)
      → (correct_sizes size_bytes d).1 ≡ none
  both_good c p = elim (Bool-cases o_t_null) [
    | inl e ↦ elim (Bool-cases t_o_null) [
      | inl k ↦ rw (by_ends, e, k)
      | inr k ↦ rw (by_ends, e, k, p k)
    ]
    | inr e ↦ elim (Bool-cases t_o_null) [
      | inl k ↦ rw (by_ends, e, c e, k)
      | inr k ↦ rw (by_ends, e, c e, k, p k)
    ]
  ]

  -- CorrectSizes() accepts a request exactly if the connection size of each end that is not null is
  -- the size of the assembly with the overhead of the transport class and of the run/idle header, or, for
  -- a variable size, lies between the overhead and that.
  pub correct_sizes-SizesFit : ((correct_sizes size_bytes d).1 ≡ none) ↔ SizesFit
  correct_sizes-SizesFit = (
    λ h. (
      λ e. corrected-Fits _ _ d.consuming (consuming_good h e),
      λ k. corrected-Fits _ _ d.producing (producing_good h k),
    ),
    λ fit.
        both_good (λ e. Fits-corrected _ _ d.consuming (fit.0 e))
          (λ k. Fits-corrected _ _ d.producing (fit.1 k)),
  )

-- The size that a refusal suggests, put in place of the one refused, is accepted.
pub corrected_size_accepted :
    (t : Trigger) (n : ℕ) (e e' : End) (k : ℕ)
    → n + 6 < 0x10000
    → corrected t n e ≡ some k
    → e'.fmt ≡ e.fmt
    → connection_size e'.ncp ≡ k
    → corrected t n e' ≡ none
unfolding corrected
corrected_size_accepted t n e e' k h c f s =
    let same : overhead t n e' ≡ overhead t n e = overhead_same t n e e' f in
    let small : overhead t n e ≤ 6 = overhead-le t n e in
    let suggested : k ≡ n + overhead t n e = ground (arith, small) in
    FitsBeside-corrected t n e' (ground arith, ground arith, λ _. ground arith)
