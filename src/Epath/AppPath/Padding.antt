-- ===== src/Epath/AppPath/Padding.antt =====
-- The pad byte behind an odd number of bytes is skipped, and only that.
use cipster.Base.{
  ℕ, ◌%◌, ◌≡◌, ap, ◌∙◌, arith, List, [], ◌++◌, append_assoc, ◌==◌, if◌then◌else◌, Bool-cases, inl,
  inr, length, length-append, ok,
}
use cipster.Bytes.Reader.{consumed, next, advance}
use cipster.Bytes.Writer.{le8}
use cipster.Epath.AppPath.Encode.{padded}
use cipster.Epath.AppPath.Deserialize.{skip_to_even}

abbrev pub pad_of : List ℕ → List ℕ
pad_of bs = if length bs % 2 == 1 then le8 0 else []

consumed-append : (bs r : List ℕ) → consumed (bs ++ r) r ≡ length bs
consumed-append bs r = omega (arith, length-append bs r)

skip_counted :
    (bs start r : List ℕ)
    → consumed start (pad_of bs ++ r) ≡ length bs
    → skip_to_even start (pad_of bs ++ r) ≡ ok r
unfolding skip_to_even next advance
skip_counted bs start r h = elim (Bool-cases (length bs % 2 == 1)) [
  | inl e ↦ rw (h, e) (ground arith)
  | inr e ↦ rw (h, e)
]

-- Behind the bytes of a padded run, its start counts the pad byte.
pub skip_to_even-padded : (bs r : List ℕ) → skip_to_even (padded bs ++ r) (pad_of bs ++ r) ≡ ok r
skip_to_even-padded bs r = skip_counted bs (padded bs ++ r) r (
    ap (λ (start : List ℕ). consumed start (pad_of bs ++ r)) (append_assoc bs (pad_of bs) r)
    ∙ consumed-append bs (pad_of bs ++ r))
