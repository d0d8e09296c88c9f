-- ===== src/Update/Version/Printed.antt =====
-- What the comparison makes of versions that are printed in decimal.
use Prim.Native.Nat.{Ordering}
use esp_mosaico_claw.Base.{
  ℕ, ◌+◌, ◌≤◌, ◌<◌, ◌≡◌, refl, ◌↔◌, ◌⊎◌, inl, inr, Bool, true, false, ◌&&◌, Bool-cases, Option,
  none, some, List, [], ◌∷◌, arith, if◌then◌else◌, ltb, Text, ◌∙◌, ok, invalid_arg, u32_mod,
}
use esp_mosaico_claw.Update.Version.{
  scan_digits, is_digit, parse_component, parse_parts, compare_parts, compare_versions,
}
use esp_mosaico_claw.Update.Version.Decimal.{decimal, scan-decimal, starts-decimal}

pub record Version : Type 0 where
  pub major : ℕ
  pub minor : ℕ
  pub patch : ℕ

unfoldable pub print : Version → Text
print v = decimal v.major (b'.' ∷ decimal v.minor (b'.' ∷ decimal v.patch []))

-- Every part fits 32 bits.
pub record IsSmall (v : Version) : Type 0 where
  pub major_small : v.major < u32_mod
  pub minor_small : v.minor < u32_mod
  pub patch_small : v.patch < u32_mod

-- The order of versions: the first part that differs decides.
abbrev pub Before : Version → Version → Type 0
Before v w =
    (v.major < w.major)
    ⊎ ((v.major ≡ w.major) × ((v.minor < w.minor) ⊎ ((v.minor ≡ w.minor) × (v.patch < w.patch))))

scan_dotted : (n : ℕ) (rest : Text) → scan_digits 0 (decimal n (b'.' ∷ rest)) ≡ (n, b'.' ∷ rest)
unfolding scan_digits is_digit
scan_dotted n rest = scan-decimal n (b'.' ∷ rest) ∙ refl

scan_final : (n : ℕ) → scan_digits 0 (decimal n []) ≡ (n, [])
unfolding scan_digits
scan_final n = scan-decimal n [] ∙ refl

-- The outcome of a component: its value if it fits 32 bits.
abbrev fitting : ℕ → Text → Option (ℕ × Text)
fitting n rest = if ltb n u32_mod then some (n, rest) else none

abbrev parts : Version → List ℕ
parts v = v.major ∷ v.minor ∷ v.patch ∷ []

abbrev fits : Version → Bool
fits v = ltb v.major u32_mod && (ltb v.minor u32_mod && ltb v.patch u32_mod)

compare_parts_lem :
    (v w : Version)
    → let o = compare_parts (v.major ∷ v.minor ∷ v.patch ∷ []) (w.major ∷ w.minor ∷ w.patch ∷ []) in
      ((o ≡ Ordering.lt) ↔ Before v w)
      × ((o ≡ Ordering.eq) ↔ (v ≡ w))
      × ((o ≡ Ordering.gt) ↔ Before w v)
unfolding compare_parts
compare_parts_lem v w = (
  (λ e. ground arith, λ e. ground arith),
  (λ e. ground arith, λ e. ground arith),
  (λ e. ground arith, λ e. ground arith),
)

module _ (ulong_max : ℕ) (wide : u32_mod ≤ ulong_max + 1) where
  parse-dotted :
      (n : ℕ) (rest : Text)
      → parse_component ulong_max (decimal n (b'.' ∷ rest)) false ≡ fitting n rest
  unfolding parse_component
  parse-dotted n rest = ground (arith, scan_dotted n rest, starts-decimal n (b'.' ∷ rest))

  parse-final : (n : ℕ) → parse_component ulong_max (decimal n []) true ≡ fitting n []
  unfolding parse_component
  parse-final n = ground (arith, scan_final n, starts-decimal n [])

  -- The three rounds of the loop on printed versions.
  parse_parts-print :
      (v w : Version)
      → parse_parts ulong_max 3 (print v) (print w)
        ≡ (if fits v && fits w then some (parts v, parts w) else none)
  unfolding parse_parts print
  parse_parts-print v w = ground (
    arith,
    parse-dotted v.major (decimal v.minor (b'.' ∷ decimal v.patch [])),
    parse-dotted v.minor (decimal v.patch []),
    parse-final v.patch,
    parse-dotted w.major (decimal w.minor (b'.' ∷ decimal w.patch [])),
    parse-dotted w.minor (decimal w.patch []),
    parse-final w.patch,
  )

  -- Two printed versions whose parts all fit 32 bits are compared without an error, and the result
  -- is the order of the versions: -1, 0 or 1 exactly if the first comes before the second, is the
  -- same, or comes after it. (The C library's unsigned long has at least 32 bits.)
  pub compare-print :
      (v w : Version)
      → IsSmall v
      → IsSmall w
      → (o : Ordering) × (compare_versions ulong_max (some (print v)) (some (print w)) true
          ≡ (ok, some o))
        × ((o ≡ Ordering.lt) ↔ Before v w)
        × ((o ≡ Ordering.eq) ↔ (v ≡ w))
        × ((o ≡ Ordering.gt) ↔ Before w v)
  unfolding compare_versions
  compare-print v w a b = (
    compare_parts (parts v) (parts w),
    ground (arith, parse_parts-print v w),
    (compare_parts_lem v w).0,
    (compare_parts_lem v w).1,
    (compare_parts_lem v w).2,
  )

  -- A printed version with a part beyond 32 bits is refused, on either side and in any place, and no
  -- result is written.
  pub compare-print_overflow :
      (v w : Version)
      → ¬ (IsSmall v × IsSmall w)
      → compare_versions ulong_max (some (print v)) (some (print w)) true ≡ (invalid_arg, none)
  unfolding compare_versions
  compare-print_overflow v w n = elim (Bool-cases (fits v && fits w)) [
    | inl y ↦ absurd (n (ground arith, ground arith))
    | inr z ↦ rw (parse_parts-print v w, z, compare_versions)
  ]
