-- ===== src/Update/Version/Tests.antt =====
-- Tests of the version comparison, and its theorems at concrete versions.
use Prim.Native.Nat.{Ordering}
use esp_mosaico_claw.Base.{
  ℕ, ◌-◌, ◌≡◌, refl, ◌↔◌, true, none, some, arith, text, ok, invalid_arg, u32_mod,
}
use esp_mosaico_claw.Update.Version.{
  compare_versions, parse_parts, parse_component, scan_digits, is_digit, compare_parts,
}
use esp_mosaico_claw.Update.Version.Decimal.{decimal}
use esp_mosaico_claw.Update.Version.Printed.{
  Version, print, Before, compare-print, compare-print_overflow,
}

-- ULONG_MAX of the 32-bit target.
abbrev ulong_max : ℕ
ulong_max = u32_mod - 1

abbrev older : Version
older = record { major = 1; minor = 9; patch = 12 }

abbrev newer : Version
newer = record { major = 1; minor = 10; patch = 3 }

abbrev overlong : Version
overlong = record { major = 1; minor = u32_mod; patch = 0 }

prints : print newer ≡ text "1.10.3"
unfolding print decimal
prints = refl

tenth_is_newer :
    compare_versions ulong_max (some (text "1.9.12")) (some (text "1.10.3")) true
    ≡ (ok, some Ordering.lt)
unfolding compare_versions parse_parts parse_component scan_digits is_digit compare_parts
tenth_is_newer = refl

sign_refused :
    compare_versions ulong_max (some (text "+1.0.0")) (some (text "1.0.0")) true
    ≡ (invalid_arg, none)
unfolding compare_versions parse_parts parse_component scan_digits is_digit compare_parts
sign_refused = refl

trailing_refused :
    compare_versions ulong_max (some (text "1.0.0")) (some (text "1.0.0-rc1")) true
    ≡ (invalid_arg, none)
unfolding compare_versions parse_parts parse_component scan_digits is_digit compare_parts
trailing_refused = refl

compare-print_example :
    (o : Ordering) × (compare_versions ulong_max (some (print older)) (some (print newer)) true
      ≡ (ok, some o))
    × ((o ≡ Ordering.lt) ↔ Before older newer)
    × ((o ≡ Ordering.eq) ↔ (older ≡ newer))
    × ((o ≡ Ordering.gt) ↔ Before newer older)
compare-print_example =
    compare-print ulong_max (omega arith) older newer (omega arith) (omega arith)

compare-print_overflow_example :
    compare_versions ulong_max (some (print newer)) (some (print overlong)) true
    ≡ (invalid_arg, none)
compare-print_overflow_example =
    compare-print_overflow ulong_max (omega arith) newer overlong (omega arith)
