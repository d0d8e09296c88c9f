-- ===== src/Update/Version.antt =====
-- components/update_check_service/update_check_version.c: comparison of two versions of the form
-- `major.minor.patch`. `strtoul` is that of the C library, read where the source calls it, at a
-- digit: the value of the longest run of digits, an error if it exceeds ULONG_MAX, and the rest.
pub mod Order
pub mod Decimal
pub mod Printed
mod Tests
use Prim.Native.Nat.{Ordering}
use esp_mosaico_claw.Base.{
  ℕ, zero, suc, ◌+◌, ◌-◌, ◌*◌, ◌^◌, Bool, true, false, not, ◌&&◌, ◌||◌, Option, none, some, List,
  [], ◌∷◌, if◌then◌else◌, ◌==◌, ltb, leb, Ptr, Text, EspErr, ok, invalid_arg, ◌>>=◌, u32_mod,
}

unfoldable pub is_digit : ℕ → Bool
is_digit c = leb b'0' c && leb c b'9'

-- The value of a run of digits behind the value `acc`, and what follows the run.
unfoldable pub scan_digits : ℕ → Text → ℕ × Text
scan_digits acc [] = (acc, [])
scan_digits acc (c ∷ s) =
    let rest = scan_digits (acc * 10 + (c - b'0')) s in if is_digit c then rest else (acc, c ∷ s)

-- The part of the text behind a component: all of it was read, or a dot is next.
abbrev pub after_component : Bool → Text → Option Text
after_component true [] = some []
after_component true (c ∷ s) = none
after_component false [] = none
after_component false (c ∷ s) = if c == b'.' then some s else none

abbrev pub starts_with_digit : Text → Bool
starts_with_digit [] = false
starts_with_digit (c ∷ s) = is_digit c

-- The first difference decides.
unfoldable pub compare_parts : List ℕ → List ℕ → Ordering
compare_parts [] rs = Ordering.eq
compare_parts (l ∷ ls) [] = Ordering.eq
compare_parts (l ∷ ls) (r ∷ rs) =
    let rest = compare_parts ls rs in
    if not (l == r) then (if ltb l r then Ordering.lt else Ordering.gt) else rest

module _ (ulong_max : ℕ) where
  -- The component and the cursor behind it; `none` is ESP_ERR_INVALID_ARG. A cursor and a result
  -- pointer that are null do not occur: the one caller passes its own variables.
  unfoldable pub parse_component : Text → Bool → Option (ℕ × Text)
  parse_component cursor final =
      if not (starts_with_digit cursor)
      then none
      else let (value, end) = scan_digits 0 cursor in
        if ltb ulong_max value || ltb (u32_mod - 1) value
        then none
        else after_component final end >>= λ rest. some (value, rest)

  -- The loop over the parts that are left, both texts side by side.
  unfoldable pub parse_parts : ℕ → Text → Text → Option (List ℕ × List ℕ)
  parse_parts zero left right = some ([], [])
  parse_parts (suc n) left right = do
    (l, left') ← parse_component left (n == 0)
    (r, right') ← parse_component right (n == 0)
    (ls, rs) ← parse_parts n left' right'
    some (l ∷ ls, r ∷ rs)

  -- What is written through the third pointer is -1, 0 or 1.
  unfoldable pub compare_versions : Ptr Text → Ptr Text → Bool → EspErr × Option Ordering
  compare_versions none right out = (invalid_arg, none)
  compare_versions (some left) none out = (invalid_arg, none)
  compare_versions (some left) (some right) out =
      if not out then (invalid_arg, none) else elim (parse_parts 3 left right) [
        | none ↦ (invalid_arg, none)
        | some (ls, rs) ↦ (ok, some (compare_parts ls rs))
      ]
