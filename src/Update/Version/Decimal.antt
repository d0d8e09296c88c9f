-- ===== src/Update/Version/Decimal.antt =====
-- Numbers in decimal, and their way back through the digits' scan.
use esp_mosaico_claw.Base.{
  ℕ, zero, suc, ◌+◌, ◌-◌, ◌*◌, ◌/◌, ◌%◌, ◌≤◌, ◌<◌, ◌≡◌, true, ◌∷◌, arith, if◌then◌else◌, ltb, Text,
  ◌∙◌, ap,
}
use esp_mosaico_claw.Update.Version.{scan_digits, is_digit, starts_with_digit}

-- The decimal digits of `n` before `rest`.
unfoldable pub decimal_fuel : ℕ → ℕ → Text → Text
decimal_fuel zero n rest = (b'0' + n) ∷ rest
decimal_fuel (suc f) n rest =
    let more = decimal_fuel f (n / 10) ((b'0' + n % 10) ∷ rest) in
    if ltb n 10 then (b'0' + n) ∷ rest else more

unfoldable pub decimal : ℕ → Text → Text
unfolding decimal_fuel
decimal n rest = decimal_fuel n n rest

scan_step :
    (acc d : ℕ) (rest : Text)
    → d < 10
    → scan_digits acc ((b'0' + d) ∷ rest) ≡ scan_digits (acc * 10 + d) rest
unfolding scan_digits is_digit
scan_step acc d rest h =
    let digit : acc * 10 + (b'0' + d - b'0') ≡ acc * 10 + d = omega arith in
    ground (arith, ap (λ k. scan_digits k rest) digit)

scan_value : (a b : ℕ) (rest : Text) → a ≡ b → scan_digits a rest ≡ scan_digits b rest
scan_value a b rest e = ap (λ k. scan_digits k rest) e

scan-decimal_fuel :
    (f n : ℕ) (rest : Text) → n ≤ f → scan_digits 0 (decimal_fuel f n rest) ≡ scan_digits n rest
unfolding decimal_fuel
scan-decimal_fuel zero n rest h =
    scan_step 0 n rest (omega arith) ∙ scan_value _ n rest (omega arith)
scan-decimal_fuel (suc f) n rest h = ground (
  arith,
  scan_step 0 n rest,
  scan_value (0 * 10 + n) n rest (omega arith),
  scan-decimal_fuel f (n / 10) ((b'0' + n % 10) ∷ rest),
  scan_step (n / 10) (n % 10) rest,
  scan_value (n / 10 * 10 + n % 10) n rest (omega arith),
)

pub scan-decimal : (n : ℕ) (rest : Text) → scan_digits 0 (decimal n rest) ≡ scan_digits n rest
unfolding decimal
scan-decimal n rest = scan-decimal_fuel n n rest (omega arith)

starts-decimal_fuel :
    (f n : ℕ) (rest : Text) → n ≤ f → starts_with_digit (decimal_fuel f n rest) ≡ true
unfolding decimal_fuel is_digit
starts-decimal_fuel zero n rest h = ground arith
starts-decimal_fuel (suc f) n rest h =
    ground (arith, starts-decimal_fuel f (n / 10) ((b'0' + n % 10) ∷ rest))

pub starts-decimal : (n : ℕ) (rest : Text) → starts_with_digit (decimal n rest) ≡ true
unfolding decimal
starts-decimal n rest = starts-decimal_fuel n n rest (omega arith)
