-- ===== src/Update/Version/Order.antt =====
-- What a comparison needs to succeed.
use Prim.Native.Nat.{Ordering}
use esp_mosaico_claw.Base.{ℕ, ◌≡◌, refl, true, some, arith, Text, ok, is_ok, Option-cases, inl, inr}
use esp_mosaico_claw.Update.Version.{parse_parts, compare_parts, compare_versions}

-- A comparison without an error has a result.
pub compare_ok :
    (ulong_max : ℕ) (l r : Text)
    → is_ok ((compare_versions ulong_max (some l) (some r) true).0) ≡ true
    → (o : Ordering) × (compare_versions ulong_max (some l) (some r) true ≡ (ok, some o))
unfolding compare_versions
compare_ok ulong_max l r e = elim (Option-cases (parse_parts ulong_max 3 l r)) [
  | inl a ↦ absurd (ground arith)
  | inr (p, a) ↦ (compare_parts p.0 p.1, rw a refl)
]
