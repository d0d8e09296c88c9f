-- ===== src/Base/Texts.antt =====
-- C strings as the lists of their bytes, without the terminating NUL.
use Prim.Native.Nat.{ℕ, zero, suc, ◌-◌, ◌≤◌}
use Prim.Native.Char.{code}
use Prim.Native.String.{String}
use mathlib.Core.List.{List, [], ◌∷◌}
use mathlib.Core.Bool.{Bool, true, false, ◌&&◌}
use mathlib.Core.Path.{◌≡◌, refl, ap, ◌∙◌}
use mathlib.Core.Logic.{◌↔◌}
use native.Mathlib.Omega.{arith}
use esp_mosaico_claw.Base.Tests.{◌==◌, leb}
use esp_mosaico_claw.Base.Lists.{length, take, length-take}

abbrev pub Text : Type 0
Text = List ℕ

-- The bytes of an ASCII literal.
abbrev pub text : String → Text
text String.[] = []
text (String.◌∷◌ c s) = code c ∷ text s

-- The test `s[0] == '\0'`.
abbrev pub is_blank : Text → Bool
is_blank [] = true
is_blank (c ∷ s) = false

-- The test `strcmp(s, t) == 0`.
unfoldable pub text_eq : Text → Text → Bool
text_eq [] [] = true
text_eq [] (d ∷ t) = false
text_eq (c ∷ s) [] = false
text_eq (c ∷ s) (d ∷ t) = c == d && text_eq s t

pub text_eq_iff : (s t : Text) → (text_eq s t ≡ true) ↔ (s ≡ t)
unfolding text_eq
text_eq_iff [] [] = (λ _. refl, λ _. refl)
text_eq_iff [] (d ∷ t) = (λ e. cc, λ e. cc)
text_eq_iff (c ∷ s) [] = (λ e. cc, λ e. cc)
text_eq_iff (c ∷ s) (d ∷ t) =
    (λ e. ground (arith, text_eq_iff s t), λ e. ground (arith, text_eq_iff s t))

-- The copy that `strlcpy` leaves in a buffer of `size` bytes.
abbrev pub strlcpy : ℕ → Text → Text
strlcpy size t = take (size - 1) t

take_all : (n : ℕ) (t : Text) → length t ≤ n → take n t ≡ t
take_all zero [] h = refl
take_all zero (c ∷ t) h = ground arith
take_all (suc n) [] h = refl
take_all (suc n) (c ∷ t) h = ap (◌∷◌ c) (take_all n t (omega arith))

pub strlcpy_all : (n : ℕ) (t : Text) → leb (suc n) (length t) ≡ false → strlcpy (suc n) t ≡ t
strlcpy_all n t h = ap (λ m. take m t) (omega arith) ∙ take_all n t (ground arith)

pub strlcpy-length : (n : ℕ) (t : Text) → length (strlcpy (suc n) t) ≤ n
strlcpy-length n t = omega (arith, length-take (suc n - 1) t)
