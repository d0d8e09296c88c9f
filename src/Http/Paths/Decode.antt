-- ===== src/Http/Paths/Decode.antt =====
-- The decoding against an encoding.
use esp_mosaico_claw.Base.{
  ℕ, suc, ◌+◌, ◌-◌, ◌/◌, ◌%◌, ◌≤◌, ◌<◌, ◌≡◌, refl, sym, ap, ◌∙◌, ◌≢◌, Bool, Option, none, some,
  List, [], ◌∷◌, arith, if◌then◌else◌, if_cases, ◌==◌, ltb, length, All, Text,
}
use esp_mosaico_claw.Http.Paths.{
  hex_value, escaped, plain, decode, decode_step, c_string, url_decode_inplace,
}

-- A digit as a client writes it, in upper or in lower case.
abbrev pub hex_digit : Bool → ℕ → ℕ
hex_digit upper d =
    if ltb d 10 then b'0' + d else (if upper then b'A' + (d - 10) else b'a' + (d - 10))

-- How a client may write a byte: as it is, a space as a plus, or escaped.
pub data Spelling : Type 0 where
  kept plus : Spelling
  percent : Bool → Bool → Spelling

-- A byte with the way that it is written.
abbrev pub Spelled : Type 0
Spelled = ℕ × Spelling

pub encode : List Spelled → Text
encode [] = []
encode ((c, kept) ∷ s) = c ∷ encode s
encode ((c, plus) ∷ s) = b'+' ∷ encode s
encode ((c, percent u l) ∷ s) = b'%' ∷ hex_digit u (c / 16) ∷ hex_digit l (c % 16) ∷ encode s

abbrev pub bytes : List Spelled → Text
bytes [] = []
bytes ((c, w) ∷ s) = c ∷ bytes s

-- The bytes of a C string, where only those without a meaning stay as they are and only the space
-- is a plus.
abbrev pub Spells : Spelled → Type 0
Spells (c, kept) = (1 ≤ c) × (c < 256) × (c ≢ b'%') × (c ≢ b'+')
Spells (c, plus) = c ≡ b' '
Spells (c, percent u l) = (1 ≤ c) × (c < 256)

pub hex_value-digit : (u : Bool) (d : ℕ) → d < 16 → hex_value (hex_digit u d) ≡ some d
unfolding hex_value
hex_value-digit u d h = ground arith

escaped-digits :
    (u l : Bool) (c : ℕ) → c < 256 → escaped (hex_digit u (c / 16)) (hex_digit l (c % 16)) ≡ some c
unfolding escaped
escaped-digits u l c h =
    rw (hex_value-digit u (c / 16) (omega arith), hex_value-digit l (c % 16) (omega arith))
      (ap some (omega arith))

decode-plain : (c : ℕ) (s : Text) → c ≢ b'%' → decode (c ∷ s) ≡ plain c ∷ decode s
unfolding decode
decode-plain c [] h = refl
decode-plain c (d ∷ []) h = refl
decode-plain c (d ∷ e ∷ s) h =
    if_cases (λ x. x ≡ plain c ∷ decode (d ∷ e ∷ s)) (c == b'%') (λ t. absurd (h (ground arith)))
      (λ _. refl)

decode_percent :
    (u l : Bool) (c : ℕ) (s : Text)
    → c < 256
    → decode (b'%' ∷ hex_digit u (c / 16) ∷ hex_digit l (c % 16) ∷ s) ≡ c ∷ decode s
unfolding decode
decode_percent u l c s h = rw (escaped-digits u l c h, decode) refl

plain_same : (c : ℕ) → c ≢ b'+' → plain c ≡ c
unfolding plain
plain_same c h = ground arith

decode-encode : (s : List Spelled) → All Spells s → decode (encode s) ≡ bytes s
unfolding decode plain encode
decode-encode [] a = refl
decode-encode ((c, kept) ∷ s) ((p, q, r, t), a) =
    decode-plain c (encode s) r ∙ rw (plain_same c t, decode-encode s a) refl
decode-encode ((c, plus) ∷ s) (p, a) =
    decode-plain b'+' (encode s) (omega arith)
    ∙ ap (◌∷◌ b' ') (decode-encode s a)
    ∙ ap (λ x. x ∷ bytes s) (sym p)
decode-encode ((c, percent u l) ∷ s) ((p, q), a) =
    decode_percent u l c (encode s) q ∙ ap (◌∷◌ c) (decode-encode s a)

Spells-positive : (c : ℕ) (w : Spelling) → Spells (c, w) → 1 ≤ c
Spells-positive c kept p = p.0
Spells-positive c plus p = omega arith
Spells-positive c (percent u l) p = p.0

c_string-bytes : (s : List Spelled) → All Spells s → c_string (bytes s) ≡ bytes s
unfolding c_string
c_string-bytes [] a = refl
c_string-bytes ((c, w) ∷ s) (p, a) =
    let q : 1 ≤ c = Spells-positive c w p in
    if_cases (λ x. x ≡ c ∷ bytes s) (c == 0) (λ z. ground arith)
      (λ _. ap (◌∷◌ c) (c_string-bytes s a))

-- Whatever way a client writes the bytes of a text, as they are, a space as a plus, or escaped with
-- digits of either case, the decoding in place gives the text back.
pub url_decode-encode :
    (s : List Spelled) → All Spells s → url_decode_inplace (some (encode s)) ≡ some (bytes s)
unfolding url_decode_inplace
url_decode-encode s a = ap some (ap c_string (decode-encode s a) ∙ c_string-bytes s a)

decode_step-length :
    (o : Option ℕ) (c : ℕ) (rest after : Text) (n : ℕ)
    → length rest ≤ suc (suc n)
    → length after ≤ n
    → length (decode_step o c rest after) ≤ suc (suc (suc n))
decode_step-length none c rest after n a b = omega arith
decode_step-length (some x) c rest after n a b = omega arith

-- The write position never passes the read position: no text gets longer.
pub decode-length : (s : Text) → length (decode s) ≤ length s
unfolding decode
decode-length [] = omega arith
decode-length (c ∷ []) = omega arith
decode-length (c ∷ d ∷ []) = omega (arith, decode-length (d ∷ []))
decode-length (c ∷ d ∷ e ∷ s) =
    let a : length (decode (d ∷ e ∷ s)) ≤ length (d ∷ e ∷ s) = decode-length (d ∷ e ∷ s) in
    let b : length (decode s) ≤ length s = decode-length s in
    let p : length (plain c ∷ decode (d ∷ e ∷ s)) ≤ suc (suc (suc (length s))) = omega arith in
    if_cases (λ (x : Text). length x ≤ suc (suc (suc (length s)))) (c == b'%')
      (λ _. decode_step-length (escaped d e) c (decode (d ∷ e ∷ s)) (decode s) (length s) a b)
      (λ _. p)
