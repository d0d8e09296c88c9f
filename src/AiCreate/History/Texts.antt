-- ===== src/AiCreate/History/Texts.antt =====
-- The texts of a history fit the messages.
use esp_mosaico_claw.Base.{
  ◌+◌, ◌-◌, ◌≤◌, ◌<◌, ◌≡◌, inl, inr, false, not, ◌&&◌, Option-cases, List, [], ◌∷◌, ◌++◌, arith,
  if◌then◌else◌, if_cases, ◌==◌, ltb, length, length-append, length-take, Ptr, Text, text, text_eq,
  is_blank, strlcpy, strlcpy-length,
}
use esp_mosaico_claw.AiCreate.Transcript.{text_size}
use esp_mosaico_claw.AiCreate.History.{
  HistoryJson, append_text, copy_block, copy_blocks, copy_content,
}

pub append_text-length : (d t : Text) → length d ≤ 511 → length (append_text text_size d t) ≤ 511
unfolding append_text
append_text-length d t h =
    let P = λ (x : Text). length x ≤ 511 in
    let begun : Text =
      if not (length d == 0) && ltb (length d + 1) text_size then d ++ b'\n' ∷ [] else d in
    let b : P begun =
      if_cases P (not (length d == 0) && ltb (length d + 1) text_size)
        (λ e.
          let q : length d + 1 < 512 = ground arith in omega (arith, length-append d (b'\n' ∷ [])))
        (λ _. h) in
    if_cases P (is_blank t) (λ _. h)
      (λ _.
        if_cases P (ltb (length begun) (text_size - 1))
          (λ _. omega (
            arith,
            length-append begun (strlcpy (text_size - length begun) t),
            length-take (text_size - length begun - 1) t,
          ))
          (λ _. b))

pub append_text-is_blank :
    (d t : Text) → is_blank d ≡ false → is_blank (append_text text_size d t) ≡ false
unfolding append_text
append_text-is_blank [] t h = cc
append_text-is_blank (c ∷ d) t h = ground arith

module _ {J : Type 0} (k : HistoryJson J) where
  copy_block-length :
      (d : Text) (b : J) → length d ≤ 511 → length (copy_block k text_size d b) ≤ 511
  unfolding copy_block
  copy_block-length d b h =
      let P = λ (x : Text). length x ≤ 511 in
      elim (Option-cases (k.string_of (k.get_item b (text "text")))) [
        | inl e ↦ rw (e, copy_block) h
        | inr (t, e) ↦ elim (Option-cases (k.string_of (k.get_item b (text "type")))) [
          | inl f ↦ rw (e, f, copy_block) (append_text-length d t h)
          | inr (y, f) ↦
              rw (e, f, copy_block)
                (if_cases P (text_eq y (text "text")) (λ _. append_text-length d t h) (λ _. h))
        ]
      ]

  copy_blocks-length :
      (d : Text) (bs : List J) → length d ≤ 511 → length (copy_blocks k text_size d bs) ≤ 511
  unfolding copy_blocks
  copy_blocks-length d [] h = h
  copy_blocks-length d (b ∷ bs) h =
      copy_blocks-length (copy_block k text_size d b) bs (copy_block-length d b h)

  pub copy_content-length : (c : Ptr J) → length (copy_content k text_size c) ≤ 511
  unfolding copy_content
  copy_content-length c = elim (Option-cases (k.string_of c)) [
    | inl e ↦
        rw (e, copy_content)
          (if_cases (λ (x : Text). length x ≤ 511) (not (k.is_array c)) (λ _. omega arith)
            (λ _. copy_blocks-length [] (k.items c) (omega arith)))
    | inr (t, e) ↦ rw (e, copy_content) (strlcpy-length 511 t)
  ]
