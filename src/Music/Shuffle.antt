-- ===== src/Music/Shuffle.antt =====
-- The choice of the next track, in order and shuffled.
use native.Mathlib.Nat.{mod-lt, mod-eq_of_lt, mod-eq-sub-mod}
use esp_mosaico_claw.Base.{
  ℕ, ◌+◌, ◌-◌, ◌%◌, ◌≤◌, ◌<◌, ◌≡◌, refl, sym, ◌∙◌, ◌≢◌, ◌⊎◌, inl, inr, ◌↔◌, Bool, true, false, not,
  ◌||◌, arith, ltb, if◌then◌else◌, Bool-cases, subst, ap,
}
use esp_mosaico_claw.Music.{next_index}

pub next_index_bound : (b : Bool) (n i r : ℕ) → 1 ≤ n → next_index b n i r < n
unfolding next_index
next_index_bound b n i r h = elim (Bool-cases (not b || ltb n 2)) [
  | inl p ↦ rw (p, next_index) (mod-lt (i + 1) h)
  | inr p ↦ rw (p, next_index) (mod-lt (i + (1 + r % (n - 1))) h)
]

not_ltb : (a b : ℕ) → b ≤ a → ltb a b ≡ false
not_ltb a b h = ground arith

shuffled : (n i r : ℕ) → 2 ≤ n → next_index true n i r ≡ (i + (1 + r % (n - 1))) % n
unfolding next_index
shuffled n i r h = rw (not_ltb n 2 h, next_index) refl

-- A sum of two numbers below `n`, taken round.
round : (n a b : ℕ) → a < n → b < n → ((a + b) % n ≡ a + b) ⊎ ((a + b) % n + n ≡ a + b)
round n a b p q = elim (Bool-cases (ltb (a + b) n)) [
  | inl l ↦ inl (mod-eq_of_lt (ground arith))
  | inr g ↦
      let ge : n ≤ a + b = ground arith in
      inr (
        omega (
          arith,
          mod-eq-sub-mod {n = a + b} {m = n} (ground arith),
          mod-eq_of_lt {n = a + b - n} {m = n} (ground arith),
        ))
]

-- The value of `rand` that leads from `i` to `j`.
abbrev pub jump : ℕ → ℕ → ℕ → ℕ
jump n i j = if ltb i j then j - i - 1 else j + n - i - 1

jump_lem : (n i j : ℕ) → i < n → j < n → j ≢ i → next_index true n i (jump n i j) ≡ j
jump_lem n i j p q d =
    let o : ℕ = jump n i j in
    let small : o % (n - 1) ≡ o = mod-eq_of_lt (ground arith) in
    let e : next_index true n i o ≡ (i + (1 + o)) % n =
      shuffled n i o (omega arith) ∙ ap (λ x. (i + (1 + x)) % n) small in
    elim (round n i (1 + o) p (ground arith)) [
      | inl u ↦ ground (arith, e, u)
      | inr u ↦ ground (arith, e, u)
    ]

shuffled_moves : (n i r : ℕ) → 2 ≤ n → i < n → next_index true n i r ≢ i
shuffled_moves n i r h p e =
    let b : r % (n - 1) < n - 1 = mod-lt r (omega arith) in
    elim (round n i (1 + r % (n - 1)) p (omega arith)) [
      | inl u ↦ absurd (omega (arith, u, sym (shuffled n i r h) ∙ e))
      | inr u ↦ absurd (omega (arith, u, sym (shuffled n i r h) ∙ e))
    ]

-- With at least two tracks, the tracks that a shuffled choice can lead to, over the values of
-- `rand`, are all the tracks but the one that is left.
pub shuffle_iff :
    (n i j : ℕ) → 2 ≤ n → i < n → ((r : ℕ) × (next_index true n i r ≡ j)) ↔ ((j < n) × (j ≢ i))
shuffle_iff n i j h p = (
  λ (r, e). (
    subst (λ k. k < n) e (next_index_bound true n i r (omega arith)),
    λ f. shuffled_moves n i r h p (e ∙ f),
  ),
  λ (q, d). (jump n i j, jump_lem n i j p q d),
)
