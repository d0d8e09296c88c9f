-- ===== src/Music/Order.antt =====
-- Going on and back through the tracks in order.
use native.Mathlib.Nat.{mod-eq_of_lt, mod-add-mod, mod_self}
use esp_mosaico_claw.Base.{
  ℕ, ◌+◌, ◌-◌, ◌%◌, ◌≤◌, ◌<◌, ◌≡◌, refl, sym, ap, ◌∙◌, ◌⊎◌, inl, inr, true, false, not, ◌||◌, arith,
  ltb, leb, if◌then◌else◌, ◌==◌, Bool-cases, List, [], ◌∷◌, length, map,
}
use esp_mosaico_claw.Music.Audio.{AudioOps}
use esp_mosaico_claw.Music.{
  Controller, next_index, next_track_index, track_count, next, previous_index, previous,
  play_current,
}
use esp_mosaico_claw.Music.Shuffle.{next_index_bound}
use esp_mosaico_claw.Music.Moves.{nexts, call, after, play_current_frame}

next_in_order : (n i r : ℕ) → next_index false n i r ≡ (i + 1) % n
unfolding next_index
next_in_order n i r = refl

wrap : (i n : ℕ) → i < n → (((i + 1) % n ≡ i + 1) × (i + 1 < n)) ⊎ (((i + 1) % n ≡ 0) × (i + 1 ≡ n))
wrap i n h = elim (Bool-cases (ltb (i + 1) n)) [
  | inl l ↦ let p : i + 1 < n = ground arith in inl (mod-eq_of_lt p, p)
  | inr g ↦ let e : i + 1 ≡ n = ground arith in inr (ap (λ j. j % n) e ∙ mod_self n, e)
]

-- A controller at a track, in order.
pub record IsOrdered {A : Type 0} (c : Controller A) : Type 0 where
  pub is_started : c.started ≡ true
  pub in_order : c.shuffle_enabled ≡ false
  pub at_track : c.track_index < track_count c

module _ {A : Type 0} (o : AudioOps A) where
  played_at :
      (c : Controller A) (i : ℕ)
      → IsOrdered c
      → i < track_count c
      → let c' = (play_current o (record c { track_index = i })).1 in
        IsOrdered c'
        × (c'.track_index ≡ i)
        × (track_count c' ≡ track_count c)
        × (c'.position_ms ≡ 0)
  played_at c i v h =
      let (t, x, _, b, s, _, p) = play_current_frame o (record c { track_index = i }) in
      let n : track_count (play_current o (record c { track_index = i })).1 ≡ track_count c =
        ap length t in
      (
        record {
          is_started = b ∙ v.is_started;
          in_order = s ∙ v.in_order;
          at_track = omega (arith, x, n);
        },
        x,
        n,
        p (omega arith),
      )

  enabled : (c : Controller A) → IsOrdered c → (not c.started || track_count c == 0) ≡ false
  enabled c v =
      let k : c.track_index < track_count c = v.at_track in
      let b : c.started ≡ true = v.is_started in ground arith

  next_step :
      (c : Controller A) (r : ℕ)
      → IsOrdered c
      → let c' = (next o c r).1 in
        IsOrdered c'
        × (c'.track_index ≡ (c.track_index + 1) % track_count c)
        × (track_count c' ≡ track_count c)
        × (c'.position_ms ≡ 0)
  unfolding next next_track_index
  next_step c r v =
      let b : next_index c.shuffle_enabled (track_count c) c.track_index r
          ≡ (c.track_index + 1) % track_count c =
        ap (λ s. next_index s (track_count c) c.track_index r) v.in_order
        ∙ next_in_order (track_count c) c.track_index r in
      let h : c.track_index < track_count c = v.at_track in
      let (w, x, n, z) =
        played_at c (next_track_index c r) v
          (next_index_bound c.shuffle_enabled (track_count c) c.track_index r (omega (arith, h))) in
      rw (enabled c v, next) (w, x ∙ b, n, z)

  previous_step :
      (c : Controller A) (r : ℕ)
      → IsOrdered c
      → c.position_ms ≤ 3000
      → (previous o c r).1.track_index
        ≡ (if c.track_index == 0 then track_count c - 1 else c.track_index - 1)
  unfolding previous previous_index
  previous_step c r v h =
      let i : previous_index c r
          ≡ (if c.track_index == 0 then track_count c - 1 else c.track_index - 1) =
        let p : leb c.position_ms 3000 ≡ true = ground arith in
        rw (p, v.in_order, previous_index) refl in
      let k : c.track_index < track_count c = v.at_track in
      rw (enabled c v, previous) ((played_at c (previous_index c r) v (ground (arith, i))).1 ∙ i)

  -- In order, going on and then back comes to the same track, whatever the player answers.
  pub previous-next :
      (c : Controller A) (r r' : ℕ)
      → IsOrdered c
      → (previous o (next o c r).1 r').1.track_index ≡ c.track_index
  previous-next c r r' v =
      let (w, x, n, z) = next_step c r v in
      let k : c.track_index < track_count c = v.at_track in
      previous_step (next o c r).1 r' w (omega (arith, z))
      ∙ (elim (wrap c.track_index (track_count c) k) [
        | inl (e, l) ↦ ground (arith, x, n, e)
        | inr (e, l) ↦ ground (arith, x, n, e)
      ])

  -- In order, n calls of `next` go on by n tracks, round the list, whatever the player answers.
  pub nexts_cycle :
      (c : Controller A) (rs : List ℕ)
      → IsOrdered c
      → (after o c (map nexts rs)).track_index ≡ (c.track_index + length rs) % track_count c
  unfolding after call
  nexts_cycle c [] v = sym (ap (λ i. i % track_count c) (omega arith) ∙ mod-eq_of_lt v.at_track)
  nexts_cycle c (r ∷ rs) v =
      let (w, x, n, z) = next_step c r v in
      nexts_cycle (next o c r).1 rs w
      ∙ (let m : ((c.track_index + 1) % track_count c + length rs) % track_count c
              ≡ (c.track_index + 1 + length rs) % track_count c =
            mod-add-mod (c.track_index + 1) (track_count c) (length rs) in
          ap (λ i. (i + length rs) % track_count (next o c r).1) x
          ∙ ap (λ j. ((c.track_index + 1) % track_count c + length rs) % j) n
          ∙ m
          ∙ ap (λ i. i % track_count c) (omega arith))
