-- ===== src/Music/Moves.antt =====
-- The calls of the controller, and that the moves between tracks stay in bounds.
use esp_mosaico_claw.Base.{
  ℕ, ◌≤◌, ◌<◌, ◌≡◌, refl, inl, inr, Bool, true, false, not, ◌||◌, arith, none, some, leb, ◌==◌,
  Bool-cases, List, [], ◌∷◌, length, Ptr, Text, sym, ap, ◌∙◌, EspErr, ok, is_ok,
}
use esp_mosaico_claw.Music.Audio.{AudioOps, audio_play}
use esp_mosaico_claw.Music.{
  Track, PlaybackState, Controller, next_index, next_track_index, changed, current, track_count,
  toggle_shuffle, play_current, start_simulated, start_device, step, toggle, next, previous_index,
  previous, select,
}
use esp_mosaico_claw.Music.Shuffle.{next_index_bound}

-- The calls of the controller, with what each takes from outside.
pub data Call : Type 0 where
  starts_simulated : ℕ → Call
  -- The outcome of the scan is a code, with the tracks that it found.
  starts_device : ℕ → EspErr → List Track → Call
  steps : ℕ → ℕ → Call
  toggles toggles_shuffle : Call
  nexts previouses selects : ℕ → Call

-- The index is that of a track. Without tracks, it is 0 and there is no player.
pub record IsInBounds {A : Type 0} (c : Controller A) : Type 0 where
  pub in_bounds : 1 ≤ track_count c → c.track_index < track_count c
  pub no_tracks : track_count c ≡ 0 → (c.audio ≡ none) × (c.simulated ≡ false)
  pub unstarted : c.started ≡ false → (c.track_index ≡ 0) × (c.audio ≡ none) × (c.simulated ≡ false)

-- A scan that succeeds has found a track.
abbrev pub IsScan : Call → Type 0
IsScan (starts_device now e found) = e ≡ ok → 1 ≤ length found
IsScan _ = Unit {0}

abbrev pub Leaves : {A : Type 0} → EspErr × Controller A → Type 0
Leaves x = IsInBounds x.1

pub is_ok_ok : (e : EspErr) → not (is_ok e) ≡ false → e ≡ ok
is_ok_ok ok h = refl
is_ok_ok _ h = cc

module _ {A : Type 0} (o : AudioOps A) where
  unfoldable pub call : Controller A → Call → EspErr × Controller A
  call c (starts_simulated now) = start_simulated o c now
  call c (starts_device now e found) = start_device o c now e found
  call c (steps now random) = step o c now random
  call c toggles = toggle o c
  call c toggles_shuffle = toggle_shuffle c
  call c (nexts random) = next o c random
  call c (previouses random) = previous o c random
  call c (selects index) = select o c index

  unfoldable pub after : Controller A → List Call → Controller A
  after c [] = c
  after c (x ∷ xs) = after (call c x).1 xs

  audio_play-none : (a : Ptr A) (p : Text) (n : ℕ) → a ≡ none → (audio_play o p n a).1 ≡ none
  audio_play-none none p n e = refl
  audio_play-none (some a) p n e = cc

  -- Playing changes neither the list nor the index, and gives no player to a controller without.
  pub play_current_frame :
      (c : Controller A)
      → let c' = (play_current o c).1 in
        (c'.tracks ≡ c.tracks)
        × (c'.track_index ≡ c.track_index)
        × (c'.simulated ≡ c.simulated)
        × (c'.started ≡ c.started)
        × (c'.shuffle_enabled ≡ c.shuffle_enabled)
        × (c.audio ≡ none → c'.audio ≡ none)
        × (1 ≤ track_count c → c'.position_ms ≡ 0)
  unfolding play_current changed
  play_current_frame c = elim (Bool-cases (track_count c == 0)) [
    | inl z ↦
        rw (z, play_current) (refl, refl, refl, refl, refl, (λ e. e), λ h. absurd (ground arith))
    | inr nz ↦ elim (Bool-cases c.simulated) [
      | inl s ↦ rw (nz, s, play_current) (refl, refl, refl, refl, refl, (λ e. e), λ h. refl)
      | inr r ↦
          rw (nz, r, play_current)
            (
              refl,
              refl,
              refl,
              refl,
              refl,
              audio_play-none c.audio (current c).path (current c).bytes,
              λ h. refl,
            )
    ]
  ]

  -- What the bounds read of a controller.
  pub kept :
      (c c' : Controller A)
      → c'.tracks ≡ c.tracks
      → c'.track_index ≡ c.track_index
      → c'.simulated ≡ c.simulated
      → c'.started ≡ c.started
      → (c.audio ≡ none → c'.audio ≡ none)
      → IsInBounds c
      → IsInBounds c'
  kept c c' t i s b a v =
      let n : track_count c' ≡ track_count c = ap length t in
      let bound : 1 ≤ track_count c → c.track_index < track_count c = v.in_bounds in
      record {
        in_bounds = λ h. omega (arith, bound (omega arith));
        no_tracks = λ h. let (x, y) = v.no_tracks (omega arith) in (a x, s ∙ y);
        unstarted = λ h. let (z, x, y) = v.unstarted (sym b ∙ h) in (i ∙ z, a x, s ∙ y);
      }

  pub play-IsInBounds : (c : Controller A) → IsInBounds c → IsInBounds (play_current o c).1
  play-IsInBounds c v = let (t, i, s, b, _, a, _) = play_current_frame c in kept c _ t i s b a v

  -- The move to another track, when there is one.
  pub moved :
      (c : Controller A) (i : ℕ)
      → c.started ≡ true
      → i < track_count c
      → IsInBounds (play_current o (record c { track_index = i })).1
  moved c i b h =
      play-IsInBounds (record c { track_index = i })
        (record {
          in_bounds = λ _. h;
          no_tracks = λ z. absurd (omega arith);
          unstarted = λ f. absurd cc;
        })

  pub next-IsInBounds : (c : Controller A) (r : ℕ) → IsInBounds c → IsInBounds (next o c r).1
  unfolding next next_track_index
  next-IsInBounds c r v = elim (Bool-cases (not c.started || track_count c == 0)) [
    | inl g ↦ rw (g, next) v
    | inr g ↦
        rw (g, next)
          (moved c (next_index c.shuffle_enabled (track_count c) c.track_index r) (ground arith)
            (next_index_bound c.shuffle_enabled (track_count c) c.track_index r (ground arith)))
  ]

  pub previous_index_bound :
      (c : Controller A) (r : ℕ)
      → 1 ≤ track_count c
      → IsInBounds c
      → previous_index c r < track_count c
  unfolding previous_index next_track_index
  previous_index_bound c r h v =
      let b : next_index c.shuffle_enabled (track_count c) c.track_index r < track_count c =
        next_index_bound c.shuffle_enabled (track_count c) c.track_index r h in
      let i : c.track_index < track_count c = v.in_bounds h in ground (arith, b, i)

  pub previous-IsInBounds :
      (c : Controller A) (r : ℕ) → IsInBounds c → IsInBounds (previous o c r).1
  unfolding previous
  previous-IsInBounds c r v = elim (Bool-cases (not c.started || track_count c == 0)) [
    | inl g ↦ rw (g, previous) v
    | inr g ↦
        rw (g, previous)
          (moved c (previous_index c r) (ground arith) (previous_index_bound c r (ground arith) v))
  ]

  pub select-IsInBounds : (c : Controller A) (i : ℕ) → IsInBounds c → IsInBounds (select o c i).1
  unfolding select
  select-IsInBounds c i v = elim (Bool-cases (not c.started || leb (track_count c) i)) [
    | inl g ↦ rw (g, select) v
    | inr g ↦ rw (g, select) (moved c i (ground arith) (ground arith))
  ]

  pub same :
      (c : Controller A) (r n l : ℕ) (s : PlaybackState) (x : Bool)
      → IsInBounds c
      → IsInBounds (record c {
        revision = r;
        position_ms = n;
        last_step_us = l;
        state = s;
        shuffle_enabled = x;
      })
  same c r n l s x v = record {
    in_bounds = v.in_bounds;
    no_tracks = v.no_tracks;
    unstarted = v.unstarted;
  }
