-- ===== src/Music/Bounds.antt =====
-- The current track is one of the list, whatever is called.
use esp_mosaico_claw.Base.{
  ℕ, ◌≤◌, ◌<◌, ◌≡◌, refl, ◌⊎◌, inl, inr, Bool, true, false, not, ◌||◌, arith, none, some, ltb, leb,
  if◌then◌else◌, ◌==◌, Bool-cases, if_cases, All, List, [], ◌∷◌, length, length-set, set, Ptr,
  EspErr, ok, is_ok,
}
use esp_mosaico_claw.Music.Audio.{AudioStatus, AudioOps, audio_pause, audio_resume, audio_status}
use esp_mosaico_claw.Music.{
  Track, PlaybackState, Controller, next_track_index, changed, create, current, track_count,
  load_simulated_tracks, simulated_tracks, toggle_shuffle, played, step_simulated, take_status,
  play_current, start_simulated, start_device, step_status, step, toggled, toggle_player, toggle,
  is_playing, is_finished, same_state, playback_of,
}
use esp_mosaico_claw.Music.Shuffle.{next_index_bound}
use esp_mosaico_claw.Music.Moves.{
  Call, IsInBounds, IsScan, Leaves, is_ok_ok, call, after, kept, play-IsInBounds, moved,
  next-IsInBounds, previous-IsInBounds, select-IsInBounds, same, starts_simulated, starts_device,
  steps, toggles, toggles_shuffle, nexts, previouses, selects,
}

module _ {A : Type 0} (o : AudioOps A) where
  played-IsInBounds :
      (c : Controller A) (now r p : ℕ)
      → c.started ≡ true
      → 1 ≤ track_count c
      → IsInBounds c
      → IsInBounds (played c now r p)
  unfolding played next_track_index
  played-IsInBounds c now r p b h v = elim (Bool-cases (leb (current c).duration_ms p)) [
    | inl g ↦
        rw (g, played)
          (record {
            in_bounds = λ _. next_index_bound c.shuffle_enabled (track_count c) c.track_index r h;
            no_tracks = v.no_tracks;
            unstarted = λ f. absurd cc;
          })
    | inr g ↦
        rw (g, played)
          (record { in_bounds = v.in_bounds; no_tracks = v.no_tracks; unstarted = v.unstarted })
  ]

  pub simulated_tracks_given :
      (c : Controller A) → c.simulated ≡ true → IsInBounds c → 1 ≤ track_count c
  simulated_tracks_given c s v = elim (Bool-cases (track_count c == 0)) [
    | inl z ↦ let (_, f) = v.no_tracks (ground arith) in absurd cc
    | inr z ↦ ground arith
  ]

  pub player_tracks_given :
      (c : Controller A) (a : A) → c.audio ≡ some a → IsInBounds c → 1 ≤ track_count c
  player_tracks_given c a s v = elim (Bool-cases (track_count c == 0)) [
    | inl z ↦ let (f, _) = v.no_tracks (ground arith) in absurd cc
    | inr z ↦ ground arith
  ]

  step_simulated-IsInBounds :
      (c : Controller A) (now r : ℕ)
      → c.started ≡ true
      → c.simulated ≡ true
      → IsInBounds c
      → IsInBounds (step_simulated c now r).1
  unfolding step_simulated changed
  step_simulated-IsInBounds c now r b s v = elim (Bool-cases (ltb now c.last_step_us)) [
    | inl g ↦ rw (g, step_simulated) (same o c _ _ _ _ _ v)
    | inr g ↦ elim (Bool-cases (is_playing c.state)) [
      | inl p ↦
          rw (g, p, step_simulated)
            (same o _ _ _ _ _ _ (played-IsInBounds c now r _ b (simulated_tracks_given c s v) v))
      | inr p ↦ rw (g, p, step_simulated) (same o c _ _ _ _ _ v)
    ]
  ]

  with_duration :
      (c : Controller A) (t : Track)
      → IsInBounds c
      → IsInBounds (record c { tracks = set c.tracks c.track_index t })
  with_duration c t v =
      let n : length (set c.tracks c.track_index t) ≡ length c.tracks =
        length-set c.tracks c.track_index t in
      let bound : 1 ≤ track_count c → c.track_index < track_count c = v.in_bounds in
      record {
        in_bounds = λ h. omega (arith, n, bound (omega (arith, n)));
        no_tracks = λ h. v.no_tracks (omega (arith, n));
        unstarted = v.unstarted;
      }

  take_status-IsInBounds :
      (c : Controller A) (s : AudioStatus) → IsInBounds c → IsInBounds (take_status c s)
  unfolding take_status changed
  take_status-IsInBounds c s v =
      let w : (t : Track) → IsInBounds (record c { tracks = set c.tracks c.track_index t }) =
        λ t. with_duration c t v in
      elim (Bool-cases (ltb 0 s.audio_duration_ms)) [
        | inl d ↦
            elim (Bool-cases (
              not (c.position_ms == s.audio_position_ms)
              || not (same_state c.state (playback_of s.audio_state)))) [
                | inl g ↦ rw (d, g, take_status) (same o _ _ _ _ _ _ (w _))
                | inr g ↦ rw (d, g, take_status) (w _)
              ]
        | inr d ↦
            elim (Bool-cases (
              not (c.position_ms == s.audio_position_ms)
              || not (same_state c.state (playback_of s.audio_state)))) [
                | inl g ↦ rw (d, g, take_status) (same o _ _ _ _ _ _ v)
                | inr g ↦ rw (d, g, take_status) v
              ]
      ]

  step_status-IsInBounds :
      (c : Controller A) (e : EspErr) (s : Ptr AudioStatus) (r : ℕ)
      → c.started ≡ true
      → 1 ≤ track_count c
      → IsInBounds c
      → IsInBounds (step_status o c (e, s) r).1
  unfolding step_status next_track_index
  step_status-IsInBounds c e none r b h v = v
  step_status-IsInBounds c e (some s) r b h v = elim (Bool-cases (not (is_ok e))) [
    | inl g ↦ rw (g, step_status) v
    | inr g ↦ elim (Bool-cases (is_finished s.audio_state)) [
      | inl f ↦
          rw (g, f, step_status)
            (moved o c _ b (next_index_bound c.shuffle_enabled (track_count c) c.track_index r h))
      | inr f ↦ rw (g, f, step_status) (take_status-IsInBounds c s v)
    ]
  ]

  step_player-IsInBounds :
      (c : Controller A) (a : Ptr A) (r : ℕ)
      → c.audio ≡ a
      → c.started ≡ true
      → IsInBounds c
      → IsInBounds (step_status o c (audio_status o a) r).1
  unfolding step_status
  step_player-IsInBounds c none r e b v = v
  step_player-IsInBounds c (some a) r e b v =
      step_status-IsInBounds c (o.status a).0 (some (o.status a).1) r b
        (player_tracks_given c a e v) v

  step-IsInBounds : (c : Controller A) (now r : ℕ) → IsInBounds c → IsInBounds (step o c now r).1
  unfolding step
  step-IsInBounds c now r v =
      if_cases Leaves (not c.started) (λ g. v)
        (λ g.
          if_cases Leaves c.simulated (λ s. step_simulated-IsInBounds c now r (ground arith) s v)
            (λ s. step_player-IsInBounds c c.audio r refl (ground arith) v))

  toggled-IsInBounds :
      (c : Controller A) (e : EspErr) (a : Ptr A) (s : PlaybackState)
      → (c.audio ≡ none → a ≡ none)
      → IsInBounds c
      → IsInBounds (toggled o c (e, a) s).1
  unfolding toggled changed
  toggled-IsInBounds c e a s h v =
      if_cases Leaves (is_ok e) (λ _. kept o c _ refl refl refl refl h v)
        (λ _. kept o c _ refl refl refl refl h v)

  audio_pause-none : (a : Ptr A) → a ≡ none → (audio_pause o a).1 ≡ none
  audio_pause-none none e = refl
  audio_pause-none (some a) e = cc

  audio_resume-none : (a : Ptr A) → a ≡ none → (audio_resume o a).1 ≡ none
  audio_resume-none none e = refl
  audio_resume-none (some a) e = cc

  replay-IsInBounds :
      (c : Controller A) (b : Bool)
      → IsInBounds c
      → IsInBounds (if b then changed (play_current o c).1 else (play_current o c).1)
  unfolding changed
  replay-IsInBounds c b v =
      if_cases IsInBounds b (λ _. same o _ _ _ _ _ _ (play-IsInBounds o c v))
        (λ _. play-IsInBounds o c v)

  toggle_player-IsInBounds :
      (c : Controller A) (s : PlaybackState) → IsInBounds c → IsInBounds (toggle_player o c s).1
  unfolding toggle_player
  toggle_player-IsInBounds c PlaybackState.playing v =
      toggled-IsInBounds c (audio_pause o c.audio).0 (audio_pause o c.audio).1 PlaybackState.paused
        (audio_pause-none c.audio) v
  toggle_player-IsInBounds c PlaybackState.paused v =
      toggled-IsInBounds c (audio_resume o c.audio).0 (audio_resume o c.audio).1
        PlaybackState.playing (audio_resume-none c.audio) v
  toggle_player-IsInBounds c _ v = replay-IsInBounds c (is_ok (play_current o c).0) v

  toggle-IsInBounds : (c : Controller A) → IsInBounds c → IsInBounds (toggle o c).1
  unfolding toggle changed
  toggle-IsInBounds c v =
      if_cases Leaves (not c.started || track_count c == 0) (λ _. v)
        (λ _.
          if_cases Leaves c.simulated (λ _. same o c _ _ _ _ _ v)
            (λ _. toggle_player-IsInBounds c c.state v))

  toggle_shuffle-IsInBounds : (c : Controller A) → IsInBounds c → IsInBounds (toggle_shuffle c).1
  unfolding toggle_shuffle changed
  toggle_shuffle-IsInBounds c v =
      if_cases Leaves (not c.started) (λ _. v) (λ _. same o c _ _ _ _ _ v)

  -- What a start has loaded, before the first track plays.
  loaded :
      (c : Controller A) (found : List Track) (now : ℕ) (a : Ptr A) (s : Bool) (p : PlaybackState)
      (r : ℕ)
      → c.track_index ≡ 0
      → (length found ≡ 0 → (a ≡ none) × (s ≡ false))
      → IsInBounds (record c {
        tracks = found;
        started = true;
        last_step_us = now;
        audio = a;
        simulated = s;
        state = p;
        revision = r;
      })
  loaded c found now a s p r z h = record {
    in_bounds = λ n. omega arith;
    no_tracks = h;
    unstarted = λ f. absurd cc;
  }

  start_simulated-IsInBounds :
      (c : Controller A) (now : ℕ) → IsInBounds c → IsInBounds (start_simulated o c now).1
  unfolding start_simulated load_simulated_tracks simulated_tracks
  start_simulated-IsInBounds c now v =
      if_cases Leaves c.started (λ _. v)
        (λ b.
          play-IsInBounds o _
            (loaded c simulated_tracks now _ _ _ _ (v.unstarted b).0 (λ z. absurd (omega arith))))

  start_device-IsInBounds :
      (c : Controller A) (now : ℕ) (e : EspErr) (found : List Track)
      → (e ≡ ok → 1 ≤ length found)
      → IsInBounds c
      → IsInBounds (start_device o c now e found).1
  unfolding start_device changed
  start_device-IsInBounds c now e found h v =
      if_cases Leaves c.started (λ _. v)
        (λ b.
          let (z, a, s) = v.unstarted b in
          let given : not (is_ok e) ≡ false → 1 ≤ length found = λ g. h (is_ok_ok e g) in
          if_cases Leaves (not (is_ok e)) (λ _. loaded c found now _ _ _ _ z (λ _. (a, s)))
            (λ g.
              if_cases Leaves (not (is_ok o.create.0))
                (λ _. loaded c found now _ _ _ _ z (λ _. (a, s)))
                (λ _.
                  play-IsInBounds o _
                    (loaded c found now _ _ _ _ z (λ n. absurd (omega (arith, given g)))))))

  -- Every call o leaves the index at a track, if there is one.
  pub call-IsInBounds :
      (c : Controller A) (x : Call) → IsScan x → IsInBounds c → IsInBounds (call o c x).1
  unfolding call
  call-IsInBounds c (starts_simulated now) h v = start_simulated-IsInBounds c now v
  call-IsInBounds c (starts_device now e found) h v = start_device-IsInBounds c now e found h v
  call-IsInBounds c (steps now random) h v = step-IsInBounds c now random v
  call-IsInBounds c toggles h v = toggle-IsInBounds c v
  call-IsInBounds c toggles_shuffle h v = toggle_shuffle-IsInBounds c v
  call-IsInBounds c (nexts random) h v = next-IsInBounds o c random v
  call-IsInBounds c (previouses random) h v = previous-IsInBounds o c random v
  call-IsInBounds c (selects index) h v = select-IsInBounds o c index v

  after-IsInBounds :
      (c : Controller A) (xs : List Call) → All IsScan xs → IsInBounds c → IsInBounds (after o c xs)
  unfolding after
  after-IsInBounds c [] h v = v
  after-IsInBounds c (x ∷ xs) h v =
      after-IsInBounds (call o c x).1 xs h.1 (call-IsInBounds c x h.0 v)

  -- A new controller, after o any calls, with any answers of the player, any values of `rand` and any
  -- scan that found a track when it succeeded: the index is that of one of the tracks, if there are
  -- any, and without tracks there is no player and the playback is not simulated.
  pub after_create_bounds :
      (xs : List Call)
      → All IsScan xs
      → let c = after o create xs in
        (c.track_index < track_count c)
        ⊎ ((track_count c ≡ 0) × (c.audio ≡ none) × (c.simulated ≡ false))
  after_create_bounds xs h =
      let v : IsInBounds (after o create xs) = after-IsInBounds create xs h (record {
        in_bounds = λ n. absurd (omega arith);
        no_tracks = λ _. (refl, refl);
        unstarted = λ _. (refl, refl, refl);
      }) in
      elim (Bool-cases (track_count (after o create xs) == 0)) [
        | inl z ↦
            let n : track_count (after o create xs) ≡ 0 = ground arith in
            let (a, b) = v.no_tracks n in inr (n, a, b)
        | inr n ↦ inl (v.in_bounds (ground arith))
      ]
