-- ===== src/Music/Revisions.antt =====
-- The revision tells a reader of the snapshot when to read again.
use esp_mosaico_claw.Base.{
  ℕ, ◌+◌, ◌-◌, ◌/◌, ◌≤◌, ◌<◌, ◌≡◌, refl, sym, ◌≢◌, ◌⊎◌, inl, inr, Bool, true, not, ◌||◌, arith,
  none, some, ltb, leb, if◌then◌else◌, ◌==◌, if_cases, Ptr, EspErr, is_ok, u32_mod, ap, ◌∙◌,
}
use esp_mosaico_claw.Music.Audio.{AudioStatus, AudioOps, audio_status}
use esp_mosaico_claw.Music.{
  PlaybackState, Controller, next_revision, next_track_index, changed, current, track_count,
  toggle_shuffle, step_simulated, take_status, play_current, start_simulated, start_device,
  step_status, step, toggled, toggle_player, toggle, next, previous, select, is_playing,
  is_finished, same_state, playback_of, played,
}
use esp_mosaico_claw.Music.Moves.{
  Call, IsInBounds, starts_simulated, starts_device, steps, toggles, toggles_shuffle, nexts,
  previouses, selects, call,
}
use esp_mosaico_claw.Music.Bounds.{player_tracks_given}

next_revision_lem :
    (r : ℕ)
    → r < u32_mod
    → (next_revision r ≢ r) × (1 ≤ next_revision r) × (next_revision r < u32_mod)
unfolding next_revision
next_revision_lem r h = ground arith

next_revision_twice : (r : ℕ) → r < u32_mod → next_revision (next_revision r) ≢ r
unfolding next_revision
next_revision_twice r h = ground arith

-- What the controller shows of its playback.
pub record ShowsSame {A : Type 0} (c c' : Controller A) : Type 0 where
  pub same_playback : c'.state ≡ c.state
  pub same_index : c'.track_index ≡ c.track_index
  pub same_position : c'.position_ms ≡ c.position_ms
  pub same_shuffle : c'.shuffle_enabled ≡ c.shuffle_enabled

abbrev pub Tells : {A : Type 0} → Controller A → Controller A → Type 0
Tells c c' = ShowsSame c c' ⊎ (c'.revision ≢ c.revision)

abbrev TellsOf : {A : Type 0} → Controller A → EspErr × Controller A → Type 0
TellsOf c x = Tells c x.1

shows_same :
    {A : Type 0} {c : Controller A} (c' : Controller A)
    → c'.state ≡ c.state
    → c'.track_index ≡ c.track_index
    → c'.position_ms ≡ c.position_ms
    → c'.shuffle_enabled ≡ c.shuffle_enabled
    → Tells c c'
shows_same c' a b d e =
    inl (record { same_playback = a; same_index = b; same_position = d; same_shuffle = e })

unchanged : {A : Type 0} (c : Controller A) → Tells c c
unchanged c = shows_same c refl refl refl refl

module _ {A : Type 0} (o : AudioOps A) where
  play_current_revision :
      (c : Controller A)
      → 1 ≤ track_count c
      → (play_current o c).1.revision ≡ next_revision c.revision
  unfolding play_current changed
  play_current_revision c h =
      if_cases (λ (x : EspErr × Controller A). x.1.revision ≡ next_revision c.revision)
        (track_count c == 0) (λ z. absurd (ground arith))
        (λ _.
          if_cases (λ (x : EspErr × Controller A). x.1.revision ≡ next_revision c.revision)
            c.simulated (λ _. refl) (λ _. refl))

  module _ (c : Controller A) (h : c.revision < u32_mod) where
    moved-Tells :
        (i : ℕ) → 1 ≤ track_count c → Tells c (play_current o (record c { track_index = i })).1
    moved-Tells i n = inr (λ e.
        (next_revision_lem c.revision h).0
          (sym (play_current_revision (record c { track_index = i }) n) ∙ e))

    changed-Tells : (c' : Controller A) → c'.revision ≡ c.revision → Tells c (changed c')
    unfolding changed
    changed-Tells c' e =
        inr (λ f. (next_revision_lem c.revision h).0 (ap next_revision (sym e) ∙ f))

    toggled-Tells : (e : EspErr) (a : Ptr A) (s : PlaybackState) → TellsOf c (toggled o c (e, a) s)
    unfolding toggled
    toggled-Tells e a s =
        if_cases (TellsOf c) (is_ok e) (λ _. changed-Tells (record c { audio = a; state = s }) refl)
          (λ _. shows_same _ refl refl refl refl)

    replay-Tells :
        (b : Bool)
        → 1 ≤ track_count c
        → Tells c (if b then changed (play_current o c).1 else (play_current o c).1)
    unfolding changed
    replay-Tells b n =
        if_cases (Tells c) b
          (λ _. inr (λ e.
            next_revision_twice c.revision h
              (ap next_revision (sym (play_current_revision c n)) ∙ e)))
          (λ _. inr (λ e. (next_revision_lem c.revision h).0 (sym (play_current_revision c n) ∙ e)))

    toggle_player-Tells : (s : PlaybackState) → 1 ≤ track_count c → TellsOf c (toggle_player o c s)
    unfolding toggle_player
    toggle_player-Tells PlaybackState.playing n = toggled-Tells _ _ _
    toggle_player-Tells PlaybackState.paused n = toggled-Tells _ _ _
    toggle_player-Tells _ n = replay-Tells (is_ok (play_current o c).0) n

    step_simulated-Tells : (now r : ℕ) → TellsOf c (step_simulated c now r)
    unfolding step_simulated played
    step_simulated-Tells now r =
        if_cases (TellsOf c) (ltb now c.last_step_us) (λ _. shows_same _ refl refl refl refl)
          (λ _.
            if_cases (TellsOf c) (is_playing c.state)
              (λ _. changed-Tells _ (
                if_cases (λ (x : Controller A). x.revision ≡ c.revision)
                  (leb (current c).duration_ms (c.position_ms + (now - c.last_step_us) / 1000))
                  (λ _. refl) (λ _. refl)))
              (λ _. shows_same _ refl refl refl refl))

    take_status-Tells : (s : AudioStatus) → Tells c (take_status c s)
    unfolding take_status
    take_status-Tells s =
        if_cases (Tells c)
          (not (c.position_ms == s.audio_position_ms)
            || not (same_state c.state (playback_of s.audio_state)))
          (λ _. changed-Tells _ (
            if_cases (λ (x : Controller A). x.revision ≡ c.revision) (ltb 0 s.audio_duration_ms)
              (λ _. refl) (λ _. refl)))
          (λ _.
            if_cases (Tells c) (ltb 0 s.audio_duration_ms) (λ _. shows_same _ refl refl refl refl)
              (λ _. unchanged c))

    step_status-Tells :
        (e : EspErr) (s : Ptr AudioStatus) (r : ℕ)
        → 1 ≤ track_count c
        → TellsOf c (step_status o c (e, s) r)
    unfolding step_status
    step_status-Tells e none r n = unchanged c
    step_status-Tells e (some s) r n =
        if_cases (TellsOf c) (not (is_ok e)) (λ _. unchanged c)
          (λ _.
            if_cases (TellsOf c) (is_finished s.audio_state)
              (λ _. moved-Tells (next_track_index c r) n) (λ _. take_status-Tells s))

    step_player-Tells :
        (a : Ptr A) (r : ℕ)
        → c.audio ≡ a
        → IsInBounds c
        → TellsOf c (step_status o c (audio_status o a) r)
    unfolding step_status
    step_player-Tells none r e v = unchanged c
    step_player-Tells (some a) r e v =
        step_status-Tells (o.status a).0 (some (o.status a).1) r (player_tracks_given o c a e v)

    -- A call on a controller that has started either leaves the state, the index, the position and
    -- the order of the playback as they are, or changes the revision.
    pub call-Tells : (x : Call) → c.started ≡ true → IsInBounds c → Tells c (call o c x).1
    unfolding call start_simulated start_device step toggle toggle_shuffle next previous select
    call-Tells (starts_simulated now) b v =
        if_cases (TellsOf c) c.started (λ _. unchanged c) (λ f. absurd cc)
    call-Tells (starts_device now e found) b v =
        if_cases (TellsOf c) c.started (λ _. unchanged c) (λ f. absurd cc)
    call-Tells (steps now r) b v =
        if_cases (TellsOf c) (not c.started) (λ _. unchanged c)
          (λ _.
            if_cases (TellsOf c) c.simulated (λ _. step_simulated-Tells now r)
              (λ _. step_player-Tells c.audio r refl v))
    call-Tells toggles b v =
        if_cases (TellsOf c) (not c.started || track_count c == 0) (λ _. unchanged c)
          (λ g.
            if_cases (TellsOf c) c.simulated (λ _. changed-Tells _ refl)
              (λ _. toggle_player-Tells c.state (ground arith)))
    call-Tells toggles_shuffle b v =
        if_cases (TellsOf c) (not c.started) (λ _. unchanged c) (λ _. changed-Tells _ refl)
    call-Tells (nexts r) b v =
        if_cases (TellsOf c) (not c.started || track_count c == 0) (λ _. unchanged c)
          (λ g. moved-Tells _ (ground arith))
    call-Tells (previouses r) b v =
        if_cases (TellsOf c) (not c.started || track_count c == 0) (λ _. unchanged c)
          (λ g. moved-Tells _ (ground arith))
    call-Tells (selects i) b v =
        if_cases (TellsOf c) (not c.started || leb (track_count c) i) (λ _. unchanged c)
          (λ g. moved-Tells _ (ground arith))
