-- ===== src/Music.antt =====
-- components/mosaic_ui/apps/music/music_controller.c: the controller of the music App. The tracks of
-- the scan of the data partition, the values of `rand` and the player are inputs; times are not
-- negative and stay below the bound of `int64_t`. A call takes a controller, never NULL.
pub mod Audio
pub mod Shuffle
pub mod Moves
pub mod Bounds
pub mod Order
pub mod Snapshot
pub mod Revisions
mod Tests
use esp_mosaico_claw.Base.{
  ℕ, ◌+◌, ◌-◌, ◌/◌, ◌%◌, Bool, true, false, not, ◌&&◌, ◌||◌, Option, none, some, List, [], ◌∷◌,
  if◌then◌else◌, ◌==◌, ltb, leb, length, get_elem?, get_or, set, Ptr, Text, text, EspErr, ok,
  invalid_arg, invalid_state, not_found, not_supported, is_ok, u32_mod,
}
use Audio.{AudioState, AudioStatus, AudioOps, audio_play, audio_pause, audio_resume, audio_status}

-- `music_track_t`.
pub record Track : Type 0 where
  pub path : Text
  pub title : Text
  pub artist : Text
  pub album : Text
  pub bytes : ℕ
  pub duration_ms : ℕ

-- `music_playback_state_t`.
pub data PlaybackState : Type 0 where
  paused playing stopped error : PlaybackState

abbrev pub is_playing : PlaybackState → Bool
is_playing PlaybackState.playing = true
is_playing _ = false

abbrev pub same_state : PlaybackState → PlaybackState → Bool
same_state PlaybackState.paused PlaybackState.paused = true
same_state PlaybackState.playing PlaybackState.playing = true
same_state PlaybackState.stopped PlaybackState.stopped = true
same_state PlaybackState.error PlaybackState.error = true
same_state _ _ = false

-- `struct music_controller_t`; the list holds the first `track_count` elements of its array.
pub record Controller (A : Type 0) : Type 0 where
  pub revision : ℕ
  pub state : PlaybackState
  pub tracks : List Track
  pub track_index : ℕ
  pub position_ms : ℕ
  pub last_step_us : ℕ
  pub audio : Ptr A
  pub started : Bool
  pub simulated : Bool
  pub shuffle_enabled : Bool

-- The next track of `count` after that of `index`, for a value of `rand`.
unfoldable pub next_index : Bool → ℕ → ℕ → ℕ → ℕ
next_index shuffled count index random =
    if not shuffled || ltb count 2
    then (index + 1) % count
    else (index + (1 + random % (count - 1))) % count

-- `++revision`, in 32 bits, past 0.
unfoldable pub next_revision : ℕ → ℕ
next_revision r = if (r + 1) % u32_mod == 0 then 1 else (r + 1) % u32_mod

abbrev pub empty_track : Track
empty_track = record {
  path = [];
  title = text "No Local Music";
  artist = text "Copy audio files to music/";
  album = text "On Device";
  bytes = 0;
  duration_ms = 0;
}

abbrev simulated_track : Text → Text → Text → ℕ → Track
simulated_track t a l d = record {
  path = [];
  title = t;
  artist = a;
  album = l;
  bytes = 0;
  duration_ms = d;
}

unfoldable pub simulated_tracks : List Track
simulated_tracks =
    simulated_track (text "Midnight Drive") (text "Mosaico") (text "Neon Memory") 213000
    ∷ simulated_track (text "Blue Monday") (text "ESP Lab") (text "Pocket Signals") 184000
    ∷ simulated_track (text "Quiet Circuit") (text "Claw Ensemble") (text "Soft Machines") 247000
    ∷ []

abbrev pub playback_of : AudioState → PlaybackState
playback_of AudioState.playing = PlaybackState.playing
playback_of AudioState.paused = PlaybackState.paused
playback_of AudioState.error = PlaybackState.error
playback_of _ = PlaybackState.stopped

abbrev pub is_finished : AudioState → Bool
is_finished AudioState.finished = true
is_finished _ = false

module _ {A : Type 0} where
  abbrev pub track_count : Controller A → ℕ
  track_count c = length c.tracks

  abbrev pub current : Controller A → Track
  current c = get_or c.tracks c.track_index empty_track

  unfoldable pub next_track_index : Controller A → ℕ → ℕ
  next_track_index c = next_index c.shuffle_enabled (track_count c) c.track_index

  unfoldable pub changed : Controller A → Controller A
  changed c = record c { revision = next_revision c.revision }

  -- `calloc`, which succeeds.
  abbrev pub create : Controller A
  create = record {
    revision = 0;
    state = PlaybackState.paused;
    tracks = [];
    track_index = 0;
    position_ms = 0;
    last_step_us = 0;
    audio = none;
    started = false;
    simulated = false;
    shuffle_enabled = false;
  }

  unfoldable pub load_simulated_tracks : Controller A → Controller A
  load_simulated_tracks c = record c { tracks = simulated_tracks; simulated = true }

  unfoldable pub toggle_shuffle : Controller A → EspErr × Controller A
  toggle_shuffle c =
      if not c.started
      then (invalid_state, c)
      else (ok, changed (record c { shuffle_enabled = not c.shuffle_enabled }))

  unfoldable pub seek : Controller A → ℕ → EspErr × Controller A
  seek c progress_permille = (not_supported, c)

  -- A simulated player that has come to `position`.
  unfoldable pub played : Controller A → ℕ → ℕ → ℕ → Controller A
  played c now random position =
      if leb (current c).duration_ms position
      then record c { last_step_us = now; track_index = next_track_index c random; position_ms = 0 }
      else record c { last_step_us = now; position_ms = position }

  -- The step of a simulated player, at `now` and with a value of `rand`.
  unfoldable pub step_simulated : Controller A → ℕ → ℕ → EspErr × Controller A
  step_simulated c now random =
      if ltb now c.last_step_us
      then (ok, record c { last_step_us = now })
      else if is_playing c.state
      then (ok, changed (played c now random (c.position_ms + (now - c.last_step_us) / 1000)))
      else (ok, record c { last_step_us = now })

  -- What a step takes over from the status of the player.
  unfoldable pub take_status : Controller A → AudioStatus → Controller A
  take_status c s =
      let c' : Controller A =
        if ltb 0 s.audio_duration_ms
        then record c {
          tracks =
              set c.tracks c.track_index (record (current c) { duration_ms = s.audio_duration_ms });
        }
        else c in
      if not (c.position_ms == s.audio_position_ms)
        || not (same_state c.state (playback_of s.audio_state))
      then changed
          (record c' { position_ms = s.audio_position_ms; state = playback_of s.audio_state })
      else c'

  -- The track that `previous` plays.
  unfoldable pub previous_index : Controller A → ℕ → ℕ
  previous_index c random =
      if leb c.position_ms 3000
      then if c.shuffle_enabled
        then next_track_index c random
        else if c.track_index == 0
        then track_count c - 1
        else c.track_index - 1
      else c.track_index

module _ {A : Type 0} (o : AudioOps A) where
  unfoldable pub play_current : Controller A → EspErr × Controller A
  play_current c =
      if track_count c == 0
      then (not_found, record c { state = PlaybackState.stopped })
      else if c.simulated
      then (ok, changed (record c { position_ms = 0; state = PlaybackState.playing }))
      else let (e, a) = audio_play o (current c).path (current c).bytes c.audio in
        (
          e,
          changed (record c {
            position_ms = 0;
            audio = a;
            state = if is_ok e then PlaybackState.playing else PlaybackState.error;
          }),
        )

  -- `start` of the simulator's build.
  unfoldable pub start_simulated : Controller A → ℕ → EspErr × Controller A
  start_simulated c now = if c.started then (invalid_state, c) else (
    ok,
    (play_current (load_simulated_tracks (record c { started = true; last_step_us = now }))).1,
  )

  -- `start` of the device's build, with the outcome of `scan_tracks`.
  unfoldable pub start_device : Controller A → ℕ → EspErr → List Track → EspErr × Controller A
  start_device c now scan_err found =
      let c' : Controller A = record c { started = true; last_step_us = now; tracks = found } in
      if c.started
      then (invalid_state, c)
      else if not (is_ok scan_err)
      then (ok, changed (record c' { state = PlaybackState.stopped }))
      else if not (is_ok o.create.0)
      then (ok, changed (record c' { state = PlaybackState.error }))
      else (ok, (play_current (record c' { audio = some o.create.1 })).1)

  -- The answer of the player to a step.
  unfoldable pub step_status : Controller A → EspErr × Ptr AudioStatus → ℕ → EspErr × Controller A
  step_status c (e, none) random = (e, c)
  step_status c (e, some s) random =
      if not (is_ok e)
      then (e, c)
      else if is_finished s.audio_state
      then play_current (record c { track_index = next_track_index c random })
      else (ok, take_status c s)

  unfoldable pub step : Controller A → ℕ → ℕ → EspErr × Controller A
  step c now random =
      if not c.started
      then (invalid_state, c)
      else if c.simulated
      then step_simulated c now random
      else step_status c (audio_status o c.audio) random

  -- The answer of the player to a toggle, and the state if it succeeds.
  unfoldable pub toggled : Controller A → EspErr × Ptr A → PlaybackState → EspErr × Controller A
  toggled c (e, a) s =
      if is_ok e
      then (e, changed (record c { audio = a; state = s }))
      else (e, record c { audio = a })

  unfoldable pub toggle_player : Controller A → PlaybackState → EspErr × Controller A
  toggle_player c PlaybackState.playing = toggled c (audio_pause o c.audio) PlaybackState.paused
  toggle_player c PlaybackState.paused = toggled c (audio_resume o c.audio) PlaybackState.playing
  toggle_player c _ = let (e, c') = play_current c in (e, if is_ok e then changed c' else c')

  unfoldable pub toggle : Controller A → EspErr × Controller A
  toggle c =
      if not c.started || track_count c == 0
      then (invalid_state, c)
      else if c.simulated
      then (
        ok,
        changed (record c {
          state = if is_playing c.state then PlaybackState.paused else PlaybackState.playing;
        }),
      )
      else toggle_player c c.state

  unfoldable pub next : Controller A → ℕ → EspErr × Controller A
  next c random =
      if not c.started || track_count c == 0
      then (invalid_state, c)
      else play_current (record c { track_index = next_track_index c random })

  unfoldable pub previous : Controller A → ℕ → EspErr × Controller A
  previous c random =
      if not c.started || track_count c == 0
      then (invalid_state, c)
      else play_current (record c { track_index = previous_index c random })

  unfoldable pub select : Controller A → ℕ → EspErr × Controller A
  select c index =
      if not c.started || leb (track_count c) index
      then (invalid_arg, c)
      else play_current (record c { track_index = index })
