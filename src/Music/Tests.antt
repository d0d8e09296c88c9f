-- ===== src/Music/Tests.antt =====
-- Tests of the music controller, and its theorems at concrete lists.
use esp_mosaico_claw.Base.{
  ℕ, ◌+◌, ◌<◌, ◌≡◌, refl, ◌≢◌, ◌↔◌, ◌⊎◌, true, false, none, some, List, [], ◌∷◌, map, arith, text,
  ok, fail,
}
use esp_mosaico_claw.Music.Audio.{AudioState, AudioOps}
use esp_mosaico_claw.Music.{
  Track, PlaybackState, Controller, next_index, next_track_index, changed, create, track_count,
  load_simulated_tracks, simulated_tracks, step_simulated, played, play_current, start_simulated,
  step_status, step, take_status, next, previous,
}
use esp_mosaico_claw.Music.Moves.{
  Call, starts_simulated, starts_device, steps, toggles, toggles_shuffle, nexts, previouses,
  selects, call, after,
}
use esp_mosaico_claw.Music.Shuffle.{shuffle_iff}
use esp_mosaico_claw.Music.Bounds.{after_create_bounds}
use esp_mosaico_claw.Music.Order.{IsOrdered, previous-next}
use esp_mosaico_claw.Music.Moves.{IsInBounds}
use esp_mosaico_claw.Music.Revisions.{Tells, call-Tells}

-- A player that plays everything and that reports the end of a track of 90 seconds after each step.
abbrev player : AudioOps ℕ
player = record {
  create = (ok, 0);
  play = λ path bytes n. (ok, n + 1);
  pause = λ n. (ok, n);
  resume = λ n. (fail, n);
  status = λ n. (
    ok,
    record { audio_state = AudioState.playing; audio_position_ms = 0; audio_duration_ms = 90000 },
  );
}

abbrev song : Track
song = record {
  path = text "a.mp3";
  title = text "a";
  artist = text "b";
  album = text "c";
  bytes = 1;
  duration_ms = 0;
}

abbrev at_song : Controller ℕ
at_song = record {
  revision = 1;
  state = PlaybackState.playing;
  tracks = song ∷ song ∷ song ∷ [];
  track_index = 2;
  position_ms = 0;
  last_step_us = 0;
  audio = some 1;
  started = true;
  simulated = false;
  shuffle_enabled = false;
}

-- A step that learns the duration of the track alone leaves the revision.
untold_duration :
    ((step player at_song 5 0).1.revision ≡ 1)
    × (map (λ (t : Track). t.duration_ms) (step player at_song 5 0).1.tracks ≡ 0 ∷ 0 ∷ 90000 ∷ [])
unfolding step step_status take_status
untold_duration = (refl, refl)

simulated_turns_over :
    (after player create (starts_simulated 0 ∷ steps 213000000 0 ∷ [])).track_index ≡ 1
unfolding after call start_simulated step play_current load_simulated_tracks simulated_tracks
    changed step_simulated played next_track_index next_index
simulated_turns_over = refl

shuffle_iff_example : ((r : ℕ) × (next_index true 3 1 r ≡ 0)) ↔ ((0 < 3) × (◌≢◌ {A = ℕ} 0 1))
shuffle_iff_example = shuffle_iff 3 1 0 (omega arith) (omega arith)

abbrev calls : List Call
calls =
    starts_device 0 ok (song ∷ song ∷ [])
    ∷ toggles_shuffle
    ∷ nexts 7
    ∷ steps 10 3
    ∷ selects 1
    ∷ previouses 4
    ∷ toggles
    ∷ []

after_create_bounds_example :
    ((after player create calls).track_index < track_count (after player create calls))
    ⊎ ((track_count (after player create calls) ≡ 0)
        × ((after player create calls).audio ≡ none)
        × ((after player create calls).simulated ≡ false))
after_create_bounds_example =
    after_create_bounds player calls ((λ _. omega arith), (tt, (tt, (tt, (tt, (tt, (tt, tt)))))))

at_song-IsOrdered : IsOrdered at_song
at_song-IsOrdered = record { is_started = refl; in_order = refl; at_track = omega arith }

previous-next_example : (previous player (next player at_song 0).1 0).1.track_index ≡ 2
previous-next_example = previous-next player at_song 0 0 at_song-IsOrdered

at_song-IsInBounds : IsInBounds at_song
at_song-IsInBounds = record {
  in_bounds = λ _. omega arith;
  no_tracks = λ z. absurd (omega arith);
  unstarted = λ f. absurd cc;
}

call-Tells_example : Tells at_song (call player at_song (nexts 0)).1
call-Tells_example = call-Tells player at_song (omega arith) (nexts 0) refl at_song-IsInBounds
