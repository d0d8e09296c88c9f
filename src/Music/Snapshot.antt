-- ===== src/Music/Snapshot.antt =====
-- components/mosaic_ui/apps/music/music_controller.c: what the page of the App reads of the
-- controller. Both result pointers are given.
use esp_mosaico_claw.Base.{
  ℕ, zero, suc, ◌+◌, ◌<◌, ◌≡◌, refl, ◌⊎◌, inl, inr, Bool, true, not, Option, none, some, List, [],
  ◌∷◌, arith, length, get_elem?, get_or, if◌then◌else◌, ◌==◌, Text, text, EspErr, ok, invalid_arg,
  invalid_state, Bool-cases,
}
use esp_mosaico_claw.Music.Moves.{IsInBounds}
use esp_mosaico_claw.Music.{PlaybackState, Track, Controller, track_count, current, empty_track}

-- `music_snapshot_t`.
pub record Snapshot : Type 0 where
  pub shown_revision : ℕ
  pub shown_state : PlaybackState
  pub shown_index : ℕ
  pub shown_count : ℕ
  pub shown_title : Text
  pub shown_artist : Text
  pub shown_album : Text
  pub shown_position_ms : ℕ
  pub shown_duration_ms : ℕ
  pub shown_shuffle : Bool
  pub library_titles : List Text
  pub library_artists : List Text

-- `music_track_snapshot_t`.
pub record TrackSnapshot : Type 0 where
  pub track_title : Text
  pub track_artist : Text
  pub track_album : Text

-- The loop over the places of the library that are left, from `index` on; a place behind the tracks
-- is blank.
unfoldable pub library : (Track → Text) → List Track → ℕ → ℕ → List Text
library f tracks index zero = []
library f tracks index (suc n) =
    elim (get_elem? tracks index) [ none ↦ [] | some t ↦ f t ] ∷ library f tracks (index + 1) n

module _ {A : Type 0} where
  -- The track that is shown.
  unfoldable pub shown : Controller A → Track
  shown c = if track_count c == 0 then empty_track else current c

  unfoldable pub snapshot : Controller A → EspErr × Option Snapshot
  snapshot c = if not c.started then (invalid_state, none) else (
    ok,
    some (record {
      shown_revision = c.revision;
      shown_state = c.state;
      shown_index = c.track_index;
      shown_count = track_count c;
      shown_title = (shown c).title;
      shown_artist = (shown c).artist;
      shown_album = (shown c).album;
      shown_position_ms = c.position_ms;
      shown_duration_ms = (shown c).duration_ms;
      shown_shuffle = c.shuffle_enabled;
      library_titles = library (λ t. t.title) c.tracks 0 3;
      library_artists = library (λ t. t.artist) c.tracks 0 3;
    }),
  )

  unfoldable pub track : Controller A → ℕ → EspErr × Option TrackSnapshot
  track c index = elim (get_elem? c.tracks index) [
    | none ↦ (invalid_arg, none)
    | some t ↦ (
      ok,
      some (record { track_title = t.title; track_artist = t.artist; track_album = t.album }),
    )
  ]

get_or-get_elem? :
    {A : Type 0} (xs : List A) (i : ℕ) (d : A)
    → i < length xs
    → get_elem? xs i ≡ some (get_or xs i d)
get_or-get_elem? [] i d h = absurd (omega arith)
get_or-get_elem? (x ∷ xs) zero d h = refl
get_or-get_elem? (x ∷ xs) (suc i) d h = get_or-get_elem? xs i d (omega arith)

-- The snapshot of a controller that has started and whose index is in bounds shows what `track`
-- gives for the index that it shows, or there are no tracks and it says so.
pub snapshot-track :
    {A : Type 0} (c : Controller A)
    → c.started ≡ true
    → IsInBounds c
    → (s : Snapshot) × (snapshot c ≡ (ok, some s))
      × (((s.shown_count ≡ 0) × (s.shown_title ≡ text "No Local Music"))
          ⊎ (track c s.shown_index ≡ (
            ok,
            some (record {
              track_title = s.shown_title;
              track_artist = s.shown_artist;
              track_album = s.shown_album;
            }),
          )))
unfolding snapshot track shown
snapshot-track c b v = elim (Bool-cases (track_count c == 0)) [
  | inl z ↦ rw (b, snapshot) (_, refl, inl (ground arith, rw z refl))
  | inr n ↦
      let g : get_elem? c.tracks c.track_index ≡ some (current c) =
        get_or-get_elem? c.tracks c.track_index empty_track (v.in_bounds (ground arith)) in
      rw (b, snapshot) (_, refl, inr (rw (g, n, track) refl))
]
