-- ===== src/AiCreate/Tracks.antt =====
-- components/mosaic_ui/common/ai_create_controller.c: the requests in flight. `messages` is a list of
-- eight slots; a pointer to a slot is its index, and NULL is `none`.
pub mod Slots
use esp_mosaico_claw.Base.{
  ℕ, zero, suc, Bool, true, false, not, ◌&&◌, Option, none, some, List, [], ◌∷◌, if◌then◌else◌,
  ◌==◌, get_or, set, replicate,
}

-- `controller_message_track_t`.
pub record Track : Type 0 where
  pub used : Bool
  pub request_id : ℕ
  pub run_id : ℕ
  pub last_event_sequence : ℕ

-- A slot that `memset` has cleared.
abbrev pub free_track : Track
free_track = record { used = false; request_id = 0; run_id = 0; last_event_sequence = 0 }

abbrev pub tracks_max : ℕ
tracks_max = 8

abbrev pub free_tracks : List Track
free_tracks = replicate tracks_max free_track

-- The loop over the slots that returns at the first one that passes a test.
unfoldable pub find_index : (ℕ → Track → Bool) → List Track → Option ℕ
find_index p [] = none
find_index p (t ∷ ts) =
    if p 0 t
    then some 0
    else elim (find_index (λ i. p (suc i)) ts) [ none ↦ none | some i ↦ some (suc i) ]

-- The slot behind a pointer.
abbrev pub track_at : List Track → ℕ → Track
track_at ts i = get_or ts i free_track

abbrev pub tracks_request : ℕ → ℕ → Track → Bool
tracks_request request_id i t = t.used && t.request_id == request_id

abbrev pub find_message : List Track → ℕ → Option ℕ
find_message ts request_id = find_index (tracks_request request_id) ts

-- The slots with a new one for the request; `none` if it is in flight already or every slot is used.
unfoldable pub reserve_message : List Track → ℕ → Option (List Track)
reserve_message ts request_id =
    let t : Track = record free_track { used = true; request_id = request_id } in
    elim (find_message ts request_id) [
      | some i ↦ none
      | none ↦ elim (find_index (λ i s. not s.used) ts) [ none ↦ none | some i ↦ some (set ts i t) ]
    ]

unfoldable pub find_message_by_run : List Track → ℕ → ℕ → Option ℕ
find_message_by_run ts run_id exclude =
    if run_id == 0
    then none
    else find_index (λ i t. not (i == exclude) && t.used && t.run_id == run_id) ts

-- The first slot in use; `refresh_active_locked` shows its request.
abbrev pub first_used : List Track → Option ℕ
first_used ts = find_index (λ i t. t.used) ts
