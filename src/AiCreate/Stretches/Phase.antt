-- ===== src/AiCreate/Stretches/Phase.antt =====
-- The phase of the voice operation in the view: what the parts of a stretch that show messages leave.
use esp_mosaico_claw.Base.{
  ℕ, ◌≡◌, refl, ◌∙◌, inl, inr, Bool, true, false, Option-cases, none, some, List, Ptr, Text,
}
use esp_mosaico_claw.AiCreate.Tracks.{Track, first_used}
use esp_mosaico_claw.AiCreate.Controller.{Snapshot, refresh_active}
use esp_mosaico_claw.AiCreate.Events.{EventKind, GatewayEvent, show_progress, show_text, show_event}
use esp_mosaico_claw.AiCreate.Submit.{show_submitted}

pub refresh_active-voice_state :
    (ts : List Track) (s : Snapshot) → (refresh_active ts s).voice_state ≡ s.voice_state
unfolding refresh_active
refresh_active-voice_state ts s = elim (Option-cases (first_used ts)) [
  | inl n ↦ rw (n, refresh_active) refl
  | inr (i, n) ↦ rw (n, refresh_active) refl
]

pub show_progress-voice_state :
    (e : GatewayEvent) (t : Ptr Text) (s : Snapshot)
    → (show_progress e t s).voice_state ≡ s.voice_state
unfolding show_progress
show_progress-voice_state e none s = refl
show_progress-voice_state e (some t) s = refl

pub show_text-voice_state :
    (k : EventKind) (e : GatewayEvent) (s : Snapshot)
    → (show_text k e s).voice_state ≡ s.voice_state
unfolding show_text
show_text-voice_state EventKind.response_partial e s = refl
show_text-voice_state EventKind.response_final e s = refl
show_text-voice_state EventKind.error e s = refl
show_text-voice_state EventKind.message_accepted e s = refl
show_text-voice_state EventKind.agent_progress e s = show_progress-voice_state e e.text s
show_text-voice_state EventKind.cancelled e s = show_progress-voice_state e e.text s
show_text-voice_state EventKind.unknown e s = show_progress-voice_state e e.text s

pub show_event-voice_state :
    (e : GatewayEvent) (ts : List Track) (s : Snapshot)
    → (show_event e ts s).voice_state ≡ s.voice_state
unfolding show_event
show_event-voice_state e ts s = show_text-voice_state e.kind e _ ∙ refresh_active-voice_state ts s

pub show_submitted-voice_state :
    (had : Bool) (id : ℕ) (t : Text) (ts : List Track) (s : Snapshot)
    → (show_submitted had id t ts s).voice_state ≡ s.voice_state
unfolding show_submitted
show_submitted-voice_state true id t ts s = refresh_active-voice_state ts _
show_submitted-voice_state false id t ts s = refresh_active-voice_state ts _
