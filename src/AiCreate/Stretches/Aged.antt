-- ===== src/AiCreate/Stretches/Aged.antt =====
-- How old a voice operation can be in each of its phases. The children keep it so, one for each kind of
-- stretch.
pub mod Messages
pub mod Sessions
pub mod Recordings
pub mod Runs
use esp_mosaico_claw.Base.{
  ℕ, ◌+◌, ◌*◌, ◌≤◌, ◌<◌, ◌≡◌, refl, ap, ◌∙◌, not, set, if_cases, ◌⊎◌, inl, inr, Bool, true, false,
  ◌&&◌, ◌||◌, Option-cases, none, some, List, [], arith, if◌then◌else◌, leb, ltb, Ptr, Text, EspErr,
  is_ok,
}
use esp_mosaico_claw.Voice.Port.{VoiceEventType, VoiceEvent}
use esp_mosaico_claw.AiCreate.Transcript.{Message}
use esp_mosaico_claw.AiCreate.Tracks.{
  Track, free_track, track_at, find_message, find_message_by_run, reserve_message,
}
use esp_mosaico_claw.AiCreate.Controller.{
  VoiceState, Snapshot, clear_notice, clear_session_delete_prompt, Controller, Env, Effect,
  notify_changed, set_notice, reset_session_view, cancel_session_switch,
}
use esp_mosaico_claw.AiCreate.Events.{
  GatewayEvent, is_accepted, is_active_run, settle, take_event, gateway_event,
}
use esp_mosaico_claw.AiCreate.Submit.{Request, Binding, bind_begin, bind_end, submit, post_failed}
use esp_mosaico_claw.AiCreate.Abort.{cancel, abort_view}
use esp_mosaico_claw.AiCreate.Sessions.{
  prepare_new_session, set_mode, checked_history, show_history, reload_history, set_session,
  begin_session_switch, complete_switch, cancel_pending_switch,
}
use esp_mosaico_claw.AiCreate.Voice.{
  is_preparing, is_listening, voice_failure, set_voice_deadline, voice_completed, take_voice_event,
  cancel_voice_operation, voice_event,
}
use esp_mosaico_claw.AiCreate.Dictation.{begin_failed, stop_begin, finish_failed}
use esp_mosaico_claw.AiCreate.Start.{start, stop}
use esp_mosaico_claw.AiCreate.Stretches.{Stretch, run}
use esp_mosaico_claw.AiCreate.Stretches.Phase.{
  refresh_active-voice_state, show_event-voice_state, show_submitted-voice_state,
}

-- By when after its start an operation has left a phase, if a step comes at least every `pace`
-- microseconds: preparing takes 30 s, listening 60 s and finalizing 30 s at most, and a phase can be
-- entered up to `pace` after the deadline of the one before.
abbrev pub limit : ℕ → VoiceState → ℕ
limit pace VoiceState.preparing = 30000000
limit pace VoiceState.listening = 90000000 + pace
limit pace _ = 120000000 + 2 * pace

-- No operation runs, or it has a deadline within the limit of its phase.
abbrev pub Aged : ℕ → ℕ → Controller → Type 0
Aged opened pace c =
    (c.voice_operation_id ≡ 0)
    ⊎ ((1 ≤ c.voice_deadline_us)
        × (c.voice_deadline_us ≤ opened + limit pace c.snapshot.voice_state))

-- A positive reading of the clock that comes at most `pace` after the last step, at `stepped`.
abbrev pub reads : ℕ → ℕ → ℕ → Bool
reads pace stepped now = ltb 0 now && leb now (stepped + pace)

-- A stretch that reads the clock in time, and opens no other operation.
abbrev pub keeps_pace : ℕ → ℕ → Stretch → Bool
keeps_pace pace stepped (Stretch.voice_event_comes e now) = reads pace stepped now
keeps_pace pace stepped (Stretch.voice_stops now) = reads pace stepped now
keeps_pace pace stepped (Stretch.voice_opens same_port port status now) = false
keeps_pace pace stepped _ = true

-- What a step leaves: an operation that still runs has its deadline ahead.
abbrev pub Ahead : ℕ → Controller → Type 0
Ahead stepped c = (c.voice_operation_id ≡ 0) ⊎ (stepped < c.voice_deadline_us)

abbrev Result : Type 0
Result = EspErr × Controller × List Effect

module _ (opened pace : ℕ) where
  pub preparing_limit : (v : VoiceState) → is_preparing v ≡ true → limit pace v ≡ 30000000
  preparing_limit VoiceState.preparing e = refl
  preparing_limit _ e = cc

  pub recording_limit :
      (v : VoiceState) → (is_preparing v || is_listening v) ≡ true → limit pace v ≤ 90000000 + pace
  recording_limit VoiceState.preparing e = omega arith
  recording_limit VoiceState.listening e = omega arith
  recording_limit _ e = absurd cc

  -- A stretch that leaves the operation, its deadline and its phase.
  pub same-Aged :
      (c : Controller) {v : VoiceState}
      → v ≡ c.snapshot.voice_state
      → Aged opened pace c
      → (c.voice_operation_id ≡ 0)
        ⊎ ((1 ≤ c.voice_deadline_us) × (c.voice_deadline_us ≤ opened + limit pace v))
  same-Aged c q g = ground (arith, ap (limit pace) q)
