-- ===== src/AiCreate/Stretches.antt =====
-- components/mosaic_ui/common/ai_create_controller.c: the stretches of the operations that hold the lock, in any
-- order. Operations of other tasks come between two stretches of one, so the values that a stretch
-- takes over from an earlier one are arbitrary here.
pub mod Kept
pub mod Steps
pub mod Requests
pub mod Views
pub mod Recordings
pub mod Invariant
pub mod Phase
pub mod Aged
pub mod Deadline
use esp_mosaico_claw.Base.{
  ℕ, Bool, true, false, Option, none, some, List, [], ◌∷◌, if◌then◌else◌, Ptr, Text, EspErr, is_ok,
}
use esp_mosaico_claw.Voice.Port.{VoiceStatus, VoiceEvent}
use esp_mosaico_claw.AiCreate.Transcript.{Message}
use esp_mosaico_claw.AiCreate.Controller.{
  Controller, Env, notify_changed, set_notice, cancel_session_switch,
}
use esp_mosaico_claw.AiCreate.Start.{start, stop}
use esp_mosaico_claw.AiCreate.Events.{GatewayEvent, gateway_event}
use esp_mosaico_claw.AiCreate.Submit.{Binding, bind_begin, bind_end, submit, post_failed}
use esp_mosaico_claw.AiCreate.Abort.{cancel, abort_view}
use esp_mosaico_claw.AiCreate.Sessions.{
  prepare_new_session, set_mode, checked_history, show_history, set_session, begin_session_switch,
  complete_switch, cancel_pending_switch,
}
use esp_mosaico_claw.AiCreate.Voice.{cancel_voice_operation, voice_event}
use esp_mosaico_claw.AiCreate.Dictation.{voice_open, begin_failed, stop_begin, finish_failed}

pub data Stretch : Type 0 where
  starts stops : Stretch
  notified : Stretch
  noticed : EspErr → Text → Stretch
  gateway_event_comes : GatewayEvent → Stretch
  binding_begins : Stretch
  binding_ends : Binding → EspErr × Text → Stretch
  text_is_submitted : Bool → Text → Stretch
  post_fails : ℕ → EspErr → Stretch
  cancels aborts : Stretch
  new_session_is_prepared : Ptr Text → Stretch
  mode_is_set : ℕ → Stretch
  history_is_shown : Text → Text → EspErr × List Message → Stretch
  session_is_set : Ptr Text → Ptr Text → Stretch
  switch_begins switch_is_cancelled : Stretch
  switch_completes :
      (Text → Text → EspErr × Text) → Text → Text → ℕ → EspErr × List Message → Stretch
  voice_event_comes : VoiceEvent → ℕ → Stretch
  voice_opens : Bool → Bool → VoiceStatus → ℕ → Stretch
  voice_begin_fails : ℕ → EspErr → Stretch
  voice_stops : ℕ → Stretch
  voice_finish_fails : ℕ → Bool → EspErr → Stretch
  voice_is_cancelled : ℕ → EspErr → Ptr Text → Stretch

module _ (env : Env) where
  unfoldable pub run : Stretch → Controller → Controller
  run Stretch.starts c = start c
  run Stretch.stops c = stop c
  run Stretch.notified c = notify_changed c
  run (Stretch.noticed e t) c = set_notice env e t c
  run (Stretch.gateway_event_comes e) c = (gateway_event e c).0
  run Stretch.binding_begins c = (bind_begin c).1
  run (Stretch.binding_ends b r) c = (bind_end env b r c).1
  run (Stretch.text_is_submitted had_active_run t) c = (submit had_active_run t c).1
  run (Stretch.post_fails id e) c = post_failed env id e c
  run Stretch.cancels c = (cancel (λ id. EspErr.ok) c).1
  run Stretch.aborts c = abort_view c
  run (Stretch.new_session_is_prepared alias) c = (prepare_new_session env alias false c).1
  run (Stretch.mode_is_set mode) c = (set_mode mode c).1
  run (Stretch.history_is_shown chat_id alias answer) c =
      let h = checked_history answer in if is_ok h.0 then show_history chat_id alias h.1 c else c
  run (Stretch.session_is_set chat_id alias) c = (set_session env true none chat_id alias c).1
  run Stretch.switch_begins c = (begin_session_switch c).2
  run Stretch.switch_is_cancelled c = (cancel_pending_switch c).0
  run (Stretch.switch_completes switch chat_id alias generation answer) c =
      (complete_switch env switch chat_id alias generation (checked_history answer) c).1
  run (Stretch.voice_event_comes e now) c = (voice_event e now c).0
  run (Stretch.voice_opens same_port port status now) c = (voice_open same_port port status now c).2
  run (Stretch.voice_begin_fails id e) c = begin_failed id e c
  run (Stretch.voice_stops now) c = (stop_begin now c).1
  run (Stretch.voice_finish_fails id send e) c = finish_failed id send e c
  run (Stretch.voice_is_cancelled expected reason message) c =
      (cancel_voice_operation none expected reason message c).1

  unfoldable pub run_all : List Stretch → Controller → Controller
  run_all [] c = c
  run_all (s ∷ ss) c = run_all ss (run s c)
