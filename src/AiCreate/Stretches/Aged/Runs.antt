-- ===== src/AiCreate/Stretches/Aged/Runs.antt =====
-- Every stretch that keeps the pace keeps the age of a voice operation.
use esp_mosaico_claw.Base.{ℕ, ◌≡◌, refl, inl, true, false, [], arith, Text, EspErr}
use esp_mosaico_claw.AiCreate.Controller.{
  Controller, Env, notify_changed, set_notice, cancel_session_switch,
}
use esp_mosaico_claw.AiCreate.Abort.{abort_view}
use esp_mosaico_claw.AiCreate.Sessions.{checked_history}
use esp_mosaico_claw.AiCreate.Start.{start, stop}
use esp_mosaico_claw.AiCreate.Stretches.{Stretch, run}
use esp_mosaico_claw.AiCreate.Stretches.Aged.{Aged, Ahead, keeps_pace}
use esp_mosaico_claw.AiCreate.Stretches.Aged.Messages.{
  gateway_event-Aged, bind_begin-Aged, bind_end-Aged, submit-Aged, post_failed-Aged, cancel-Aged,
}
use esp_mosaico_claw.AiCreate.Stretches.Aged.Sessions.{
  prepare_new_session-Aged, set_mode-Aged, show_history-Aged, set_session-Aged,
  begin_session_switch-Aged, complete_switch-Aged, cancel_pending_switch-Aged,
}
use esp_mosaico_claw.AiCreate.Stretches.Aged.Recordings.{
  cancel_voice_operation-Aged, voice_event-Aged, begin_failed-Aged, stop_begin-Aged,
  finish_failed-Aged,
}

module _ (opened pace stepped : ℕ) where
  abort_view-Aged : (c : Controller) → Aged opened pace (abort_view c)
  unfolding abort_view cancel_session_switch
  abort_view-Aged c = inl refl

  plain-Aged :
      (env : Env) (e : EspErr) (t : Text) (c : Controller)
      → Aged opened pace c
      → Aged opened pace (notify_changed c)
        × Aged opened pace (set_notice env e t c)
        × Aged opened pace (start c)
        × Aged opened pace (stop c)
  unfolding notify_changed set_notice start stop cancel_session_switch
  plain-Aged env e t c g = (g, g, g, g)

  pub run-Aged :
      (env : Env) (s : Stretch) (c : Controller)
      → keeps_pace pace stepped s ≡ true
      → Ahead stepped c
      → Aged opened pace c
      → Aged opened pace (run env s c)
  unfolding run
  run-Aged env Stretch.starts c r ah g = (plain-Aged env EspErr.ok [] c g).2
  run-Aged env Stretch.stops c r ah g = (plain-Aged env EspErr.ok [] c g).3
  run-Aged env Stretch.notified c r ah g = (plain-Aged env EspErr.ok [] c g).0
  run-Aged env (Stretch.noticed e t) c r ah g = (plain-Aged env e t c g).1
  run-Aged env (Stretch.gateway_event_comes e) c r ah g = gateway_event-Aged opened pace e c g
  run-Aged env Stretch.binding_begins c r ah g = bind_begin-Aged opened pace c g
  run-Aged env (Stretch.binding_ends b a) c r ah g = bind_end-Aged opened pace env b a c g
  run-Aged env (Stretch.text_is_submitted had t) c r ah g = submit-Aged opened pace had t c g
  run-Aged env (Stretch.post_fails id e) c r ah g = post_failed-Aged opened pace env id e c g
  run-Aged env Stretch.cancels c r ah g = cancel-Aged opened pace (λ id. EspErr.ok) c g
  run-Aged env Stretch.aborts c r ah g = abort_view-Aged c
  run-Aged env (Stretch.new_session_is_prepared a) c r ah g =
      prepare_new_session-Aged opened pace env a false c g
  run-Aged env (Stretch.mode_is_set mode) c r ah g = set_mode-Aged opened pace mode c g
  run-Aged env (Stretch.history_is_shown a b h) c r ah g =
      show_history-Aged opened pace a b (checked_history h) c g
  run-Aged env (Stretch.session_is_set a b) c r ah g = set_session-Aged opened pace env a b c g
  run-Aged env Stretch.switch_begins c r ah g = begin_session_switch-Aged opened pace c g
  run-Aged env Stretch.switch_is_cancelled c r ah g = cancel_pending_switch-Aged opened pace c g
  run-Aged env (Stretch.switch_completes f a b n h) c r ah g =
      complete_switch-Aged opened pace env f a b n (checked_history h) c g
  run-Aged env (Stretch.voice_event_comes e now) c r ah g =
      voice_event-Aged opened pace stepped e now c r ah g
  run-Aged env (Stretch.voice_opens x y s now) c r ah g = absurd (ground arith)
  run-Aged env (Stretch.voice_begin_fails id e) c r ah g =
      begin_failed-Aged opened pace stepped id e c g
  run-Aged env (Stretch.voice_stops now) c r ah g = stop_begin-Aged opened pace stepped now c r ah g
  run-Aged env (Stretch.voice_finish_fails id send e) c r ah g =
      finish_failed-Aged opened pace stepped id send e c g
  run-Aged env (Stretch.voice_is_cancelled n e t) c r ah g =
      cancel_voice_operation-Aged opened pace stepped n e t c g
