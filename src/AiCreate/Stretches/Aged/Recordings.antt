-- ===== src/AiCreate/Stretches/Aged/Recordings.antt =====
-- The age of a voice operation in its own stretches.
use esp_mosaico_claw.Base.{ℕ, ◌≡◌, refl, inl, Bool, true, none, arith, Ptr, Text, EspErr}
use esp_mosaico_claw.Voice.Port.{VoiceEventType, VoiceEvent}
use esp_mosaico_claw.AiCreate.Controller.{Controller, notify_changed}
use esp_mosaico_claw.AiCreate.Voice.{
  voice_failure, set_voice_deadline, voice_completed, take_voice_event, cancel_voice_operation,
  voice_event,
}
use esp_mosaico_claw.AiCreate.Dictation.{begin_failed, stop_begin, finish_failed}
use esp_mosaico_claw.AiCreate.Stretches.Aged.{Aged, reads, Ahead, preparing_limit, recording_limit}

module _ (opened pace stepped : ℕ) where
  pub cancel_voice_operation-Aged :
      (n : ℕ) (r : EspErr) (t : Ptr Text) (c : Controller)
      → Aged opened pace c
      → Aged opened pace (cancel_voice_operation none n r t c).1
  unfolding cancel_voice_operation notify_changed
  cancel_voice_operation-Aged n r t c g = ground arith

  pub take_voice_event-Aged :
      (t : VoiceEventType) (e : VoiceEvent) (now : ℕ) (c : Controller)
      → reads pace stepped now ≡ true
      → Ahead stepped c
      → Aged opened pace c
      → Aged opened pace (take_voice_event t e now c).0
  unfolding take_voice_event set_voice_deadline voice_failure voice_completed
  take_voice_event-Aged VoiceEventType.started e now c r a g =
      ground (arith, preparing_limit opened pace c.snapshot.voice_state)
  take_voice_event-Aged VoiceEventType.transcript e now c r a g = ground arith
  take_voice_event-Aged VoiceEventType.failed e now c r a g = inl refl
  take_voice_event-Aged VoiceEventType.completed e now c r a g = ground arith

  pub voice_event-Aged :
      (e : VoiceEvent) (now : ℕ) (c : Controller)
      → reads pace stepped now ≡ true
      → Ahead stepped c
      → Aged opened pace c
      → Aged opened pace (voice_event e now c).0
  unfolding voice_event notify_changed
  voice_event-Aged e now c r a g =
      let c' = record c { snapshot = record c.snapshot { voice_status = e.status } } in
      ground (arith, take_voice_event-Aged e.kind e now c' r a g)

  pub begin_failed-Aged :
      (n : ℕ) (e : EspErr) (c : Controller)
      → Aged opened pace c
      → Aged opened pace (begin_failed n e c)
  unfolding begin_failed voice_failure notify_changed
  begin_failed-Aged n e c g = ground arith

  pub stop_begin-Aged :
      (now : ℕ) (c : Controller)
      → reads pace stepped now ≡ true
      → Ahead stepped c
      → Aged opened pace c
      → Aged opened pace (stop_begin now c).1
  unfolding stop_begin set_voice_deadline notify_changed
  stop_begin-Aged now c r a g = ground (arith, recording_limit opened pace c.snapshot.voice_state)

  pub finish_failed-Aged :
      (n : ℕ) (b : Bool) (e : EspErr) (c : Controller)
      → Aged opened pace c
      → Aged opened pace (finish_failed n b e c)
  unfolding finish_failed voice_failure notify_changed
  finish_failed-Aged n b e c g = ground arith
