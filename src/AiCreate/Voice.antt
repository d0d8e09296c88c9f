-- ===== src/AiCreate/Voice.antt =====
-- components/mosaic_ui/common/ai_create_controller.c: a voice operation, from its start to the message that is
-- posted. The time is that of `esp_timer_get_time`; the port's answers are inputs.
use esp_mosaico_claw.Base.{
  ℕ, ◌+◌, ◌==◌, Bool, true, false, not, ◌&&◌, ◌||◌, none, some, List, [], ◌∷◌, ◌++◌, if◌then◌else◌,
  ltb, leb, Ptr, Text, text, is_blank, strlcpy, EspErr, is_ok,
}
use esp_mosaico_claw.Voice.Port.{VoiceEventType, VoiceEvent}
use esp_mosaico_claw.AiCreate.Controller.{
  VoiceState, Status, Controller, Effect, text_max, notify_changed,
}
use esp_mosaico_claw.AiCreate.Sessions.{changed, or_default, is_not_found}

-- Nothing runs any more.
abbrev pub voice_over : VoiceState → Controller → Controller
voice_over v c = record c {
  voice_operation_id = 0;
  voice_deadline_us = 0;
  snapshot = record c.snapshot { voice_operation_id = 0; voice_state = v };
}

abbrev pub voice_error : Status → EspErr → Text → Controller → Controller
voice_error status e message c = record c {
  snapshot = record c.snapshot {
    status = status;
    retryable = true;
    error = strlcpy 256 message;
    notice_visible = true;
    notice_code = e;
    notice = strlcpy 160 (strlcpy 256 message);
  };
}

unfoldable pub voice_failure : EspErr → Ptr Text → Controller → Controller
voice_failure e message c =
    voice_error Status.unavailable e
      (or_default (text "Speech recognition failed. Please retry.") message)
      (voice_over VoiceState.idle c)

abbrev pub voice_timeout_for_state : VoiceState → ℕ
voice_timeout_for_state VoiceState.preparing = 30000000
voice_timeout_for_state VoiceState.listening = 60000000
voice_timeout_for_state VoiceState.finalizing = 30000000
voice_timeout_for_state _ = 0

unfoldable pub set_voice_deadline : VoiceState → ℕ → Controller → Controller
set_voice_deadline v now c =
    let timeout = voice_timeout_for_state v in
    record c { voice_deadline_us = if ltb 0 timeout && ltb 0 now then now + timeout else 0 }

abbrev pub enter : VoiceState → ℕ → Controller → Controller
enter v now c =
    set_voice_deadline v now (record c { snapshot = record c.snapshot { voice_state = v } })

abbrev pub is_timeout : EspErr → Bool
is_timeout EspErr.timeout = true
is_timeout _ = false

-- The port may be absent.
unfoldable pub cancel_voice_operation :
    Ptr (ℕ → EspErr) → ℕ → EspErr → Ptr Text → Controller → EspErr × Controller × List Effect
cancel_voice_operation port expected reason message c =
    let id = c.voice_operation_id in
    let over = voice_over VoiceState.idle c in
    let failed =
      voice_error (if is_timeout reason then Status.timeout else Status.unavailable) reason
        (or_default (text "Speech recognition was cancelled.") message) over in
    let c' = notify_changed (if is_ok reason then over else failed) in
    let answer : EspErr × List Effect = elim port [
      | none ↦ (EspErr.ok, changed)
      | some cancel ↦ (cancel id, changed ++ Effect.voice_port_cancel id ∷ [])
    ] in
    if id == 0
    then (EspErr.ok, c, [])
    else if not (expected == 0) && not (id == expected)
    then (EspErr.invalid_state, c, [])
    else (answer.0, c', answer.1)

abbrev pub voice_cancel : Ptr (ℕ → EspErr) → Controller → EspErr × Controller × List Effect
voice_cancel port c = cancel_voice_operation port 0 EspErr.ok none c

abbrev pub is_preparing : VoiceState → Bool
is_preparing VoiceState.preparing = true
is_preparing _ = false

abbrev pub is_listening : VoiceState → Bool
is_listening VoiceState.listening = true
is_listening _ = false

abbrev pub given : Ptr Text → Bool
given none = false
given (some t) = not (is_blank t)

abbrev pub show_input : Ptr Text → Controller → Controller
show_input none c = c
show_input (some t) c = record c {
  snapshot = record c.snapshot { input = strlcpy (text_max + 1) t };
}

-- An operation that the port has completed: the view, and whether its text is posted.
unfoldable pub voice_completed : VoiceEvent → Controller → Controller × Bool
voice_completed e c =
    let over = voice_over c.snapshot.voice_state c in
    let nothing = is_not_found e.status.error || not (given e.event_text) in
    let message =
      if nothing
      then text "No speech was detected. Please retry."
      else text "Speech recognition could not finish. Please retry." in
    if not e.send
    then if is_ok e.status.error then (voice_over VoiceState.idle c, false) else (over, false)
    else if is_ok e.status.error && given e.event_text
    then (show_input e.event_text (voice_over VoiceState.idle c), true)
    else (voice_failure e.status.error (some message) over, false)

-- An event of the operation that runs, once its status is shown.
unfoldable pub take_voice_event : VoiceEventType → VoiceEvent → ℕ → Controller → Controller × Bool
take_voice_event VoiceEventType.started e now c =
    if is_preparing c.snapshot.voice_state
    then (enter VoiceState.listening now c, false)
    else (c, false)
take_voice_event VoiceEventType.transcript e now c = (show_input e.event_text c, false)
take_voice_event VoiceEventType.failed e now c =
    let failed = voice_failure e.status.error none c in
    (
      record failed {
        snapshot = record failed.snapshot { retryable = e.status.retryable; notice = [] };
      },
      false,
    )
take_voice_event VoiceEventType.completed e now c = voice_completed e c

-- The Boolean tells whether `post_text` is called with the event's text next.
unfoldable pub voice_event : VoiceEvent → ℕ → Controller → Controller × List Effect × Bool
voice_event e now c =
    let c' = record c { snapshot = record c.snapshot { voice_status = e.status } } in
    let r = take_voice_event e.kind e now c' in
    if c.started && not (e.operation_id == 0) && e.operation_id == c.voice_operation_id
    then (notify_changed r.0, changed, r.1)
    else (c, [], false)

-- What is done once the deadline of the operation that runs has passed. The source lets go of the lock
-- between the test and the cancellation, which tests the number again; here nothing comes between.
unfoldable pub step : Ptr (ℕ → EspErr) → ℕ → Controller → EspErr × Controller × List Effect
step port now c =
    let v = c.snapshot.voice_state in
    let message =
      if is_preparing v
      then text "Voice service connection timed out. Check the network and retry."
      else if is_listening v
      then text "Recording took too long. Please retry."
      else text "Speech recognition timed out. Please retry." in
    if not (c.voice_operation_id == 0) && ltb 0 c.voice_deadline_us && leb c.voice_deadline_us now
    then cancel_voice_operation port c.voice_operation_id EspErr.timeout (some message) c
    else (EspErr.ok, c, [])
