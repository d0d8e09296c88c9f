-- ===== src/AiCreate/Dictation.antt =====
-- components/mosaic_ui/common/ai_create_controller.c: a voice operation is started and stopped. `same_port`
-- tells whether the port is still the one that was asked for its status.
use esp_mosaico_claw.Base.{
  ℕ, ◌+◌, ◌%◌, ◌==◌, u32_mod, Bool, true, false, not, ◌&&◌, ◌||◌, none, some, List, [], ◌++◌,
  if◌then◌else◌, Ptr, text, EspErr, is_ok,
}
use esp_mosaico_claw.Voice.Port.{Readiness, VoiceStatus, status_disabled}
use esp_mosaico_claw.AiCreate.Controller.{
  VoiceState, Screen, Status, Controller, Effect, notify_changed, clear_notice,
}
use esp_mosaico_claw.AiCreate.Sessions.{changed}
use esp_mosaico_claw.AiCreate.Voice.{enter, voice_failure, voice_cancel, is_preparing, is_listening}

-- The readiness with which an operation may start.
abbrev pub can_start : VoiceStatus → Bool
can_start s = elim s.readiness [
  | Readiness.ready ↦ true
  | Readiness.offline ↦ s.retryable
  | Readiness.provider_error ↦ s.retryable
  | Readiness.audio_error ↦ s.retryable
  | _ ↦ false
]

-- `next_voice_operation_id++`, once more if that was zero: the number, and the next one.
abbrev pub take_id : ℕ → ℕ × ℕ
take_id n = if n == 0 then (1, 2) else (n, (n + 1) % u32_mod)

abbrev pub is_session_picker : Screen → Bool
is_session_picker Screen.session_picker = true
is_session_picker _ = false

-- `normalized_voice_status` with the port's answer, or none without a port.
unfoldable pub normalized_voice_status : Ptr (EspErr × VoiceStatus) → VoiceStatus → VoiceStatus
normalized_voice_status port_answer fallback =
    let silent = elim port_answer as (λ _. VoiceStatus) [
      | some answer ↦ fallback
      | none ↦ elim fallback.readiness [
        | Readiness.disabled ↦ if is_ok fallback.error then status_disabled else fallback
        | _ ↦ fallback
      ]
    ] in
    elim port_answer as (λ _. VoiceStatus) [
      | some answer ↦ if is_ok answer.0 then answer.1 else silent
      | none ↦ silent
    ]

-- The port's status, if there is a port, is shown.
unfoldable pub show_status : Bool → VoiceStatus → Controller → Controller
show_status true status c = record c { snapshot = record c.snapshot { voice_status = status } }
show_status false status c = c

abbrev pub unavailable_error : VoiceStatus → EspErr
unavailable_error s = if is_ok s.error then EspErr.not_supported else s.error

unfoldable pub voice_unavailable : Controller → Controller
voice_unavailable c = notify_changed (record c {
  snapshot = record c.snapshot {
    status = Status.unavailable;
    retryable = c.snapshot.voice_status.retryable;
    notice_visible = true;
    notice_code = unavailable_error c.snapshot.voice_status;
    notice = [];
  };
})

unfoldable pub voice_opened : ℕ → Controller → Controller
voice_opened now c =
    let (id, next) = take_id c.next_voice_operation_id in
    notify_changed (
      enter VoiceState.preparing now (record c {
        next_voice_operation_id = next;
        voice_operation_id = id;
        snapshot = clear_notice (record c.snapshot {
          voice_operation_id = id;
          input = [];
          error = [];
          retryable = false;
        });
      }))

abbrev pub may_open : Controller → Bool
may_open c =
    c.started
    && c.voice_operation_id == 0
    && not c.snapshot.session_loading
    && not (is_session_picker c.snapshot.screen)

-- The stretch that starts an operation: its number, which is zero if none starts.
unfoldable pub voice_open :
    Bool → Bool → VoiceStatus → ℕ → Controller → EspErr × ℕ × Controller × List Effect
voice_open same_port port status now c =
    let c' = show_status port status c in
    if not same_port
    then (EspErr.invalid_state, 0, c, [])
    else if not (port && can_start c'.snapshot.voice_status)
    then (unavailable_error c'.snapshot.voice_status, 0, voice_unavailable c', changed)
    else if may_open c'
    then (EspErr.ok, (take_id c.next_voice_operation_id).0, voice_opened now c', changed)
    else (EspErr.invalid_state, 0, c', [])

-- The port has refused to begin.
unfoldable pub begin_failed : ℕ → EspErr → Controller → Controller
begin_failed id e c = notify_changed (
    if c.voice_operation_id == id
    then voice_failure e (some (text "Could not start recording. Please retry.")) c
    else c)

-- The changes that others make while the port begins are an input.
unfoldable pub voice_start :
    Bool
    → Bool
    → VoiceStatus
    → ℕ
    → (ℕ → EspErr)
    → (Controller → Controller)
    → Controller
    → EspErr × Controller × List Effect
voice_start same_port port status now begin others c =
    let r = voice_open same_port port status now c in
    let e = begin r.1 in
    if not (is_ok r.0)
    then (r.0, r.2, r.3)
    else if is_ok e
    then (e, others r.2, r.3)
    else (e, begin_failed r.1 e (others r.2), r.3 ++ changed)

-- The stretch that ends the recording.
unfoldable pub stop_begin : ℕ → Controller → EspErr × Controller
stop_begin now c =
    let v = c.snapshot.voice_state in
    if c.voice_operation_id == 0 || not (is_preparing v || is_listening v)
    then (EspErr.invalid_state, c)
    else (EspErr.ok, notify_changed (enter VoiceState.finalizing now c))

-- The port has refused to finish.
unfoldable pub finish_failed : ℕ → Bool → EspErr → Controller → Controller
finish_failed id send e c = notify_changed (
    if c.voice_operation_id == id || send
    then voice_failure e (some (text "Could not stop recording. Please retry.")) c
    else c)

-- The port is what it cancels and finishes with; it may be absent.
unfoldable pub voice_stop :
    Ptr ((ℕ → EspErr) × (ℕ → EspErr))
    → Bool
    → ℕ
    → (Controller → Controller)
    → Controller
    → EspErr × Controller × List Effect
voice_stop none send now others c = (EspErr.not_supported, c, [])
voice_stop (some (port_cancel, finish)) send now others c =
    let r = stop_begin now c in
    let e = finish c.voice_operation_id in
    if not send
    then voice_cancel (some port_cancel) c
    else if not (is_ok r.0)
    then (r.0, c, [])
    else if is_ok e
    then (e, others r.1, changed)
    else (e, finish_failed c.voice_operation_id send e (others r.1), changed ++ changed)
