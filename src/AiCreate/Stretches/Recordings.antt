-- ===== src/AiCreate/Stretches/Recordings.antt =====
-- The stretches of the voice keep what the controller keeps.
use esp_mosaico_claw.Base.{
  ℕ, refl, inl, inr, Bool, true, false, not, ◌&&◌, ◌||◌, Bool-cases, if_cases, none, some, List, [],
  ◌==◌, Ptr, Text, EspErr, is_ok,
}
use esp_mosaico_claw.Voice.Port.{VoiceStatus, VoiceEventType, VoiceEvent}
use esp_mosaico_claw.AiCreate.Controller.{
  VoiceState, Controller, Effect, notify_changed, clear_notice,
}
use esp_mosaico_claw.AiCreate.Sessions.{changed}
use esp_mosaico_claw.AiCreate.Voice.{
  voice_over, voice_failure, set_voice_deadline, voice_completed, take_voice_event,
  cancel_voice_operation, voice_event, given, is_preparing, is_listening, show_input,
}
use esp_mosaico_claw.AiCreate.Dictation.{
  take_id, can_start, show_status, unavailable_error, voice_unavailable, voice_opened, may_open,
  voice_open, begin_failed, stop_begin, finish_failed,
}
use esp_mosaico_claw.AiCreate.Stretches.Kept.{Good, Kept}

abbrev Result : Type 0
Result = EspErr × Controller × List Effect

voice_over-Kept :
    (c : Controller)
    → Kept c
    → Good c.messages c.snapshot.active c.snapshot.request_id c.snapshot.transcript
        c.snapshot.session_loading c.session_switch_pending 0 0
voice_over-Kept c g = record {
  eight = g.eight;
  distinct = g.distinct;
  shown = g.shown;
  bounded = g.bounded;
  loading = g.loading;
  voice = refl;
}

pub cancel_voice_operation-Kept :
    (expected : ℕ) (reason : EspErr) (t : Ptr Text) (c : Controller)
    → Kept c
    → Kept (cancel_voice_operation none expected reason t c).1
unfolding cancel_voice_operation notify_changed
cancel_voice_operation-Kept expected reason t c g =
    let P = λ (r : Result). Kept r.1 in
    if_cases P (c.voice_operation_id == 0) (λ _. g)
      (λ _.
        if_cases P (not (expected == 0) && not (c.voice_operation_id == expected)) (λ _. g)
          (λ _. elim (Bool-cases (is_ok reason)) [
            | inl z ↦ rw z (voice_over-Kept c g)
            | inr z ↦ rw z (voice_over-Kept c g)
          ]))

-- A view with a text that is taken for the input.
show_input-Kept : (t : Ptr Text) (c : Controller) → Kept c → Kept (show_input t c)
show_input-Kept none c g = g
show_input-Kept (some t) c g = g

voice_completed-Kept : (e : VoiceEvent) (c : Controller) → Kept c → Kept (voice_completed e c).0
unfolding voice_completed voice_failure
voice_completed-Kept e c g =
    let P = λ (r : Controller × Bool). Kept r.0 in
    if_cases P (not e.send)
      (λ _. if_cases P (is_ok e.status.error) (λ _. voice_over-Kept c g) (λ _. voice_over-Kept c g))
      (λ _.
        if_cases P (is_ok e.status.error && given e.event_text)
          (λ _. show_input-Kept e.event_text (voice_over VoiceState.idle c) (voice_over-Kept c g))
          (λ _. voice_over-Kept c g))

take_voice_event-Kept :
    (t : VoiceEventType) (e : VoiceEvent) (now : ℕ) (c : Controller)
    → Kept c
    → Kept (take_voice_event t e now c).0
unfolding take_voice_event set_voice_deadline voice_failure
take_voice_event-Kept VoiceEventType.started e now c g =
    if_cases (λ (r : Controller × Bool). Kept r.0) (is_preparing c.snapshot.voice_state) (λ _. g)
      (λ _. g)
take_voice_event-Kept VoiceEventType.transcript e now c g = show_input-Kept e.event_text c g
take_voice_event-Kept VoiceEventType.failed e now c g = voice_over-Kept c g
take_voice_event-Kept VoiceEventType.completed e now c g = voice_completed-Kept e c g

pub voice_event-Kept :
    (e : VoiceEvent) (now : ℕ) (c : Controller) → Kept c → Kept (voice_event e now c).0
unfolding voice_event notify_changed
voice_event-Kept e now c g =
    if_cases (λ (r : Controller × List Effect × Bool). Kept r.0)
      (c.started && not (e.operation_id == 0) && e.operation_id == c.voice_operation_id)
      (λ _.
        take_voice_event-Kept e.kind e now
          (record c { snapshot = record c.snapshot { voice_status = e.status } }) g)
      (λ _. g)

show_status-Kept :
    (port : Bool) (s : VoiceStatus) (c : Controller) → Kept c → Kept (show_status port s c)
unfolding show_status
show_status-Kept true s c g = g
show_status-Kept false s c g = g

voice_unavailable-Kept : (c : Controller) → Kept c → Kept (voice_unavailable c)
unfolding voice_unavailable notify_changed
voice_unavailable-Kept c g = g

voice_opened-Kept : (now : ℕ) (c : Controller) → Kept c → Kept (voice_opened now c)
unfolding voice_opened set_voice_deadline clear_notice notify_changed
voice_opened-Kept now c g = record {
  eight = g.eight;
  distinct = g.distinct;
  shown = g.shown;
  bounded = g.bounded;
  loading = g.loading;
  voice = refl;
}

pub voice_open-Kept :
    (same_port port : Bool) (status : VoiceStatus) (now : ℕ) (c : Controller)
    → Kept c
    → Kept (voice_open same_port port status now c).2
unfolding voice_open
voice_open-Kept same_port port status now c g =
    let c' = show_status port status c in
    let g' : Kept c' = show_status-Kept port status c g in
    let P = λ (r : EspErr × ℕ × Controller × List Effect). Kept r.2 in
    let e = unavailable_error c'.snapshot.voice_status in
    let id = (take_id c.next_voice_operation_id).0 in
    if_cases P (not same_port) {x = (EspErr.invalid_state, 0, c, [])} (λ _. g)
      (λ _.
        if_cases P (not (port && can_start c'.snapshot.voice_status))
          {x = (e, 0, voice_unavailable c', changed)} (λ _. voice_unavailable-Kept c' g')
          (λ _.
            if_cases P (may_open c') {x = (EspErr.ok, id, voice_opened now c', changed)}
              {y = (EspErr.invalid_state, 0, c', [])} (λ _. voice_opened-Kept now c' g') (λ _. g')))

pub begin_failed-Kept : (id : ℕ) (e : EspErr) (c : Controller) → Kept c → Kept (begin_failed id e c)
unfolding begin_failed voice_failure notify_changed
begin_failed-Kept id e c g =
    if_cases Kept (c.voice_operation_id == id) (λ _. voice_over-Kept c g) (λ _. g)

pub stop_begin-Kept : (now : ℕ) (c : Controller) → Kept c → Kept (stop_begin now c).1
unfolding stop_begin set_voice_deadline notify_changed
stop_begin-Kept now c g =
    if_cases (λ (r : EspErr × Controller). Kept r.1)
      (c.voice_operation_id == 0
        || not (is_preparing c.snapshot.voice_state || is_listening c.snapshot.voice_state))
      (λ _. g) (λ _. g)

pub finish_failed-Kept :
    (id : ℕ) (send : Bool) (e : EspErr) (c : Controller) → Kept c → Kept (finish_failed id send e c)
unfolding finish_failed voice_failure notify_changed
finish_failed-Kept id send e c g =
    if_cases Kept (c.voice_operation_id == id || send) (λ _. voice_over-Kept c g) (λ _. g)
