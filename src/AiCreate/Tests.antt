-- ===== src/AiCreate/Tests.antt =====
-- components/mosaic_ui/common/ai_create_controller.c: the controller at work.
use esp_mosaico_claw.Base.{
  ℕ, ◌≡◌, refl, inr, Bool, true, false, not, none, some, List, [], ◌∷◌, ◌++◌, arith, Text, text,
  strlcpy, EspErr,
}
use esp_mosaico_claw.Voice.Port.{VoiceEventType, VoiceEvent, status_ready, status_disabled}
use esp_mosaico_claw.AiCreate.Tracks.{
  find_index, find_message, first_used, reserve_message, find_message_by_run,
}
use esp_mosaico_claw.AiCreate.Controller.{
  State, VoiceState, Status, Controller, Env, notify_changed, clear_notice, refresh_active,
  clear_session_delete_prompt, reset_session_view,
}
use esp_mosaico_claw.AiCreate.Events.{EventKind, Delivery, GatewayEvent, take_event, gateway_event}
use esp_mosaico_claw.AiCreate.Events.Stale.{gateway_event-stale}
use esp_mosaico_claw.AiCreate.Submit.{Request, bind_begin, show_submitted, submit, post_failed}
use esp_mosaico_claw.AiCreate.Submit.Refused.{is_used, with_turn, post_failed-submit}
use esp_mosaico_claw.AiCreate.Abort.{abort_current}
use esp_mosaico_claw.AiCreate.Abort.Quiet.{gateway_events, gateway_events-abort_current}
use esp_mosaico_claw.AiCreate.Voice.{
  voice_failure, cancel_voice_operation, voice_completed, take_voice_event, voice_event,
  set_voice_deadline, step,
}
use esp_mosaico_claw.AiCreate.Dictation.{
  show_status, voice_opened, voice_open, stop_begin, finish_failed,
}
use esp_mosaico_claw.AiCreate.Start.{first_view, created, start}
use esp_mosaico_claw.AiCreate.Stretches.{Stretch, run, run_all}
use esp_mosaico_claw.AiCreate.Stretches.Kept.{Kept}
use esp_mosaico_claw.AiCreate.Stretches.Invariant.{run_all-created}
use esp_mosaico_claw.AiCreate.Stretches.Deadline.{run_stepped, voice_open-run_stepped}

abbrev env : Env
env = record { alias_max = 31; alias_is_valid = λ t. true; err_name = λ e. text "ERR" }

abbrev hello : Text
hello = text "Hi"

-- A controller that is about to submit, and one with its request in flight.
abbrev to_submit : List Stretch
to_submit = Stretch.starts ∷ Stretch.binding_begins ∷ []

abbrev to_post : List Stretch
to_post = Stretch.starts ∷ Stretch.binding_begins ∷ Stretch.text_is_submitted false hello ∷ []

abbrev after : List Stretch → Controller
after ss = run_all env ss (created env (text "chat") none true status_ready)

abbrev event : ℕ → EventKind → Bool → GatewayEvent
event sequence kind terminal = record {
  request_id = 1;
  run_id = 9;
  sequence = sequence;
  kind = kind;
  delivery = Delivery.new_run;
  status = Status.ok;
  terminal = terminal;
  retryable = false;
  text = some (text "Done");
}

run_all-created_example : Kept (after to_post)
run_all-created_example = run_all-created env (text "chat") none true status_ready to_post

gateway_event-stale_example :
    gateway_event
      (event 1 EventKind.agent_progress false)
      (gateway_event (event 2 EventKind.response_final true) (after to_post)).0
    ≡ ((gateway_event (event 2 EventKind.response_final true) (after to_post)).0, [])
gateway_event-stale_example =
    gateway_event-stale (event 2 EventKind.response_final true)
      (event 1 EventKind.agent_progress false) (after to_post)
      (run_all-created env (text "chat") none true status_ready to_post).distinct refl (omega arith)

gateway_events-abort_current_example :
    gateway_events
      (event 2 EventKind.response_final true ∷ [])
      (abort_current none (λ id. EspErr.ok) (after to_post)).1
    ≡ ((abort_current none (λ id. EspErr.ok) (after to_post)).1, [])
gateway_events-abort_current_example =
    gateway_events-abort_current (event 2 EventKind.response_final true ∷ []) none (λ id. EspErr.ok)
      (after to_post)

abbrev request : Request
request = record {
  request_id = 1;
  chat_id = text "chat";
  session_alias = [];
  mode = 4;
  inject_mode_instruction = true;
  text = hello;
}

submit-hello :
    submit false hello (after to_submit) ≡ (inr request, (submit false hello (after to_submit)).1)
unfolding submit run_all run created first_view reset_session_view clear_notice
    clear_session_delete_prompt start bind_begin reserve_message find_index
submit-hello = refl

post_failed-submit_example :
    (find_message
        (post_failed env 1 EspErr.fail (submit false hello (after to_submit)).1).messages
        1
      ≡ find_message (after to_submit).messages 1)
    × ((post_failed env 1 EspErr.fail (submit false hello (after to_submit)).1).snapshot.active
        ≡ is_used (first_used (after to_submit).messages))
    × ((post_failed env 1 EspErr.fail (submit false hello (after to_submit)).1).snapshot.terminal
        ≡ not (is_used (first_used (after to_submit).messages)))
    × ((post_failed env 1 EspErr.fail (submit false hello (after to_submit)).1).snapshot.transcript
        ≡ with_turn
            (after to_submit).snapshot.transcript
            1
            hello
            (strlcpy 256 (text "Submission failed: " ++ text "ERR"))
            false
            true)
post_failed-submit_example =
    post_failed-submit env false hello EspErr.fail (after to_submit)
      (submit false hello (after to_submit)).1 request 1 submit-hello

-- A recording that is started at 5 and left to itself.
abbrev to_record : List Stretch
to_record = Stretch.starts ∷ Stretch.voice_opens true true status_ready 5 ∷ []

abbrev heard_started : VoiceEvent
heard_started = record {
  kind = VoiceEventType.started;
  operation_id = 1;
  status = status_ready;
  send = false;
  event_text = none;
}

abbrev heard_words : VoiceEvent
heard_words = record heard_started { kind = VoiceEventType.transcript; event_text = some hello }

abbrev late : VoiceEvent
late = record {
  kind = VoiceEventType.completed;
  operation_id = 1;
  status = status_ready;
  send = true;
  event_text = some hello;
}

recording : (after to_record).voice_operation_id ≡ 1
unfolding run_all run created first_view reset_session_view clear_notice clear_session_delete_prompt
    start voice_open show_status voice_opened notify_changed set_voice_deadline status_ready
recording = refl

-- It starts, reports and is finished, and nothing completes it.
abbrev spoken : List (ℕ × Stretch)
spoken =
    (6, Stretch.voice_event_comes heard_started 7)
    ∷ (9, Stretch.voice_event_comes heard_words 9)
    ∷ (15, Stretch.voice_stops 20)
    ∷ []

opens : (voice_open true true status_ready 5 (after (Stretch.starts ∷ []))).0 ≡ EspErr.ok
unfolding voice_open show_status run_all run created first_view reset_session_view clear_notice
    clear_session_delete_prompt start status_ready
opens = refl

voice_open-run_stepped_example :
    ((step none 120001005 (
        run_stepped env none spoken
          (voice_open true true status_ready 5
            (after (Stretch.starts ∷ []))).2)).1.voice_operation_id
      ≡ 0)
    × (voice_event late 120001006
          (step none 120001005 (
            run_stepped env none spoken
              (voice_open true true status_ready 5 (after (Stretch.starts ∷ []))).2)).1
        ≡ (
          (step none 120001005 (
              run_stepped env none spoken
                (voice_open true true status_ready 5 (after (Stretch.starts ∷ []))).2)).1,
          [],
          false,
        ))
voice_open-run_stepped_example =
    voice_open-run_stepped env none true true status_ready 5 500 120001005 120001006
      (after (Stretch.starts ∷ [])) spoken late opens (omega arith) (refl, (refl, (refl, tt)))
      (omega arith)

-- The late refusal of a recording that has been cancelled ends the one that runs now.
abbrev to_record_again : List Stretch
to_record_again =
    Stretch.starts
    ∷ Stretch.voice_opens true true status_ready 5
    ∷ Stretch.voice_stops 6
    ∷ Stretch.voice_is_cancelled 0 EspErr.ok none
    ∷ Stretch.voice_opens true true status_ready 7
    ∷ []

late_refusal :
    ((after to_record_again).voice_operation_id ≡ 2)
    × ((run env
          (Stretch.voice_finish_fails 1 true EspErr.fail)
          (after to_record_again)).voice_operation_id
        ≡ 0)
unfolding run_all run created first_view reset_session_view clear_notice clear_session_delete_prompt
    start voice_open show_status voice_opened notify_changed set_voice_deadline status_ready
    stop_begin cancel_voice_operation finish_failed voice_failure
late_refusal = (refl, refl)

-- A completion without sending that has failed leaves the view listening, and nothing runs.
abbrev unsent : VoiceEvent
unsent = record {
  kind = VoiceEventType.completed;
  operation_id = 1;
  status = status_disabled;
  send = false;
  event_text = none;
}

left_listening :
    ((voice_event unsent 6 (after to_record)).0.voice_operation_id ≡ 0)
    × ((voice_event unsent 6 (after to_record)).0.snapshot.voice_state ≡ VoiceState.preparing)
unfolding run_all run created first_view reset_session_view clear_notice clear_session_delete_prompt
    start voice_open show_status voice_opened notify_changed set_voice_deadline status_ready
    voice_event take_voice_event voice_completed status_disabled
left_listening = (refl, refl)

-- A message that joins a run of nobody changes what is shown, and nobody is told.
abbrev joined : GatewayEvent
joined = record (event 1 EventKind.message_accepted false) { delivery = Delivery.active_run }

joined_untold :
    ((gateway_event joined (after to_post)).1 ≡ [])
    × ((after to_post).snapshot.state ≡ State.submitting)
    × ((gateway_event joined (after to_post)).0.snapshot.state ≡ State.running)
unfolding run_all run created first_view reset_session_view clear_notice clear_session_delete_prompt
    start bind_begin submit show_submitted refresh_active reserve_message find_index gateway_event
    take_event find_message_by_run
joined_untold = (refl, refl, refl)
