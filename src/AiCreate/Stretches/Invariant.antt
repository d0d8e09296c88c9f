-- ===== src/AiCreate/Stretches/Invariant.antt =====
-- The invariant of the controller under any order of the stretches.
use esp_mosaico_claw.Base.{refl, Bool, false, List, [], ◌∷◌, arith, if_cases, Ptr, Text, EspErr}
use esp_mosaico_claw.Voice.Port.{VoiceStatus}
use esp_mosaico_claw.AiCreate.Controller.{
  Controller, Env, notify_changed, set_notice, reset_session_view, cancel_session_switch,
  clear_notice, clear_session_delete_prompt,
}
use esp_mosaico_claw.AiCreate.Start.{no_alias, first_view, created, start, stop}
use esp_mosaico_claw.AiCreate.Stretches.{Stretch, run, run_all}
use esp_mosaico_claw.AiCreate.Stretches.Kept.{Kept}
use esp_mosaico_claw.AiCreate.Stretches.Steps.{gateway_event-Kept}
use esp_mosaico_claw.AiCreate.Stretches.Requests.{
  free_Good, bind_begin-Kept, bind_end-Kept, submit-Kept, post_failed-Kept, cancel-Kept,
  abort_view-Kept,
}
use esp_mosaico_claw.AiCreate.Stretches.Views.{
  prepare_new_session-Kept, set_mode-Kept, show_history-Kept, set_session-Kept,
  begin_session_switch-Kept, complete_switch-Kept, cancel_pending_switch-Kept,
}
use esp_mosaico_claw.AiCreate.Stretches.Recordings.{
  cancel_voice_operation-Kept, voice_event-Kept, voice_open-Kept, begin_failed-Kept,
  stop_begin-Kept, finish_failed-Kept,
}

notify_changed-Kept : (c : Controller) → Kept c → Kept (notify_changed c)
unfolding notify_changed
notify_changed-Kept c g = g

set_notice-Kept :
    (env : Env) (e : EspErr) (t : Text) (c : Controller) → Kept c → Kept (set_notice env e t c)
unfolding set_notice notify_changed
set_notice-Kept env e t c g = g

start-Kept : (c : Controller) → Kept c → Kept (start c)
unfolding start
start-Kept c g = g

stop-Kept : (c : Controller) → Kept c → Kept (stop c)
unfolding stop cancel_session_switch
stop-Kept c g = record {
  eight = g.eight;
  distinct = g.distinct;
  shown = g.shown;
  bounded = g.bounded;
  loading = refl;
  voice = g.voice;
}

run-Kept : (env : Env) (s : Stretch) (c : Controller) → Kept c → Kept (run env s c)
unfolding run
run-Kept env Stretch.starts c g = start-Kept c g
run-Kept env Stretch.stops c g = stop-Kept c g
run-Kept env Stretch.notified c g = notify_changed-Kept c g
run-Kept env (Stretch.noticed e t) c g = set_notice-Kept env e t c g
run-Kept env (Stretch.gateway_event_comes e) c g = gateway_event-Kept e c g
run-Kept env Stretch.binding_begins c g = bind_begin-Kept c g
run-Kept env (Stretch.binding_ends b r) c g = bind_end-Kept env b r c g
run-Kept env (Stretch.text_is_submitted had t) c g = submit-Kept had t c g
run-Kept env (Stretch.post_fails id e) c g = post_failed-Kept env id e c g
run-Kept env Stretch.cancels c g = cancel-Kept (λ id. EspErr.ok) c g
run-Kept env Stretch.aborts c g = abort_view-Kept c g
run-Kept env (Stretch.new_session_is_prepared alias) c g =
    prepare_new_session-Kept env alias false c g
run-Kept env (Stretch.mode_is_set mode) c g = set_mode-Kept mode c g
run-Kept env (Stretch.history_is_shown chat_id alias a) c g = show_history-Kept chat_id alias a c g
run-Kept env (Stretch.session_is_set chat_id alias) c g = set_session-Kept env chat_id alias c g
run-Kept env Stretch.switch_begins c g = begin_session_switch-Kept c g
run-Kept env Stretch.switch_is_cancelled c g = cancel_pending_switch-Kept c g
run-Kept env (Stretch.switch_completes switch chat_id alias n a) c g =
    complete_switch-Kept env switch chat_id alias n a c g
run-Kept env (Stretch.voice_event_comes e now) c g = voice_event-Kept e now c g
run-Kept env (Stretch.voice_opens same_port port status now) c g =
    voice_open-Kept same_port port status now c g
run-Kept env (Stretch.voice_begin_fails id e) c g = begin_failed-Kept id e c g
run-Kept env (Stretch.voice_stops now) c g = stop_begin-Kept now c g
run-Kept env (Stretch.voice_finish_fails id send e) c g = finish_failed-Kept id send e c g
run-Kept env (Stretch.voice_is_cancelled expected reason t) c g =
    cancel_voice_operation-Kept expected reason t c g

run_all-Kept : (env : Env) (ss : List Stretch) (c : Controller) → Kept c → Kept (run_all env ss c)
unfolding run_all
run_all-Kept env [] c g = g
run_all-Kept env (s ∷ ss) c g = run_all-Kept env ss (run env s c) (run-Kept env s c g)

pub created-Kept :
    (env : Env) (chat_id : Text) (alias : Ptr Text) (b : Bool) (status : VoiceStatus)
    → Kept (created env chat_id alias b status)
unfolding created first_view reset_session_view clear_notice clear_session_delete_prompt
created-Kept env chat_id alias b status =
    if_cases Kept (no_alias alias) (λ _. free_Good [] false 0 0 (omega arith, tt) refl)
      (λ _. free_Good [] false 0 0 (omega arith, tt) refl)

-- A controller that is created without a journal keeps its state well formed under any order of the
-- stretches of `Stretch`, with any texts, events, answers and times. There are eight slots and no two
-- of them are in flight for the same request. The view is active exactly if a slot is in use, and
-- then shows the request of the first such slot. The transcript has at most ten messages, of at most
-- 511 bytes each. A session is shown as loading exactly while a switch is pending, and the voice
-- operation that is shown is the one that runs.
pub run_all-created :
    (env : Env) (chat_id : Text) (alias : Ptr Text) (cancel_on_stop : Bool) (status : VoiceStatus)
    (ss : List Stretch)
    → Kept (run_all env ss (created env chat_id alias cancel_on_stop status))
run_all-created env chat_id alias cancel_on_stop status ss =
    run_all-Kept env ss (created env chat_id alias cancel_on_stop status)
      (created-Kept env chat_id alias cancel_on_stop status)
