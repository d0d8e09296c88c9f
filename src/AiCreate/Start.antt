-- ===== src/AiCreate/Start.antt =====
-- components/mosaic_ui/common/ai_create_controller.c: a controller that is created without a journal, and the
-- stretches in which it starts and stops.
use esp_mosaico_claw.Base.{
  ◌+◌, Bool, true, false, none, some, [], if◌then◌else◌, Ptr, Text, is_blank, strlcpy, EspErr,
}
use esp_mosaico_claw.Voice.Port.{VoiceStatus}
use esp_mosaico_claw.AiCreate.Tracks.{free_tracks}
use esp_mosaico_claw.AiCreate.Controller.{
  State, VoiceState, Screen, Composer, Status, Snapshot, Controller, Env, mode_quick, chat_id_max,
  reset_session_view, cancel_session_switch,
}
use esp_mosaico_claw.AiCreate.Sessions.{or_default}

abbrev pub no_alias : Ptr Text → Bool
no_alias none = true
no_alias (some t) = is_blank t

-- The view that `calloc` and `ai_create_controller_create` make.
unfoldable pub first_view : Env → Text → Ptr Text → VoiceStatus → Snapshot
first_view env chat_id alias status = record {
  revision = 0;
  screen = Screen.welcome;
  composer = Composer.default;
  state = State.idle;
  voice_state = VoiceState.idle;
  voice_operation_id = 0;
  mode = mode_quick;
  status = Status.ok;
  request_id = 0;
  active = false;
  retryable = false;
  terminal = false;
  new_session_pending = no_alias alias;
  session_loading = false;
  session_delete_confirm_visible = false;
  session_deleting = false;
  voice_status = status;
  notice_visible = false;
  notice_code = EspErr.ok;
  chat_id = strlcpy (chat_id_max + 1) chat_id;
  session_alias = strlcpy (env.alias_max + 1) (or_default [] alias);
  delete_session_alias = [];
  input = [];
  response = [];
  progress = [];
  error = [];
  notice = [];
  transcript = [];
}

unfoldable pub created : Env → Text → Ptr Text → Bool → VoiceStatus → Controller
created env chat_id alias cancel_on_stop status =
    let c : Controller = record {
      started = false;
      subscribed = false;
      cancel_on_stop = cancel_on_stop;
      start_with_new_session = no_alias alias;
      session_creation_in_progress = false;
      session_switch_pending = false;
      session_switch_generation = 1;
      session_delete_pending = false;
      session_delete_generation = 1;
      next_request_id = 1;
      next_voice_operation_id = 1;
      voice_operation_id = 0;
      voice_deadline_us = 0;
      pending_session_alias = [];
      messages = free_tracks;
      snapshot = first_view env chat_id alias status;
    } in
    if no_alias alias then reset_session_view c else c

-- The gateway has taken the subscription.
unfoldable pub start : Controller → Controller
start c = record c { started = true; subscribed = true }

unfoldable pub stop : Controller → Controller
stop c = cancel_session_switch (record c { started = false })
