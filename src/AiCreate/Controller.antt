-- ===== src/AiCreate/Controller.antt =====
-- components/mosaic_ui/common/ai_create_controller.{h,c}: the state of the controller, with what it shows,
-- and the changes that its operations share. The lock makes each stretch of an operation that holds
-- it one step. The session manager's functions and ESP-IDF's names of errors are parameters. The
-- controller, an event, a text that is posted and an alias that is switched to are not NULL.
use esp_mosaico_claw.Base.{
  ℕ, ◌+◌, ◌%◌, Bool, true, false, none, some, List, [], if◌then◌else◌, ◌==◌, u32_mod, Text,
  is_blank, strlcpy, EspErr,
}
use esp_mosaico_claw.Voice.Port.{VoiceStatus}
use esp_mosaico_claw.AiCreate.Transcript.{Message}
use esp_mosaico_claw.AiCreate.Tracks.{Track, free_tracks, track_at, first_used}

-- `ai_create_controller_state_t`, `ai_create_voice_state_t`, `ai_create_screen_t`, `ai_create_composer_t`.
pub data State : Type 0 where
  idle drafting recording transcribing ready submitting running completed : State
  error cancelling cancelled : State

pub data VoiceState : Type 0 where
  idle preparing listening finalizing cancelling error : VoiceState

pub data Screen : Type 0 where
  welcome chat session_picker : Screen

pub data Composer : Type 0 where
  default mode : Composer

-- `cap_im_ai_create_status_t`.
pub data Status : Type 0 where
  ok invalid_request busy unavailable timeout cancelled auth_required rate_limited internal : Status

-- `cap_im_ai_create_mode_t`, a number since a caller may give one that is out of range.
abbrev pub mode_quick : ℕ
mode_quick = 4

abbrev pub mode_count : ℕ
mode_count = 6

abbrev pub text_max : ℕ
text_max = 4096

abbrev pub chat_id_max : ℕ
chat_id_max = 95

-- What the session manager and ESP-IDF give: the longest alias, the test of an alias, and
-- `esp_err_to_name`.
pub record Env : Type 0 where
  pub alias_max : ℕ
  pub alias_is_valid : Text → Bool
  pub err_name : EspErr → Text

-- `ai_create_controller_snapshot_t`.
pub record Snapshot : Type 0 where
  pub revision : ℕ
  pub screen : Screen
  pub composer : Composer
  pub state : State
  pub voice_state : VoiceState
  pub voice_operation_id : ℕ
  pub mode : ℕ
  pub status : Status
  pub request_id : ℕ
  pub active : Bool
  pub retryable : Bool
  pub terminal : Bool
  pub new_session_pending : Bool
  pub session_loading : Bool
  pub session_delete_confirm_visible : Bool
  pub session_deleting : Bool
  pub voice_status : VoiceStatus
  pub notice_visible : Bool
  pub notice_code : EspErr
  pub chat_id : Text
  pub session_alias : Text
  pub delete_session_alias : Text
  pub input : Text
  pub response : Text
  pub progress : Text
  pub error : Text
  pub notice : Text
  pub transcript : List Message

-- `ai_create_controller_t`, less the handles of the system and of the ports.
pub record Controller : Type 0 where
  pub started : Bool
  pub subscribed : Bool
  pub cancel_on_stop : Bool
  pub start_with_new_session : Bool
  pub session_creation_in_progress : Bool
  pub session_switch_pending : Bool
  pub session_switch_generation : ℕ
  pub session_delete_pending : Bool
  pub session_delete_generation : ℕ
  pub next_request_id : ℕ
  pub next_voice_operation_id : ℕ
  pub voice_operation_id : ℕ
  pub voice_deadline_us : ℕ
  pub pending_session_alias : Text
  pub messages : List Track
  pub snapshot : Snapshot

-- The calls that an operation makes outside the lock: the listener, the writer of the journal, and the
-- ports' cancellations.
pub data Effect : Type 0 where
  on_changed schedule_journal : Effect
  voice_port_cancel gateway_cancel : ℕ → Effect

-- A number that counts up from one, past the end to one again.
abbrev pub next_id : ℕ → ℕ
next_id n = if (n + 1) % u32_mod == 0 then 1 else (n + 1) % u32_mod

unfoldable pub notify_changed : Controller → Controller
notify_changed c = record c {
  snapshot = record c.snapshot { revision = next_id c.snapshot.revision };
}

unfoldable pub clear_notice : Snapshot → Snapshot
clear_notice s = record s { notice_visible = false; notice_code = EspErr.ok; notice = [] }

unfoldable pub set_notice : Env → EspErr → Text → Controller → Controller
set_notice env e message c = notify_changed (record c {
  snapshot = record c.snapshot {
    notice_visible = true;
    notice_code = e;
    notice = strlcpy 160 (if is_blank message then env.err_name e else message);
  };
})

-- The first request in flight is shown.
unfoldable pub refresh_active : List Track → Snapshot → Snapshot
refresh_active ts s = elim (first_used ts) [
  | some i ↦ record s { active = true; request_id = (track_at ts i).request_id }
  | none ↦ record s { active = false; request_id = 0 }
]

unfoldable pub clear_session_delete_prompt : Snapshot → Snapshot
clear_session_delete_prompt s = record s {
  session_delete_confirm_visible = false;
  session_deleting = false;
  delete_session_alias = [];
}

unfoldable pub reset_session_view : Controller → Controller
reset_session_view c = record c {
  messages = free_tracks;
  snapshot = clear_session_delete_prompt (
      clear_notice (record c.snapshot {
        state = State.drafting;
        screen = Screen.welcome;
        composer = Composer.default;
        mode = mode_quick;
        status = Status.ok;
        request_id = 0;
        active = false;
        retryable = false;
        terminal = false;
        input = [];
        response = [];
        progress = [];
        error = [];
        transcript = [];
      }));
}

unfoldable pub cancel_session_switch : Controller → Controller
cancel_session_switch c = record c {
  session_switch_generation = next_id c.session_switch_generation;
  session_switch_pending = false;
  snapshot = record c.snapshot { session_loading = false };
}
