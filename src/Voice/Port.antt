-- ===== src/Voice/Port.antt =====
-- components/mosaic_ui/common/ai_create_voice_port.h and .c: the events and the status of voice
-- input, as the controller sees them.
use esp_mosaico_claw.Base.{ℕ, Bool, true, false, Ptr, Text, EspErr, ok, not_supported}

-- `ai_create_voice_readiness_t`.
pub data Readiness : Type 0 where
  disabled initializing ready offline auth_failed audio_error busy provider_error : Readiness

-- `ai_create_voice_status_t`.
pub record VoiceStatus : Type 0 where
  pub readiness : Readiness
  pub error : EspErr
  pub retryable : Bool

-- `ai_create_voice_event_type_t`.
pub data VoiceEventType : Type 0 where
  started transcript failed completed : VoiceEventType

-- `ai_create_voice_event_t`.
pub record VoiceEvent : Type 0 where
  pub kind : VoiceEventType
  pub operation_id : ℕ
  pub status : VoiceStatus
  pub send : Bool
  pub event_text : Ptr Text

unfoldable pub status_disabled : VoiceStatus
status_disabled = record {
  readiness = Readiness.disabled;
  error = not_supported;
  retryable = false;
}

unfoldable pub status_ready : VoiceStatus
status_ready = record { readiness = Readiness.ready; error = ok; retryable = true }
