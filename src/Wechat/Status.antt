-- ===== src/Wechat/Status.antt =====
-- components/mosaic_ui/include/mosaic_setup.h: the binding status that the backend reports.
use esp_mosaico_claw.Base.{ℕ, ◌≡◌, ◌↔◌, Bool, true, arith, ◌==◌, Text}

-- `mosaic_setup_wechat_state_t`.
pub data WechatState : Type 0 where
  idle waiting_scan scanned saving awaiting_save complete cancelled expired error : WechatState

-- The value of the C enumeration.
abbrev pub state_code : WechatState → ℕ
state_code WechatState.idle = 0
state_code WechatState.waiting_scan = 1
state_code WechatState.scanned = 2
state_code WechatState.saving = 3
state_code WechatState.awaiting_save = 4
state_code WechatState.complete = 5
state_code WechatState.cancelled = 6
state_code WechatState.expired = 7
state_code WechatState.error = 8

abbrev pub same_state : WechatState → WechatState → Bool
same_state a b = state_code a == state_code b

pub same_state_iff : (a b : WechatState) → (same_state a b ≡ true) ↔ (a ≡ b)
same_state_iff a b = (λ e. ground arith, λ e. ground arith)

-- `mosaic_setup_wechat_status_t`. The texts are C strings.
pub record WechatStatus : Type 0 where
  pub active : Bool
  pub configured : Bool
  pub persisted : Bool
  pub state : WechatState
  pub message : Text
  pub qr_payload : Text
  pub account_id : Text
