-- ===== src/Wechat/Flow.antt =====
-- components/mosaic_ui/common/wechat_binding_flow.c: what the binding screen shows, driven by the
-- clock in a simulation and by the backend's status otherwise. Times are microseconds since boot,
-- far below 2 ^ 63, so the signed difference of the source is negative only where it makes it 0.
pub mod Clock
pub mod Completion
pub mod Reports
mod Tests
use esp_mosaico_claw.Base.{
  ℕ, ◌+◌, ◌-◌, ◌*◌, ◌/◌, ◌%◌, Bool, true, false, not, ◌&&◌, ◌||◌, Option, none, some, List, [], ◌∷◌,
  take, if◌then◌else◌, ◌==◌, ltb, leb, Ptr, Text, text, text_eq, is_blank, EspErr, ok,
  invalid_state,
}
use mathlib.Core.Option
use esp_mosaico_claw.Wechat.Status.{WechatState, WechatStatus, same_state}

-- `wechat_binding_flow_phase_t`.
pub data FlowPhase : Type 0 where
  binding progressing success : FlowPhase

-- `wechat_binding_flow_t`.
pub record Flow : Type 0 where
  pub phase : FlowPhase
  pub configured : Bool
  pub simulation : Bool
  pub progress : ℕ
  pub started_us : ℕ
  pub deadline_us : ℕ
  pub bind_status : Text
  pub stage : Text
  pub qr_payload : Text

-- `MOSAIC_SETUP_WECHAT_MESSAGE_LEN`, `MOSAIC_SETUP_WECHAT_QR_LEN`.
abbrev pub message_len : ℕ
message_len = 96

abbrev pub qr_len : ℕ
qr_len = 256

abbrev pub progress_count : ℕ
progress_count = 12

abbrev pub step_us : ℕ
step_us = 3000000

abbrev pub scan_us : ℕ
scan_us = step_us

abbrev pub bind_us : ℕ
bind_us = step_us * 3

abbrev pub mock_qr : Text
mock_qr = text "https://mosaico.local/setup/wechat/mock"

abbrev pub confirm_text : Text
confirm_text = text "Confirm on your phone"

abbrev pub saving_text : Text
saving_text = text "Saving binding..."

abbrev pub ready_text : Text
ready_text = text "Ready to save"

abbrev pub preparing_text : Text
preparing_text = text "Preparing QR code"

abbrev pub scan_text : Text
scan_text = text "Scan QR code with WeChat"

-- The array `dst` of `size` bytes after the copy.
abbrev pub flow_copy : Text → ℕ → Ptr Text → Text
flow_copy dst size none = if size == 0 then dst else []
flow_copy dst size (some src) = if size == 0 then dst else take (size - 1) src

abbrev pub cleared : Flow
cleared = record {
  phase = FlowPhase.binding;
  configured = false;
  simulation = false;
  progress = 0;
  started_us = 0;
  deadline_us = 0;
  bind_status = [];
  stage = [];
  qr_payload = [];
}

pub init : Ptr Flow → Bool → Ptr Flow
init none configured = none
init (some f) configured = some (record cleared {
  configured = configured;
  phase = if configured then FlowPhase.success else FlowPhase.binding;
  bind_status =
      flow_copy [] message_len
        (some (if configured then text "Account linked" else preparing_text));
})

abbrev pub simulate : ℕ → Flow → Flow
simulate now_us f = record f {
  simulation = true;
  started_us = now_us;
  deadline_us = now_us + scan_us;
  bind_status = flow_copy f.bind_status message_len (some scan_text);
  qr_payload = flow_copy f.qr_payload qr_len (some mock_qr);
}

pub begin_simulation : Ptr Flow → ℕ → Ptr Flow
unfolding init
begin_simulation f now_us = Option.map (simulate now_us) (init f false)

-- The progress of `elapsed` microseconds, cast to uint8_t before it is cut to the count.
pub progress_of : ℕ → ℕ
progress_of elapsed =
    let p : ℕ = if leb elapsed 0 then 0 else elapsed * progress_count / bind_us % 256 in
    if ltb progress_count p then progress_count else p

pub stage_of : ℕ → Text
stage_of elapsed =
    if ltb elapsed step_us
    then confirm_text
    else if ltb elapsed (step_us * 2)
    then saving_text
    else ready_text

-- The step of a simulation whose QR code has not been scanned yet.
pub step_binding : Flow → ℕ → Bool × Flow
step_binding f now_us = if ltb now_us f.deadline_us then (false, f) else (
  true,
  record f {
    phase = FlowPhase.progressing;
    started_us = now_us;
    deadline_us = now_us + bind_us;
    progress = 0;
    stage = flow_copy f.stage message_len (some confirm_text);
  },
)

pub step_progress : Flow → ℕ → Bool × Flow
step_progress f now_us =
    let elapsed : ℕ = now_us - f.started_us in
    let changed : Bool =
      not (progress_of elapsed == f.progress) || not (text_eq (stage_of elapsed) f.stage) in
    let shown : Flow = record f {
      progress = progress_of elapsed;
      stage = flow_copy f.stage message_len (some (stage_of elapsed));
    } in
    if leb f.deadline_us now_us
    then (
      true,
      record shown { phase = FlowPhase.success; configured = true; progress = progress_count },
    )
    else (changed, shown)

abbrev pub step_in : FlowPhase → Flow → ℕ → Bool × Flow
step_in FlowPhase.binding f now_us = step_binding f now_us
step_in FlowPhase.progressing f now_us = step_progress f now_us
step_in FlowPhase.success f now_us = (false, f)

-- Whether the screen has to be drawn anew, and the flow afterwards.
pub step : Ptr Flow → ℕ → Bool × Ptr Flow
step none now_us = (false, none)
step (some f) now_us =
    if not f.simulation
    then (false, some f)
    else let (changed, f') = step_in f.phase f now_us in (changed, some f')

-- The phase outside an operation: linked or not.
abbrev pub settled : Flow → FlowPhase
settled f = if f.configured then FlowPhase.success else FlowPhase.binding

-- What every report sets before the source switches on its state.
abbrev pub take_report : Flow → WechatStatus → Flow
take_report f status = record f {
  simulation = false;
  configured = status.configured || same_state status.state WechatState.complete;
  qr_payload = [];
  stage = [];
  progress = 0;
  bind_status =
      flow_copy f.bind_status message_len
        (some (if not (is_blank status.message) then status.message else preparing_text));
}

-- The three states of a scanned code; they show only during an operation.
abbrev pub confirming : Flow → WechatStatus → Bool → ℕ → Text → Flow
confirming f status operation_active progress fallback =
    if operation_active
    then record f {
      phase = FlowPhase.progressing;
      progress = progress;
      stage =
          flow_copy f.stage message_len
            (some (if not (is_blank status.message) then status.message else fallback));
    }
    else f

abbrev pub stopped : Flow → Text → Flow
stopped f message = record f {
  phase = settled f;
  bind_status = flow_copy f.bind_status message_len (some message);
}

-- The switch on the state.
pub report : WechatState → Flow → WechatStatus → Bool → Flow
report WechatState.waiting_scan f status active =
    if active
    then record f {
      phase = FlowPhase.binding;
      bind_status = flow_copy f.bind_status message_len (some scan_text);
      qr_payload = flow_copy f.qr_payload qr_len (some status.qr_payload);
    }
    else record f { phase = settled f }
report WechatState.scanned f status active = confirming f status active 4 confirm_text
report WechatState.saving f status active = confirming f status active 8 saving_text
report WechatState.awaiting_save f status active = confirming f status active 10 ready_text
report WechatState.complete f status active = record f {
  phase = FlowPhase.success;
  progress = progress_count;
}
report WechatState.cancelled f status active = stopped f (text "Binding cancelled")
report WechatState.expired f status active = stopped f (text "QR code expired")
report WechatState.error f status active =
    stopped f
      (if not (is_blank status.message) then status.message else text "Unable to bind WeChat")
report WechatState.idle f status active = record f {
  phase = if active then FlowPhase.binding else settled f;
}

pub apply_status : Ptr Flow → Ptr WechatStatus → Bool → Bool × Ptr Flow
apply_status none status active = (false, none)
apply_status (some f) none active = (false, some f)
apply_status (some f) (some status) active =
    (true, some (report status.state (take_report f status) status active))

-- The calls that a backend offers, over its state `W`. A null pointer is `none`.
pub record WechatOps (W : Type 0) : Type 0 where
  pub start : Option (Ptr Text → Bool → W → EspErr × W)
  pub cancel : Option (W → EspErr × W)

abbrev is_set {ℓ} : {A : Type ℓ} → Option A → Bool
is_set none = false
is_set (some a) = true

-- The account that the backend is told to replace.
abbrev pub forced_account : WechatStatus → Bool → Ptr Text
forced_account status force =
    if force && not (is_blank status.account_id) then some status.account_id else none

module _ {W : Type 0} where
  pub has_backend : Ptr (WechatOps W) → Bool
  has_backend none = false
  has_backend (some ops) = is_set ops.start && is_set ops.cancel

  pub start_backend : Ptr (WechatOps W) → Ptr WechatStatus → Bool → W → EspErr × W
  start_backend none status force w = (invalid_state, w)
  start_backend (some ops) none force w = (invalid_state, w)
  start_backend (some ops) (some status) force w = elim ops.start [
    | none ↦ (invalid_state, w)
    | some start ↦ elim ops.cancel [
      | none ↦ (invalid_state, w)
      | some cancel ↦ start (forced_account status force) force w
    ]
  ]

  pub cancel_backend : Ptr (WechatOps W) → W → EspErr × W
  cancel_backend none w = (invalid_state, w)
  cancel_backend (some ops) w = elim ops.start [
    | none ↦ (invalid_state, w)
    | some start ↦ elim ops.cancel [ none ↦ (invalid_state, w) | some cancel ↦ cancel w ]
  ]
