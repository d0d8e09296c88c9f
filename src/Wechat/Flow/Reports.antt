-- ===== src/Wechat/Flow/Reports.antt =====
-- The flow under the reports of a backend.
use esp_mosaico_claw.Base.{
  ◌≤◌, ◌≡◌, refl, ◌↔◌, ◌⊎◌, inl, inr, Bool, true, false, some, [], arith, ◌≢◌,
}
use esp_mosaico_claw.Wechat.Status.{WechatState, WechatStatus}
use esp_mosaico_claw.Wechat.Flow.{
  Flow, FlowPhase, progress_count, apply_status, report, take_report,
}
use esp_mosaico_claw.Wechat.Flow.Clock.{flow_or}

-- The flow after a report.
abbrev pub reported : Flow → WechatStatus → Bool → Flow
reported f s active = flow_or f (apply_status (some f) (some s) active).1

-- The states of a scanned code.
abbrev pub Confirms : WechatState → Type 0
Confirms c =
    (c ≡ WechatState.scanned) ⊎ ((c ≡ WechatState.saving) ⊎ (c ≡ WechatState.awaiting_save))

-- What a flow may show under a state of the backend.
pub record Shows (c : WechatState) (f : Flow) : Type 0 where
  pub success_linked : f.phase ≡ FlowPhase.success → f.configured ≡ true
  pub progress_confirms : f.phase ≡ FlowPhase.progressing → Confirms c
  pub confirms_progress : Confirms c → f.phase ≡ FlowPhase.progressing
  pub code_awaits : f.qr_payload ≢ [] → c ≡ WechatState.waiting_scan
  pub bounded : f.progress ≤ progress_count

report-Shows :
    (c : WechatState) (f : Flow) (s : WechatStatus)
    → s.state ≡ c
    → Shows c (report c (take_report f s) s true)
unfolding report
report-Shows WechatState.complete f s e = rw e (ground arith)
report-Shows _ f s e = ground arith

-- A report of an operation under way makes the flow show what the state calls for: success only for
-- a linked account, progress exactly once the code is scanned and not yet done with, a QR code only
-- while the scan is awaited, and never a progress beyond the count.
pub apply_status-Shows : (f : Flow) (s : WechatStatus) → Shows s.state (reported f s true)
unfolding apply_status
apply_status-Shows f s = report-Shows s.state f s refl

settles :
    (c : WechatState) (f : Flow) (s : WechatStatus)
    → s.state ≡ c
    → let f' = report c (take_report f s) s false in
      (Confirms c → f'.phase ≡ f.phase)
      × (¬ Confirms c → (f'.phase ≡ FlowPhase.success) ↔ (f'.configured ≡ true))
unfolding report
settles WechatState.scanned f s e = (λ _. refl, λ n. absurd (n (inl refl)))
settles WechatState.saving f s e = (λ _. refl, λ n. absurd (n (inr (inl refl))))
settles WechatState.awaiting_save f s e = (λ _. refl, λ n. absurd (n (inr (inr refl))))
settles WechatState.idle f s e = (λ c. ground arith, λ _. (λ h. ground arith, λ h. ground arith))
settles WechatState.complete f s e =
    rw e (λ c. ground arith, λ _. (λ h. ground arith, λ h. ground arith))
settles _ f s e = (λ c. ground arith, λ _. (λ h. ground arith, λ h. ground arith))

-- Outside an operation success stands for a linked account and nothing else, unless the state is one
-- of a scanned code: then the phase stays what it was before the report.
pub apply_status_settles :
    (f : Flow) (s : WechatStatus)
    → (Confirms s.state → (reported f s false).phase ≡ f.phase)
      × (¬ Confirms s.state
          → ((reported f s false).phase ≡ FlowPhase.success)
            ↔ ((reported f s false).configured ≡ true))
unfolding apply_status
apply_status_settles f s = settles s.state f s refl
