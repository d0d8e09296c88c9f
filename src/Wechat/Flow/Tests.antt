-- ===== src/Wechat/Flow/Tests.antt =====
-- Tests of the binding flow, and its theorems at concrete flows.
use esp_mosaico_claw.Base.{◌≡◌, refl, ◌↔◌, ◌++◌, true, false, some, [], ◌∷◌, arith, ◌+◌, text, ok}
use esp_mosaico_claw.Wechat.Status.{WechatState, WechatStatus}
use esp_mosaico_claw.Wechat.Flow.{
  Flow, FlowPhase, progress_count, begin_simulation, step, step_progress, step_binding, progress_of,
  start_backend, cleared, simulate,
}
use esp_mosaico_claw.Wechat.Flow.Clock.{flow_or, after, IsSimulated, begin_simulation-IsSimulated}
use esp_mosaico_claw.Wechat.Flow.Completion.{run, completes}
use esp_mosaico_claw.Wechat.Flow.Reports.{
  Confirms, Shows, reported, apply_status-Shows, apply_status_settles,
}

abbrev scanning : Flow
scanning = simulate 1000000 cleared

abbrev confirmed : Flow
confirmed = record scanning {
  phase = FlowPhase.progressing;
  started_us = 4000000;
  deadline_us = 13000000;
  stage = text "Confirm on your phone";
}

abbrev saved : WechatStatus
saved = record {
  active = true;
  configured = false;
  persisted = false;
  state = WechatState.saving;
  message = [];
  qr_payload = [];
  account_id = text "wx1";
}

abbrev done : WechatStatus
done = record saved { state = WechatState.complete }

confirmed-IsSimulated : IsSimulated confirmed
confirmed-IsSimulated = ground arith

begins : begin_simulation (some confirmed) 1000000 ≡ some scanning
unfolding begin_simulation
begins = refl

halfway : (after confirmed 8500000).progress ≡ 6
unfolding step step_progress progress_of
halfway = refl

forces_account :
    start_backend
      (some (record { start = some (λ a f w. (ok, w + 1)); cancel = some (λ w. (ok, w)) }))
      (some saved)
      true
      4
    ≡ (ok, ◌+◌ 4 1)
unfolding start_backend
forces_account = refl

begin_simulation-IsSimulated_example :
    IsSimulated (flow_or confirmed (begin_simulation (some confirmed) 5))
begin_simulation-IsSimulated_example = begin_simulation-IsSimulated confirmed 5

still : (step (some scanning) 2000000).0 ≡ false
unfolding step step_binding
still = refl

completes_example :
    let g =
      run
        (flow_or confirmed (begin_simulation (some confirmed) 0))
        ((1000000 ∷ []) ++ (3500000 ∷ ((9000000 ∷ []) ++ 12500000 ∷ []))) in
    (g.phase ≡ FlowPhase.success) × (g.configured ≡ true) × (g.progress ≡ progress_count)
completes_example =
    completes confirmed 0 3500000 12500000 (1000000 ∷ []) (9000000 ∷ []) [] (omega arith)
      (omega arith) (omega arith) (omega arith)

apply_status-Shows_example : Shows WechatState.saving (reported confirmed saved true)
apply_status-Shows_example = apply_status-Shows confirmed saved

apply_status_settles_example :
    (Confirms WechatState.complete → (reported confirmed done false).phase ≡ FlowPhase.progressing)
    × (¬ Confirms WechatState.complete
        → ((reported confirmed done false).phase ≡ FlowPhase.success)
          ↔ ((reported confirmed done false).configured ≡ true))
apply_status_settles_example = apply_status_settles confirmed done
