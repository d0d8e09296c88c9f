-- ===== src/Wechat/Queue/Tests.antt =====
-- Tests of the event ring, and its theorems at a concrete ring.
use esp_mosaico_claw.Base.{ℕ, ◌≡◌, refl, none, some, List, [], ◌∷◌, arith, replicate, set}
use esp_mosaico_claw.Wechat.Status.{WechatState, WechatStatus}
use esp_mosaico_claw.Wechat.Queue.{Event, EventQueue, blank_event}
use esp_mosaico_claw.Wechat.Queue.Log.{Alternates, note_event, record_event, take_event}
use esp_mosaico_claw.Wechat.Queue.Slots.{contents, IsValid}
use esp_mosaico_claw.Wechat.Queue.Refine.{
  Call, pushes, pops, step, run, log_step, log_run, step_refines, run_refines, step-Alternates,
}

abbrev status_of : WechatState → WechatStatus
status_of s = record blank_event.status { state = s }

abbrev event_of : WechatState → ℕ → Event
event_of s r = record { status = status_of s; revision = r }

-- Two events that lie across the end of the ring.
abbrev wrapped : EventQueue
wrapped = record {
  events =
      set (set (replicate 8 blank_event) 7 (event_of WechatState.scanned 4)) 0
        (event_of WechatState.saving 5);
  head = 7;
  count = 2;
}

abbrev script : List Call
script =
    pushes (status_of WechatState.saving) 6
    ∷ pushes (status_of WechatState.complete) 7
    ∷ pops
    ∷ pops
    ∷ pops
    ∷ pops
    ∷ []

wrapped-IsValid : IsValid wrapped
wrapped-IsValid = omega arith

script_log :
    log_run (contents wrapped) script
    ≡ none
      ∷ none
      ∷ some (event_of WechatState.scanned 4)
      ∷ some (event_of WechatState.saving 6)
      ∷ some (event_of WechatState.complete 7)
      ∷ none
      ∷ []
unfolding log_run log_step record_event note_event take_event
script_log = refl

step_refines_example :
    ((step wrapped pops).0 ≡ (log_step (contents wrapped) pops).0)
    × (contents (step wrapped pops).1 ≡ (log_step (contents wrapped) pops).1)
step_refines_example = step_refines wrapped pops wrapped-IsValid

run_refines_example : run wrapped script ≡ log_run (contents wrapped) script
run_refines_example = run_refines wrapped script wrapped-IsValid

step-Alternates_example :
    Alternates (contents (step wrapped (pushes (status_of WechatState.saving) 9)).1)
step-Alternates_example =
    step-Alternates wrapped (pushes (status_of WechatState.saving) 9) wrapped-IsValid (refl, tt)
