-- ===== src/Wechat/Flow/Clock.antt =====
-- The simulated binding under the clock.
use esp_mosaico_claw.Base.{
  ℕ, ◌+◌, ◌-◌, ◌*◌, ◌/◌, ◌≤◌, ◌<◌, ◌≡◌, refl, ◌↔◌, inl, inr, true, false, Option, none, some, arith,
  min, ltb, take, text_eq_iff, Bool-cases,
}
use esp_mosaico_claw.Wechat.Flow.{
  Flow, FlowPhase, progress_count, step_us, bind_us, begin_simulation, step, step_in, progress_of,
  stage_of, step_binding, step_progress, message_len,
}

abbrev pub flow_or : Flow → Option Flow → Flow
flow_or f none = f
flow_or f (some f') = f'

-- The flow after a step.
abbrev pub after : Flow → ℕ → Flow
after f now_us = flow_or f (step (some f) now_us).1

-- What holds of a simulated flow at all times.
pub record IsSimulated (f : Flow) : Type 0 where
  pub simulated : f.simulation ≡ true
  pub waits : f.phase ≡ FlowPhase.binding → (f.configured ≡ false) × (f.progress ≡ 0)
  pub runs : f.phase ≡ FlowPhase.progressing → f.deadline_us ≡ f.started_us + bind_us
  pub ends : f.phase ≡ FlowPhase.success → (f.configured ≡ true) × (f.progress ≡ progress_count)
  pub bounded : f.progress ≤ progress_count

progress_of_exact :
    (elapsed : ℕ) → elapsed < bind_us → progress_of elapsed ≡ elapsed * progress_count / bind_us
unfolding progress_of
progress_of_exact elapsed h = ground arith

progress_of_le : (elapsed : ℕ) → progress_of elapsed ≤ progress_count
unfolding progress_of
progress_of_le elapsed = ground arith

stage_of_copy : (elapsed : ℕ) → take (message_len - 1) (stage_of elapsed) ≡ stage_of elapsed
unfolding stage_of
stage_of_copy elapsed = elim (Bool-cases (ltb elapsed step_us)) [
  | inl a ↦ rw (a, stage_of)
  | inr a ↦ elim (Bool-cases (ltb elapsed (step_us * 2))) [
    | inl b ↦ rw (a, stage_of, b)
    | inr b ↦ rw (a, stage_of, b)
  ]
]

-- Starting a simulation gives a simulated flow that waits for the scan.
pub begin_simulation-IsSimulated :
    (f : Flow) (now_us : ℕ) → IsSimulated (flow_or f (begin_simulation (some f) now_us))
unfolding begin_simulation
begin_simulation-IsSimulated f now_us = ground arith

step_in-IsSimulated :
    (p : FlowPhase) (f : Flow) (now_us : ℕ)
    → f.phase ≡ p
    → IsSimulated f
    → IsSimulated (step_in p f now_us).1
unfolding step_binding step_progress
step_in-IsSimulated FlowPhase.binding f now_us e v = ground arith
step_in-IsSimulated FlowPhase.progressing f now_us e v =
    ground (arith, progress_of_le (now_us - f.started_us))
step_in-IsSimulated FlowPhase.success f now_us e v = v

-- A step at any time keeps a simulated flow one: it is configured at success and not before the scan,
-- and its progress is at most the count and reaches it at success.
pub after-IsSimulated : (f : Flow) (now_us : ℕ) → IsSimulated f → IsSimulated (after f now_us)
unfolding step
after-IsSimulated f now_us v = ground (arith, step_in-IsSimulated f.phase f now_us refl v)

-- What one step of a simulated flow shows while the binding is confirmed: the progress is the share
-- of the time that has passed, cut at the count, which the cast to 8 bits never falsifies; and the
-- flow ends in success exactly from the deadline on.
pub step_shows :
    (f : Flow) (now_us : ℕ)
    → IsSimulated f
    → f.phase ≡ FlowPhase.progressing
    → ((after f now_us).progress
        ≡ min progress_count ((now_us - f.started_us) * progress_count / bind_us))
      × (((after f now_us).phase ≡ FlowPhase.success) ↔ (f.deadline_us ≤ now_us))
unfolding step step_progress
step_shows f now_us v e = (
  ground (arith, progress_of_exact (now_us - f.started_us)),
  (λ q. ground arith, λ q. ground arith),
)

-- Before the deadline a step leaves the clock of the flow running.
pub after_running :
    (f : Flow) (now_us : ℕ)
    → IsSimulated f
    → f.phase ≡ FlowPhase.progressing
    → now_us < f.deadline_us
    → ((after f now_us).phase ≡ FlowPhase.progressing)
      × ((after f now_us).started_us ≡ f.started_us)
      × ((after f now_us).deadline_us ≡ f.deadline_us)
unfolding step step_progress
after_running f now_us v e h = (ground arith, ground arith, ground arith)

pub after_success :
    (f : Flow) (now_us : ℕ) → IsSimulated f → f.phase ≡ FlowPhase.success → after f now_us ≡ f
unfolding step
after_success f now_us v e = ground arith

unchanged_in :
    (p : FlowPhase) (f : Flow) (now_us : ℕ)
    → (step_in p f now_us).0 ≡ false
    → (step_in p f now_us).1 ≡ f
unfolding step_progress step_binding
unchanged_in FlowPhase.binding f now_us h = ground arith
unchanged_in FlowPhase.progressing f now_us h = ground (
  arith,
  stage_of_copy (now_us - f.started_us),
  text_eq_iff (stage_of (now_us - f.started_us)) f.stage,
)
unchanged_in FlowPhase.success f now_us h = refl

-- A step that reports no change has changed nothing.
pub step_unchanged : (f : Flow) (now_us : ℕ) → (step (some f) now_us).0 ≡ false → after f now_us ≡ f
unfolding step
step_unchanged f now_us h = ground (arith, unchanged_in f.phase f now_us)
