-- ===== src/Wechat/Flow/Completion.antt =====
-- A simulated binding ends: whatever the times at which it is stepped, a step at or behind the scan
-- and one at or behind the end of the binding complete it.
use esp_mosaico_claw.Base.{
  ℕ, ◌+◌, ◌≤◌, ◌<◌, ◌≡◌, refl, ◌∙◌, true, some, List, [], ◌∷◌, ◌++◌, arith, All,
}
use esp_mosaico_claw.Wechat.Flow.{
  Flow, FlowPhase, progress_count, scan_us, bind_us, begin_simulation, step, step_binding,
}
use esp_mosaico_claw.Wechat.Flow.Clock.{
  flow_or, after, IsSimulated, begin_simulation-IsSimulated, after-IsSimulated, after_running,
  after_success, step_shows,
}

-- The flow after steps at these times.
pub run : Flow → List ℕ → Flow
run f [] = f
run f (t ∷ ts) = run (after f t) ts

run-append : (f : Flow) (ts us : List ℕ) → run f (ts ++ us) ≡ run (run f ts) us
unfolding run
run-append f [] us = refl
run-append f (t ∷ ts) us = run-append (after f t) ts us

after_waiting :
    (f : Flow) (t : ℕ)
    → f.simulation ≡ true
    → f.phase ≡ FlowPhase.binding
    → t < f.deadline_us
    → after f t ≡ f
unfolding step step_binding
after_waiting f t s e h = ground arith

after_scan :
    (f : Flow) (t : ℕ)
    → f.simulation ≡ true
    → f.phase ≡ FlowPhase.binding
    → f.deadline_us ≤ t
    → ((after f t).phase ≡ FlowPhase.progressing) × ((after f t).deadline_us ≡ t + bind_us)
unfolding step step_binding
after_scan f t s e h = (ground arith, ground arith)

run_waiting :
    (f : Flow) (ts : List ℕ)
    → f.simulation ≡ true
    → f.phase ≡ FlowPhase.binding
    → All (λ t. t < f.deadline_us) ts
    → run f ts ≡ f
unfolding run
run_waiting f [] s e h = refl
run_waiting f (t ∷ ts) s e h = rw (after_waiting f t s e h.0) (run_waiting f ts s e h.1)

run_running :
    (f : Flow) (d : ℕ) (ts : List ℕ)
    → IsSimulated f
    → f.phase ≡ FlowPhase.progressing
    → f.deadline_us ≡ d
    → All (λ t. t < d) ts
    → IsSimulated (run f ts)
      × ((run f ts).phase ≡ FlowPhase.progressing)
      × ((run f ts).deadline_us ≡ d)
unfolding run
run_running f d [] v e p h = (v, e, p)
run_running f d (t ∷ ts) v e p h =
    let (a, b, c) = after_running f t v e (omega arith) in
    run_running (after f t) d ts (after-IsSimulated f t v) a (c ∙ p) h.1

begin_simulation_waits :
    (f : Flow) (start : ℕ)
    → let g = flow_or f (begin_simulation (some f) start) in
      (g.phase ≡ FlowPhase.binding) × (g.deadline_us ≡ start + scan_us)
unfolding begin_simulation
begin_simulation_waits f start = (refl, refl)

run_success : (f : Flow) (ts : List ℕ) → IsSimulated f → f.phase ≡ FlowPhase.success → run f ts ≡ f
unfolding run
run_success f [] v e = refl
run_success f (t ∷ ts) v e = rw (after_success f t v e) (run_success f ts v e)

scanned_completes :
    (f : Flow) (d end_us : ℕ) (us ws : List ℕ)
    → IsSimulated f
    → f.phase ≡ FlowPhase.progressing
    → f.deadline_us ≡ d
    → All (λ t. t < d) us
    → d ≤ end_us
    → let g = run f (us ++ end_us ∷ ws) in
      (g.phase ≡ FlowPhase.success) × (g.configured ≡ true) × (g.progress ≡ progress_count)
unfolding run
scanned_completes f d end_us us ws v e p h k =
    let (v', e', p') = run_running f d us v e p h in
    let ends : (after (run f us) end_us).phase ≡ FlowPhase.success =
      (step_shows (run f us) end_us v' e').1.1 (omega arith) in
    let w : IsSimulated (after (run f us) end_us) = after-IsSimulated (run f us) end_us v' in
    rw (run-append f us (end_us ∷ ws), run_success (after (run f us) end_us) ws w ends)
      (ends, (w.ends ends).0, (w.ends ends).1)

-- A simulation begun at `start`, stepped at any times before `start + scan_us`, once at or behind it,
-- then at any times less than `bind_us` later, once at or behind that, and then at any times
-- whatever, shows success, counts as configured and is at full progress.
pub completes :
    (f : Flow) (start scan end_us : ℕ) (ts us ws : List ℕ)
    → All (λ t. t < start + scan_us) ts
    → start + scan_us ≤ scan
    → All (λ t. t < scan + bind_us) us
    → scan + bind_us ≤ end_us
    → let g =
        run (flow_or f (begin_simulation (some f) start)) (ts ++ (scan ∷ (us ++ end_us ∷ ws))) in
      (g.phase ≡ FlowPhase.success) × (g.configured ≡ true) × (g.progress ≡ progress_count)
unfolding run
completes f start scan end_us ts us ws h a k b =
    let g : Flow = flow_or f (begin_simulation (some f) start) in
    let v : IsSimulated g = begin_simulation-IsSimulated f start in
    let (e, d) = begin_simulation_waits f start in
    let (e', d') = after_scan g scan v.simulated e (omega arith) in
    rw (run-append g ts (scan ∷ (us ++ end_us ∷ ws)), run_waiting g ts v.simulated e (rw d h))
      (scanned_completes (after g scan) (scan + bind_us) end_us us ws (after-IsSimulated g scan v)
        e' d' k b)
