-- ===== src/AiCreate/Stretches/Deadline.antt =====
-- A voice operation that is left to itself ends.
use esp_mosaico_claw.Base.{
  ℕ, ◌+◌, ◌*◌, ◌≤◌, ◌≡◌, ◌≢◌, not, ◌&&◌, Bool, true, false, if_cases, List, [], ◌∷◌, arith, All,
  Ptr, EspErr,
}
use esp_mosaico_claw.Voice.Port.{VoiceStatus, VoiceEvent}
use esp_mosaico_claw.AiCreate.Controller.{VoiceState, Controller, Env, Effect, notify_changed}
use esp_mosaico_claw.AiCreate.Voice.{voice_event, cancel_voice_operation, set_voice_deadline, step}
use esp_mosaico_claw.AiCreate.Sessions.{changed}
use esp_mosaico_claw.AiCreate.Dictation.{
  take_id, unavailable_error, voice_unavailable, can_start, show_status, voice_opened, may_open,
  voice_open,
}
use esp_mosaico_claw.AiCreate.Stretches.{Stretch, run}
use esp_mosaico_claw.AiCreate.Stretches.Aged.{limit, Aged, Ahead, keeps_pace}
use esp_mosaico_claw.AiCreate.Stretches.Aged.Runs.{run-Aged}

-- Before each stretch the user interface makes a step at the time that stands with it.
pub run_stepped : Env → Ptr (ℕ → EspErr) → List (ℕ × Stretch) → Controller → Controller
run_stepped env port [] c = c
run_stepped env port ((stepped, s) ∷ ss) c =
    run_stepped env port ss (run env s (step port stepped c).1)

-- A step ends the operation once its deadline has come, and else leaves it.
step-Aged :
    (opened pace now : ℕ) (port : Ptr (ℕ → EspErr)) (c : Controller)
    → Aged opened pace c
    → Aged opened pace (step port now c).1 × Ahead now (step port now c).1
unfolding step cancel_voice_operation notify_changed
step-Aged opened pace now port c g = (ground arith, ground arith)

run_stepped-Aged :
    (env : Env) (port : Ptr (ℕ → EspErr)) (opened pace : ℕ) (ss : List (ℕ × Stretch))
    (c : Controller)
    → All (λ s. keeps_pace pace s.0 s.1 ≡ true) ss
    → Aged opened pace c
    → Aged opened pace (run_stepped env port ss c)
unfolding run_stepped
run_stepped-Aged env port opened pace [] c a g = g
run_stepped-Aged env port opened pace ((stepped, s) ∷ ss) c a g =
    let (h, n) = step-Aged opened pace stepped port c g in
    run_stepped-Aged env port opened pace ss (run env s (step port stepped c).1) a.1
      (run-Aged opened pace stepped env s (step port stepped c).1 a.0 n h)

limit_le : (pace : ℕ) (v : VoiceState) → limit pace v ≤ 120000000 + 2 * pace
limit_le pace VoiceState.preparing = omega arith
limit_le pace VoiceState.listening = omega arith
limit_le pace _ = omega arith

voice_opened-Aged :
    (opened pace : ℕ) (c : Controller) → 1 ≤ opened → Aged opened pace (voice_opened opened c)
unfolding voice_opened set_voice_deadline notify_changed
voice_opened-Aged opened pace c o = ground arith

is_no_error : (s : VoiceStatus) → unavailable_error s ≢ EspErr.ok
is_no_error s h = ground arith

voice_open-Aged :
    (same_port port : Bool) (status : VoiceStatus) (opened pace : ℕ) (c : Controller)
    → 1 ≤ opened
    → (voice_open same_port port status opened c).0 ≡ EspErr.ok
    → Aged opened pace (voice_open same_port port status opened c).2
unfolding voice_open
voice_open-Aged same_port port status opened pace c o =
    let P = λ (r : EspErr × ℕ × Controller × List Effect). r.0 ≡ EspErr.ok → Aged opened pace r.2 in
    let c' = show_status port status c in
    let error = unavailable_error c'.snapshot.voice_status in
    let id = (take_id c.next_voice_operation_id).0 in
    if_cases P (not same_port) {x = (EspErr.invalid_state, 0, c, [])} (λ _ h. cc)
      (λ _.
        if_cases P (not (port && can_start c'.snapshot.voice_status))
          {x = (error, 0, voice_unavailable c', changed)}
          (λ _ h. absurd (is_no_error c'.snapshot.voice_status h))
          (λ _.
            if_cases P (may_open c') {x = (EspErr.ok, id, voice_opened opened c', changed)}
              {y = (EspErr.invalid_state, 0, c', [])} (λ _ h. voice_opened-Aged opened pace c' o)
              (λ _ h. cc)))

over :
    (e : VoiceEvent) (at : ℕ) (c : Controller)
    → c.voice_operation_id ≡ 0
    → voice_event e at c ≡ (c, [], false)
unfolding voice_event
over e at c z = ground arith

-- A voice operation that is opened, in whatever state the controller is, is over two minutes and
-- twice the pace later, at the next step: whatever the other stretches of `Stretch` do with it in any
-- order, however often the recognition reports, and if the operation is never finished. The steps of
-- the user interface keep the pace: where a stretch reads the clock, it is at most the pace after the
-- step before. No other operation is opened meanwhile. A voice event that comes next neither changes
-- the controller nor posts a message. The clock is read as a positive number.
pub voice_open-run_stepped :
    (env : Env) (cancel : Ptr (ℕ → EspErr)) (same_port port : Bool) (status : VoiceStatus)
    (opened pace now at : ℕ) (c : Controller) (ss : List (ℕ × Stretch)) (e : VoiceEvent)
    → (voice_open same_port port status opened c).0 ≡ EspErr.ok
    → 1 ≤ opened
    → All (λ s. keeps_pace pace s.0 s.1 ≡ true) ss
    → opened + 120000000 + 2 * pace ≤ now
    → let d =
        (step cancel now
          (run_stepped env cancel ss (voice_open same_port port status opened c).2)).1 in
      (d.voice_operation_id ≡ 0) × (voice_event e at d ≡ (d, [], false))
voice_open-run_stepped env cancel same_port port status opened pace now at c ss e h o a l =
    let started = (voice_open same_port port status opened c).2 in
    let left = run_stepped env cancel ss started in
    let g : Aged opened pace left =
      run_stepped-Aged env cancel opened pace ss started a
        (voice_open-Aged same_port port status opened pace c o h) in
    let (g', n) = step-Aged opened pace now cancel left g in
    let z : (step cancel now left).1.voice_operation_id ≡ 0 =
      ground (arith, limit_le pace (step cancel now left).1.snapshot.voice_state) in
    (z, over e at (step cancel now left).1 z)
