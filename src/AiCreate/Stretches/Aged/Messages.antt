-- ===== src/AiCreate/Stretches/Aged/Messages.antt =====
-- The age of a voice operation while messages are sent, answered and cancelled.
use esp_mosaico_claw.Base.{
  ℕ, ◌≡◌, refl, ◌∙◌, not, set, if_cases, ◌⊎◌, inl, inr, Bool, ◌&&◌, ◌||◌, Option-cases, List, arith,
  Text, EspErr,
}
use esp_mosaico_claw.AiCreate.Tracks.{
  Track, free_track, track_at, find_message, find_message_by_run, reserve_message,
}
use esp_mosaico_claw.AiCreate.Controller.{Snapshot, Controller, Env, Effect, notify_changed}
use esp_mosaico_claw.AiCreate.Events.{
  GatewayEvent, is_accepted, is_active_run, settle, take_event, gateway_event,
}
use esp_mosaico_claw.AiCreate.Submit.{Request, Binding, bind_begin, bind_end, submit, post_failed}
use esp_mosaico_claw.AiCreate.Abort.{cancel}
use esp_mosaico_claw.AiCreate.Stretches.Phase.{
  refresh_active-voice_state, show_event-voice_state, show_submitted-voice_state,
}
use esp_mosaico_claw.AiCreate.Stretches.Aged.{Aged, same-Aged}

module _ (opened pace : ℕ) where
  pub settle-Aged :
      (e : GatewayEvent) (c : Controller) (ts : List Track) (s : Snapshot)
      → s.voice_state ≡ c.snapshot.voice_state
      → Aged opened pace c
      → Aged opened pace (settle e c ts s).0
  unfolding settle notify_changed
  settle-Aged e c ts s q g = same-Aged opened pace c (show_event-voice_state e ts s ∙ q) g

  pub take_event-Aged :
      (e : GatewayEvent) (i : ℕ) (c : Controller)
      → Aged opened pace c
      → Aged opened pace (take_event e i c).0
  unfolding take_event
  take_event-Aged e i c g =
      let P = λ (r : Controller × List Effect). Aged opened pace r.0 in
      let t : Track = record (track_at c.messages i) {
        last_event_sequence = e.sequence;
        run_id = e.run_id;
      } in
      if_cases P (is_accepted e.kind)
        (λ _.
          if_cases P (is_active_run e.delivery)
            (λ _. elim (Option-cases (find_message_by_run (set c.messages i t) e.run_id i)) [
              | inl n ↦ rw n g
              | inr (j, f) ↦ rw f (settle-Aged e c _ _ refl g)
            ])
            (λ _. settle-Aged e c _ _ refl g))
        (λ _.
          if_cases P e.terminal (λ _. settle-Aged e c _ _ refl g) (λ _. settle-Aged e c _ _ refl g))

  pub gateway_event-Aged :
      (e : GatewayEvent) (c : Controller)
      → Aged opened pace c
      → Aged opened pace (gateway_event e c).0
  unfolding gateway_event
  gateway_event-Aged e c g = elim (Option-cases (find_message c.messages e.request_id)) [
    | inl n ↦ ground arith
    | inr (i, f) ↦ ground (arith, take_event-Aged e i c g)
  ]

  pub bind_begin-Aged : (c : Controller) → Aged opened pace c → Aged opened pace (bind_begin c).1
  unfolding bind_begin
  bind_begin-Aged c g = ground arith

  pub bind_end-Aged :
      (env : Env) (b : Binding) (r : EspErr × Text) (c : Controller)
      → Aged opened pace c
      → Aged opened pace (bind_end env b r c).1
  unfolding bind_end
  bind_end-Aged env b r c g = ground arith

  pub submit-Aged :
      (had : Bool) (t : Text) (c : Controller)
      → Aged opened pace c
      → Aged opened pace (submit had t c).1
  unfolding submit
  submit-Aged had t c g =
      let P = λ (r : (EspErr ⊎ Request) × Controller). Aged opened pace r.1 in
      if_cases P (not c.started || not had && not c.session_creation_in_progress) (λ _. g)
        (λ _. elim (Option-cases (reserve_message c.messages c.next_request_id)) [
          | inl n ↦ rw n g
          | inr (ts, n) ↦ rw n (
              same-Aged opened pace c
                (show_submitted-voice_state had c.next_request_id t ts c.snapshot) g)
        ])

  pub post_failed-Aged :
      (env : Env) (id : ℕ) (e : EspErr) (c : Controller)
      → Aged opened pace c
      → Aged opened pace (post_failed env id e c)
  unfolding post_failed
  post_failed-Aged env id e c g = elim (Option-cases (find_message c.messages id)) [
    | inl n ↦ rw (n, post_failed) g
    | inr (i, n) ↦
        rw (n, post_failed)
          (same-Aged opened pace c
            (refresh_active-voice_state (set c.messages i free_track) c.snapshot) g)
  ]

  pub cancel-Aged :
      (f : ℕ → EspErr) (c : Controller) → Aged opened pace c → Aged opened pace (cancel f c).1
  unfolding cancel notify_changed
  cancel-Aged f c g = ground arith
