-- ===== src/AiCreate/Abort/Quiet.antt =====
-- After an abort.
use esp_mosaico_claw.Base.{
  ℕ, ◌≡◌, refl, inl, inr, false, Bool-cases, none, List, [], ◌∷◌, ◌++◌, arith, ◌==◌, length, Ptr,
  EspErr,
}
use esp_mosaico_claw.AiCreate.Tracks.{
  Track, track_at, find_index, tracks_request, find_message, first_used,
}
use esp_mosaico_claw.AiCreate.Tracks.Slots.{find_index-none, find_index-absent}
use esp_mosaico_claw.AiCreate.Controller.{Controller, Effect, notify_changed, cancel_session_switch}
use esp_mosaico_claw.AiCreate.Events.{GatewayEvent, gateway_event}
use esp_mosaico_claw.AiCreate.Abort.{requests, abort_view, abort_current}

-- The events that come one after the other.
pub gateway_events : List GatewayEvent → Controller → Controller × List Effect
gateway_events [] c = (c, [])
gateway_events (e ∷ es) c =
    let r = gateway_event e c in let rest = gateway_events es r.0 in (rest.0, r.1 ++ rest.1)

requests-none : (ts : List Track) → length (requests ts) ≡ 0 → first_used ts ≡ none
unfolding requests find_index
requests-none [] h = refl
requests-none (t ∷ ts) h = elim (Bool-cases t.used) [
  | inl u ↦ ground arith
  | inr u ↦ rw (u, requests-none ts (ground arith)) refl
]

unused-find_message : (ts : List Track) (id : ℕ) → first_used ts ≡ none → find_message ts id ≡ none
unused-find_message ts id f = find_index-absent (tracks_request id) ts (λ i b.
    let u : (track_at ts i).used ≡ false = find_index-none (λ j t. t.used) ts f i b in ground arith)

unused-ignored :
    (es : List GatewayEvent) (c : Controller)
    → first_used c.messages ≡ none
    → gateway_events es c ≡ (c, [])
unfolding gateway_events gateway_event
unused-ignored [] c f = refl
unused-ignored (e ∷ es) c f =
    rw (unused-find_message c.messages e.request_id f, gateway_event)
      (rw (unused-ignored es c f) refl)

abort_view-unused : (c : Controller) → first_used (abort_view c).messages ≡ none
unfolding abort_view cancel_session_switch find_index
abort_view-unused c = elim (Bool-cases (length (requests c.messages) == 0)) [
  | inl z ↦ rw z (requests-none c.messages (ground arith))
  | inr z ↦ rw z refl
]

-- Whatever was in flight, once it is aborted no event of the gateway changes the controller or makes
-- it tell anybody, whatever its request, its number and its kind, as long as nothing but such
-- events comes.
pub gateway_events-abort_current :
    (es : List GatewayEvent) (voice_port : Ptr (ℕ → EspErr)) (gateway : ℕ → EspErr) (c : Controller)
    → gateway_events es (abort_current voice_port gateway c).1
      ≡ ((abort_current voice_port gateway c).1, [])
unfolding abort_current notify_changed
gateway_events-abort_current es v g c =
    unused-ignored es (notify_changed (abort_view c)) (abort_view-unused c)
