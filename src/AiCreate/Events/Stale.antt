-- ===== src/AiCreate/Events/Stale.antt =====
-- Events that come again, or late.
use esp_mosaico_claw.Base.{
  ℕ, ◌≤◌, ◌≡◌, refl, sym, ap, subst, ◌∙◌, inl, inr, false, ◌&&◌, if_cases, Bool-cases, Option-cases,
  none, some, List, [], arith, ltb, set,
}
use esp_mosaico_claw.AiCreate.Tracks.{
  Track, free_track, track_at, tracks_request, find_message, find_message_by_run,
}
use esp_mosaico_claw.AiCreate.Tracks.Slots.{
  find_index-some, find_index-absent, find_index-same, track_at-set_self, track_at-set_ne,
  same_or_not, Distinct, Distinct-apart,
}
use esp_mosaico_claw.AiCreate.Controller.{Controller, Effect, notify_changed}
use esp_mosaico_claw.AiCreate.Events.{
  is_accepted, is_active_run, GatewayEvent, settle, take_event, gateway_event,
}

-- A slot that has taken an event of the number.
abbrev pub heard : ℕ → ℕ → Track → Track
heard sequence run_id t = record t { last_event_sequence = sequence; run_id = run_id }

-- The slots behind an event are free at its slot, or hold it there.
pub data Outcome (ts : List Track) (i sequence : ℕ) (ts' : List Track) : Type 0 where
  freed : ts' ≡ set ts i free_track → Outcome ts i sequence ts'
  held :
      (run_id : ℕ)
      → ts' ≡ set ts i (heard sequence run_id (track_at ts i))
      → Outcome ts i sequence ts'

pub take_event-Outcome :
    (e : GatewayEvent) (i : ℕ) (c : Controller)
    → Outcome c.messages i e.sequence (take_event e i c).0.messages
unfolding take_event settle notify_changed
take_event-Outcome e i c =
    let P = λ (r : Controller × List Effect). Outcome c.messages i e.sequence r.0.messages in
    let t' = heard e.sequence e.run_id (track_at c.messages i) in
    if_cases P (is_accepted e.kind)
      (λ _.
        if_cases P (is_active_run e.delivery)
          (λ _. elim (Option-cases (find_message_by_run (set c.messages i t') e.run_id i)) [
            | inl n ↦ rw n (Outcome.held e.run_id refl)
            | inr (j, f) ↦ rw f (Outcome.freed refl)
          ])
          (λ _. Outcome.held e.run_id refl))
      (λ _.
        if_cases P e.terminal (λ _. Outcome.freed refl)
          (λ _. Outcome.held (track_at c.messages i).run_id refl))

pub freed-find_message :
    (ts : List Track) (i id : ℕ)
    → Distinct ts
    → find_message ts id ≡ some i
    → find_message (set ts i free_track) id ≡ none
freed-find_message ts i id d f =
    let (b, u) = find_index-some (tracks_request id) ts i f in
    find_index-absent (tracks_request id) (set ts i free_track) (λ k bk. elim (same_or_not i k) [
      | inl p ↦
          ap (λ n. tracks_request id 0 (track_at (set ts i free_track) n)) (sym p)
          ∙ ap (tracks_request id 0) (track_at-set_self ts i free_track b)
      | inr p ↦
          ap (tracks_request id 0) (track_at-set_ne ts i k free_track p)
          ∙ elim (Bool-cases (tracks_request id 0 (track_at ts k))) [
            | inl q ↦
                absurd (p (Distinct-apart ts i k d (ground arith) (ground arith) (ground arith)))
            | inr q ↦ q
          ]
    ])

-- Whatever the slot of a request holds, an event of the number is not new to it.
Heard : ℕ → ℕ → Controller → Type 0
Heard sequence id c =
    (i : ℕ)
    → find_message c.messages id ≡ some i
    → (c.started && ltb (track_at c.messages i).last_event_sequence sequence) ≡ false

Heard-ignored :
    (e : GatewayEvent) (c : Controller)
    → Heard e.sequence e.request_id c
    → gateway_event e c ≡ (c, [])
unfolding gateway_event Heard
Heard-ignored e c h = elim (Option-cases (find_message c.messages e.request_id)) [
  | inl f ↦ rw (f, gateway_event) refl
  | inr (i, f) ↦ rw (f, h i f, gateway_event) refl
]

Outcome-Heard :
    (n i id sequence : ℕ) (c c' : Controller)
    → Distinct c.messages
    → find_message c.messages id ≡ some i
    → n ≤ sequence
    → Outcome c.messages i sequence c'.messages
    → Heard n id c'
unfolding Heard
Outcome-Heard n i id sequence c c' d f b (Outcome.freed q) j g =
    let z : find_message c'.messages id ≡ none =
      ap (λ ts. find_message ts id) q ∙ freed-find_message c.messages i id d f in
    cc
Outcome-Heard n i id sequence c c' d f b (Outcome.held r q) j g =
    let t = heard sequence r (track_at c.messages i) in
    let z : find_message c'.messages id ≡ some i =
      ap (λ ts. find_message ts id) q
      ∙ find_index-same (tracks_request id) c.messages i t refl
      ∙ f in
    let (k, u) = find_index-some (tracks_request id) c.messages i f in
    let m : i ≡ j = ground arith in
    let l : (track_at c'.messages j).last_event_sequence ≡ sequence =
      ap (λ k. (track_at c'.messages k).last_event_sequence) (sym m)
      ∙ ap (λ ts. (track_at ts i).last_event_sequence) q
      ∙ ap (λ (t : Track). t.last_event_sequence) (track_at-set_self c.messages i t k) in
    ground arith

gateway_event-Heard :
    (n : ℕ) (e : GatewayEvent) (c : Controller)
    → Distinct c.messages
    → n ≤ e.sequence
    → Heard n e.request_id (gateway_event e c).0
unfolding gateway_event Heard
gateway_event-Heard n e c d b = elim (Option-cases (find_message c.messages e.request_id)) [
  | inl f ↦ rw (f, gateway_event) (λ j g. cc)
  | inr (i, f) ↦
      rw (f, gateway_event)
        (if_cases (λ (r : Controller × List Effect). Heard n e.request_id r.0)
          (c.started && ltb (track_at c.messages i).last_event_sequence e.sequence)
          (λ _.
            Outcome-Heard n i e.request_id e.sequence c (take_event e i c).0 d f b
              (take_event-Outcome e i c))
          (λ h j g.
            let m : i ≡ j = ground arith in
            let q : (track_at c.messages j).last_event_sequence
                ≡ (track_at c.messages i).last_event_sequence =
              ap (λ k. (track_at c.messages k).last_event_sequence) (sym m) in
            ground arith))
]

-- In a controller with at most one slot for a request, of two events in a row of one request the
-- second, if it is not newer than the first, changes nothing, and nobody is told of it: an event that is
-- repeated at once, or that comes right after a newer one, is ignored.
pub gateway_event-stale :
    (e e' : GatewayEvent) (c : Controller)
    → Distinct c.messages
    → e'.request_id ≡ e.request_id
    → e'.sequence ≤ e.sequence
    → gateway_event e' (gateway_event e c).0 ≡ ((gateway_event e c).0, [])
gateway_event-stale e e' c d p b = Heard-ignored e' (gateway_event e c).0 (
    subst (λ id. Heard e'.sequence id (gateway_event e c).0) (sym p)
      (gateway_event-Heard e'.sequence e c d b))
