-- ===== src/AiCreate/Stretches/Steps.antt =====
-- Every stretch keeps what the controller keeps.
use esp_mosaico_claw.Base.{
  ℕ, ◌≡◌, ◌∙◌, inl, inr, Bool, true, false, not, ◌&&◌, Option-cases, if_cases, none, some, List, [],
  if◌then◌else◌, ltb, length, length-set, set, Ptr, Text, text,
}
use esp_mosaico_claw.AiCreate.Transcript.{Message, rebind_request}
use esp_mosaico_claw.AiCreate.Transcript.Bounds.{
  Bounded, update_assistant-Bounded, rebind_request-Bounded,
}
use esp_mosaico_claw.AiCreate.Tracks.{
  Track, free_track, track_at, find_message, find_message_by_run,
}
use esp_mosaico_claw.AiCreate.Tracks.Slots.{Distinct}
use esp_mosaico_claw.AiCreate.Controller.{
  State, Snapshot, Controller, Effect, refresh_active, notify_changed,
}
use esp_mosaico_claw.AiCreate.Events.{
  EventKind, GatewayEvent, is_accepted, is_active_run, state_for_event, or_text, answer,
  show_progress, show_text, show_event, settle, take_event, gateway_event,
}
use esp_mosaico_claw.AiCreate.Stretches.Kept.{
  Good, GoodView, Kept, refresh_active-Good, free-Distinct, renumbered, renumbered-Distinct,
  renumbered-shown,
}

-- A view with another transcript.
pub with_transcript :
    {ts : List Track} {active : Bool} {id : ℕ} {ms : List Message} {l p : Bool} {v w : ℕ}
    (ns : List Message)
    → Good ts active id ms l p v w
    → (Bounded ms → Bounded ns)
    → Good ts active id ns l p v w
with_transcript ns g h = record {
  eight = g.eight;
  distinct = g.distinct;
  shown = g.shown;
  bounded = h g.bounded;
  loading = g.loading;
  voice = g.voice;
}

with_answer :
    {ts : List Track} {active : Bool} {id : ℕ} {l p : Bool} {v w : ℕ} (e : GatewayEvent) (t : Text)
    (pending is_error : Bool) (s : Snapshot)
    → Good ts active id s.transcript l p v w
    → Good ts active id (answer e t pending is_error s) l p v w
with_answer e t pending is_error s g =
    with_transcript (answer e t pending is_error s) g
      (update_assistant-Bounded s.transcript e.request_id t pending is_error)

show_progress-Good :
    (ts : List Track) (p : Bool) (w : ℕ) (e : GatewayEvent) (t : Ptr Text) (s : Snapshot)
    → GoodView ts p w s
    → GoodView ts p w (show_progress e t s)
unfolding show_progress
show_progress-Good ts p w e none s g = g
show_progress-Good ts p w e (some t) s g = with_answer e t (not e.terminal) false s g

show_text-Good :
    (ts : List Track) (p : Bool) (w : ℕ) (k : EventKind) (e : GatewayEvent) (s : Snapshot)
    → GoodView ts p w s
    → GoodView ts p w (show_text k e s)
unfolding show_text
show_text-Good ts p w EventKind.response_partial e s g =
    with_answer e (or_text [] e.text) true false s g
show_text-Good ts p w EventKind.response_final e s g =
    with_answer e (or_text [] e.text) false false s g
show_text-Good ts p w EventKind.error e s g =
    with_answer e (or_text (text "Request failed") e.text) false true s g
show_text-Good ts p w EventKind.message_accepted e s g = g
show_text-Good ts p w EventKind.agent_progress e s g = show_progress-Good ts p w e e.text s g
show_text-Good ts p w EventKind.cancelled e s g = show_progress-Good ts p w e e.text s g
show_text-Good ts p w EventKind.unknown e s g = show_progress-Good ts p w e e.text s g

-- An event settles over slots that are still distinct.
settle-Kept :
    (e : GatewayEvent) (c : Controller) (ts ts' : List Track) (s : Snapshot)
    → GoodView ts c.session_switch_pending c.voice_operation_id s
    → length ts' ≡ 8
    → Distinct ts'
    → Kept (settle e c ts' s).0
unfolding settle show_event notify_changed
settle-Kept e c ts ts' s g l d =
    let s' = refresh_active ts' s in
    let state = if e.terminal && s'.active then State.running else s'.state in
    show_text-Good ts' c.session_switch_pending c.voice_operation_id e.kind e
      (record s' { terminal = not s'.active; state = state })
      (refresh_active-Good ts' c.session_switch_pending c.voice_operation_id s g.bounded g.loading
        g.voice l d)

take_event-Kept : (e : GatewayEvent) (i : ℕ) (c : Controller) → Kept c → Kept (take_event e i c).0
unfolding take_event
take_event-Kept e i c g =
    let P = λ (r : Controller × List Effect). Kept r.0 in
    let s : Snapshot = record c.snapshot {
      state = state_for_event e.kind;
      status = e.status;
      retryable = e.retryable;
    } in
    let run_id = (track_at c.messages i).run_id in
    let t = renumbered e.sequence run_id (track_at c.messages i) in
    let t' = renumbered e.sequence e.run_id (track_at c.messages i) in
    let l : (x : Track) → length (set c.messages i x) ≡ 8 =
      λ x. length-set c.messages i x ∙ g.eight in
    let ts = set c.messages i t' in
    let free : (ms : List Message)
        → (Bounded s.transcript → Bounded ms)
        → Kept (settle e c (set c.messages i free_track) (record s { transcript = ms })).0 =
      λ ms h.
        settle-Kept e c c.messages (set c.messages i free_track) (record s { transcript = ms })
          (with_transcript ms g h) (l free_track) (free-Distinct c.messages i g.distinct) in
    if_cases P (is_accepted e.kind)
      (λ _.
        if_cases P (is_active_run e.delivery)
          (λ _. elim (Option-cases (find_message_by_run ts e.run_id i)) [
            | inl n ↦ rw n (record {
              eight = l t';
              distinct = renumbered-Distinct c.messages i e.sequence e.run_id g.distinct;
              shown =
                  renumbered-shown c.messages i e.sequence e.run_id c.snapshot.active
                    c.snapshot.request_id g.shown;
              bounded = g.bounded;
              loading = g.loading;
              voice = g.voice;
            })
            | inr (j, f) ↦ rw f (
                free (rebind_request e.request_id (track_at ts j).request_id s.transcript)
                  (rebind_request-Bounded e.request_id (track_at ts j).request_id s.transcript))
          ])
          (λ _.
            settle-Kept e c c.messages ts s g (l t')
              (renumbered-Distinct c.messages i e.sequence e.run_id g.distinct)))
      (λ _.
        if_cases P e.terminal (λ _. free s.transcript (λ b. b))
          (λ _.
            settle-Kept e c c.messages (set c.messages i t) s g (l t)
              (renumbered-Distinct c.messages i e.sequence run_id g.distinct)))

pub gateway_event-Kept : (e : GatewayEvent) (c : Controller) → Kept c → Kept (gateway_event e c).0
unfolding gateway_event
gateway_event-Kept e c g = elim (Option-cases (find_message c.messages e.request_id)) [
  | inl n ↦ rw (n, gateway_event) g
  | inr (i, f) ↦
      rw (f, gateway_event)
        (if_cases (λ (r : Controller × List Effect). Kept r.0)
          (c.started && ltb (track_at c.messages i).last_event_sequence e.sequence)
          (λ _. take_event-Kept e i c g) (λ _. g))
]
