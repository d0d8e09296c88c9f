-- ===== src/AiCreate/Events.antt =====
-- components/mosaic_ui/common/ai_create_controller.c: the gateway's events, and
-- components/cap_im_ai_create/include/cap_im_ai_create.h: their type.
pub mod Stale
use esp_mosaico_claw.Base.{
  ℕ, ◌+◌, Bool, true, false, not, ◌&&◌, Option, none, some, List, [], ◌∷◌, ◌++◌, if◌then◌else◌, ltb,
  set, Ptr, Text, text, strlcpy,
}
use esp_mosaico_claw.AiCreate.Transcript.{
  Role, Message, transcript_append, update_assistant, rebind_request,
}
use esp_mosaico_claw.AiCreate.Tracks.{
  Track, free_track, track_at, find_message, find_message_by_run,
}
use esp_mosaico_claw.AiCreate.Controller.{
  State, Status, Snapshot, Controller, Effect, text_max, notify_changed, refresh_active,
}

-- `cap_im_ai_create_event_kind_t`; a number that has no name is `unknown`.
pub data EventKind : Type 0 where
  message_accepted agent_progress response_partial response_final error cancelled unknown :
      EventKind

-- `cap_im_ai_create_delivery_t`.
pub data Delivery : Type 0 where
  new_run active_run : Delivery

-- `cap_im_ai_create_event_t`.
pub record GatewayEvent : Type 0 where
  pub request_id : ℕ
  pub run_id : ℕ
  pub sequence : ℕ
  pub kind : EventKind
  pub delivery : Delivery
  pub status : Status
  pub terminal : Bool
  pub retryable : Bool
  pub text : Ptr Text

abbrev pub state_for_event : EventKind → State
state_for_event EventKind.message_accepted = State.running
state_for_event EventKind.agent_progress = State.running
state_for_event EventKind.response_partial = State.running
state_for_event EventKind.response_final = State.completed
state_for_event EventKind.error = State.error
state_for_event EventKind.cancelled = State.cancelled
state_for_event EventKind.unknown = State.error

abbrev pub is_accepted : EventKind → Bool
is_accepted EventKind.message_accepted = true
is_accepted _ = false

abbrev pub is_active_run : Delivery → Bool
is_active_run Delivery.new_run = false
is_active_run Delivery.active_run = true

abbrev pub or_text : Text → Ptr Text → Text
or_text t none = t
or_text t (some s) = s

abbrev pub answer : GatewayEvent → Text → Bool → Bool → Snapshot → List Message
answer e t pending is_error s = update_assistant s.transcript e.request_id t pending is_error

-- An event of another kind shows its text as progress, if it has one.
unfoldable pub show_progress : GatewayEvent → Ptr Text → Snapshot → Snapshot
show_progress e none s = s
show_progress e (some t) s = record s {
  progress = strlcpy 256 t;
  transcript = answer e t (not e.terminal) false s;
}

-- The texts that an event shows.
unfoldable pub show_text : EventKind → GatewayEvent → Snapshot → Snapshot
show_text EventKind.response_partial e s = record s {
  response = strlcpy (text_max + 1) (or_text [] e.text);
  transcript = answer e (or_text [] e.text) true false s;
}
show_text EventKind.response_final e s = record s {
  response = strlcpy (text_max + 1) (or_text [] e.text);
  transcript = answer e (or_text [] e.text) false false s;
}
show_text EventKind.error e s = record s {
  error = strlcpy 256 (or_text (text "Request failed") e.text);
  transcript = answer e (or_text (text "Request failed") e.text) false true s;
}
show_text EventKind.message_accepted e s = s
show_text _ e s = show_progress e e.text s

-- What follows once the slots are written: the request that is shown, and the texts.
unfoldable pub show_event : GatewayEvent → List Track → Snapshot → Snapshot
show_event e ts s =
    let s' = refresh_active ts s in
    let state = if e.terminal && s'.active then State.running else s'.state in
    show_text e.kind e (record s' { terminal = not s'.active; state = state })

abbrev pub event_effects : GatewayEvent → List Effect
event_effects e =
    (if e.terminal then Effect.schedule_journal ∷ [] else []) ++ Effect.on_changed ∷ []

unfoldable pub settle : GatewayEvent → Controller → List Track → Snapshot → Controller × List Effect
settle e c ts s =
    (notify_changed (record c { messages = ts; snapshot = show_event e ts s }), event_effects e)

-- An event that is new to the slot of its request.
unfoldable pub take_event : GatewayEvent → ℕ → Controller → Controller × List Effect
take_event e i c =
    let t : Track = record (track_at c.messages i) { last_event_sequence = e.sequence } in
    let t' : Track = record t { run_id = e.run_id } in
    let s : Snapshot = record c.snapshot {
      state = state_for_event e.kind;
      status = e.status;
      retryable = e.retryable;
    } in
    let freed = set c.messages i free_track in
    let ts = set c.messages i t' in
    let joined : Controller × List Effect = elim (find_message_by_run ts e.run_id i) [
      | none ↦ (record c { messages = ts; snapshot = s }, [])
      | some j ↦ settle e c freed (record s {
        transcript = rebind_request e.request_id (track_at ts j).request_id s.transcript;
      })
    ] in
    if is_accepted e.kind
    then if is_active_run e.delivery then joined else settle e c ts s
    else if e.terminal
    then settle e c freed s
    else settle e c (set c.messages i t) s

unfoldable pub gateway_event : GatewayEvent → Controller → Controller × List Effect
gateway_event e c = elim (find_message c.messages e.request_id) [
  | none ↦ (c, [])
  | some i ↦
      if c.started && ltb (track_at c.messages i).last_event_sequence e.sequence
      then take_event e i c
      else (c, [])
]
