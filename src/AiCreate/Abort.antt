-- ===== src/AiCreate/Abort.antt =====
-- components/mosaic_ui/common/ai_create_controller.c: the current request is cancelled, everything in flight
-- is aborted, and the last input is tried again.
pub mod Quiet
use esp_mosaico_claw.Base.{
  ℕ, zero, suc, ◌+◌, ◌==◌, Bool, true, false, not, ◌&&◌, ◌||◌, Option, none, some, List, [], ◌∷◌,
  ◌++◌, map, if◌then◌else◌, length, get_or, Ptr, Text, text, strlcpy, EspErr, is_ok,
}
use esp_mosaico_claw.AiCreate.Transcript.{update_assistant}
use esp_mosaico_claw.AiCreate.Tracks.{Track, free_tracks}
use esp_mosaico_claw.AiCreate.Controller.{
  State, VoiceState, Screen, Composer, Status, Snapshot, Controller, Env, Effect, notify_changed,
  clear_notice, refresh_active, cancel_session_switch, text_max,
}
use esp_mosaico_claw.AiCreate.Submit.{SessionMgr, Request, post_text}

unfoldable pub cancel : (ℕ → EspErr) → Controller → EspErr × Controller × List Effect
cancel gateway c =
    let id = c.snapshot.request_id in
    if not c.snapshot.active || id == 0 then (EspErr.not_found, c, []) else (
      gateway id,
      notify_changed (record c { snapshot = record c.snapshot { state = State.cancelling } }),
      Effect.on_changed ∷ Effect.gateway_cancel id ∷ [],
    )

-- The requests in flight, in the order of their slots.
unfoldable pub requests : List Track → List ℕ
requests [] = []
requests (t ∷ ts) = let rest = requests ts in if t.used then t.request_id ∷ rest else rest

-- The stretch of `ai_create_controller_abort_current` under the lock.
unfoldable pub abort_view : Controller → Controller
abort_view c =
    let ids = requests c.messages in
    let s : Snapshot = record c.snapshot {
      voice_operation_id = 0;
      voice_state = VoiceState.idle;
    } in
    let r = refresh_active free_tracks s in
    let ended : Snapshot = record r {
      terminal = true;
      retryable = false;
      state = State.cancelled;
      status = Status.cancelled;
      progress = text "Current task ended.";
      transcript =
          update_assistant r.transcript (get_or ids 0 0) (text "Current task ended.") false false;
    } in
    let none_left = length ids == 0 in
    cancel_session_switch (record c {
      voice_operation_id = 0;
      voice_deadline_us = 0;
      messages = if none_left then c.messages else free_tracks;
      snapshot = clear_notice (record (if none_left then s else ended) {
        screen = Screen.welcome;
        composer = Composer.default;
      });
    })

abbrev pub first_error : EspErr → EspErr → EspErr
first_error first e = if is_ok first then e else first

abbrev pub unless_not_found : EspErr → EspErr
unless_not_found EspErr.not_found = EspErr.ok
unless_not_found e = e

unfoldable pub cancel_all : (ℕ → EspErr) → EspErr → List ℕ → EspErr
cancel_all gateway first [] = first
cancel_all gateway first (id ∷ ids) =
    cancel_all gateway (first_error first (unless_not_found (gateway id))) ids

-- The ports' cancellations come last. The voice port may be absent.
unfoldable pub abort_current :
    Ptr (ℕ → EspErr) → (ℕ → EspErr) → Controller → EspErr × Controller × List Effect
abort_current voice_port gateway c =
    let ids = requests c.messages in
    let operation = c.voice_operation_id in
    let (voice_err, voice_calls) : EspErr × List Effect = elim voice_port [
      | none ↦ (EspErr.ok, [])
      | some port ↦
          if operation == 0
          then (EspErr.ok, [])
          else (port operation, Effect.voice_port_cancel operation ∷ [])
    ] in
    (
      cancel_all gateway voice_err ids,
      notify_changed (abort_view c),
      Effect.on_changed ∷ Effect.schedule_journal ∷ voice_calls ++ map Effect.gateway_cancel ids,
    )

-- The input is whether `malloc` succeeds.
unfoldable pub retry :
    Bool → Env → SessionMgr → (Request → EspErr) → Controller → EspErr × Controller × List Effect
retry malloc env m post c =
    let posted = post_text env m post (strlcpy (text_max + 1) c.snapshot.input) c in
    if not malloc
    then (EspErr.no_mem, c, [])
    else if c.snapshot.terminal && c.snapshot.retryable
    then posted
    else (EspErr.invalid_state, c, [])
