-- ===== src/AiCreate/Submit.antt =====
-- components/mosaic_ui/common/ai_create_controller.c: a message is posted, the current request is cancelled,
-- everything is aborted, and the last input is tried again. Each stretch under the lock is a function
-- of its own, and `post_text`, `cancel`, `abort_current` and `retry` put them together the way they run
-- when nothing else comes between.
pub mod Refused
use esp_mosaico_claw.Base.{
  ℕ, suc, ◌+◌, ◌==◌, Bool, true, false, not, ◌&&◌, ◌||◌, Option, none, some, List, [], ◌∷◌, ◌++◌,
  map, ◌⊎◌, inl, inr, if◌then◌else◌, ltb, length, set, Ptr, Text, text, text_eq, is_blank, strlcpy,
  EspErr, is_ok,
}
use esp_mosaico_claw.AiCreate.Transcript.{Role, Message, transcript_append, update_assistant}
use esp_mosaico_claw.AiCreate.Tracks.{
  Track, free_track, free_tracks, track_at, find_message, reserve_message,
}
use esp_mosaico_claw.AiCreate.Controller.{
  State, VoiceState, Screen, Composer, Status, Snapshot, Controller, Env, Effect, text_max, next_id,
  notify_changed, clear_notice, set_notice, refresh_active, cancel_session_switch,
}

-- `claw_session_mgr_new_chat_session` and `claw_session_mgr_switch_chat_session` for the channel: what they
-- return, with the alias.
pub record SessionMgr : Type 0 where
  pub new_chat_session : Text → Ptr Text → EspErr × Text
  pub switch_chat_session : Text → Text → EspErr × Text

-- What `bind_session_for_submit` copies under the lock.
pub record Binding : Type 0 where
  pub create_new : Bool
  pub chat_id : Text
  pub requested_alias : Text
  pub current_alias : Text

-- `cap_im_ai_create_request_t`, less the constants.
pub record Request : Type 0 where
  pub request_id : ℕ
  pub chat_id : Text
  pub session_alias : Text
  pub mode : ℕ
  pub inject_mode_instruction : Bool
  pub text : Text

unfoldable pub bind_begin : Controller → EspErr × Controller
bind_begin c =
    if not c.started || c.snapshot.active || c.session_creation_in_progress
    then (EspErr.invalid_state, c)
    else (EspErr.ok, record c { session_creation_in_progress = true })

abbrev pub binding_of : Controller → Binding
binding_of c = record {
  create_new = c.snapshot.new_session_pending;
  chat_id = c.snapshot.chat_id;
  requested_alias = c.pending_session_alias;
  current_alias = c.snapshot.session_alias;
}

-- The session manager's answer, outside the lock.
unfoldable pub bind_answer : SessionMgr → Binding → EspErr × Text
bind_answer m b =
    if b.create_new
    then m.new_chat_session b.chat_id
        (if is_blank b.requested_alias then none else some b.requested_alias)
    else if not (is_blank b.current_alias)
    then m.switch_chat_session b.chat_id b.current_alias
    else (EspErr.invalid_state, b.current_alias)

unfoldable pub bind_end : Env → Binding → EspErr × Text → Controller → EspErr × Controller
bind_end env b (e, alias) c =
    let same =
      if b.create_new then c.snapshot.new_session_pending else not c.snapshot.new_session_pending in
    let failed = record c { session_creation_in_progress = false } in
    if is_ok e && not c.snapshot.active && text_eq c.snapshot.chat_id b.chat_id && same
    then (
      EspErr.ok,
      record c {
        pending_session_alias = [];
        snapshot = record c.snapshot {
          session_alias = strlcpy (env.alias_max + 1) alias;
          new_session_pending = false;
        };
      },
    )
    else if is_ok e
    then (EspErr.invalid_state, failed)
    else (e, failed)

unfoldable pub bind_session_for_submit :
    Env → SessionMgr → Controller → EspErr × Controller × List Effect
bind_session_for_submit env m c =
    let b = bind_begin c in
    let r = bind_end env (binding_of c) (bind_answer m (binding_of c)) b.1 in
    if not (is_ok b.0) then (b.0, b.1, []) else if is_ok r.0 then (EspErr.ok, r.1, []) else (
      r.0,
      set_notice env r.0 (text "Could not create or restore the session. Try again later.") r.1,
      Effect.on_changed ∷ [],
    )

-- The bytes of the ellipsis in UTF-8.
abbrev ellipsis : Text
ellipsis = 226 ∷ 128 ∷ 166 ∷ []

abbrev pub waiting_text : Bool → Text
waiting_text had_active_run =
    if had_active_run
    then text "Added to the current task" ++ ellipsis
    else text "Processing" ++ ellipsis

-- What the view shows of a message that is posted.
unfoldable pub show_submitted : Bool → ℕ → Text → List Track → Snapshot → Snapshot
show_submitted had_active_run id t ts s =
    let begun = if had_active_run then s else record s {
      request_id = id;
      response = [];
      progress = [];
      error = [];
      input = strlcpy (text_max + 1) t;
    } in
    let shown = refresh_active ts (record begun {
      screen = Screen.chat;
      composer = Composer.default;
      state = if had_active_run then State.running else State.submitting;
      status = Status.ok;
    }) in
    record shown {
      terminal = false;
      retryable = false;
      transcript =
          transcript_append (transcript_append s.transcript id Role.user t false false) id
            Role.assistant (waiting_text had_active_run) true false;
    }

-- The stretch that makes the request: why not, or what to post.
unfoldable pub submit : Bool → Text → Controller → (EspErr ⊎ Request) × Controller
submit had_active_run t c =
    let id = c.next_request_id in
    let stopped = record c { session_creation_in_progress = false } in
    let request : Request = record {
      request_id = id;
      chat_id = c.snapshot.chat_id;
      session_alias = c.snapshot.session_alias;
      mode = c.snapshot.mode;
      inject_mode_instruction = length c.snapshot.transcript == 0;
      text = t;
    } in
    if not c.started || not had_active_run && not c.session_creation_in_progress
    then (inl EspErr.invalid_state, stopped)
    else elim (reserve_message c.messages id) [
      | none ↦ (inl EspErr.no_mem, record stopped { next_request_id = next_id id })
      | some ts ↦ (
        inr request,
        record stopped {
          next_request_id = next_id id;
          messages = ts;
          snapshot = show_submitted had_active_run id t ts c.snapshot;
        },
      )
    ]

abbrev pub is_invalid_state : EspErr → Bool
is_invalid_state EspErr.invalid_state = true
is_invalid_state _ = false

-- The gateway has refused the message.
unfoldable pub post_failed : Env → ℕ → EspErr → Controller → Controller
post_failed env id e c = elim (find_message c.messages id) [
  | none ↦ c
  | some i ↦
      let ts = set c.messages i free_track in
      let s = refresh_active ts c.snapshot in
      let message = strlcpy 256 (text "Submission failed: " ++ env.err_name e) in
      record c {
        messages = ts;
        snapshot = record s {
          state = State.error;
          status = if is_invalid_state e then Status.busy else Status.unavailable;
          terminal = not s.active;
          retryable = true;
          error = message;
          transcript = update_assistant s.transcript id message false true;
        };
      }
]

unfoldable pub post_request : Env → (Request → EspErr) → Request → Controller → EspErr × Controller
post_request env post r c =
    let e = post r in (e, notify_changed (if is_ok e then c else post_failed env r.request_id e c))

unfoldable pub post_text :
    Env → SessionMgr → (Request → EspErr) → Text → Controller → EspErr × Controller × List Effect
post_text env m post t c =
    let had_active_run = c.snapshot.active in
    let b = bind_session_for_submit env m c in
    let bound = if had_active_run then (EspErr.ok, c, []) else b in
    let r = submit had_active_run t bound.1 in
    let finish : EspErr × Controller × List Effect = elim r.0 [
      | inl e ↦ (e, r.1, [])
      | inr request ↦
          let p = post_request env post request r.1 in
          (p.0, p.1, Effect.schedule_journal ∷ Effect.on_changed ∷ [])
    ] in
    if is_blank t || ltb text_max (length t)
    then (EspErr.invalid_arg, c, [])
    else if c.snapshot.session_loading
    then (EspErr.invalid_state, c, [])
    else if not (is_ok bound.0)
    then bound
    else finish
