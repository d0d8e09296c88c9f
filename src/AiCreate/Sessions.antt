-- ===== src/AiCreate/Sessions.antt =====
-- components/mosaic_ui/common/ai_create_controller.c: the sessions. A change of the session is prepared at
-- once, or begun under a generation and completed by a worker; so is a deletion. What the history and
-- the session manager answer between two stretches is an input.
use esp_mosaico_claw.Base.{
  ℕ, ◌+◌, ◌==◌, Bool, true, false, not, ◌&&◌, ◌||◌, none, some, List, [], ◌∷◌, map, if◌then◌else◌,
  ltb, length, take, Ptr, Text, text, text_eq, is_blank, strlcpy, EspErr, is_ok,
}
use esp_mosaico_claw.AiCreate.Transcript.{Message, transcript_valid}
use esp_mosaico_claw.AiCreate.Controller.{
  State, Screen, Composer, Snapshot, Controller, Env, Effect, mode_count, chat_id_max,
  notify_changed, clear_notice, reset_session_view, cancel_session_switch,
}

abbrev pub changed : List Effect
changed = Effect.on_changed ∷ []

abbrev pub or_default : Text → Ptr Text → Text
or_default d none = d
or_default d (some t) = if is_blank t then d else t

-- An alias that is given and that the session manager does not take.
abbrev pub bad_alias : Env → Ptr Text → Bool
bad_alias env none = false
bad_alias env (some t) = not (is_blank t) && not (env.alias_is_valid t)

unfoldable pub prepare_new_session :
    Env → Ptr Text → Bool → Controller → EspErr × Controller × List Effect
prepare_new_session env requested_alias notify c =
    let r = reset_session_view (cancel_session_switch c) in
    let prepared = record r {
      pending_session_alias = strlcpy (env.alias_max + 1) (or_default [] requested_alias);
      snapshot = record r.snapshot {
        state = State.idle;
        session_alias = [];
        new_session_pending = true;
      };
    } in
    if bad_alias env requested_alias
    then (EspErr.invalid_arg, c, [])
    else if c.snapshot.active
        || not (c.voice_operation_id == 0)
        || c.session_creation_in_progress
        || c.session_delete_pending
    then (EspErr.invalid_state, c, [])
    else if notify
    then (EspErr.ok, notify_changed prepared, Effect.schedule_journal ∷ changed)
    else (EspErr.ok, prepared, Effect.schedule_journal ∷ [])

unfoldable pub set_mode : ℕ → Controller → EspErr × Controller × List Effect
set_mode mode c =
    let s : Snapshot = record c.snapshot {
      mode = mode;
      state = State.drafting;
      composer = Composer.mode;
    } in
    if not (ltb mode mode_count)
    then (EspErr.invalid_arg, c, [])
    else if c.snapshot.active || c.snapshot.session_loading || c.session_delete_pending
    then (EspErr.invalid_state, c, [])
    else (EspErr.ok, notify_changed (record c { snapshot = clear_notice s }), changed)

-- The answer of the history: `none` if there is no history, else what `load` returns and leaves.
abbrev pub Loads : Type 0
Loads = Ptr (Text → Text → EspErr × List Message)

-- The last byte of a text is made its terminator.
abbrev pub terminated : List Message → List Message
terminated ms = map (λ (m : Message). record m { text = take 511 m.text }) ms

-- The answer after the checks, with what is loaded.
unfoldable pub checked_history : EspErr × List Message → EspErr × List Message
checked_history (e, ms) =
    if is_ok e && not (transcript_valid ms) then (EspErr.invalid_state, ms) else (e, terminated ms)

-- The stretch that shows a history that was loaded for a session.
unfoldable pub show_history : Text → Text → List Message → Controller → Controller
show_history chat_id alias ms c =
    if not c.snapshot.active
      && text_eq c.snapshot.chat_id chat_id
      && text_eq c.snapshot.session_alias alias
    then record c { snapshot = record c.snapshot { transcript = ms } }
    else c

abbrev pub is_not_found : EspErr → Bool
is_not_found EspErr.not_found = true
is_not_found _ = false

-- Another input is whether `calloc` succeeds.
unfoldable pub reload_history : Bool → Loads → Bool → Controller → EspErr × Controller × List Effect
reload_history calloc none notify c = (EspErr.ok, c, [])
reload_history calloc (some load) notify c =
    let chat_id = c.snapshot.chat_id in
    let alias = c.snapshot.session_alias in
    let answer = load chat_id alias in
    let h = checked_history answer in
    let told : Controller → EspErr × Controller × List Effect =
      λ d. if notify then (EspErr.ok, notify_changed d, changed) else (EspErr.ok, d, []) in
    if c.snapshot.new_session_pending
    then told (record c { snapshot = record c.snapshot { transcript = [] } })
    else if not calloc
    then (EspErr.no_mem, c, [])
    else if is_not_found answer.0
    then (EspErr.ok, c, [])
    else if is_ok h.0
    then told (show_history chat_id alias h.1 c)
    else (h.0, c, [])

unfoldable pub set_session :
    Env → Bool → Loads → Ptr Text → Ptr Text → Controller → EspErr × Controller × List Effect
set_session env calloc loads none session_alias c = (EspErr.invalid_arg, c, [])
set_session env calloc loads (some chat_id) session_alias c =
    let r = reset_session_view (cancel_session_switch c) in
    let bound = record r {
      pending_session_alias = [];
      snapshot = record r.snapshot {
        chat_id = strlcpy (chat_id_max + 1) chat_id;
        session_alias = strlcpy (env.alias_max + 1) (or_default (text "default") session_alias);
        new_session_pending = false;
      };
    } in
    if is_blank chat_id || ltb chat_id_max (length chat_id) || bad_alias env session_alias
    then (EspErr.invalid_arg, c, [])
    else if c.snapshot.active || c.session_creation_in_progress || c.snapshot.session_loading
        || c.session_delete_pending
    then (EspErr.invalid_state, c, [])
    else (
      EspErr.ok,
      notify_changed (reload_history calloc loads false bound).1,
      Effect.schedule_journal ∷ changed,
    )

-- The generation that a worker completes with.
unfoldable pub begin_session_switch : Controller → EspErr × ℕ × Controller × List Effect
begin_session_switch c =
    let r = reset_session_view (cancel_session_switch c) in
    let begun = record r {
      session_switch_pending = true;
      pending_session_alias = [];
      snapshot = record r.snapshot {
        session_loading = true;
        screen = Screen.chat;
        composer = Composer.default;
        new_session_pending = false;
        session_alias = [];
      };
    } in
    if not c.started
      || c.snapshot.active
      || not (c.voice_operation_id == 0)
      || c.session_creation_in_progress
      || c.session_delete_pending
      || c.snapshot.session_delete_confirm_visible
    then (EspErr.invalid_state, 0, c, [])
    else (EspErr.ok, begun.session_switch_generation, notify_changed begun, changed)

abbrev pub current_switch : ℕ → Controller → Bool
current_switch generation c = c.session_switch_pending && c.session_switch_generation == generation

-- What the worker has loaded before it takes the lock again; an alias is the one it was given.
unfoldable pub switch_loaded : Bool → Loads → Text → Text → EspErr × List Message
switch_loaded calloc none chat_id alias = (if calloc then EspErr.ok else EspErr.no_mem, [])
switch_loaded calloc (some load) chat_id alias =
    let (e, ms) = load chat_id alias in
    if not calloc
    then (EspErr.no_mem, [])
    else checked_history (if is_not_found e then (EspErr.ok, ms) else (e, ms))

-- The last stretch, with the session manager's answer to the switch.
unfoldable pub complete_switch :
    Env
    → (Text → Text → EspErr × Text)
    → Text
    → Text
    → ℕ
    → EspErr × List Message
    → Controller
    → EspErr × Controller × List Effect
complete_switch env switch chat_id alias generation (e, ms) c =
    let (e', resolved) : EspErr × Text = if is_ok e then switch chat_id alias else (e, alias) in
    let r = reset_session_view c in
    let shown = record r {
      session_switch_pending = false;
      snapshot = record r.snapshot {
        session_loading = false;
        screen = Screen.chat;
        chat_id = strlcpy (chat_id_max + 1) chat_id;
        session_alias = strlcpy (env.alias_max + 1) resolved;
        new_session_pending = false;
        transcript = ms;
      };
    } in
    let failed = record c {
      session_switch_pending = false;
      snapshot = record c.snapshot {
        session_loading = false;
        screen = Screen.session_picker;
        notice_visible = true;
        notice_code = e';
        notice = text "Could not switch to the selected session.";
      };
    } in
    if not (current_switch generation c)
    then (EspErr.invalid_state, c, [])
    else if is_ok e'
    then (EspErr.ok, notify_changed shown, Effect.schedule_journal ∷ changed)
    else (e', notify_changed failed, changed)

-- The changes that others make between the first stretch and the last are an input.
unfoldable pub complete_session_switch :
    Env
    → Bool
    → Loads
    → (Text → Text → EspErr × Text)
    → Text
    → ℕ
    → (Controller → Controller)
    → Controller
    → EspErr × Controller × List Effect
complete_session_switch env calloc loads switch alias generation others c =
    let chat_id = c.snapshot.chat_id in
    if not (env.alias_is_valid alias) || generation == 0
    then (EspErr.invalid_arg, c, [])
    else if not (current_switch generation c)
    then (EspErr.invalid_state, c, [])
    else complete_switch env switch chat_id alias generation
        (switch_loaded calloc loads chat_id (strlcpy (env.alias_max + 1) alias)) (others c)

unfoldable pub cancel_pending_switch : Controller → Controller × List Effect
cancel_pending_switch c =
    if c.session_switch_pending || c.snapshot.session_loading
    then (notify_changed (cancel_session_switch c), changed)
    else (cancel_session_switch c, [])
