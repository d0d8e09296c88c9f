-- ===== src/AiCreate/Stretches/Views.antt =====
-- The stretches of the sessions keep what the controller keeps.
use esp_mosaico_claw.Base.{
  ℕ, ◌≡◌, refl, inl, inr, Bool, true, false, not, ◌&&◌, ◌||◌, Bool-cases, if_cases, none, some,
  List, [], arith, if◌then◌else◌, ◌==◌, ltb, length, length-map, take, Ptr, Text, text_eq, is_blank,
  EspErr, is_ok,
}
use esp_mosaico_claw.AiCreate.Transcript.{Message, transcript_valid}
use esp_mosaico_claw.AiCreate.Transcript.Bounds.{Bounded, terminated-Fits}
use esp_mosaico_claw.AiCreate.Tracks.{free_tracks}
use esp_mosaico_claw.AiCreate.Controller.{
  mode_count, chat_id_max, Controller, Env, Effect, notify_changed, clear_notice,
  clear_session_delete_prompt, reset_session_view, cancel_session_switch,
}
use esp_mosaico_claw.AiCreate.Sessions.{
  prepare_new_session, set_mode, checked_history, show_history, reload_history, set_session,
  begin_session_switch, current_switch, complete_switch, cancel_pending_switch, bad_alias,
}
use esp_mosaico_claw.AiCreate.Stretches.Kept.{Good, Kept}
use esp_mosaico_claw.AiCreate.Stretches.Steps.{with_transcript}
use esp_mosaico_claw.AiCreate.Stretches.Requests.{free_Good}

abbrev Result : Type 0
Result = EspErr × Controller × List Effect

-- What is shown of a session that is left.
empty_Good : (p : Bool) (v w : ℕ) → v ≡ w → Good free_tracks false 0 [] p p v w
empty_Good p v w q = free_Good [] p v w (omega arith, tt) q

checked_history-Bounded :
    (a : EspErr × List Message) → is_ok (checked_history a).0 ≡ true → Bounded (checked_history a).1
unfolding checked_history transcript_valid
checked_history-Bounded (e, ms) h = (
  ground (arith, length-map ms (λ (m : Message). record m { text = take 511 m.text })),
  ground (arith, terminated-Fits ms),
)

pub prepare_new_session-Kept :
    (env : Env) (a : Ptr Text) (n : Bool) (c : Controller)
    → Kept c
    → Kept (prepare_new_session env a n c).1
unfolding prepare_new_session reset_session_view cancel_session_switch clear_notice
    clear_session_delete_prompt notify_changed
prepare_new_session-Kept env a n c g =
    let P = λ (r : Result). Kept r.1 in
    let e = empty_Good false c.snapshot.voice_operation_id c.voice_operation_id g.voice in
    if_cases P (bad_alias env a) (λ _. g)
      (λ _.
        if_cases P
          (c.snapshot.active
            || not (c.voice_operation_id == 0)
            || c.session_creation_in_progress
            || c.session_delete_pending)
          (λ _. g) (λ _. if_cases P n (λ _. e) (λ _. e)))

pub set_mode-Kept : (mode : ℕ) (c : Controller) → Kept c → Kept (set_mode mode c).1
unfolding set_mode clear_notice notify_changed
set_mode-Kept mode c g =
    let P = λ (r : Result). Kept r.1 in
    if_cases P (not (ltb mode mode_count)) (λ _. g)
      (λ _.
        if_cases P (c.snapshot.active || c.snapshot.session_loading || c.session_delete_pending)
          (λ _. g) (λ _. g))

pub show_history-Kept :
    (chat_id alias : Text) (a : EspErr × List Message) (c : Controller)
    → Kept c
    → Kept (
        if is_ok (checked_history a).0
        then show_history chat_id alias (checked_history a).1 c
        else c)
unfolding show_history
show_history-Kept chat_id alias a c g =
    if_cases Kept (is_ok (checked_history a).0)
      (λ o.
        if_cases Kept
          (not c.snapshot.active
            && text_eq c.snapshot.chat_id chat_id
            && text_eq c.snapshot.session_alias alias)
          (λ _. with_transcript (checked_history a).1 g (λ _. checked_history-Bounded a o))
          (λ _. g))
      (λ _. g)

pub set_session-Kept :
    (env : Env) (chat_id alias : Ptr Text) (c : Controller)
    → Kept c
    → Kept (set_session env true none chat_id alias c).1
unfolding set_session reload_history reset_session_view cancel_session_switch clear_notice
    clear_session_delete_prompt notify_changed
set_session-Kept env none alias c g = g
set_session-Kept env (some chat_id) alias c g =
    let P = λ (r : Result). Kept r.1 in
    if_cases P (is_blank chat_id || ltb chat_id_max (length chat_id) || bad_alias env alias)
      (λ _. g)
      (λ _.
        if_cases P
          (c.snapshot.active || c.session_creation_in_progress || c.snapshot.session_loading
            || c.session_delete_pending)
          (λ _. g)
          (λ _. empty_Good false c.snapshot.voice_operation_id c.voice_operation_id g.voice))

pub begin_session_switch-Kept : (c : Controller) → Kept c → Kept (begin_session_switch c).2
unfolding begin_session_switch reset_session_view cancel_session_switch clear_notice
    clear_session_delete_prompt notify_changed
begin_session_switch-Kept c g =
    if_cases (λ (r : EspErr × ℕ × Controller × List Effect). Kept r.2)
      (not c.started
        || c.snapshot.active
        || not (c.voice_operation_id == 0)
        || c.session_creation_in_progress
        || c.session_delete_pending
        || c.snapshot.session_delete_confirm_visible)
      (λ _. g) (λ _. empty_Good true c.snapshot.voice_operation_id c.voice_operation_id g.voice)

pub complete_switch-Kept :
    (env : Env) (switch : Text → Text → EspErr × Text) (chat_id alias : Text) (generation : ℕ)
    (a : EspErr × List Message) (c : Controller)
    → Kept c
    → Kept (complete_switch env switch chat_id alias generation (checked_history a) c).1
unfolding complete_switch reset_session_view clear_notice clear_session_delete_prompt notify_changed
complete_switch-Kept env switch chat_id alias generation a c g =
    let P = λ (r : Result). Kept r.1 in
    let e = (checked_history a).0 in
    let r : EspErr × Text = if is_ok e then switch chat_id alias else (e, alias) in
    if_cases P (not (current_switch generation c)) (λ _. g)
      (λ _.
        if_cases P (is_ok r.0)
          (λ o.
            free_Good (checked_history a).1 false c.snapshot.voice_operation_id c.voice_operation_id
              (checked_history-Bounded a
                (elim (Bool-cases (is_ok e)) [ inl z ↦ z | inr z ↦ ground arith ]))
              g.voice)
          (λ _. record {
            eight = g.eight;
            distinct = g.distinct;
            shown = g.shown;
            bounded = g.bounded;
            loading = refl;
            voice = g.voice;
          }))

pub cancel_pending_switch-Kept : (c : Controller) → Kept c → Kept (cancel_pending_switch c).0
unfolding cancel_pending_switch cancel_session_switch notify_changed
cancel_pending_switch-Kept c g =
    let e : Kept (cancel_session_switch c) = record {
      eight = g.eight;
      distinct = g.distinct;
      shown = g.shown;
      bounded = g.bounded;
      loading = refl;
      voice = g.voice;
    } in
    if_cases (λ (r : Controller × List Effect). Kept r.0)
      (c.session_switch_pending || c.snapshot.session_loading) (λ _. e) (λ _. e)
