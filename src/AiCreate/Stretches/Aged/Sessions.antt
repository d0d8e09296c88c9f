-- ===== src/AiCreate/Stretches/Aged/Sessions.antt =====
-- The age of a voice operation while the session, the mode or the history changes.
use esp_mosaico_claw.Base.{
  ℕ, Bool, true, none, some, List, arith, if◌then◌else◌, Ptr, Text, EspErr, is_ok,
}
use esp_mosaico_claw.AiCreate.Transcript.{Message}
use esp_mosaico_claw.AiCreate.Controller.{
  clear_notice, clear_session_delete_prompt, Controller, Env, notify_changed, reset_session_view,
  cancel_session_switch,
}
use esp_mosaico_claw.AiCreate.Sessions.{
  prepare_new_session, set_mode, show_history, reload_history, set_session, begin_session_switch,
  complete_switch, cancel_pending_switch,
}
use esp_mosaico_claw.AiCreate.Stretches.Aged.{Aged}

module _ (opened pace : ℕ) where
  pub prepare_new_session-Aged :
      (env : Env) (a : Ptr Text) (n : Bool) (c : Controller)
      → Aged opened pace c
      → Aged opened pace (prepare_new_session env a n c).1
  unfolding prepare_new_session reset_session_view clear_notice clear_session_delete_prompt
      cancel_session_switch notify_changed
  prepare_new_session-Aged env a n c g = ground arith

  pub set_mode-Aged :
      (n : ℕ) (c : Controller) → Aged opened pace c → Aged opened pace (set_mode n c).1
  unfolding set_mode clear_notice notify_changed
  set_mode-Aged n c g = ground arith

  pub show_history-Aged :
      (a b : Text) (h : EspErr × List Message) (c : Controller)
      → Aged opened pace c
      → Aged opened pace (if is_ok h.0 then show_history a b h.1 c else c)
  unfolding show_history
  show_history-Aged a b h c g = ground arith

  pub set_session-Aged :
      (env : Env) (a b : Ptr Text) (c : Controller)
      → Aged opened pace c
      → Aged opened pace (set_session env true none a b c).1
  unfolding set_session reload_history reset_session_view clear_notice clear_session_delete_prompt
      cancel_session_switch notify_changed
  set_session-Aged env none b c g = g
  set_session-Aged env (some a) b c g = ground arith

  pub begin_session_switch-Aged :
      (c : Controller) → Aged opened pace c → Aged opened pace (begin_session_switch c).2
  unfolding begin_session_switch reset_session_view clear_notice clear_session_delete_prompt
      cancel_session_switch notify_changed
  begin_session_switch-Aged c g = ground arith

  pub complete_switch-Aged :
      (env : Env) (f : Text → Text → EspErr × Text) (a b : Text) (n : ℕ) (h : EspErr × List Message)
      (c : Controller)
      → Aged opened pace c
      → Aged opened pace (complete_switch env f a b n h c).1
  unfolding complete_switch reset_session_view clear_notice clear_session_delete_prompt
      notify_changed
  complete_switch-Aged env f a b n h c g = ground arith

  pub cancel_pending_switch-Aged :
      (c : Controller) → Aged opened pace c → Aged opened pace (cancel_pending_switch c).0
  unfolding cancel_pending_switch cancel_session_switch notify_changed
  cancel_pending_switch-Aged c g = ground arith
