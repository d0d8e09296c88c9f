-- ===== src/AiCreate/Stretches/Requests.antt =====
-- The stretches of the requests keep what the controller keeps.
use esp_mosaico_claw.Base.{
  ℕ, zero, suc, ◌+◌, ◌≡◌, refl, subst, ◌∙◌, ◌⊎◌, inl, inr, Bool, true, false, not, ◌&&◌, ◌||◌,
  Bool-cases, Option-cases, if_cases, some, List, [], ◌++◌, if◌then◌else◌, ◌==◌, length, length-set,
  get_or, set, replicate, All, Text, text, text_eq, strlcpy, EspErr, is_ok,
}
use esp_mosaico_claw.AiCreate.Transcript.{Role, Message, transcript_append, update_assistant}
use esp_mosaico_claw.AiCreate.Transcript.Bounds.{
  Bounded, transcript_append-Bounded, update_assistant-Bounded,
}
use esp_mosaico_claw.AiCreate.Tracks.{
  Track, free_track, free_tracks, find_index, find_message, reserve_message,
}
use esp_mosaico_claw.AiCreate.Tracks.Slots.{Distinct, clash}
use esp_mosaico_claw.AiCreate.Controller.{
  State, Status, Screen, Composer, Snapshot, Controller, Env, Effect, refresh_active,
  notify_changed, clear_notice, cancel_session_switch, text_max,
}
use esp_mosaico_claw.AiCreate.Submit.{
  Request, Binding, bind_begin, bind_end, show_submitted, waiting_text, submit, post_failed,
}
use esp_mosaico_claw.AiCreate.Abort.{cancel, requests, abort_view}
use esp_mosaico_claw.AiCreate.Stretches.Kept.{
  Good, GoodView, Kept, refresh_active-Good, free-Distinct, Reserved, reserve_message-Reserved,
}
use esp_mosaico_claw.AiCreate.Stretches.Steps.{with_transcript}

-- The same slots with nothing in flight.
free_clash : (n : ℕ) → All (λ s. clash free_track s ≡ false) (replicate n free_track)
free_clash zero = tt
free_clash (suc n) = (refl, free_clash n)

replicate-Distinct : (n : ℕ) → Distinct (replicate n free_track)
replicate-Distinct zero = tt
replicate-Distinct (suc n) = (free_clash n, replicate-Distinct n)

pub free_Good :
    (ms : List Message) (p : Bool) (v w : ℕ)
    → Bounded ms
    → v ≡ w
    → Good free_tracks false 0 ms p p v w
unfolding find_index
free_Good ms p v w b q = record {
  eight = refl;
  distinct = replicate-Distinct 8;
  shown = refl;
  bounded = b;
  loading = refl;
  voice = q;
}

pub bind_begin-Kept : (c : Controller) → Kept c → Kept (bind_begin c).1
unfolding bind_begin
bind_begin-Kept c g =
    if_cases (λ (r : EspErr × Controller). Kept r.1)
      (not c.started || c.snapshot.active || c.session_creation_in_progress) (λ _. g) (λ _. g)

pub bind_end-Kept :
    (env : Env) (b : Binding) (r : EspErr × Text) (c : Controller)
    → Kept c
    → Kept (bind_end env b r c).1
unfolding bind_end
bind_end-Kept env b (e, alias) c g =
    let P = λ (r : EspErr × Controller). Kept r.1 in
    let same =
      if b.create_new then c.snapshot.new_session_pending else not c.snapshot.new_session_pending in
    if_cases P (is_ok e && not c.snapshot.active && text_eq c.snapshot.chat_id b.chat_id && same)
      (λ _. g) (λ _. if_cases P (is_ok e) (λ _. g) (λ _. g))

-- A message that is posted is shown.
show_submitted-Good :
    (had : Bool) (id : ℕ) (t : Text) (ts : List Track) (p : Bool) (w : ℕ) (s : Snapshot)
    → Bounded s.transcript
    → s.session_loading ≡ p
    → s.voice_operation_id ≡ w
    → length ts ≡ 8
    → Distinct ts
    → GoodView ts p w (show_submitted had id t ts s)
unfolding show_submitted
show_submitted-Good true id t ts p w s b lo vo l d =
    let shown : Snapshot = record s {
      screen = Screen.chat;
      composer = Composer.default;
      state = State.running;
      status = Status.ok;
    } in
    with_transcript
      (transcript_append (transcript_append s.transcript id Role.user t false false) id
        Role.assistant (waiting_text true) true false)
      (refresh_active-Good ts p w shown b lo vo l d)
      (λ _.
        transcript_append-Bounded (transcript_append s.transcript id Role.user t false false) id
          Role.assistant (waiting_text true) true false
          (transcript_append-Bounded s.transcript id Role.user t false false b))
show_submitted-Good false id t ts p w s b lo vo l d =
    let shown : Snapshot = record s {
      request_id = id;
      response = [];
      progress = [];
      error = [];
      input = strlcpy (text_max + 1) t;
      screen = Screen.chat;
      composer = Composer.default;
      state = State.submitting;
      status = Status.ok;
    } in
    with_transcript
      (transcript_append (transcript_append s.transcript id Role.user t false false) id
        Role.assistant (waiting_text false) true false)
      (refresh_active-Good ts p w shown b lo vo l d)
      (λ _.
        transcript_append-Bounded (transcript_append s.transcript id Role.user t false false) id
          Role.assistant (waiting_text false) true false
          (transcript_append-Bounded s.transcript id Role.user t false false b))

pub submit-Kept : (had : Bool) (t : Text) (c : Controller) → Kept c → Kept (submit had t c).1
unfolding submit
submit-Kept had t c g =
    let P = λ (r : (EspErr ⊎ Request) × Controller). Kept r.1 in
    let id = c.next_request_id in
    let r : Reserved c.messages (reserve_message c.messages id) =
      reserve_message-Reserved c.messages id g.distinct in
    if_cases P (not c.started || not had && not c.session_creation_in_progress) (λ _. g)
      (λ _. elim (Option-cases (reserve_message c.messages id)) [
        | inl n ↦ rw n g
        | inr (ts, n) ↦
            let (l, d) : Reserved c.messages (some ts) = subst (Reserved c.messages) n r in
            rw n (
              show_submitted-Good had id t ts c.session_switch_pending c.voice_operation_id
                c.snapshot g.bounded g.loading g.voice (l ∙ g.eight) d)
      ])

pub post_failed-Kept :
    (env : Env) (id : ℕ) (e : EspErr) (c : Controller) → Kept c → Kept (post_failed env id e c)
unfolding post_failed
post_failed-Kept env id e c g = elim (Option-cases (find_message c.messages id)) [
  | inl n ↦ rw (n, post_failed) g
  | inr (i, n) ↦
      let ts = set c.messages i free_track in
      let s = refresh_active ts c.snapshot in
      let message = strlcpy 256 (text "Submission failed: " ++ env.err_name e) in
      rw (n, post_failed)
        (with_transcript (update_assistant s.transcript id message false true)
          (refresh_active-Good ts c.session_switch_pending c.voice_operation_id c.snapshot g.bounded
            g.loading g.voice (length-set c.messages i free_track ∙ g.eight)
            (free-Distinct c.messages i g.distinct))
          (update_assistant-Bounded s.transcript id message false true))
]

pub cancel-Kept : (gateway : ℕ → EspErr) (c : Controller) → Kept c → Kept (cancel gateway c).1
unfolding cancel notify_changed
cancel-Kept gateway c g =
    if_cases (λ (r : EspErr × Controller × List Effect). Kept r.1)
      (not c.snapshot.active || c.snapshot.request_id == 0) (λ _. g) (λ _. g)

pub abort_view-Kept : (c : Controller) → Kept c → Kept (abort_view c)
unfolding abort_view cancel_session_switch clear_notice refresh_active find_index
abort_view-Kept c g = elim (Bool-cases (length (requests c.messages) == 0)) [
  | inl z ↦ rw z (record {
    eight = g.eight;
    distinct = g.distinct;
    shown = g.shown;
    bounded = g.bounded;
    loading = refl;
    voice = refl;
  })
  | inr z ↦ rw z (
      free_Good
        (update_assistant c.snapshot.transcript (get_or (requests c.messages) 0 0)
          (text "Current task ended.") false false)
        false 0 0
        (update_assistant-Bounded c.snapshot.transcript (get_or (requests c.messages) 0 0)
          (text "Current task ended.") false false g.bounded)
        refl)
]
