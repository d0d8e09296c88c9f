-- ===== src/Voice/Session/Tests.antt =====
-- Tests of the voice session, and its theorems at a concrete queue.
use esp_mosaico_claw.Base.{
  All, arith, ◌⊎◌, Option, ℕ, ◌≡◌, refl, inl, inr, Bool, true, false, none, some, List, [], ◌∷◌,
  ◌++◌, text, ok,
}
use esp_mosaico_claw.Voice.Port.{VoiceEvent, VoiceEventType, Readiness}
use esp_mosaico_claw.Voice.Session.Queue.{Command, CommandType, CommandQueue}
use esp_mosaico_claw.Voice.Session.{
  AsrEvent, waiting, begin_check, begin_done, finish_check, finish_done, emit_event, asr_event,
  enqueue_command, session_begin, session_finish, cancel_mark, post_front,
}
use esp_mosaico_claw.Voice.Session.System.{
  System, Label, begins, cancels, finishes, posts, reports, works, start_returns, stop_returns,
  dispatch, work, start_return, stop_return, post, step, run, after,
}
use esp_mosaico_claw.Voice.Session.Place.{IsCoherent}
use esp_mosaico_claw.Voice.Session.Cancellation.{IsSingle, Unsent}
use esp_mosaico_claw.Voice.Session.Cancelled.{cancelled-Unsent}
use esp_mosaico_claw.Voice.Session.Coherence.{step-IsCoherent, after-IsCoherent}

abbrev front : List Command → Option (Command × List Command)
front [] = none
front (c ∷ cs) = some (c, cs)

front_items :
    (q : List Command)
    → ((front q ≡ none) × (q ≡ []))
      ⊎ ((c : Command) × (q' : List Command) × (front q ≡ some (c, q')) × (q ≡ c ∷ q'))
front_items [] = inl (refl, refl)
front_items (c ∷ cs) = inr (c, cs, refl, refl)

-- A queue without a bound.
abbrev lists : CommandQueue (List Command)
lists = record {
  send = λ c q. (true, q ++ c ∷ []);
  send_front = λ c q. (true, c ∷ q);
  receive = front;
  items = λ q. q;
  send_items = λ c q. inl (refl, refl);
  send_front_items = λ c q. inl (refl, refl);
  receive_items = front_items;
}

abbrev idle : System (List Command)
idle = record {
  session = record {
    queue = [];
    on_event = true;
    status = record { readiness = Readiness.ready; error = ok; retryable = true };
    current_operation_id = 0;
    cancelled_operation_id = 0;
    active = false;
    error_forwarded = false;
  };
  worker = waiting;
  pending = [];
  ending = false;
}

idle-IsCoherent : IsCoherent lists idle
idle-IsCoherent = record {
  place = (refl, ((λ e. absurd cc), λ e. refl));
  queued = tt;
  waiting_posts = tt;
}

abbrev spoken : List Label
spoken =
    begins 1
    ∷ works
    ∷ start_returns ok
    ∷ reports AsrEvent.asr_started ok none
    ∷ finishes 1 true
    ∷ works
    ∷ stop_returns ok (text "hello")
    ∷ works
    ∷ []

-- The same, cancelled between the command to finish and the worker's receiving of it.
abbrev taken_back : List Label
taken_back =
    begins 1
    ∷ works
    ∷ start_returns ok
    ∷ finishes 1 true
    ∷ cancels 1
    ∷ posts 0
    ∷ works
    ∷ stop_returns ok (text "hello")
    ∷ works
    ∷ works
    ∷ []

abbrev summary : List VoiceEvent → List (VoiceEventType × ℕ × Bool)
summary [] = []
summary (e ∷ es) = (e.kind, e.operation_id, e.send) ∷ summary es

spoken_events :
    summary (run lists idle spoken)
    ≡ (VoiceEventType.started, 1, false) ∷ (VoiceEventType.completed, 1, true) ∷ []
unfolding run step begin_check begin_done finish_check finish_done session_begin session_finish work
    dispatch asr_event start_return stop_return emit_event enqueue_command
spoken_events = refl

taken_back_events : summary (run lists idle taken_back) ≡ (VoiceEventType.completed, 1, false) ∷ []
unfolding run step begin_check begin_done finish_check finish_done session_begin session_finish work
    dispatch start_return stop_return emit_event enqueue_command cancel_mark post post_front
taken_back_events = refl

step-IsCoherent_example : IsCoherent lists (step lists idle (begins 1)).0
step-IsCoherent_example = step-IsCoherent lists idle (begins 1) idle-IsCoherent

after-IsCoherent_example : IsCoherent lists (after lists idle taken_back)
after-IsCoherent_example = after-IsCoherent lists idle taken_back idle-IsCoherent

-- The recognition runs for operation 1, and the command to finish it with its text is queued.
abbrev speaking : System (List Command)
speaking = record {
  session = record {
    queue = record { kind = CommandType.finish; operation_id = 1; send = true } ∷ [];
    on_event = true;
    status = record { readiness = Readiness.ready; error = ok; retryable = true };
    current_operation_id = 1;
    cancelled_operation_id = 0;
    active = true;
    error_forwarded = false;
  };
  worker = waiting;
  pending = [];
  ending = false;
}

speaking-IsCoherent : IsCoherent lists speaking
speaking-IsCoherent = record {
  place = (refl, ((λ e. omega arith), λ e. absurd cc));
  queued = (inr (omega arith), tt);
  waiting_posts = tt;
}

speaking-IsSingle : IsSingle 1 lists speaking
speaking-IsSingle = record { once = omega arith; silent = tt; posts_no_begin = tt }

cancelled-Unsent_example : All (Unsent 1) (
    run lists speaking
      (cancels 1 ∷ posts 0 ∷ works ∷ stop_returns ok (text "hello") ∷ works ∷ works ∷ []))
cancelled-Unsent_example =
    cancelled-Unsent 1 (omega arith) lists speaking
      (posts 0 ∷ works ∷ stop_returns ok (text "hello") ∷ works ∷ works ∷ []) speaking-IsCoherent
      speaking-IsSingle (tt, (tt, (tt, (tt, (tt, tt)))))
