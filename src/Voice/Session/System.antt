-- ===== src/Voice/Session/System.antt =====
-- The tasks around one session, interleaved: clients, the recognition and the worker take one
-- stretch under the lock at a time, in any order. A step that is not enabled changes nothing.
use esp_mosaico_claw.Base.{
  ℕ, zero, suc, Bool, true, false, Option, none, some, List, [], ◌∷◌, ◌++◌, Ptr, Text, EspErr,
  get_elem?,
}
use esp_mosaico_claw.Voice.Port.{VoiceEvent}
use esp_mosaico_claw.Voice.Session.Queue.{Command, CommandType, CommandQueue}
use esp_mosaico_claw.Voice.Session.{
  Session, AsrEvent, Worker, waiting, stopped, closing, starting, finishing, stopping, emitting,
  emit_event, asr_event, begin_check, begin_done, finish_check, finish_done, close, register_cb,
  session_begin, session_finish, cancel_mark, post_front,
}

-- The session, where the worker stands, the commands that other tasks are about to put before the
-- queue's others, and whether the worker has received the order to shut down.
pub record System (Q : Type 0) : Type 0 where
  pub session : Session Q
  pub worker : Worker
  pub pending : List Command
  pub ending : Bool

pub data Label : Type 0 where
  -- Calls of clients.
  begins cancels : ℕ → Label
  finishes : ℕ → Bool → Label
  registers : Bool → Label
  -- The deletion of the session, which has taken the callback away, orders the worker to end.
  shuts_down : Label
  -- The task of the n-th pending command posts it.
  posts : ℕ → Label
  -- A report of the recognition.
  reports : AsrEvent → EspErr → Ptr Text → Label
  -- The worker goes on; a call of the recognition that it waits for returns.
  works : Label
  start_returns : EspErr → Label
  stop_returns : EspErr → Text → Label

abbrev pub remove_at : ℕ → List Command → List Command
remove_at n [] = []
remove_at zero (c ∷ cs) = cs
remove_at (suc n) (c ∷ cs) = c ∷ remove_at n cs

abbrev pub with_pending : Option Command → List Command → List Command
with_pending none cs = cs
with_pending (some c) cs = cs ++ c ∷ []

-- Where the worker goes between two commands.
abbrev pub resting : Bool → Worker
resting true = stopped
resting false = waiting

module _ {Q : Type 0} (k : CommandQueue Q) where
  abbrev with_session : System Q → Session Q → System Q
  with_session s t = record s { session = t }

  -- The command that the worker has received.
  unfoldable pub dispatch : CommandType → System Q → Command → System Q
  dispatch CommandType.begin s c =
      let (w, t) = begin_check s.session c in record s { session = t; worker = w }
  dispatch CommandType.finish s c = record s {
    worker = finish_check s.session c (resting s.ending);
  }
  dispatch CommandType.cancel s c = record s {
    worker = finish_check s.session (record c { send = false }) (resting s.ending);
  }
  dispatch CommandType.shutdown s c = record s { worker = closing; ending = true }

  unfoldable pub work : Worker → System Q → System Q × List VoiceEvent
  unfolding dispatch
  work waiting s = elim (k.receive s.session.queue) [
    | none ↦ (s, [])
    | some (c, q) ↦ (dispatch c.kind (with_session s (record (s.session) { queue = q })) c, [])
  ]
  work stopped s = (s, [])
  work closing s = (record s { worker = close s.session }, [])
  work (starting c) s = (s, [])
  work (finishing c) s = (record s { worker = finish_check s.session c (resting s.ending) }, [])
  work (stopping c cancelled send) s = (s, [])
  work (emitting kind id e send t) s =
      let (s', events) = emit_event s.session kind id e send t in
      (record s { session = s'; worker = resting s.ending }, events)

  unfoldable pub start_return : Worker → EspErr → System Q → System Q
  start_return (starting c) e s =
      let (w, t) = begin_done s.session c e in record s { session = t; worker = w }
  start_return _ e s = s

  unfoldable pub stop_return : Worker → EspErr → Text → System Q → System Q
  stop_return (stopping c cancelled send) e t s =
      let (w, s') = finish_done s.session c cancelled send e t in
      record s { session = s'; worker = w }
  stop_return _ e t s = s

  unfoldable pub post : Option Command → ℕ → System Q → System Q
  post none n s = s
  post (some c) n s = record s {
    session = (post_front k s.session c).1;
    pending = remove_at n s.pending;
  }

  abbrev shutdown_command : Command
  shutdown_command = record { kind = CommandType.shutdown; operation_id = 0; send = false }

  unfoldable pub step : System Q → Label → System Q × List VoiceEvent
  step s (begins id) = (with_session s (session_begin k s.session id).1, [])
  step s (finishes id send) = (with_session s (session_finish k s.session id send).1, [])
  step s (cancels id) =
      let (answer, t, c) = cancel_mark k s.session id in
      (record s { session = t; pending = with_pending c s.pending }, [])
  step s (registers callback) = (with_session s (register_cb s.session callback), [])
  step s shuts_down = (
    with_session s (record (s.session) { queue = (k.send shutdown_command s.session.queue).1 }),
    [],
  )
  step s (posts n) = (post (get_elem? s.pending n) n s, [])
  step s (reports event e t) =
      let (s', events, cleanup) = asr_event s.session event e t in
      (record s { session = s'; pending = with_pending cleanup s.pending }, events)
  step s works = work s.worker s
  step s (start_returns e) = (start_return s.worker e s, [])
  step s (stop_returns e t) = (stop_return s.worker e t s, [])

  -- The events of a row of steps, in order.
  unfoldable pub run : System Q → List Label → List VoiceEvent
  run s [] = []
  run s (l ∷ ls) = let (s', events) = step s l in events ++ run s' ls

  unfoldable pub after : System Q → List Label → System Q
  after s [] = s
  after s (l ∷ ls) = after (step s l).0 ls
