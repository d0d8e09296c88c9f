-- ===== src/Voice/Session.antt =====
-- components/mosaic_ui/common/ai_create_voice_session.c: one worker task that starts and stops the
-- speech recognition on the commands of a queue, while clients cancel and the recognition reports
-- from other tasks. Each function below is one stretch under the session's lock; `System` puts them
-- in an order. The queue of the kernel is a parameter, and what the recognition returns is an input.
pub mod Queue
pub mod System
pub mod Place
pub mod Coherence
pub mod Cancellation
pub mod Cancelled
mod Tests
use esp_mosaico_claw.Base.{
  ℕ, Bool, true, false, not, ◌&&◌, ◌||◌, Option, none, some, List, [], ◌∷◌, if◌then◌else◌, ◌==◌,
  Ptr, Text, EspErr, ok, invalid_arg, invalid_state, invalid_size, not_found, not_supported,
  timeout, is_ok,
}
use esp_mosaico_claw.Voice.Port.{Readiness, VoiceStatus, VoiceEventType, VoiceEvent, status_ready}
use Queue.{Command, CommandType, CommandQueue}

-- `ai_create_voice_session_t`, with whether a callback is registered in place of the callback.
pub record Session (Q : Type 0) : Type 0 where
  pub queue : Q
  pub on_event : Bool
  pub status : VoiceStatus
  pub current_operation_id : ℕ
  pub cancelled_operation_id : ℕ
  pub active : Bool
  pub error_forwarded : Bool

abbrev status_of : Readiness → EspErr → Bool → VoiceStatus
status_of r e retry = record { readiness = r; error = e; retryable = retry }

unfoldable pub status_from_error : EspErr → VoiceStatus
unfolding status_ready
status_from_error ok = status_ready
status_from_error timeout = status_of Readiness.offline timeout true
status_from_error invalid_state = status_of Readiness.provider_error invalid_state true
status_from_error invalid_size = status_of Readiness.audio_error invalid_size true
status_from_error not_found = status_of Readiness.ready not_found true
status_from_error invalid_arg = status_of Readiness.provider_error invalid_arg false
status_from_error not_supported = status_of Readiness.provider_error not_supported false
status_from_error e = status_of Readiness.provider_error e true

-- `asr_service_event_t`.
pub data AsrEvent : Type 0 where
  asr_started asr_partial asr_final asr_error asr_stopped : AsrEvent

abbrev pub is_asr_error : AsrEvent → Bool
is_asr_error AsrEvent.asr_error = true
is_asr_error _ = false

-- The event that is forwarded for a report of the recognition, if any is.
abbrev pub forwarded : AsrEvent → Option VoiceEventType
forwarded AsrEvent.asr_started = some VoiceEventType.started
forwarded AsrEvent.asr_partial = some VoiceEventType.transcript
forwarded AsrEvent.asr_final = some VoiceEventType.transcript
forwarded AsrEvent.asr_error = some VoiceEventType.failed
forwarded AsrEvent.asr_stopped = none

-- Where the worker stands: what it does next is to run this stretch, or to wait for a call that it
-- has made.
pub data Worker : Type 0 where
  waiting stopped closing : Worker
  starting finishing : Command → Worker
  -- The command, and whether its operation was cancelled and whether its text is wanted when the
  -- stop was called.
  stopping : Command → Bool → Bool → Worker
  emitting : VoiceEventType → ℕ → EspErr → Bool → Ptr Text → Worker

module _ {Q : Type 0} where
  pub emit_event :
      Session Q → VoiceEventType → ℕ → EspErr → Bool → Ptr Text → Session Q × List VoiceEvent
  emit_event s kind id error send t =
      let s' : Session Q = record s { status = status_from_error error } in
      let e : VoiceEvent = record {
        kind = kind;
        operation_id = id;
        status = status_from_error error;
        send = send;
        event_text = t;
      } in
      (s', if s.on_event then e ∷ [] else [])

  -- The report of the recognition under the lock, the events that it emits, and the command that is
  -- put before the queue's others once the lock is released.
  pub asr_event :
      Session Q → AsrEvent → EspErr → Ptr Text → Session Q × List VoiceEvent × Option Command
  unfolding emit_event
  asr_event s event error t =
      let id : ℕ = s.current_operation_id in
      let s' : Session Q = if is_asr_error event then record s { error_forwarded = true } else s in
      let cleanup : Option Command =
        if is_asr_error event && not (id == 0)
        then some (record { kind = CommandType.finish; operation_id = id; send = false })
        else none in
      let sent : Session Q × List VoiceEvent = elim (forwarded event) [
        | none ↦ (s', [])
        | some kind ↦ emit_event s' kind id error false t
      ] in
      if s'.on_event && not (id == 0) then (sent.0, sent.1, cleanup) else (s', [], cleanup)

  -- `process_begin`, up to its call of `asr_service_start`.
  pub begin_check : Session Q → Command → Worker × Session Q
  begin_check s c =
      let id : ℕ = c.operation_id in
      if s.cancelled_operation_id == id
      then (
        emitting VoiceEventType.completed id ok false none,
        record s { cancelled_operation_id = 0 },
      )
      else if not (s.current_operation_id == 0)
      then (emitting VoiceEventType.failed id invalid_state false none, s)
      else (starting c, record s { current_operation_id = id; error_forwarded = false })

  -- `process_begin` from the return of `asr_service_start` on.
  pub begin_done : Session Q → Command → EspErr → Worker × Session Q
  begin_done s c err =
      let id : ℕ = c.operation_id in
      let cancelled : Bool = s.cancelled_operation_id == id in
      if is_ok err then (waiting, record s { active = true }) else (
        if not s.error_forwarded && not cancelled
            then emitting VoiceEventType.failed id err false none
            else waiting,
        record s {
          current_operation_id = 0;
          active = false;
          cancelled_operation_id = if cancelled then 0 else s.cancelled_operation_id;
        },
      )

  -- `process_finish` up to its call of `asr_service_stop`; `rest` is where the worker goes when the
  -- command is not for the operation under way.
  pub finish_check : Session Q → Command → Worker → Worker
  finish_check s c rest =
      let cancelled : Bool = s.cancelled_operation_id == c.operation_id in
      if s.active && s.current_operation_id == c.operation_id
      then stopping c cancelled (c.send && not cancelled)
      else rest

  -- `process_finish` from the return of `asr_service_stop`, which has written `t`, on.
  pub finish_done : Session Q → Command → Bool → Bool → EspErr → Text → Worker × Session Q
  finish_done s c cancelled send err t =
      let id : ℕ = c.operation_id in
      let send' : Bool = send && not (cancelled || s.cancelled_operation_id == id) in
      (
        emitting VoiceEventType.completed id err send' (if send' then some t else none),
        record s {
          current_operation_id = if s.current_operation_id == id then 0 else s.current_operation_id;
          active = if s.current_operation_id == id then false else s.active;
          cancelled_operation_id =
              if s.cancelled_operation_id == id then 0 else s.cancelled_operation_id;
        },
      )

  -- The end of the worker: what is under way is finished first.
  pub close : Session Q → Worker
  close s =
      if s.active
      then finishing (record {
        kind = CommandType.finish;
        operation_id = s.current_operation_id;
        send = false;
      })
      else stopped

  pub register_cb : Session Q → Bool → Session Q
  register_cb s callback = record s { on_event = callback }

module _ {Q : Type 0} (k : CommandQueue Q) where
  pub enqueue_command : Session Q → CommandType → ℕ → Bool → EspErr × Session Q
  enqueue_command s kind id send =
      if id == 0
      then (invalid_arg, s)
      else let c : Command = record { kind = kind; operation_id = id; send = send } in
        let (sent, q) = k.send c s.queue in (if sent then ok else timeout, record s { queue = q })

  pub session_begin : Session Q → ℕ → EspErr × Session Q
  unfolding enqueue_command
  session_begin s id = enqueue_command s CommandType.begin id false

  pub session_finish : Session Q → ℕ → Bool → EspErr × Session Q
  unfolding enqueue_command
  session_finish s id send = enqueue_command s CommandType.finish id send

  -- `session_cancel` under the lock: the answer, if the call ends there, and else the command that
  -- is put before the queue's others once the lock is released.
  pub cancel_mark : Session Q → ℕ → Option EspErr × Session Q × Option Command
  cancel_mark s id =
      if id == 0
      then (some invalid_arg, s, none)
      else if s.cancelled_operation_id == id
      then (some ok, s, none)
      else (
        none,
        record s { cancelled_operation_id = id },
        some (record { kind = CommandType.cancel; operation_id = id; send = false }),
      )

  -- `xQueueSendToFront`, at the end of a cancellation and after a report of an error.
  pub post_front : Session Q → Command → EspErr × Session Q
  post_front s c =
      let (sent, q) = k.send_front c s.queue in
      (if sent then ok else timeout, record s { queue = q })
