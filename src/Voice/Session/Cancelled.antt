-- ===== src/Voice/Session/Cancelled.antt =====
-- The steps after a cancellation, and what they deliver.
use mathlib.Core.Path.{subst}
use mathlib.Core.Option.{some-injective}
use esp_mosaico_claw.Base.{
  ℕ, zero, suc, ◌+◌, ◌≤◌, ◌≡◌, refl, sym, ap, ◌∙◌, ◌≢◌, ◌⊎◌, inl, inr, Bool, true, false, not, ◌&&◌,
  Option, none, some, List, [], ◌∷◌, arith, ◌==◌, Ptr, Text, EspErr, get_elem?, All, Bool-cases,
  if_cases, All-append,
}
use esp_mosaico_claw.Voice.Port.{VoiceEvent, VoiceEventType}
use esp_mosaico_claw.Voice.Session.Queue.{Command, CommandType, CommandQueue}
use esp_mosaico_claw.Voice.Session.{
  Session, AsrEvent, Worker, waiting, closing, starting, finishing, stopping, emitting, emit_event,
  asr_event, close, register_cb, session_begin, session_finish, cancel_mark, post_front,
}
use esp_mosaico_claw.Voice.Session.System.{
  System, Label, begins, cancels, finishes, registers, shuts_down, posts, reports, works,
  start_returns, stop_returns, remove_at, with_pending, resting, dispatch, work, start_return,
  stop_return, post, step, run,
}
use esp_mosaico_claw.Voice.Session.Place.{Holds, IsCoherent, asr_event_frame, asr_event_cleanup}
use esp_mosaico_claw.Voice.Session.Coherence.{step-IsCoherent}
use esp_mosaico_claw.Voice.Session.Cancellation.{
  is_begin, begun, under_way, Silent, NoBegin, IsCalm, Textless, Unsent, Marked, IsSingle,
  IsCancelled, begin_check_single, begin_done_single, finish_done_single, finish_check-Silent,
  frame, sent_begun, posted_begun, enqueue_kept,
}

module _ (op : ℕ) (one : 1 ≤ op) {Q : Type 0} (k : CommandQueue Q) where
  -- A stretch of the worker whose outcome is known.
  arrived :
      (s : System Q) (t : Session Q) (w : Worker) (e : Bool)
      → (under_way op t + begun op (k.items t.queue) ≤ 1) × Silent op w × Marked op k t
      → IsCancelled op k s
      → IsCancelled op k (record { session = t; worker = w; pending = s.pending; ending = e })
  arrived s t w e (n, q, m) v = record {
    single = record { once = n; silent = q; posts_no_begin = v.single.posts_no_begin };
    marked = m;
  }

  resting-Silent : (b : Bool) → Silent op (resting b)
  resting-Silent true = tt
  resting-Silent false = tt

  close-Silent : (t : Session Q) → Silent op (close t)
  unfolding close
  close-Silent t = if_cases (Silent op) t.active (λ _. tt) (λ _. tt)

  -- The dispatch of a command that has just been taken from the queue.
  dispatch_kept :
      (kind : CommandType) (c : Command) (s : System Q) (q : Q)
      → c.kind ≡ kind
      → k.items s.session.queue ≡ c ∷ k.items q
      → IsCancelled op k s
      → IsCancelled op k
          (dispatch k kind (record s { session = record (s.session) { queue = q } }) c)
  unfolding dispatch
  dispatch_kept CommandType.begin c s q b n v =
      let o : under_way op s.session + begun op (k.items s.session.queue) ≤ 1 = v.single.once in
      let x : begun op (k.items s.session.queue) ≡ begun op (c ∷ k.items q) = ap (begun op) n in
      arrived s _ _ s.ending
        (begin_check_single op k (record (s.session) { queue = q }) c one (ap is_begin b)
          (omega (arith, o, x))
          (elim v.marked [ inl m ↦ inl m | inr z ↦ inr (omega (arith, z, x)) ]))
        v
  dispatch_kept CommandType.finish c s q b n v =
      frame op k s _ _ s.pending s.ending refl refl
        (sym (ap (begun op) n ∙ ground (arith, ap is_begin b)))
        (finish_check-Silent op k (record (s.session) { queue = q }) c one (resting s.ending)
          (resting-Silent s.ending))
        v.single.posts_no_begin v
  dispatch_kept CommandType.cancel c s q b n v =
      frame op k s _ _ s.pending s.ending refl refl
        (sym (ap (begun op) n ∙ ground (arith, ap is_begin b)))
        (finish_check-Silent op k (record (s.session) { queue = q }) (record c { send = false }) one
          (resting s.ending) (resting-Silent s.ending))
        v.single.posts_no_begin v
  dispatch_kept CommandType.shutdown c s q b n v =
      frame op k s _ _ s.pending true refl refl
        (sym (ap (begun op) n ∙ ground (arith, ap is_begin b))) tt v.single.posts_no_begin v

  work_kept :
      (w : Worker) (s : System Q)
      → s.worker ≡ w
      → IsCancelled op k s
      → IsCancelled op k (work k w s).0
  unfolding work emit_event
  work_kept waiting s h v = elim (k.receive_items s.session.queue) [
    | inl (e, n) ↦ rw (e, work) v
    | inr (c, q, e, n) ↦ rw (e, work) (dispatch_kept c.kind c s q refl n v)
  ]
  work_kept closing s h v =
      frame op k s s.session _ s.pending s.ending refl refl refl (close-Silent s.session)
        v.single.posts_no_begin v
  work_kept (finishing c) s h v =
      frame op k s s.session _ s.pending s.ending refl refl refl
        (finish_check-Silent op k s.session c one (resting s.ending) (resting-Silent s.ending))
        v.single.posts_no_begin v
  work_kept (emitting kind id e send t) s h v =
      frame op k s (emit_event s.session kind id e send t).0 _ s.pending s.ending refl refl refl
        (resting-Silent s.ending) v.single.posts_no_begin v
  work_kept _ s h v = v

  start_kept :
      (w : Worker) (e : EspErr) (s : System Q)
      → Holds s.ending w s.session
      → IsCancelled op k s
      → IsCancelled op k (start_return k w e s)
  unfolding start_return
  start_kept (starting c) e s h v =
      arrived s _ _ s.ending (begin_done_single op k s.session c one e h.2 v.single.once v.marked) v
  start_kept _ e s h v = v

  stop_kept :
      (w : Worker) (e : EspErr) (t : Text) (s : System Q)
      → Holds s.ending w s.session
      → IsCancelled op k s
      → IsCancelled op k (stop_return k w e t s)
  unfolding stop_return
  stop_kept (stopping c cancelled send) e t s h v =
      arrived s _ _ s.ending
        (finish_done_single op k s.session c one cancelled send e t h.1 v.single.once v.marked) v
  stop_kept _ e t s h v = v

  cancel_kept : (s : System Q) → IsSingle op k s → IsCancelled op k (step k s (cancels op)).0
  unfolding step cancel_mark
  cancel_kept s v = elim (Bool-cases (op == 0)) [
    | inl z ↦ absurd (ground arith)
    | inr nz ↦ elim (Bool-cases (s.session.cancelled_operation_id == op)) [
      | inl z ↦ rw (nz, z, cancel_mark) (record { single = v; marked = inl (ground arith) })
      | inr d ↦
          rw (nz, d, cancel_mark)
            (record {
              single = record {
                once = v.once;
                silent = v.silent;
                posts_no_begin = All-append NoBegin s.pending _ v.posts_no_begin (refl, tt);
              };
              marked = inl refl;
            })
    ]
  ]

  All-get :
      (n : ℕ) (cs : List Command) (c : Command)
      → All NoBegin cs
      → get_elem? cs n ≡ some c
      → NoBegin c
  All-get n [] c a e = cc
  All-get zero (x ∷ cs) c a e = subst NoBegin (some-injective x c e) a.0
  All-get (suc n) (x ∷ cs) c a e = All-get n cs c a.1 e

  All-remove : (n : ℕ) (cs : List Command) → All NoBegin cs → All NoBegin (remove_at n cs)
  All-remove n [] a = a
  All-remove zero (c ∷ cs) a = a.1
  All-remove (suc n) (c ∷ cs) a = (a.0, All-remove n cs a.1)

  post_kept :
      (o : Option Command) (n : ℕ) (s : System Q)
      → get_elem? s.pending n ≡ o
      → IsCancelled op k s
      → IsCancelled op k (post k o n s)
  unfolding post post_front
  post_kept none n s e v = v
  post_kept (some c) n s e v =
      frame op k s _ s.worker _ s.ending refl refl
        (posted_begun op k c s.session.queue (All-get n s.pending c v.single.posts_no_begin e))
        v.single.silent (All-remove n s.pending v.single.posts_no_begin) v

  with_cleanup :
      (o : Option Command) (cs : List Command)
      → All NoBegin cs
      → ((c : Command) → o ≡ some c → NoBegin c)
      → All NoBegin (with_pending o cs)
  with_cleanup none cs a h = a
  with_cleanup (some c) cs a h = All-append NoBegin cs (c ∷ []) a (h c refl, tt)

  step_kept :
      (s : System Q) (l : Label)
      → IsCalm op l
      → IsCoherent k s
      → IsCancelled op k s
      → IsCancelled op k (step k s l).0
  unfolding step session_begin session_finish register_cb
  step_kept s (begins id) h w v =
      enqueue_kept op k s CommandType.begin id false (ground (arith, h)) v
  step_kept s (cancels id) h w v =
      subst (λ i. IsCancelled op k (step k s (cancels i)).0) (sym h) (cancel_kept s v.single)
  step_kept s (finishes id send) h w v = enqueue_kept op k s CommandType.finish id send refl v
  step_kept s (registers b) h w v =
      frame op k s _ s.worker s.pending s.ending refl refl refl v.single.silent
        v.single.posts_no_begin v
  step_kept s shuts_down h w v =
      frame op k s _ s.worker s.pending s.ending refl refl (sent_begun op k _ s.session.queue refl)
        v.single.silent v.single.posts_no_begin v
  step_kept s (posts n) h w v = post_kept (get_elem? s.pending n) n s refl v
  step_kept s (reports event e t) h w v =
      let (_, c, q, x) = asr_event_frame s.session event e t in
      frame op k s _ s.worker _ s.ending c x (ap (λ q'. begun op (k.items q')) q) v.single.silent
        (with_cleanup _ s.pending v.single.posts_no_begin
          (λ d g. ap is_begin (asr_event_cleanup s.session event e t d g).1))
        v
  step_kept s works h w v = work_kept s.worker s refl v
  step_kept s (start_returns e) h w v = start_kept s.worker e s w.place v
  step_kept s (stop_returns e t) h w v = stop_kept s.worker e t s w.place v

  emit-Unsent :
      (t : Session Q) (kind : VoiceEventType) (id : ℕ) (e : EspErr) (send : Bool) (txt : Ptr Text)
      → (id ≡ op → (send ≡ false) × Textless kind txt)
      → All (Unsent op) (emit_event t kind id e send txt).1
  unfolding emit_event
  emit-Unsent t kind id e send txt h =
      let quiet : (id ≢ op) ⊎ ((send ≡ false) × Textless kind txt) = elim (Bool-cases (id == op)) [
        | inl z ↦ inr (h (ground arith))
        | inr z ↦ inl (ground arith)
      ] in
      if_cases (All (Unsent op)) t.on_event (λ _. (quiet, tt)) (λ _. tt)

  abbrev Quiet : Session Q × List VoiceEvent × Option Command → Type 0
  Quiet x = All (Unsent op) x.1

  report-Unsent :
      (t : Session Q) (event : AsrEvent) (e : EspErr) (txt : Ptr Text)
      → All (Unsent op) (asr_event t event e txt).1
  unfolding asr_event
  report-Unsent t AsrEvent.asr_started e txt =
      if_cases Quiet (t.on_event && not (t.current_operation_id == 0))
        (λ _. emit-Unsent t VoiceEventType.started _ e false txt (λ _. (refl, tt))) (λ _. tt)
  report-Unsent t AsrEvent.asr_partial e txt =
      if_cases Quiet (t.on_event && not (t.current_operation_id == 0))
        (λ _. emit-Unsent t VoiceEventType.transcript _ e false txt (λ _. (refl, tt))) (λ _. tt)
  report-Unsent t AsrEvent.asr_final e txt =
      if_cases Quiet (t.on_event && not (t.current_operation_id == 0))
        (λ _. emit-Unsent t VoiceEventType.transcript _ e false txt (λ _. (refl, tt))) (λ _. tt)
  report-Unsent t AsrEvent.asr_error e txt =
      if_cases Quiet (t.on_event && not (t.current_operation_id == 0))
        (λ _.
          emit-Unsent (record t { error_forwarded = true }) VoiceEventType.failed _ e false txt
            (λ _. (refl, tt)))
        (λ _. tt)
  report-Unsent t AsrEvent.asr_stopped e txt =
      if_cases Quiet (t.on_event && not (t.current_operation_id == 0)) (λ _. tt) (λ _. tt)

  work-Unsent : (w : Worker) (s : System Q) → Silent op w → All (Unsent op) (work k w s).1
  unfolding work
  work-Unsent waiting s h = elim (k.receive_items s.session.queue) [
    | inl (e, n) ↦ rw (e, work) tt
    | inr (c, q, e, n) ↦ rw (e, work) tt
  ]
  work-Unsent (emitting kind id e send t) s h = emit-Unsent s.session kind id e send t h
  work-Unsent _ s h = tt

  step-Unsent : (s : System Q) (l : Label) → IsCancelled op k s → All (Unsent op) (step k s l).1
  unfolding step
  step-Unsent s (reports event e t) v = report-Unsent s.session event e t
  step-Unsent s works v = work-Unsent s.worker s v.single.silent
  step-Unsent s _ v = tt

  run-Unsent :
      (s : System Q) (ls : List Label)
      → All (IsCalm op) ls
      → IsCoherent k s
      → IsCancelled op k s
      → All (Unsent op) (run k s ls)
  unfolding run
  run-Unsent s [] h w v = tt
  run-Unsent s (l ∷ ls) h w v =
      All-append (Unsent op) (step k s l).1 (run k (step k s l).0 ls) (step-Unsent s l v)
        (run-Unsent (step k s l).0 ls h.1 (step-IsCoherent k s l w) (step_kept s l h.0 w v))

  -- Once an operation that was begun at most once, and whose text the worker is not just about to
  -- send, is cancelled, no later event of it asks for anything to be sent, and none that completes it
  -- has a text, however the tasks go on and whatever the recognition answers, as long as its number
  -- is not used again and no other operation is cancelled. What the recognition reports until it is
  -- stopped is still passed on, without the request to send.
  pub cancelled-Unsent :
      (s : System Q) (ls : List Label)
      → IsCoherent k s
      → IsSingle op k s
      → All (IsCalm op) ls
      → All (Unsent op) (run k s (cancels op ∷ ls))
  unfolding run step
  cancelled-Unsent s ls w v h = All-append (Unsent op) [] _ tt (
      run-Unsent (step k s (cancels op)).0 ls h (step-IsCoherent k s (cancels op) w)
        (cancel_kept s v))
