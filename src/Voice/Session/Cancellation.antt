-- ===== src/Voice/Session/Cancellation.antt =====
-- What is known of an operation around its cancellation, and how the stretches of the worker and the
-- calls on the queue keep it.
use esp_mosaico_claw.Base.{
  ℕ, ◌+◌, ◌≤◌, ◌≡◌, refl, ap, ◌∙◌, ◌≢◌, ◌⊎◌, inl, inr, Bool, true, false, not, ◌&&◌, List, [], ◌∷◌,
  ◌++◌, none, arith, if◌then◌else◌, ◌==◌, Ptr, Text, EspErr, All, is_ok, Bool-cases,
}
use esp_mosaico_claw.Voice.Port.{VoiceEventType, VoiceEvent}
use esp_mosaico_claw.Voice.Session.Queue.{Command, CommandType, CommandQueue}
use esp_mosaico_claw.Voice.Session.{
  Session, Worker, emitting, begin_check, begin_done, finish_check, finish_done, enqueue_command,
}
use esp_mosaico_claw.Voice.Session.System.{System, Label, begins, cancels}

abbrev pub is_begin : CommandType → Bool
is_begin CommandType.begin = true
is_begin _ = false

abbrev pub NoBegin : Command → Type 0
NoBegin c = is_begin c.kind ≡ false

-- An event of completion has no text; one that passes on a report of the recognition may have one.
abbrev pub Textless : VoiceEventType → Ptr Text → Type 0
Textless VoiceEventType.completed t = t ≡ none
Textless _ t = Unit {0}

module _ (op : ℕ) where
  -- How many commands to begin the operation are queued.
  abbrev pub begun : List Command → ℕ
  begun [] = 0
  begun (c ∷ cs) = (if is_begin c.kind && c.operation_id == op then 1 else 0) + begun cs

  abbrev pub under_way : {Q : Type 0} → Session Q → ℕ
  under_way t = if t.current_operation_id == op then 1 else 0

  -- The worker is not about to send the operation's text.
  abbrev pub Silent : Worker → Type 0
  Silent (emitting kind id e send t) = id ≡ op → (send ≡ false) × Textless kind t
  Silent _ = Unit {0}

  -- An event of another operation, or one that asks for nothing to be sent and, if it completes the
  -- operation, has no text.
  abbrev pub Unsent : VoiceEvent → Type 0
  Unsent e = (e.operation_id ≢ op) ⊎ ((e.send ≡ false) × Textless e.kind e.event_text)

  -- The steps of a run in which the operation's number is not used again and no other operation is
  -- cancelled.
  abbrev pub IsCalm : Label → Type 0
  IsCalm (begins id) = id ≢ op
  IsCalm (cancels id) = id ≡ op
  IsCalm _ = Unit {0}

  -- The mark of the cancellation stands, or the operation is over.
  abbrev pub Marked : {Q : Type 0} → CommandQueue Q → Session Q → Type 0
  Marked k t = (t.cancelled_operation_id ≡ op) ⊎ (under_way t + begun (k.items t.queue) ≡ 0)

  -- What is known of an operation that was begun at most once.
  pub record IsSingle {Q : Type 0} (k : CommandQueue Q) (s : System Q) : Type 0 where
    pub once : under_way s.session + begun (k.items s.session.queue) ≤ 1
    pub silent : Silent s.worker
    pub posts_no_begin : All NoBegin s.pending

  begun-append : (xs ys : List Command) → begun (xs ++ ys) ≡ begun xs + begun ys
  begun-append [] ys = omega arith
  begun-append (x ∷ xs) ys = omega (arith, begun-append xs ys)

  -- The stretches of the worker.
  module _ {Q : Type 0} (k : CommandQueue Q) (t : Session Q) (c : Command) (one : 1 ≤ op) where
    pub begin_check_single :
        is_begin c.kind ≡ true
        → under_way t + begun (c ∷ k.items t.queue) ≤ 1
        → (t.cancelled_operation_id ≡ op) ⊎ (under_way t + begun (c ∷ k.items t.queue) ≡ 0)
        → let (w, t') = begin_check t c in
          (under_way t' + begun (k.items t'.queue) ≤ 1) × Silent w × Marked k t'
    unfolding begin_check
    begin_check_single b u m = elim (Bool-cases (t.cancelled_operation_id == c.operation_id)) [
      | inl p ↦ rw (p, begin_check) (ground arith, λ _. (refl, refl), inr (ground arith))
      | inr p ↦ elim (Bool-cases (t.current_operation_id == 0)) [
        | inl q ↦
            rw (p, q, begin_check)
              (ground arith, tt, elim m [ inl e ↦ inl e | inr z ↦ inr (ground arith) ])
        | inr q ↦
            rw (p, q, begin_check)
              (ground arith, λ _. (refl, tt), elim m [ inl e ↦ inl e | inr z ↦ inr (ground arith) ])
      ]
    ]

    pub begin_done_single :
        (err : EspErr)
        → t.current_operation_id ≡ c.operation_id
        → under_way t + begun (k.items t.queue) ≤ 1
        → Marked k t
        → let (w, t') = begin_done t c err in
          (under_way t' + begun (k.items t'.queue) ≤ 1) × Silent w × Marked k t'
    unfolding begin_done
    begin_done_single err cur u m = elim (Bool-cases (is_ok err)) [
      | inl p ↦ rw (p, begin_done) (u, tt, m)
      | inr p ↦
          elim (Bool-cases
            (not t.error_forwarded && not (t.cancelled_operation_id == c.operation_id))) [
              | inl q ↦
                  rw (p, q, begin_done)
                    (
                      ground arith,
                      λ _. (refl, tt),
                      (elim m [
                        | inl e ↦ elim (Bool-cases (t.cancelled_operation_id == c.operation_id)) [
                          | inl z ↦ inr (ground arith)
                          | inr z ↦ inl (rw z e)
                        ]
                        | inr n ↦ inr (ground arith)
                      ]),
                    )
              | inr q ↦
                  rw (p, q, begin_done)
                    (
                      ground arith,
                      tt,
                      (elim m [
                        | inl e ↦ elim (Bool-cases (t.cancelled_operation_id == c.operation_id)) [
                          | inl z ↦ inr (ground arith)
                          | inr z ↦ inl (rw z e)
                        ]
                        | inr n ↦ inr (ground arith)
                      ]),
                    )
            ]
    ]

    pub finish_done_single :
        (cancelled send : Bool) (err : EspErr) (txt : Text)
        → t.current_operation_id ≡ c.operation_id
        → under_way t + begun (k.items t.queue) ≤ 1
        → Marked k t
        → let (w, t') = finish_done t c cancelled send err txt in
          (under_way t' + begun (k.items t'.queue) ≤ 1) × Silent w × Marked k t'
    unfolding finish_done
    finish_done_single cancelled send err txt cur u m = (
      ground arith,
      (λ e. (ground arith, ground arith)),
      (elim m [
        | inl e ↦ elim (Bool-cases (t.cancelled_operation_id == c.operation_id)) [
          | inl z ↦ inr (ground arith)
          | inr z ↦ inl (rw z e)
        ]
        | inr n ↦ inr (ground arith)
      ]),
    )

    pub finish_check-Silent : (rest : Worker) → Silent rest → Silent (finish_check t c rest)
    unfolding finish_check
    finish_check-Silent rest h =
        elim (Bool-cases (t.active && t.current_operation_id == c.operation_id)) [
          | inl p ↦ rw (p, finish_check) tt
          | inr p ↦ rw (p, finish_check) h
        ]

  -- What is known of an operation after its cancellation.
  pub record IsCancelled {Q : Type 0} (k : CommandQueue Q) (s : System Q) : Type 0 where
    pub single : IsSingle k s
    pub marked : Marked k s.session

  module _ {Q : Type 0} (k : CommandQueue Q) where
    pub frame :
        (s : System Q) (t : Session Q) (w : Worker) (cs : List Command) (e : Bool)
        → t.current_operation_id ≡ s.session.current_operation_id
        → t.cancelled_operation_id ≡ s.session.cancelled_operation_id
        → begun (k.items t.queue) ≡ begun (k.items s.session.queue)
        → Silent w
        → All NoBegin cs
        → IsCancelled k s
        → IsCancelled k (record { session = t; worker = w; pending = cs; ending = e })
    frame s t w cs e cur can n q p v =
        let o : under_way s.session + begun (k.items s.session.queue) ≤ 1 = v.single.once in
        let same : under_way t + begun (k.items t.queue)
            ≡ under_way s.session + begun (k.items s.session.queue) =
          ground (arith, cur, n) in
        record {
          single = record { once = omega (arith, o, same); silent = q; posts_no_begin = p };
          marked = elim v.marked [ inl m ↦ inl (can ∙ m) | inr z ↦ inr (same ∙ z) ];
        }

    pub sent_begun :
        (c : Command) (q : Q)
        → (is_begin c.kind && c.operation_id == op) ≡ false
        → begun (k.items (k.send c q).1) ≡ begun (k.items q)
    sent_begun c q h = elim (k.send_items c q) [
      | inl (_, e) ↦ ap begun e ∙ begun-append (k.items q) (c ∷ []) ∙ ground (arith, h)
      | inr (_, e) ↦ ap begun e
    ]

    pub posted_begun :
        (c : Command) (q : Q) → NoBegin c → begun (k.items (k.send_front c q).1) ≡ begun (k.items q)
    posted_begun c q h = elim (k.send_front_items c q) [
      | inl (_, e) ↦ ap begun e ∙ ground (arith, h)
      | inr (_, e) ↦ ap begun e
    ]

    pub enqueue_kept :
        (s : System Q) (kind : CommandType) (id : ℕ) (send : Bool)
        → (is_begin kind && id == op) ≡ false
        → IsCancelled k s
        → IsCancelled k (record s { session = (enqueue_command k s.session kind id send).1 })
    unfolding enqueue_command
    enqueue_kept s kind id send h v = elim (Bool-cases (id == 0)) [
      | inl z ↦ rw (z, enqueue_command) v
      | inr z ↦
          rw (z, enqueue_command)
            (frame s _ s.worker s.pending s.ending refl refl (sent_begun _ s.session.queue h)
              v.single.silent v.single.posts_no_begin v)
    ]
