-- ===== src/Voice/Session/Coherence.antt =====
-- What holds of the worker and the session between any two stretches.
use esp_mosaico_claw.Base.{
  ℕ, ◌≤◌, ◌≡◌, refl, ◌⊎◌, inl, inr, Bool, true, false, Option, none, some, List, [], ◌∷◌, arith,
  ◌==◌, Text, EspErr, get_elem?, All, All-append, Bool-cases,
}
use mathlib.Core.Path.{subst, sym}
use esp_mosaico_claw.Voice.Session.Queue.{Command, CommandType, CommandQueue}
use esp_mosaico_claw.Voice.Session.{
  Session, Worker, waiting, stopped, closing, starting, finishing, stopping, emitting, emit_event,
  begin_check, begin_done, finish_check, finish_done, close, register_cb, enqueue_command,
  session_begin, session_finish, cancel_mark, post_front,
}
use esp_mosaico_claw.Voice.Session.System.{
  System, Label, begins, cancels, finishes, registers, shuts_down, posts, reports, works,
  start_returns, stop_returns, resting, dispatch, work, start_return, stop_return, post, step,
  after,
}
use esp_mosaico_claw.Voice.Session.Place.{
  Balanced, Holds, Numbered, IsCoherent, Holds-frame, All-remove_at, All-get_elem?,
  All-with_pending, begin_check-Holds, begin_done-Holds, finish_check-Holds, finishing-Holds,
  finish_done-Holds, begin_done_queue, close-Holds, asr_event_frame, asr_event_cleanup,
}

module _ {Q : Type 0} (k : CommandQueue Q) where
  resting-Holds :
      (e : Bool) (t : Session Q)
      → Balanced t
      → (e ≡ true → t.active ≡ false)
      → Holds e (resting e) t
  resting-Holds true t b h = (refl, h refl, b.1 (h refl))
  resting-Holds false t b h = (refl, b)

  dispatch-Holds :
      (kind : CommandType) (s : System Q) (c : Command)
      → Holds s.ending waiting s.session
      → (kind ≡ CommandType.shutdown) ⊎ (1 ≤ c.operation_id)
      → let s' = dispatch k kind s c in Holds s'.ending s'.worker s'.session
  unfolding dispatch
  dispatch-Holds CommandType.begin s c h n =
      subst (λ e. Holds e (begin_check s.session c).0 (begin_check s.session c).1) (sym h.0)
        (begin_check-Holds s.session c h.1 (ground arith))
  dispatch-Holds CommandType.finish s c h n =
      rw h.0 (finish_check-Holds s.session c false h.1 refl (ground arith))
  dispatch-Holds CommandType.cancel s c h n =
      rw h.0
        (finish_check-Holds s.session (record c { send = false }) false h.1 refl (ground arith))
  dispatch-Holds CommandType.shutdown s c h n = (refl, h.1)

  -- The order in which a dispatch leaves the rest alone.
  dispatch_queue :
      (kind : CommandType) (s : System Q) (c : Command)
      → ((dispatch k kind s c).session.queue ≡ s.session.queue)
        × ((dispatch k kind s c).pending ≡ s.pending)
  unfolding dispatch begin_check
  dispatch_queue CommandType.begin s c = ground arith
  dispatch_queue _ s c = (refl, refl)

  work-IsCoherent :
      (w : Worker) (s : System Q)
      → Holds s.ending w s.session
      → IsCoherent k s
      → IsCoherent k (work k w s).0
  unfolding work emit_event
  work-IsCoherent waiting s h v = elim (k.receive_items s.session.queue) [
    | inl (e, n) ↦ rw (e, work) v
    | inr (c, q, e, n) ↦
        let all : Numbered c × All Numbered (k.items q) = subst (All Numbered) n v.queued in
        let s' : System Q = record s { session = record (s.session) { queue = q } } in
        rw (e, work)
          (record {
            place = dispatch-Holds c.kind s' c h all.0;
            queued =
                subst (λ q'. All Numbered (k.items q')) (sym (dispatch_queue c.kind s' c).0) all.1;
            waiting_posts =
                subst (All Numbered) (sym (dispatch_queue c.kind s' c).1) v.waiting_posts;
          })
  ]
  work-IsCoherent stopped s h v = v
  work-IsCoherent closing s h v = record {
    place =
        subst (λ e. Holds e (close s.session) s.session) (sym h.0)
          (close-Holds s.session (refl, h.1));
    queued = v.queued;
    waiting_posts = v.waiting_posts;
  }
  work-IsCoherent (starting c) s h v = v
  work-IsCoherent (finishing c) s h v = record {
    place =
        subst (λ e. Holds e (finish_check s.session c (resting e)) s.session) (sym h.0)
          (finishing-Holds s.session c (refl, h.1, h.2, h.3));
    queued = v.queued;
    waiting_posts = v.waiting_posts;
  }
  work-IsCoherent (stopping c cancelled send) s h v = v
  work-IsCoherent (emitting kind id e send txt) s h v = record {
    place = resting-Holds s.ending (emit_event s.session kind id e send txt).0 h.1 h.2;
    queued = v.queued;
    waiting_posts = v.waiting_posts;
  }

  start_return-IsCoherent :
      (w : Worker) (e : EspErr) (s : System Q)
      → Holds s.ending w s.session
      → IsCoherent k s
      → IsCoherent k (start_return k w e s)
  unfolding start_return
  start_return-IsCoherent (starting c) e s h v = record {
    place =
        subst (λ b. Holds b (begin_done s.session c e).0 (begin_done s.session c e).1) (sym h.0)
          (begin_done-Holds s.session c e (refl, h.1, h.2, h.3));
    queued = subst (λ q. All Numbered (k.items q)) (sym (begin_done_queue s.session c e)) v.queued;
    waiting_posts = v.waiting_posts;
  }
  start_return-IsCoherent _ e s h v = v

  stop_return-IsCoherent :
      (w : Worker) (e : EspErr) (t : Text) (s : System Q)
      → Holds s.ending w s.session
      → IsCoherent k s
      → IsCoherent k (stop_return k w e t s)
  unfolding stop_return
  stop_return-IsCoherent (stopping c cancelled send) e t s h v = record {
    place = finish_done-Holds s.session c s.ending cancelled send e t h;
    queued = unfold finish_done in v.queued;
    waiting_posts = v.waiting_posts;
  }
  stop_return-IsCoherent _ e t s h v = v

  sent-Numbered :
      (c : Command) (q : Q)
      → Numbered c
      → All Numbered (k.items q)
      → All Numbered (k.items (k.send c q).1)
  sent-Numbered c q n a = elim (k.send_items c q) [
    | inl (_, e) ↦ rw e (All-append Numbered (k.items q) (c ∷ []) a (n, tt))
    | inr (_, e) ↦ rw e a
  ]

  posted-Numbered :
      (c : Command) (q : Q)
      → Numbered c
      → All Numbered (k.items q)
      → All Numbered (k.items (k.send_front c q).1)
  posted-Numbered c q n a = elim (k.send_front_items c q) [
    | inl (_, e) ↦ rw e (n, a)
    | inr (_, e) ↦ rw e a
  ]

  changed :
      (s : System Q) (t : Session Q) (cs : List Command)
      → IsCoherent k s
      → (t.active ≡ s.session.active) × (t.current_operation_id ≡ s.session.current_operation_id)
      → All Numbered (k.items t.queue)
      → All Numbered cs
      → IsCoherent k (record s { session = t; pending = cs })
  changed s t cs v f q p = record {
    place = Holds-frame s.ending s.worker s.session t f.0 f.1 v.place;
    queued = q;
    waiting_posts = p;
  }

  -- Queueing a command changes the queue alone, by a numbered command at most.
  pub enqueue_frame :
      (t : Session Q) (kind : CommandType) (id : ℕ) (send : Bool)
      → let t' = (enqueue_command k t kind id send).1 in
        (t'.active ≡ t.active) × (t'.current_operation_id ≡ t.current_operation_id)
  unfolding enqueue_command
  enqueue_frame t kind id send = ground arith

  enqueue-Numbered :
      (t : Session Q) (kind : CommandType) (id : ℕ) (send : Bool)
      → All Numbered (k.items t.queue)
      → All Numbered (k.items (enqueue_command k t kind id send).1.queue)
  unfolding enqueue_command
  enqueue-Numbered t kind id send a = elim (Bool-cases (id == 0)) [
    | inl z ↦ rw (z, enqueue_command) a
    | inr nz ↦
        rw (nz, enqueue_command)
          (sent-Numbered (record { kind = kind; operation_id = id; send = send }) t.queue
            (inr (ground arith)) a)
  ]

  cancel-IsCoherent :
      (s : System Q) (id : ℕ) → IsCoherent k s → IsCoherent k (step k s (cancels id)).0
  unfolding step cancel_mark
  cancel-IsCoherent s id v = elim (Bool-cases (id == 0)) [
    | inl z ↦ rw (z, cancel_mark) v
    | inr nz ↦ elim (Bool-cases (s.session.cancelled_operation_id == id)) [
      | inl z ↦ rw (nz, z, cancel_mark) v
      | inr d ↦
          rw (nz, d, cancel_mark)
            (changed s _ _ v (refl, refl) v.queued
              (All-append Numbered s.pending _ v.waiting_posts (inr (ground arith), tt)))
    ]
  ]

  post-IsCoherent :
      (o : Option Command) (n : ℕ) (s : System Q)
      → get_elem? s.pending n ≡ o
      → IsCoherent k s
      → IsCoherent k (post k o n s)
  unfolding post post_front
  post-IsCoherent none n s e v = v
  post-IsCoherent (some c) n s e v =
      changed s _ _ v (refl, refl)
        (posted-Numbered c s.session.queue (All-get_elem? n s.pending c v.waiting_posts e) v.queued)
        (All-remove_at n s.pending v.waiting_posts)

  -- Every step, of any task and with any answer of the recognition, keeps the session coherent: the
  -- worker that waits for the recognition to start or stop does so for the numbered operation under
  -- way; at any other time the recognition is active exactly for a numbered operation under way; no
  -- command of number 0 is queued but the order to end; and a worker that has stopped leaves nothing
  -- under way.
  pub step-IsCoherent : (s : System Q) (l : Label) → IsCoherent k s → IsCoherent k (step k s l).0
  unfolding step session_begin session_finish register_cb
  step-IsCoherent s (begins id) v =
      changed s _ _ v (enqueue_frame s.session CommandType.begin id false)
        (enqueue-Numbered s.session CommandType.begin id false v.queued) v.waiting_posts
  step-IsCoherent s (cancels id) v = cancel-IsCoherent s id v
  step-IsCoherent s (finishes id send) v =
      changed s _ _ v (enqueue_frame s.session CommandType.finish id send)
        (enqueue-Numbered s.session CommandType.finish id send v.queued) v.waiting_posts
  step-IsCoherent s (registers cb) v = changed s _ _ v (refl, refl) v.queued v.waiting_posts
  step-IsCoherent s shuts_down v =
      changed s _ _ v (refl, refl) (sent-Numbered _ s.session.queue (inl refl) v.queued)
        v.waiting_posts
  step-IsCoherent s (posts n) v = post-IsCoherent (get_elem? s.pending n) n s refl v
  step-IsCoherent s (reports event e t) v =
      let (a, c, q, x) = asr_event_frame s.session event e t in
      changed s _ _ v (a, c) (subst (λ q'. All Numbered (k.items q')) (sym q) v.queued)
        (All-with_pending _ s.pending v.waiting_posts
          (λ d h. inr (asr_event_cleanup s.session event e t d h).0))
  step-IsCoherent s works v = work-IsCoherent s.worker s v.place v
  step-IsCoherent s (start_returns e) v = start_return-IsCoherent s.worker e s v.place v
  step-IsCoherent s (stop_returns e t) v = stop_return-IsCoherent s.worker e t s v.place v

  pub after-IsCoherent :
      (s : System Q) (ls : List Label) → IsCoherent k s → IsCoherent k (after k s ls)
  unfolding after
  after-IsCoherent s [] v = v
  after-IsCoherent s (l ∷ ls) v = after-IsCoherent (step k s l).0 ls (step-IsCoherent s l v)
