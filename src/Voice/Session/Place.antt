-- ===== src/Voice/Session/Place.antt =====
-- Where the worker can stand, what the session is then, and how each stretch moves it on.
use esp_mosaico_claw.Base.{
  ℕ, zero, suc, ◌≤◌, ◌≡◌, refl, ◌⊎◌, inl, inr, Bool, true, false, not, ◌&&◌, Option, none, some,
  List, [], ◌∷◌, arith, ◌==◌, Ptr, Text, EspErr, get_elem?, All, All-append, is_ok, Bool-cases,
}
use mathlib.Core.Option.{some-injective}
use mathlib.Core.Path.{subst}
use esp_mosaico_claw.Voice.Session.Queue.{Command, CommandType, CommandQueue}
use esp_mosaico_claw.Voice.Session.{
  Session, AsrEvent, Worker, waiting, stopped, closing, starting, finishing, stopping, emitting,
  asr_event, begin_check, begin_done, finish_check, finish_done, close,
}
use esp_mosaico_claw.Voice.Session.System.{System, remove_at, with_pending}

-- The recognition runs exactly for an operation under way.
abbrev pub Balanced : {Q : Type 0} → Session Q → Type 0
Balanced t =
    (t.active ≡ true → 1 ≤ t.current_operation_id) × (t.active ≡ false → t.current_operation_id ≡ 0)

-- What the worker's place says of the session, for a worker that has been ordered to end or not.
abbrev pub Holds : {Q : Type 0} → Bool → Worker → Session Q → Type 0
Holds e waiting t = (e ≡ false) × Balanced t
Holds e (starting c) t =
    (e ≡ false)
    × (t.active ≡ false)
    × (t.current_operation_id ≡ c.operation_id)
    × (1 ≤ c.operation_id)
Holds e (finishing c) t =
    (e ≡ true)
    × (t.active ≡ true)
    × (t.current_operation_id ≡ c.operation_id)
    × (1 ≤ c.operation_id)
Holds e (stopping c cancelled send) t =
    (t.active ≡ true) × (t.current_operation_id ≡ c.operation_id) × (1 ≤ c.operation_id)
Holds e (emitting kind id err send txt) t = (1 ≤ id) × Balanced t × (e ≡ true → t.active ≡ false)
Holds e closing t = (e ≡ true) × Balanced t
Holds e stopped t = (e ≡ true) × (t.active ≡ false) × (t.current_operation_id ≡ 0)

-- A command other than the order to end is for an operation, and operations are numbered from 1.
abbrev pub Numbered : Command → Type 0
Numbered c = (c.kind ≡ CommandType.shutdown) ⊎ (1 ≤ c.operation_id)

module _ {Q : Type 0} (k : CommandQueue Q) where
  pub record IsCoherent (s : System Q) : Type 0 where
    pub place : Holds s.ending s.worker s.session
    pub queued : All Numbered (k.items s.session.queue)
    pub waiting_posts : All Numbered s.pending

pub Holds-frame :
    {Q : Type 0} (e : Bool) (w : Worker) (t t' : Session Q)
    → t'.active ≡ t.active
    → t'.current_operation_id ≡ t.current_operation_id
    → Holds e w t
    → Holds e w t'
Holds-frame e waiting t t' a c h = ground arith
Holds-frame e _ t t' a c h = ground arith

pub All-remove_at : (n : ℕ) (cs : List Command) → All Numbered cs → All Numbered (remove_at n cs)
All-remove_at n [] a = a
All-remove_at zero (c ∷ cs) a = a.1
All-remove_at (suc n) (c ∷ cs) a = (a.0, All-remove_at n cs a.1)

pub All-get_elem? :
    (n : ℕ) (cs : List Command) (c : Command)
    → All Numbered cs
    → get_elem? cs n ≡ some c
    → Numbered c
All-get_elem? n [] c a e = cc
All-get_elem? zero (x ∷ cs) c a e = subst Numbered (some-injective x c e) a.0
All-get_elem? (suc n) (x ∷ cs) c a e = All-get_elem? n cs c a.1 e

pub All-with_pending :
    (o : Option Command) (cs : List Command)
    → All Numbered cs
    → ((c : Command) → o ≡ some c → Numbered c)
    → All Numbered (with_pending o cs)
All-with_pending none cs a h = a
All-with_pending (some c) cs a h = All-append Numbered cs (c ∷ []) a (h c refl, tt)

-- A report of the recognition leaves the operation alone, and what it posts is a finish of it.
module _ {Q : Type 0} (t : Session Q) where
  pub asr_event_frame :
      (event : AsrEvent) (e : EspErr) (txt : Ptr Text)
      → let t' = (asr_event t event e txt).0 in
        (t'.active ≡ t.active)
        × (t'.current_operation_id ≡ t.current_operation_id)
        × (t'.queue ≡ t.queue)
        × (t'.cancelled_operation_id ≡ t.cancelled_operation_id)
  unfolding asr_event
  asr_event_frame AsrEvent.asr_error e txt = ground arith
  asr_event_frame _ e txt = ground arith

  pub asr_event_cleanup :
      (event : AsrEvent) (e : EspErr) (txt : Ptr Text) (c : Command)
      → (asr_event t event e txt).2 ≡ some c
      → (1 ≤ c.operation_id) × (c.kind ≡ CommandType.finish) × (c.send ≡ false)
  unfolding asr_event
  asr_event_cleanup AsrEvent.asr_error e txt c h = ground arith
  asr_event_cleanup _ e txt c h = ground arith

-- The place of the worker after each of its stretches.
module _ {Q : Type 0} (t : Session Q) (c : Command) where
  pub begin_check-Holds :
      Balanced t → 1 ≤ c.operation_id → Holds false (begin_check t c).0 (begin_check t c).1
  unfolding begin_check
  begin_check-Holds b n = elim (Bool-cases (t.cancelled_operation_id == c.operation_id)) [
    | inl p ↦ rw (p, begin_check) (n, b, λ x. cc)
    | inr p ↦ elim (Bool-cases (t.current_operation_id == 0)) [
      | inl q ↦ rw (p, q, begin_check) (refl, ground arith, refl, n)
      | inr q ↦ rw (p, q, begin_check) (n, b, λ x. cc)
    ]
  ]

  pub begin_done-Holds :
      (err : EspErr)
      → Holds false (starting c) t
      → Holds false (begin_done t c err).0 (begin_done t c err).1
  unfolding begin_done
  begin_done-Holds err h = elim (Bool-cases (is_ok err)) [
    | inl p ↦ rw (p, begin_done) (refl, ((λ _. ground arith), λ x. cc))
    | inr p ↦
        elim (Bool-cases
          (not t.error_forwarded && not (t.cancelled_operation_id == c.operation_id))) [
            | inl q ↦ rw (p, q, begin_done) (h.3, ((λ x. cc), λ _. refl), λ x. cc)
            | inr q ↦ rw (p, q, begin_done) (refl, ((λ x. cc), λ _. refl))
          ]
  ]

  pub finish_check-Holds :
      (e : Bool)
      → Balanced t
      → e ≡ false
      → 1 ≤ c.operation_id
      → Holds e (finish_check t c waiting) t
  unfolding finish_check
  finish_check-Holds e b f n =
      elim (Bool-cases (t.active && t.current_operation_id == c.operation_id)) [
        | inl p ↦ rw (p, finish_check) (ground arith, ground arith, n)
        | inr p ↦ rw (p, finish_check) (f, b)
      ]

  pub finishing-Holds : Holds true (finishing c) t → Holds true (finish_check t c stopped) t
  unfolding finish_check
  finishing-Holds h = elim (Bool-cases (t.active && t.current_operation_id == c.operation_id)) [
    | inl p ↦ rw (p, finish_check) (h.1, h.2, h.3)
    | inr p ↦ absurd (ground arith)
  ]

  pub finish_done-Holds :
      (e cancelled send : Bool) (err : EspErr) (txt : Text)
      → Holds e (stopping c cancelled send) t
      → Holds e
          (finish_done t c cancelled send err txt).0
          (finish_done t c cancelled send err txt).1
  unfolding finish_done
  finish_done-Holds e cancelled send err txt h = ground arith

  pub begin_done_queue : (err : EspErr) → (begin_done t c err).1.queue ≡ t.queue
  unfolding begin_done
  begin_done_queue err = ground arith

pub close-Holds : {Q : Type 0} (t : Session Q) → Holds true closing t → Holds true (close t) t
unfolding close
close-Holds t h = elim (Bool-cases t.active) [
  | inl p ↦ rw (p, close) (refl, ground arith, refl, ground arith)
  | inr p ↦ rw (p, close) (refl, ground arith, ground arith)
]
