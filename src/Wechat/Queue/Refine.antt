-- ===== src/Wechat/Queue/Refine.antt =====
-- The ring of eight events implements the log of `Log`: every call, and every sequence of calls.
use esp_mosaico_claw.Base.{
  ℕ, ◌+◌, ◌-◌, ◌%◌, ◌<◌, ◌≡◌, refl, true, Option, none, some, List, [], ◌∷◌, arith, if◌then◌else◌,
  ◌==◌, zero, suc, ◌≢◌, ap, Bool-cases, inl, inr,
}
use esp_mosaico_claw.Wechat.Status.{WechatStatus}
use esp_mosaico_claw.Wechat.Queue.{Event, EventQueue, capacity, event_at, reset, push, pop}
use esp_mosaico_claw.Wechat.Queue.Log.{
  record_event, take_event, Alternates, newest, newest-record_event, record_event-Alternates,
  take_event-Alternates,
}
use esp_mosaico_claw.Wechat.Queue.Slots.{contents, IsValid, slots, slots_mod}
use esp_mosaico_claw.Wechat.Queue.Put.{put_event-IsValid, contents-put_parts}

-- The calls that the service and the user interface make.
pub data Call : Type 0 where
  pushes : WechatStatus → ℕ → Call
  pops resets : Call

abbrev queue_or : EventQueue → Option EventQueue → EventQueue
queue_or q none = q
queue_or q (some q') = q'

-- The ring after a call, and the event that the call hands out.
unfoldable pub step : EventQueue → Call → Option Event × EventQueue
step q (pushes s r) = (none, queue_or q (push (some q) (some s) r))
step q pops = let (found, e, q') = pop (some q) true in (e, queue_or q q')
step q resets = (none, queue_or q (reset (some q)))

unfoldable pub run : EventQueue → List Call → List (Option Event)
run q [] = []
run q (c ∷ cs) = let (e, q') = step q c in e ∷ run q' cs

-- The same calls on the log.
unfoldable pub log_step : List Event → Call → Option Event × List Event
log_step xs (pushes s r) =
    (none, if r == 0 then xs else record_event xs (record { status = s; revision = r }))
log_step xs pops = take_event xs
log_step xs resets = (none, [])

unfoldable pub log_run : List Event → List Call → List (Option Event)
log_run xs [] = []
log_run xs (c ∷ cs) = let (e, xs') = log_step xs c in e ∷ log_run xs' cs

pub step-IsValid : (q : EventQueue) (c : Call) → IsValid q → IsValid (step q c).1
unfolding step push pop reset
step-IsValid q (pushes s r) v =
    ground (arith, put_event-IsValid q (record { status = s; revision = r }) v)
step-IsValid q pops v = ground arith
step-IsValid q resets v = ground arith

take-slots :
    (ev : List Event) (h n : ℕ)
    → n ≢ 0
    → h < capacity
    → take_event (slots ev h n)
      ≡ (some (event_at ev h), slots ev ((h + 1) % capacity % 256) (n - 1))
unfolding take_event
take-slots ev h zero p k = absurd (p refl)
take-slots ev h (suc n) p k =
    let at : event_at ev (h % capacity) ≡ event_at ev h = ap (event_at ev) (omega arith) in
    let next : slots ev ((h + 1) % capacity % 256) n ≡ slots ev ((h + 1) % capacity) n =
      ap (λ i. slots ev i n) (omega arith) in
    let less : slots ev ((h + 1) % capacity % 256) (suc n - 1)
        ≡ slots ev ((h + 1) % capacity % 256) n =
      ap (slots ev ((h + 1) % capacity % 256)) (omega arith) in
    ground (arith, at, next, less, slots_mod ev (h + 1) n)

take-nil_slots :
    (ev : List Event) (h n : ℕ) → n ≡ 0 → take_event (slots ev h n) ≡ (none, slots ev h n)
unfolding take_event
take-nil_slots ev h zero p = refl
take-nil_slots ev h (suc n) p = absurd (omega arith)

-- On a well-formed ring every call, with any status and any revision, hands out what the same call
-- on the log hands out, and leaves the ring holding the log that the call leaves.
pub step_refines :
    (q : EventQueue) (c : Call)
    → IsValid q
    → ((step q c).0 ≡ (log_step (contents q) c).0)
      × (contents (step q c).1 ≡ (log_step (contents q) c).1)
unfolding step log_step push pop reset
step_refines q (pushes s r) v =
    ground
      (arith, contents-put_parts q.events q.head q.count (record { status = s; revision = r }) v)
step_refines q pops v =
    ground (arith, take-nil_slots q.events q.head q.count, take-slots q.events q.head q.count)
step_refines q resets v = (refl, refl)

-- No sequence of pushes, pops and resets tells a well-formed ring from its log: the events handed
-- out are the same, call by call.
pub run_refines : (q : EventQueue) (cs : List Call) → IsValid q → run q cs ≡ log_run (contents q) cs
unfolding run log_run
run_refines q [] v = refl
run_refines q (c ∷ cs) v = rw (
  run_refines (step q c).1 cs (step-IsValid q c v),
  (step_refines q c v).0,
  (step_refines q c v).1,
)

-- A pushed event of nonzero revision is the newest of the log at once, whatever the ring held: it is
-- never the one that a full ring drops, nor lost in a merge.
pub push_newest :
    (q : EventQueue) (s : WechatStatus) (r : ℕ)
    → IsValid q
    → r ≢ 0
    → newest (contents (step q (pushes s r)).1) ≡ some (record { status = s; revision = r })
unfolding log_step
push_newest q s r v nz = ground (
  arith,
  step_refines q (pushes s r) v,
  newest-record_event (contents q) (record { status = s; revision = r }),
)

-- No call ever makes two neighbouring events of a well-formed ring agree in their state.
pub step-Alternates :
    (q : EventQueue) (c : Call)
    → IsValid q
    → Alternates (contents q)
    → Alternates (contents (step q c).1)
unfolding log_step
step-Alternates q (pushes s r) v a =
    rw ((step_refines q (pushes s r) v).1) (elim (Bool-cases (r == 0)) [
      | inl z ↦ rw z a
      | inr nz ↦
          rw nz (record_event-Alternates (contents q) (record { status = s; revision = r }) a)
    ])
step-Alternates q pops v a = rw ((step_refines q pops v).1) (take_event-Alternates (contents q) a)
step-Alternates q resets v a = rw ((step_refines q resets v).1) tt
