-- ===== src/Wechat/Queue.antt =====
-- components/mosaic_ui/apps/setup_center/setup_center_wechat_queue.c: a ring of eight status events
-- between the service and the Setup Center. Successive events of one state are merged, and the
-- oldest event makes room when the ring is full.
pub mod Log
pub mod Slots
pub mod Put
pub mod Refine
mod Tests
use esp_mosaico_claw.Base.{
  ℕ, ◌+◌, ◌-◌, ◌%◌, ◌<◌, Bool, true, false, not, ◌&&◌, ◌||◌, Option, none, some, List, [], ◌∷◌,
  get_or, set, if◌then◌else◌, ◌==◌, ltb, Ptr,
}
use esp_mosaico_claw.Wechat.Status.{WechatState, WechatStatus, same_state}

-- `setup_wechat_event_t`.
pub record Event : Type 0 where
  pub status : WechatStatus
  pub revision : ℕ

-- `setup_wechat_event_queue_t`.
pub record EventQueue : Type 0 where
  pub events : List Event
  pub head : ℕ
  pub count : ℕ

-- `SETUP_WECHAT_EVENT_CAPACITY`.
abbrev pub capacity : ℕ
capacity = 8

-- The cast to uint8_t.
abbrev pub u8 : ℕ → ℕ
u8 n = n % 256

-- What an array access beyond the events of the model would read; no access is, see `Refine`.
abbrev pub blank_event : Event
blank_event = record {
  status = record {
    active = false;
    configured = false;
    persisted = false;
    state = WechatState.idle;
    message = [];
    qr_payload = [];
    account_id = [];
  };
  revision = 0;
}

abbrev pub event_at : List Event → ℕ → Event
event_at events i = get_or events i blank_event

pub reset : Ptr EventQueue → Ptr EventQueue
reset none = none
reset (some q) = some (record q { head = 0; count = 0 })

-- The index of the newest event.
abbrev pub last_index : EventQueue → ℕ
last_index q = u8 ((q.head + q.count - 1) % capacity)

-- The full ring lets its oldest event go.
abbrev pub make_room : EventQueue → EventQueue
make_room q =
    if q.count == capacity
    then record q { head = u8 ((q.head + 1) % capacity); count = q.count - 1 }
    else q

-- The write behind the newest event.
abbrev pub append_event : EventQueue → Event → EventQueue
append_event q e = record q {
  events = set q.events (u8 ((q.head + q.count) % capacity)) e;
  count = u8 (q.count + 1);
}

-- The body of the push behind its argument checks.
pub put_event : EventQueue → Event → EventQueue
put_event q e =
    if ltb 0 q.count && same_state (event_at q.events (last_index q)).status.state e.status.state
    then record q { events = set q.events (last_index q) e }
    else append_event (make_room q) e

pub push : Ptr EventQueue → Ptr WechatStatus → ℕ → Ptr EventQueue
push none status revision = none
push (some q) none revision = some q
push (some q) (some status) revision =
    if revision == 0
    then some q
    else some (put_event q (record { status = status; revision = revision }))

-- The event that is written through the second pointer, where there is one.
pub pop : Ptr EventQueue → Bool → Bool × Option Event × Ptr EventQueue
pop none out = (false, none, none)
pop (some q) out = if not out || q.count == 0 then (false, none, some q) else (
  true,
  some (event_at q.events q.head),
  some (record q { head = u8 ((q.head + 1) % capacity); count = q.count - 1 }),
)
