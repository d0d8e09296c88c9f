-- ===== src/Wechat/Queue/Slots.antt =====
-- The ring of eight events read as a list, and what a write does to it.
use esp_mosaico_claw.Base.{
  ℕ, zero, suc, ◌+◌, ◌-◌, ◌%◌, ◌≤◌, ◌<◌, ◌≡◌, refl, ap, ◌∙◌, ◌≢◌, List, [], ◌∷◌, ◌++◌, arith,
  length, set,
}
use esp_mosaico_claw.Wechat.Queue.{Event, EventQueue, capacity, event_at}

-- The `n` events that begin at position `h`, positions being counted round the ring.
abbrev pub slots : List Event → ℕ → ℕ → List Event
slots events h zero = []
slots events h (suc n) = event_at events (h % capacity) ∷ slots events (h + 1) n

-- The ring as a log, oldest event first.
abbrev pub contents : EventQueue → List Event
contents q = slots q.events q.head q.count

pub record IsValid (q : EventQueue) : Type 0 where
  pub ring : length q.events ≡ capacity
  pub head_in : q.head < capacity
  pub count_in : q.count ≤ capacity

pub length-slots : (ev : List Event) (h n : ℕ) → length (slots ev h n) ≡ n
length-slots ev h zero = refl
length-slots ev h (suc n) = ap suc (length-slots ev (h + 1) n)

pub event_at-set_self :
    (ev : List Event) (i : ℕ) (e : Event) → i < length ev → event_at (set ev i e) i ≡ e
event_at-set_self [] i e h = absurd (omega arith)
event_at-set_self (x ∷ ev) zero e h = refl
event_at-set_self (x ∷ ev) (suc i) e h = event_at-set_self ev i e (omega arith)

pub event_at-set_ne :
    (ev : List Event) (i j : ℕ) (e : Event) → i ≢ j → event_at (set ev i e) j ≡ event_at ev j
event_at-set_ne [] i j e h = refl
event_at-set_ne (x ∷ ev) zero zero e h = absurd (h refl)
event_at-set_ne (x ∷ ev) zero (suc j) e h = refl
event_at-set_ne (x ∷ ev) (suc i) zero e h = refl
event_at-set_ne (x ∷ ev) (suc i) (suc j) e h = event_at-set_ne ev i j e (λ p. h (ap suc p))

-- The position of the head counts modulo the capacity.
pub slots_mod : (ev : List Event) (h n : ℕ) → slots ev (h % capacity) n ≡ slots ev h n
slots_mod ev h zero = refl
slots_mod ev h (suc n) = ground (
  arith,
  ap (event_at ev) (let p : h % capacity % capacity ≡ h % capacity = omega arith in p),
  slots_mod ev (h % capacity + 1) n,
  slots_mod ev (h + 1) n,
  ap (λ k. slots ev k n)
      (let p : (h % capacity + 1) % capacity ≡ (h + 1) % capacity = omega arith in p),
)

pub slots_snoc :
    (ev : List Event) (h n : ℕ)
    → slots ev h (suc n) ≡ slots ev h n ++ event_at ev ((h + n) % capacity) ∷ []
slots_snoc ev h zero =
    ground (arith, ap (λ k. event_at ev (k % capacity)) (let p : h + 0 ≡ h = omega arith in p))
slots_snoc ev h (suc n) =
    ap (λ r. event_at ev (h % capacity) ∷ r)
      (slots_snoc ev (h + 1) n
        ∙ ap (λ k. slots ev (h + 1) n ++ event_at ev (k % capacity) ∷ []) (omega arith))

-- A write at a position outside a stretch of the ring leaves the stretch as it was.
pub slots-set_outside :
    (ev : List Event) (h n i : ℕ) (e : Event)
    → h + n ≤ i
    → i < h + capacity
    → slots (set ev (i % capacity) e) h n ≡ slots ev h n
slots-set_outside ev h zero i e lo hi = refl
slots-set_outside ev h (suc n) i e lo hi =
    ground (
      arith,
      event_at-set_ne ev (i % capacity) (h % capacity) e,
      slots-set_outside ev (h + 1) n i e,
    )

-- A write just behind a stretch extends it.
pub slots-set_behind :
    (ev : List Event) (h n i : ℕ) (e : Event)
    → length ev ≡ capacity
    → n < capacity
    → i ≡ (h + n) % capacity
    → slots (set ev i e) h (suc n) ≡ slots ev h n ++ e ∷ []
slots-set_behind ev h n i e len hn p = ground (
  arith,
  slots_snoc (set ev i e) h n,
  slots-set_outside ev h n (h + n) e,
  event_at-set_self ev i e,
)

-- A write over the newest event of a stretch.
pub slots-set_last :
    (ev : List Event) (h n i : ℕ) (e : Event)
    → length ev ≡ capacity
    → n < capacity
    → i ≡ (h + suc n - 1) % capacity
    → slots (set ev i e) h (suc n) ≡ slots ev h n ++ e ∷ []
slots-set_last ev h n i e len hn p = slots-set_behind ev h n i e len hn (omega arith)
