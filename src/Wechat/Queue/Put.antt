-- ===== src/Wechat/Queue/Put.antt =====
-- A push into the ring of eight events is a push into the log, case by case.
use esp_mosaico_claw.Base.{
  ℕ, zero, suc, ◌+◌, ◌-◌, ◌%◌, ◌<◌, ◌≡◌, refl, ap, ◌∙◌, true, false, List, [], ◌∷◌, ◌++◌, arith,
  length, length-set, length-append, set, Bool-cases, inl, inr,
}
use mathlib.Core.List.{append_assoc}
use native.Mathlib.Decide.{ℕ_discrete}
use esp_mosaico_claw.Wechat.Status.{same_state}
use esp_mosaico_claw.Wechat.Queue.{Event, EventQueue, capacity, event_at, put_event, u8, last_index}
use esp_mosaico_claw.Wechat.Queue.Log.{
  note_event, record_event, note_event-snoc, forget_short, forget_long,
}
use esp_mosaico_claw.Wechat.Queue.Slots.{
  slots, contents, IsValid, length-slots, slots_mod, slots_snoc, slots-set_behind, slots-set_last,
}

abbrev newest_event : List Event → ℕ → ℕ → Event
newest_event ev h n = event_at ev ((h + n) % capacity)

-- The three ways a push goes, over the ring's parts: the newest event is of the same state, it is of
-- another state and there is room, or the ring is full.
module _ (ev : List Event) (h n : ℕ) (e : Event) (len : length ev ≡ capacity) where
  merges :
      (i : ℕ)
      → n < capacity
      → i ≡ (h + suc n - 1) % capacity
      → same_state (newest_event ev h n).status.state e.status.state ≡ true
      → slots (set ev i e) h (suc n) ≡ record_event (slots ev h (suc n)) e
  unfolding record_event
  merges i hn p s = ground (
    arith,
    slots-set_last ev h n i e,
    slots_snoc ev h n,
    note_event-snoc (slots ev h n) (newest_event ev h n) e,
    forget_short (slots ev h n ++ e ∷ []),
    length-append (slots ev h n) (e ∷ []),
    length-slots ev h n,
  )

  noted :
      same_state (newest_event ev h n).status.state e.status.state ≡ false
      → note_event (slots ev h (suc n)) e ≡ slots ev h (suc n) ++ e ∷ []
  noted s = ground (
    arith,
    slots_snoc ev h n,
    note_event-snoc (slots ev h n) (newest_event ev h n) e,
    append_assoc (slots ev h n) ((newest_event ev h n) ∷ []) (e ∷ []),
  )

  appends :
      (i : ℕ)
      → suc n < capacity
      → i ≡ (h + suc n) % capacity
      → same_state (newest_event ev h n).status.state e.status.state ≡ false
      → slots (set ev i e) h (suc (suc n)) ≡ record_event (slots ev h (suc n)) e
  unfolding record_event
  appends i hn p s = ground (
    arith,
    slots-set_behind ev h (suc n) i e len hn p,
    noted s,
    forget_short (slots ev h (suc n) ++ e ∷ []),
    length-append (slots ev h (suc n)) (e ∷ []),
    length-slots ev h (suc n),
  )

  overflows :
      (i : ℕ)
      → suc n ≡ capacity
      → i ≡ ((h + 1) % capacity + n) % capacity
      → same_state (newest_event ev h n).status.state e.status.state ≡ false
      → slots (set ev i e) ((h + 1) % capacity) (suc n) ≡ record_event (slots ev h (suc n)) e
  unfolding record_event
  overflows i hn p s = ground (
    arith,
    slots-set_behind ev ((h + 1) % capacity) n i e len (omega arith) p,
    slots_mod ev (h + 1) n,
    noted s,
    forget_long (event_at ev (h % capacity)) (slots ev (h + 1) n ++ e ∷ []),
    length-append (slots ev (h + 1) n) (e ∷ []),
    length-slots ev (h + 1) n,
  )

pub put_event-IsValid : (q : EventQueue) (e : Event) → IsValid q → IsValid (put_event q e)
unfolding put_event
put_event-IsValid q e v = ground (
  arith,
  length-set q.events (last_index q) e,
  length-set q.events (u8 ((q.head + q.count) % capacity)) e,
  length-set q.events (u8 ((u8 ((q.head + 1) % capacity) + (q.count - 1)) % capacity)) e,
)

abbrev pub ring_of : List Event → ℕ → ℕ → EventQueue
ring_of ev h n = record { events = ev; head = h; count = n }

-- What a push does to a ring with an event in it, case by case.
module _ (ev : List Event) (h n : ℕ) (e : Event) where
  put_merges :
      same_state (newest_event ev h n).status.state e.status.state ≡ true
      → put_event (ring_of ev h (suc n)) e
        ≡ ring_of (set ev (u8 ((h + suc n - 1) % capacity)) e) h (suc n)
  unfolding put_event
  put_merges s =
      let p : newest_event ev h n ≡ event_at ev (u8 ((h + suc n - 1) % capacity)) =
        ap (event_at ev) (omega arith) in
      ground (arith, p)

  put_appends :
      same_state (newest_event ev h n).status.state e.status.state ≡ false
      → suc n < capacity
      → put_event (ring_of ev h (suc n)) e
        ≡ ring_of (set ev (u8 ((h + suc n) % capacity)) e) h (suc (suc n))
  unfolding put_event
  put_appends s hn =
      let p : newest_event ev h n ≡ event_at ev (u8 ((h + suc n - 1) % capacity)) =
        ap (event_at ev) (omega arith) in
      ground (arith, p)

  put_overflows :
      same_state (newest_event ev h n).status.state e.status.state ≡ false
      → suc n ≡ capacity
      → put_event (ring_of ev h (suc n)) e
        ≡ ring_of
            (set ev (u8 ((u8 ((h + 1) % capacity) + (suc n - 1)) % capacity)) e)
            (u8 ((h + 1) % capacity))
            (suc n)
  unfolding put_event
  put_overflows s hn =
      let p : newest_event ev h n ≡ event_at ev (u8 ((h + suc n - 1) % capacity)) =
        ap (event_at ev) (omega arith) in
      ground (arith, p)

pub contents-put_parts :
    (ev : List Event) (h n : ℕ) (e : Event)
    → IsValid (ring_of ev h n)
    → contents (put_event (ring_of ev h n) e) ≡ record_event (slots ev h n) e
unfolding put_event
contents-put_parts ev h zero e v = ground (
  arith,
  slots-set_behind ev h 0 (u8 ((h + 0) % capacity)) e v.ring,
  (let r : record_event [] e ≡ e ∷ [] = unfold record_event note_event in refl in r),
)
contents-put_parts ev h (suc n) e v =
    elim (Bool-cases (same_state (newest_event ev h n).status.state e.status.state)) [
      | inl s ↦
          ap contents (put_merges ev h n e s)
          ∙ merges ev h n e v.ring _ (omega arith) (omega arith) s
      | inr s ↦ elim (ℕ_discrete (suc n) capacity) [
        | yes full ↦
            ap contents (put_overflows ev h n e s full)
            ∙ ap
                (λ k.
                  slots (set ev (u8 ((u8 ((h + 1) % capacity) + (suc n - 1)) % capacity)) e) k
                    (suc n))
                (omega arith)
            ∙ overflows ev h n e v.ring _ full (omega arith) s
        | no room ↦
            ap contents (put_appends ev h n e s (omega arith))
            ∙ appends ev h n e v.ring _ (omega arith) (omega arith) s
      ]
    ]
