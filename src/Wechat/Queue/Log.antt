-- ===== src/Wechat/Queue/Log.antt =====
-- What the ring promises: a log of at most eight events, oldest first, no two neighbours of one
-- state, that forgets its oldest event when it overflows.
use esp_mosaico_claw.Base.{
  Bool-cases, inl, inr, ◌∙◌, ◌≤◌, ◌<◌, ◌≡◌, refl, false, Option, none, some, List, [], ◌∷◌, ◌++◌,
  arith, length, if◌then◌else◌, ltb,
}
use esp_mosaico_claw.Wechat.Status.{same_state}
use esp_mosaico_claw.Wechat.Queue.{Event, capacity}

-- An event of the newest state takes its place, any other is added behind it.
unfoldable pub note_event : List Event → Event → List Event
note_event [] e = e ∷ []
note_event (x ∷ []) e = if same_state x.status.state e.status.state then e ∷ [] else x ∷ e ∷ []
note_event (x ∷ y ∷ r) e = x ∷ note_event (y ∷ r) e

abbrev pub forget : List Event → List Event
forget [] = []
forget (x ∷ r) = if ltb capacity (length (x ∷ r)) then r else x ∷ r

unfoldable pub record_event : List Event → Event → List Event
record_event xs e = forget (note_event xs e)

-- The oldest event is taken off the front.
unfoldable pub take_event : List Event → Option Event × List Event
take_event [] = (none, [])
take_event (x ∷ xs) = (some x, xs)

pub note_event-snoc :
    (xs : List Event) (x e : Event)
    → note_event (xs ++ x ∷ []) e
      ≡ (if same_state x.status.state e.status.state then xs ++ e ∷ [] else xs ++ x ∷ e ∷ [])
unfolding note_event
note_event-snoc [] x e = refl
note_event-snoc (w ∷ []) x e = ground arith
note_event-snoc (w ∷ y ∷ r) x e = ground (arith, note_event-snoc (y ∷ r) x e)

pub forget_short : (xs : List Event) → length xs ≤ capacity → forget xs ≡ xs
forget_short [] h = refl
forget_short (x ∷ r) h = ground arith

pub forget_long : (x : Event) (r : List Event) → capacity < length (x ∷ r) → forget (x ∷ r) ≡ r
forget_long x r h = ground arith

-- Neighbours differ in their state.
abbrev pub Alternates : List Event → Type 0
Alternates [] = Unit
Alternates (x ∷ []) = Unit
Alternates (x ∷ y ∷ r) = (same_state x.status.state y.status.state ≡ false) × Alternates (y ∷ r)

-- The newest event of a log.
abbrev pub newest : List Event → Option Event
newest [] = none
newest (x ∷ []) = some x
newest (x ∷ y ∷ r) = newest (y ∷ r)

tail-Alternates : (x : Event) (r : List Event) → Alternates (x ∷ r) → Alternates r
tail-Alternates x [] a = tt
tail-Alternates x (y ∷ r) a = a.1

note_event-Alternates : (xs : List Event) (e : Event) → Alternates xs → Alternates (note_event xs e)
unfolding note_event
note_event-Alternates [] e a = tt
note_event-Alternates (x ∷ []) e a = ground arith
note_event-Alternates (x ∷ y ∷ []) e a =
    elim (Bool-cases (same_state y.status.state e.status.state)) [
      | inl s ↦ rw (s, note_event) (ground arith)
      | inr d ↦ rw (d, note_event) (ground arith)
    ]
note_event-Alternates (x ∷ y ∷ z ∷ r) e a = (a.0, note_event-Alternates (y ∷ z ∷ r) e a.1)

forget-Alternates : (xs : List Event) → Alternates xs → Alternates (forget xs)
forget-Alternates [] a = tt
forget-Alternates (x ∷ r) a = ground (arith, tail-Alternates x r a)

pub record_event-Alternates :
    (xs : List Event) (e : Event) → Alternates xs → Alternates (record_event xs e)
unfolding record_event
record_event-Alternates xs e a = forget-Alternates (note_event xs e) (note_event-Alternates xs e a)

pub take_event-Alternates : (xs : List Event) → Alternates xs → Alternates (take_event xs).1
unfolding take_event
take_event-Alternates [] a = tt
take_event-Alternates (x ∷ r) a = tail-Alternates x r a

newest-note_event : (xs : List Event) (e : Event) → newest (note_event xs e) ≡ some e
unfolding note_event
newest-note_event [] e = refl
newest-note_event (x ∷ []) e = ground arith
newest-note_event (x ∷ y ∷ []) e = ground arith
newest-note_event (x ∷ y ∷ z ∷ r) e = newest-note_event (y ∷ z ∷ r) e

newest-forget : (xs : List Event) → newest (forget xs) ≡ newest xs
newest-forget [] = refl
newest-forget (x ∷ []) = ground arith
newest-forget (x ∷ y ∷ r) = ground arith

pub newest-record_event : (xs : List Event) (e : Event) → newest (record_event xs e) ≡ some e
unfolding record_event
newest-record_event xs e = newest-forget (note_event xs e) ∙ newest-note_event xs e
