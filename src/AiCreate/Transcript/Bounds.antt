-- ===== src/AiCreate/Transcript/Bounds.antt =====
-- The messages stay within their buffers.
use esp_mosaico_claw.Base.{
  ℕ, suc, ◌≤◌, ◌≡◌, refl, ap, subst, inl, inr, Bool, not, ◌&&◌, Option-cases, if_cases, Option,
  none, some, List, [], ◌∷◌, map, arith, if◌then◌else◌, ◌==◌, length, length-append, length-map,
  take, length-take, All, All-append, Text, strlcpy, strlcpy-length,
}
use esp_mosaico_claw.AiCreate.Transcript.{
  Role, Message, is_user, history_max, text_size, drop_oldest_turn, transcript_append, answers,
  update_last, update_assistant, rebind_request,
}

-- The text of a message fits its buffer.
abbrev pub Fits : Message → Type 0
Fits m = length m.text ≤ 511

-- At most ten messages, and every text fits.
abbrev pub Bounded : List Message → Type 0
Bounded ms = (length ms ≤ 10) × All Fits ms

drop_oldest_turn-Bounded :
    (ms : List Message)
    → length ms ≡ 10
    → All Fits ms
    → (length (drop_oldest_turn ms) ≤ 9) × All Fits (drop_oldest_turn ms)
unfolding drop_oldest_turn
drop_oldest_turn-Bounded [] h a = (omega arith, tt)
drop_oldest_turn-Bounded (m ∷ []) h a = (omega arith, tt)
drop_oldest_turn-Bounded (m ∷ n ∷ ms) h (p, (q, a)) =
    if_cases (λ (x : List Message). (length x ≤ 9) × All Fits x)
      (is_user m.role && not (is_user n.role)) (λ _. (omega arith, a)) (λ _. (omega arith, (q, a)))

pub transcript_append-Bounded :
    (ms : List Message) (id : ℕ) (role : Role) (t : Text) (pending error : Bool)
    → Bounded ms
    → Bounded (transcript_append ms id role t pending error)
unfolding transcript_append
transcript_append-Bounded ms id role t pending error (b, a) =
    let m : Message = record {
      request_id = id;
      role = role;
      pending = pending;
      error = error;
      text = strlcpy text_size t;
    } in
    let P = λ (x : List Message). (length x ≤ 9) × All Fits x in
    let (c, d) : P (if length ms == history_max then drop_oldest_turn ms else ms) =
      if_cases P (length ms == history_max) (λ e. drop_oldest_turn-Bounded ms (ground arith) a)
        (λ e. (ground arith, a)) in
    let rest = if length ms == history_max then drop_oldest_turn ms else ms in
    (
      omega (arith, length-append rest (m ∷ []), c),
      All-append Fits rest (m ∷ []) d (strlcpy-length 511 t, tt),
    )

-- An update keeps the number of messages.
abbrev Updated : List Message → Option (List Message) → Type 0
Updated ms none = Unit
Updated ms (some ns) = (length ns ≡ length ms) × All Fits ns

update_last-Updated :
    (id : ℕ) (t : Text) (pending error : Bool) (ms : List Message)
    → All Fits ms
    → Updated ms (update_last id t pending error ms)
unfolding update_last
update_last-Updated id t pending error [] a = tt
update_last-Updated id t pending error (m ∷ ms) (f, a) =
    let rest : Updated ms (update_last id t pending error ms) =
      update_last-Updated id t pending error ms a in
    elim (Option-cases (update_last id t pending error ms)) [
      | inl n ↦
          rw (n, update_last)
            (if_cases (Updated (m ∷ ms)) (answers id m) (λ _. (refl, (strlcpy-length 511 t, a)))
              (λ _. tt))
      | inr (ns, n) ↦
          let (l, b) : Updated ms (some ns) = subst (Updated ms) n rest in
          rw (n, update_last) (ap suc l, (f, b))
    ]

pub update_assistant-Bounded :
    (ms : List Message) (id : ℕ) (t : Text) (pending error : Bool)
    → Bounded ms
    → Bounded (update_assistant ms id t pending error)
unfolding update_assistant
update_assistant-Bounded ms id t pending error (b, a) =
    let rest : Updated ms (update_last id t pending error ms) =
      update_last-Updated id t pending error ms a in
    elim (Option-cases (update_last id t pending error ms)) [
      | inl n ↦
          rw (n, update_assistant)
            (transcript_append-Bounded ms id Role.assistant t pending error (b, a))
      | inr (ns, n) ↦
          let (l, c) : Updated ms (some ns) = subst (Updated ms) n rest in
          rw (n, update_assistant) (omega (arith, l), c)
    ]

All-map :
    (f : Message → Message) (ms : List Message)
    → ((m : Message) → Fits m → Fits (f m))
    → All Fits ms
    → All Fits (map f ms)
All-map f [] h a = tt
All-map f (m ∷ ms) h a = (h m a.0, All-map f ms h a.1)

pub rebind_request-Bounded :
    (from to : ℕ) (ms : List Message) → Bounded ms → Bounded (rebind_request from to ms)
unfolding rebind_request
rebind_request-Bounded from to ms (b, a) =
    let f = λ (m : Message). if m.request_id == from then record m { request_id = to } else m in
    (
      omega (arith, length-map ms f),
      All-map f ms (λ m h. if_cases Fits (m.request_id == from) (λ _. h) (λ _. h)) a,
    )

-- A message whose last byte is made the terminator.
pub terminated-Fits :
    (ms : List Message) → All Fits (map (λ (m : Message). record m { text = take 511 m.text }) ms)
terminated-Fits [] = tt
terminated-Fits (m ∷ ms) = (omega (arith, length-take 511 m.text), terminated-Fits ms)
