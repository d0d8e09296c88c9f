-- ===== src/Update/Download/Receive.antt =====
-- A whole transfer.
use mathlib.Core.List.{append-nil, append_assoc}
use esp_mosaico_claw.Base.{
  All, Bool-cases, ℕ, ◌+◌, ◌≤◌, ◌≡◌, refl, sym, ap, ◌∙◌, inl, inr, Bool, true, false, Option, some,
  List, [], ◌∷◌, ◌++◌, arith, if_cases, ◌==◌, length, length-append, EspErr, ok,
}
use esp_mosaico_claw.Update.Download.{Response, http_append, http_event, receive}
use esp_mosaico_claw.Update.Download.Append.{append-empty, IsValid, http_append-Appends}

-- The outcome of an event.
abbrev pub Continues : Response → Option (EspErr × Response) → Type 0
Continues r o =
    (e : EspErr) × (r' : Response) × (o ≡ some (e, r')) × IsValid r' × (r'.maximum ≡ r.maximum)

http_event-Continues :
    (fuel : ℕ) (r : Response) (chunk : List ℕ) (realloc : Bool)
    → IsValid r
    → r.maximum + 2 ≤ fuel
    → Continues r (http_event fuel r chunk realloc)
unfolding http_event
http_event-Continues fuel r chunk realloc v f =
    if_cases (Continues r) (length chunk == 0) (λ _. (ok, r, refl, v, refl))
      (λ _.
        let (e, r', q, w, m, _) = http_append-Appends fuel r chunk realloc v f in
        rw q (
          e,
          record r' { append_error = e },
          refl,
          record { counted = w.counted; bounded = w.bounded; terminated = w.terminated },
          m,
        ))

-- A transfer of any chunks is received whatever the memory answers, and the response is in order:
-- its bytes and their terminator lie within the buffer, and the buffer within the maximum and one.
pub receive-IsValid :
    (fuel : ℕ) (r : Response) (chunks : List (List ℕ × Bool))
    → IsValid r
    → r.maximum + 2 ≤ fuel
    → (r' : Response) × (receive fuel r chunks ≡ some r') × IsValid r' × (r'.maximum ≡ r.maximum)
unfolding receive
receive-IsValid fuel r [] v f = (r, refl, v, refl)
receive-IsValid fuel r ((chunk, realloc) ∷ rest) v f =
    let (e, r', q, w, m) = http_event-Continues fuel r chunk realloc v f in
    let (r'', p, u, n) = receive-IsValid fuel r' rest w (omega arith) in
    (r'', rw (q, receive) p, u, n ∙ m)

abbrev pub joined : List (List ℕ × Bool) → List ℕ
joined [] = []
joined ((chunk, realloc) ∷ rest) = chunk ++ joined rest

-- The memory never runs out.
abbrev pub Plentiful : List (List ℕ × Bool) → Type 0
Plentiful chunks = All (λ p. p.1 ≡ true) chunks

event-append :
    (fuel : ℕ) (r : Response) (chunk : List ℕ) (realloc : Bool) (e : EspErr) (r' : Response)
    → (length chunk == 0) ≡ false
    → http_append fuel r chunk realloc ≡ some (e, r')
    → http_event fuel r chunk realloc ≡ some (e, record r' { append_error = e })
unfolding http_event
event-append fuel r chunk realloc e r' z q = rw (z, q, http_event) refl

event-empty :
    (fuel : ℕ) (r : Response) (chunk : List ℕ) (realloc : Bool)
    → (length chunk == 0) ≡ true
    → http_event fuel r chunk realloc ≡ some (ok, r)
unfolding http_event
event-empty fuel r chunk realloc z = rw (z, http_event) refl

event_whole :
    (fuel : ℕ) (r : Response) (chunk : List ℕ)
    → IsValid r
    → r.maximum + 2 ≤ fuel
    → r.append_error ≡ ok
    → length r.body + length chunk ≤ r.maximum
    → (r' : Response) × (http_event fuel r chunk true ≡ some (ok, r'))
      × IsValid r'
      × (r'.maximum ≡ r.maximum)
      × (r'.append_error ≡ ok)
      × (r'.body ≡ r.body ++ chunk)
unfolding http_event
event_whole fuel r chunk v f a l = elim (Bool-cases (length chunk == 0)) [
  | inl z ↦ (r, event-empty fuel r chunk true z, v, refl, a, append-empty r.body chunk z)
  | inr z ↦
      let (e, r', q, w, m, o) = http_append-Appends fuel r chunk true v f in
      elim o [
        | inl (k, b) ↦ (
          record r' { append_error = ok },
          event-append fuel r chunk true e r' z q
              ∙ ap (λ x. some (x, record r' { append_error = x })) k,
          record { counted = w.counted; bounded = w.bounded; terminated = w.terminated },
          m,
          refl,
          b,
        )
        | inr (inl (k, b, c)) ↦ ground arith
        | inr (inr (k, b, c)) ↦ ground arith
      ]
]

-- With memory enough a transfer within the maximum is received whole and without an error.
pub receive_whole :
    (fuel : ℕ) (r : Response) (chunks : List (List ℕ × Bool))
    → IsValid r
    → r.maximum + 2 ≤ fuel
    → Plentiful chunks
    → r.append_error ≡ ok
    → length r.body + length (joined chunks) ≤ r.maximum
    → (r' : Response) × (receive fuel r chunks ≡ some r')
      × IsValid r'
      × (r'.append_error ≡ ok)
      × (r'.body ≡ r.body ++ joined chunks)
unfolding receive
receive_whole fuel r [] v f p a l = (r, refl, v, a, sym (append-nil r.body))
receive_whole fuel r ((chunk, true) ∷ rest) v f p a l =
    let (r', q, w, m, e, b) =
      event_whole fuel r chunk v f a (omega (arith, length-append chunk (joined rest))) in
    let (r'', s, u, c, d) =
      receive_whole fuel r' rest w (omega arith) p.1 e (
        omega
          (arith, ap length b, length-append r.body chunk, length-append chunk (joined rest))) in
    (
      r'',
      rw (q, receive) s,
      u,
      c,
      d ∙ ap (λ x. x ++ joined rest) b ∙ append_assoc r.body chunk (joined rest),
    )
receive_whole fuel r ((chunk, false) ∷ rest) v f p a l = ground arith
