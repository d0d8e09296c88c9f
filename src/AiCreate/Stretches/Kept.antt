-- ===== src/AiCreate/Stretches/Kept.antt =====
-- What the controller keeps.
use esp_mosaico_claw.Base.{
  ℕ, zero, suc, ◌≡◌, ◌≢◌, refl, sym, ap, subst, ◌∙◌, inl, inr, Bool, true, false, not, Bool-cases,
  Option-cases, Option, none, some, List, [], ◌∷◌, arith, ltb, length, length-set, set,
}
use esp_mosaico_claw.AiCreate.Transcript.{Message}
use esp_mosaico_claw.AiCreate.Transcript.Bounds.{Bounded}
use esp_mosaico_claw.AiCreate.Tracks.{
  Track, free_track, track_at, find_index, tracks_request, find_message, reserve_message,
  first_used,
}
use esp_mosaico_claw.AiCreate.Tracks.Slots.{
  find_index-none, find_index-same, track_at-outside, Distinct, Distinct-apart, Distinct-set, clash,
}
use esp_mosaico_claw.AiCreate.Controller.{Snapshot, Controller, refresh_active}

-- The first request in flight is the one shown.
abbrev pub Shows : List Track → Option ℕ → Bool → ℕ → Type 0
Shows ts none active id = active ≡ false
Shows ts (some i) active id = (active ≡ true) × (id ≡ (track_at ts i).request_id)

-- Eight slots, and no request has two of them; the view is active exactly if a slot is in use, and
-- shows the first one's request; the transcript has at most ten messages that fit their buffers; a
-- session is loading exactly while a switch is pending; and the view's voice operation is the one
-- that runs.
pub record Good (ts : List Track) (active : Bool) (id : ℕ) (ms : List Message)
    (shown_loading pending : Bool) (shown_voice running : ℕ) : Type 0 where
  pub eight : length ts ≡ 8
  pub distinct : Distinct ts
  pub shown : Shows ts (first_used ts) active id
  pub bounded : Bounded ms
  pub loading : shown_loading ≡ pending
  pub voice : shown_voice ≡ running

-- The same of a view over given slots.
abbrev pub GoodView : List Track → Bool → ℕ → Snapshot → Type 0
GoodView ts pending voice s =
    Good ts s.active s.request_id s.transcript s.session_loading pending s.voice_operation_id voice

abbrev pub Kept : Controller → Type 0
Kept c = GoodView c.messages c.session_switch_pending c.voice_operation_id c.snapshot

pub refresh_active-shown :
    (ts : List Track) (s : Snapshot)
    → Shows ts (first_used ts) (refresh_active ts s).active (refresh_active ts s).request_id
unfolding refresh_active
refresh_active-shown ts s = elim (Option-cases (first_used ts)) [
  | inl n ↦ rw (n, refresh_active) refl
  | inr (i, f) ↦ rw (f, refresh_active) (refl, refl)
]

-- Refreshing over other slots.
pub refresh_active-Good :
    (ts' : List Track) (pending : Bool) (voice : ℕ) (s : Snapshot)
    → Bounded s.transcript
    → s.session_loading ≡ pending
    → s.voice_operation_id ≡ voice
    → length ts' ≡ 8
    → Distinct ts'
    → GoodView ts' pending voice (refresh_active ts' s)
unfolding refresh_active
refresh_active-Good ts' pending voice s b lo vo l d = elim (Option-cases (first_used ts')) [
  | inl n ↦
      rw (n, refresh_active)
        (record {
          eight = l;
          distinct = d;
          shown = rw n refl;
          bounded = b;
          loading = lo;
          voice = vo;
        })
  | inr (i, f) ↦
      rw (f, refresh_active)
        (record {
          eight = l;
          distinct = d;
          shown = rw f (refl, refl);
          bounded = b;
          loading = lo;
          voice = vo;
        })
]

Distinct-clash :
    (ts : List Track) (i j : ℕ)
    → Distinct ts
    → i ≢ j
    → clash (track_at ts i) (track_at ts j) ≡ false
Distinct-clash ts i j d n = elim (Bool-cases (clash (track_at ts i) (track_at ts j))) [
  | inl c ↦ absurd (n (Distinct-apart ts i j d (ground arith) (ground arith) (ground arith)))
  | inr c ↦ c
]

pub free-Distinct : (ts : List Track) (i : ℕ) → Distinct ts → Distinct (set ts i free_track)
free-Distinct ts i d = Distinct-set ts i free_track d (λ j n. refl)

-- A slot that keeps its request.
abbrev pub renumbered : ℕ → ℕ → Track → Track
renumbered sequence run_id t = record t { last_event_sequence = sequence; run_id = run_id }

pub renumbered-Distinct :
    (ts : List Track) (i sequence run_id : ℕ)
    → Distinct ts
    → Distinct (set ts i (renumbered sequence run_id (track_at ts i)))
renumbered-Distinct ts i sequence run_id d =
    Distinct-set ts i (renumbered sequence run_id (track_at ts i)) d
      (λ j n. Distinct-clash ts i j d n)

renumbered-request_id :
    (ts : List Track) (i sequence run_id j : ℕ)
    → (track_at (set ts i (renumbered sequence run_id (track_at ts i))) j).request_id
      ≡ (track_at ts j).request_id
renumbered-request_id [] i q r j = refl
renumbered-request_id (t ∷ ts) zero q r zero = refl
renumbered-request_id (t ∷ ts) zero q r (suc j) = refl
renumbered-request_id (t ∷ ts) (suc i) q r zero = refl
renumbered-request_id (t ∷ ts) (suc i) q r (suc j) = renumbered-request_id ts i q r j

pub renumbered-shown :
    (ts : List Track) (i sequence run_id : ℕ) (active : Bool) (id : ℕ)
    → Shows ts (first_used ts) active id
    → Shows
        (set ts i (renumbered sequence run_id (track_at ts i)))
        (first_used (set ts i (renumbered sequence run_id (track_at ts i))))
        active
        id
renumbered-shown ts i q r active id s =
    let t = renumbered q r (track_at ts i) in
    let e : first_used (set ts i t) ≡ first_used ts = find_index-same (λ j t. t.used) ts i t refl in
    elim (Option-cases (first_used ts)) [
      | inl n ↦
          let s' : active ≡ false = subst (λ o. Shows ts o active id) n s in
          subst (λ o. Shows (set ts i t) o active id) (sym (e ∙ n)) s'
      | inr (j, f) ↦
          let (a, b) : Shows ts (some j) active id = subst (λ o. Shows ts o active id) f s in
          subst (λ o. Shows (set ts i t) o active id) (sym (e ∙ f))
            (a, b ∙ sym (renumbered-request_id ts i q r j))
    ]

-- The slots with a new request.
abbrev pub Reserved : List Track → Option (List Track) → Type 0
Reserved ts none = Unit
Reserved ts (some ts') = (length ts' ≡ length ts) × Distinct ts'

pub reserve_message-Reserved :
    (ts : List Track) (id : ℕ) → Distinct ts → Reserved ts (reserve_message ts id)
unfolding reserve_message
reserve_message-Reserved ts id d = elim (Option-cases (find_message ts id)) [
  | inl n ↦ elim (Option-cases (find_index (λ i s. not s.used) ts)) [
    | inl m ↦ rw (n, m, reserve_message) tt
    | inr (i, f) ↦
        let t : Track = record free_track { used = true; request_id = id } in
        rw (n, f, reserve_message)
          (
            length-set ts i t,
            Distinct-set ts i t d (λ j _. elim (Bool-cases (ltb j (length ts))) [
              | inl b ↦
                  let u : tracks_request id j (track_at ts j) ≡ false =
                    find_index-none (tracks_request id) ts n j (ground arith) in
                  ground arith
              | inr b ↦ ap (clash t) (track_at-outside ts j (ground arith))
            ]),
          )
  ]
  | inr (i, f) ↦ rw (f, reserve_message) tt
]
