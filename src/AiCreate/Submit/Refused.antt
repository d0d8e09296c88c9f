-- ===== src/AiCreate/Submit/Refused.antt =====
-- A message that the gateway refuses.
use esp_mosaico_claw.Base.{
  ℕ, zero, suc, ◌<◌, ◌≡◌, refl, sym, ap, subst, ◌∙◌, ◌⊎◌, inl, inr, Bool, true, false, not, ◌&&◌,
  ◌||◌, Option-cases, if_cases, Option, none, some, List, [], ◌∷◌, ◌++◌, arith, if◌then◌else◌, ◌==◌,
  length, set, Text, text, strlcpy, EspErr,
}
use esp_mosaico_claw.AiCreate.Transcript.{
  Role, Message, text_size, history_max, drop_oldest_turn, answers, transcript_append, update_last,
  update_assistant,
}
use esp_mosaico_claw.AiCreate.Tracks.{
  Track, free_track, track_at, find_index, tracks_request, find_message, reserve_message,
  first_used,
}
use esp_mosaico_claw.AiCreate.Tracks.Slots.{find_index-some, find_index-none, find_index-same}
use esp_mosaico_claw.AiCreate.Controller.{Snapshot, Controller, Env, refresh_active}
use esp_mosaico_claw.AiCreate.Submit.{Request, show_submitted, waiting_text, submit, post_failed}

update_last-append :
    (id : ℕ) (t : Text) (p b : Bool) (ms : List Message) (m : Message)
    → answers id m ≡ true
    → update_last id t p b (ms ++ m ∷ [])
      ≡ some (ms ++ record m { pending = p; error = b; text = strlcpy text_size t } ∷ [])
unfolding update_last
update_last-append id t p b [] m h = rw h refl
update_last-append id t p b (n ∷ ms) m h = rw (update_last-append id t p b ms m h) refl

-- The answer that waits is replaced where it stands.
update_assistant-transcript_append :
    (ms : List Message) (id : ℕ) (t t' : Text) (p p' b b' : Bool)
    → update_assistant (transcript_append ms id Role.assistant t p b) id t' p' b'
      ≡ transcript_append ms id Role.assistant t' p' b'
unfolding update_assistant transcript_append
update_assistant-transcript_append ms id t t' p p' b b' =
    let m : Message = record {
      request_id = id;
      role = Role.assistant;
      pending = p;
      error = b;
      text = strlcpy text_size t;
    } in
    let rest = if length ms == history_max then drop_oldest_turn ms else ms in
    let a : answers id m ≡ true = ground arith in
    rw (update_last-append id t' p' b' rest m a, update_assistant) refl

set_set : (ts : List Track) (i : ℕ) (s t : Track) → set (set ts i s) i t ≡ set ts i t
set_set [] i s t = refl
set_set (r ∷ ts) zero s t = refl
set_set (r ∷ ts) (suc i) s t = ap (◌∷◌ r) (set_set ts i s t)

-- The slot that is written is the first that passes a test that none passed.
find_index-new :
    (p : ℕ → Track → Bool) (ts : List Track) (i : ℕ) (t : Track)
    → find_index p ts ≡ none
    → i < length ts
    → p i t ≡ true
    → find_index p (set ts i t) ≡ some i
unfolding find_index
find_index-new p [] i t n b h = absurd (omega arith)
find_index-new p (s ∷ ts) zero t n b h = rw h refl
find_index-new p (s ∷ ts) (suc i) t n b h =
    let z : p 0 s ≡ false = find_index-none p (s ∷ ts) n 0 (omega arith) in
    let r : find_index (λ j. p (suc j)) ts ≡ none =
      elim (Option-cases (find_index (λ j. p (suc j)) ts)) [
        | inl f ↦ f
        | inr (j, f) ↦ ground arith
      ] in
    rw (z, find_index-new (λ j. p (suc j)) ts i t r (omega arith) h) refl

-- The slots that a request has taken and given back.
returned :
    (ts ts' : List Track) (id : ℕ)
    → reserve_message ts id ≡ some ts'
    → (i : ℕ) × ((track_at ts i).used ≡ false)
      × (find_message ts' id ≡ some i)
      × (set ts' i free_track ≡ set ts i free_track)
unfolding reserve_message
returned ts ts' id e = elim (Option-cases (find_message ts id)) [
  | inl n ↦ elim (Option-cases (find_index (λ i s. not s.used) ts)) [
    | inl m ↦ ground arith
    | inr (i, f) ↦
        let t : Track = record free_track { used = true; request_id = id } in
        let (b, u) = find_index-some (λ i s. not s.used) ts i f in
        let q : set ts i t ≡ ts' = ground arith in
        (
          i,
          ground arith,
          ap (λ x. find_message x id) (sym q)
              ∙ find_index-new (tracks_request id) ts i t n b (ground arith),
          ap (λ x. set x i free_track) (sym q) ∙ set_set ts i t free_track,
        )
  ]
  | inr (i, f) ↦ ground arith
]

-- Slots that are not in use are as good as free.
unused_free :
    (p : ℕ → Track → Bool) (ts : List Track) (i : ℕ)
    → p i free_track ≡ false
    → p i (track_at ts i) ≡ false
    → find_index p (set ts i free_track) ≡ find_index p ts
unused_free p ts i a b = find_index-same p ts i free_track (a ∙ sym b)

abbrev pub is_used : Option ℕ → Bool
is_used none = false
is_used (some i) = true

refresh_active-active :
    (ts : List Track) (s : Snapshot) → (refresh_active ts s).active ≡ is_used (first_used ts)
unfolding refresh_active
refresh_active-active ts s = elim (Option-cases (first_used ts)) [
  | inl n ↦ rw (n, refresh_active) refl
  | inr (i, f) ↦ rw (f, refresh_active) refl
]

refresh_active-transcript :
    (ts : List Track) (s : Snapshot) → (refresh_active ts s).transcript ≡ s.transcript
unfolding refresh_active
refresh_active-transcript ts s = elim (Option-cases (first_used ts)) [
  | inl n ↦ rw (n, refresh_active) refl
  | inr (i, f) ↦ rw (f, refresh_active) refl
]

-- The transcript with the two messages of a request.
abbrev pub with_turn : List Message → ℕ → Text → Text → Bool → Bool → List Message
with_turn ms id t reply pending is_error =
    transcript_append (transcript_append ms id Role.user t false false) id Role.assistant reply
      pending is_error

-- What a message that has been submitted leaves in the controller.
abbrev Submitted : Bool → Text → Controller → (EspErr ⊎ Request) × Controller → Type 0
Submitted had t c (inl e, c') = Unit
Submitted had t c (inr r, c') =
    (reserve_message c.messages c.next_request_id ≡ some c'.messages)
    × (r.request_id ≡ c.next_request_id)
    × (c'.snapshot.transcript
        ≡ with_turn c.snapshot.transcript c.next_request_id t (waiting_text had) true false)

submit-Submitted : (had : Bool) (t : Text) (c : Controller) → Submitted had t c (submit had t c)
unfolding submit show_submitted
submit-Submitted had t c =
    if_cases (Submitted had t c) (not c.started || not had && not c.session_creation_in_progress)
      (λ _. tt)
      (λ _. elim (Option-cases (reserve_message c.messages c.next_request_id)) [
        | inl n ↦ rw n tt
        | inr (ts, n) ↦ rw n (n, refl, refl)
      ])

-- A message that is submitted and that the gateway then refuses gives its slot back: every request
-- is found where it was found before. The view is active exactly if a slot was in use before, and
-- terminal exactly if none was. The transcript has the user's message and, as the answer, why the
-- submission failed.
pub post_failed-submit :
    (env : Env) (had : Bool) (t : Text) (e : EspErr) (c c' : Controller) (r : Request) (id : ℕ)
    → submit had t c ≡ (inr r, c')
    → (find_message (post_failed env r.request_id e c').messages id ≡ find_message c.messages id)
      × ((post_failed env r.request_id e c').snapshot.active ≡ is_used (first_used c.messages))
      × ((post_failed env r.request_id e c').snapshot.terminal
          ≡ not (is_used (first_used c.messages)))
      × ((post_failed env r.request_id e c').snapshot.transcript
          ≡ with_turn c.snapshot.transcript r.request_id t
              (strlcpy 256 (text "Submission failed: " ++ env.err_name e))
              false
              true)
unfolding post_failed
post_failed-submit env had t e c c' r id h =
    let (k, n, m) : Submitted had t c (inr r, c') =
      subst (Submitted had t c) h (submit-Submitted had t c) in
    let (i, u, f, q) = returned c.messages c'.messages c.next_request_id k in
    let f' : find_message c'.messages r.request_id ≡ some i =
      ap (λ x. find_message c'.messages x) n ∙ f in
    let message = strlcpy 256 (text "Submission failed: " ++ env.err_name e) in
    let ts = set c'.messages i free_track in
    let a : (refresh_active ts c'.snapshot).active ≡ is_used (first_used c.messages) =
      refresh_active-active ts c'.snapshot
      ∙ ap (λ x. is_used (first_used x)) q
      ∙ ap is_used (unused_free (λ j t. t.used) c.messages i refl u) in
    rw (f', post_failed)
      (
        ap (λ x. find_message x id) q
            ∙ unused_free (tracks_request id) c.messages i refl (ground arith),
        a,
        ap not a,
        ap (λ x. update_assistant x r.request_id message false true)
              (refresh_active-transcript ts c'.snapshot
                ∙ m
                ∙ ap (λ x. with_turn c.snapshot.transcript x t (waiting_text had) true false)
                    (sym n))
            ∙ update_assistant-transcript_append
                (transcript_append c.snapshot.transcript r.request_id Role.user t false false)
                r.request_id (waiting_text had) message true false false true,
      )
