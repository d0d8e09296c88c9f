-- ===== src/Display/Service/Handoff.antt =====
-- How a handoff ends: the next producer has the screen, or nothing has changed, or the lease is
-- faulted, or the baseline has the screen again.
use esp_mosaico_claw.Base.{
  ℕ, ◌≤◌, ◌≡◌, refl, sym, subst, ◌≢◌, ◌⊎◌, inl, inr, true, none, some, arith, if_cases, EspErr, ok,
  is_ok, Bool-cases,
}
use esp_mosaico_claw.Display.Lease.{
  LeaseState, is_active, next_generation, validate, begin_handoff, commit_handoff, abort_handoff,
  fault, pending_generation,
}
use esp_mosaico_claw.Display.Lease.Invariant.{IsValid}
use esp_mosaico_claw.Display.Service.{
  Producer, Presenter, Service, Reply, reply, active_producer, clear_exclusive_producer,
  lease_faulted, lease_aborted, recover_baseline, roll_back, publish, handoff_activate,
  handoff_quiesce, handoff_from, handoff,
}
use esp_mosaico_claw.Display.Service.Steps.{
  granted, is_ok_ne, recovered, faulted, handed, recover_baseline-Recovers,
}

module _ {W : Type 0} where
  -- A handoff of the service `s` that was refused.
  abbrev pub Refused : Service W → Reply W → Type 0
  Refused s r =
      (r.error ≢ ok)
      × (r.out ≡ none)
      × ((r.service ≡ s) ⊎ (r.service ≡ faulted s) ⊎ (r.service ≡ recovered s))

  abbrev pub Hands : Service W → Producer W → Reply W → Type 0
  Hands s next r =
      ((r.error ≡ ok)
        × (r.out ≡ some (next_generation s.lease.generation))
        × (r.service ≡ handed s next))
      ⊎ Refused s r

  -- The service during the handoff to a producer.
  abbrev begun : Service W → Producer W → Service W
  begun s next = record s {
    lease = record (s.lease) {
      pending_producer = next.identity;
      pending_generation = next_generation s.lease.generation;
      state = LeaseState.handoff;
    };
  }

  abbrev pub IsActive : Service W → Type 0
  IsActive s = IsValid s.lease × (is_active s.lease.state ≡ true)

  aborted : (s : Service W) (next : Producer W) → IsActive s → lease_aborted (begun s next) ≡ s
  unfolding lease_aborted abort_handoff
  aborted s next (v, a) = ground arith

  committed :
      (s : Service W) (next : Producer W)
      → 1 ≤ next.identity
      → commit_handoff (some (begun s next).lease) next.identity true
        ≡ (ok, some (granted s.lease next.identity), some (next_generation s.lease.generation))
  unfolding commit_handoff
  committed s next b = ground arith

  module _ (k : Presenter W) (s : Service W) (next : Producer W) (limit : ℕ)
      (b : 1 ≤ s.baseline.identity) (n : 1 ≤ next.identity) (a : IsActive s) where
    restore_failed :
        (e : EspErr) (w : W) (t : Service W)
        → e ≢ ok
        → t ≡ s
        → let r = recover_baseline k (lease_faulted t) limit w in
          Refused s (reply e r.service none r.world)
    unfolding lease_faulted fault
    restore_failed e w t d q =
        let back : Refused s (
            reply e (recover_baseline k (faulted s) limit w).service none
              (recover_baseline k (faulted s) limit w).world) =
          elim (recover_baseline-Recovers k (faulted s) limit w b refl).1 [
            | inl (_, y) ↦ (d, refl, inr (inr y))
            | inr (_, y) ↦ (d, refl, inr (inl y))
          ] in
        subst
          (λ u. Refused s (
            reply e (recover_baseline k (lease_faulted u) limit w).service none
              (recover_baseline k (lease_faulted u) limit w).world))
          (sym q) back

    roll_back-Refused :
        (previous : Producer W) (e : EspErr) (w : W)
        → e ≢ ok
        → Refused s (roll_back k (begun s next) previous next s.lease.generation limit e w)
    unfolding roll_back
    roll_back-Refused previous e w d =
        if_cases (Refused s)
          (is_ok (previous.activate s.lease.generation (next.quiesce limit w).1).0)
          (λ _. (d, refl, inl (aborted s next a))) (λ _. restore_failed e _ _ d (aborted s next a))

    handoff_activate-Hands :
        (previous : Producer W) (w : W)
        → Hands s next (handoff_activate k (begun s next) previous next s.lease.generation limit w)
    unfolding handoff_activate publish clear_exclusive_producer pending_generation
    handoff_activate-Hands previous w =
        elim (Bool-cases (is_ok (next.activate (next_generation s.lease.generation) w).0)) [
          | inl p ↦ rw (p, committed s next n, handoff_activate) (inl (refl, refl, refl))
          | inr p ↦ rw (p, handoff_activate) (inr (roll_back-Refused previous _ _ (is_ok_ne _ p)))
        ]

    handoff_quiesce-Hands :
        (previous : Producer W) (w : W)
        → Hands s next (handoff_quiesce k (begun s next) previous next s.lease.generation limit w)
    unfolding handoff_quiesce
    handoff_quiesce-Hands previous w =
        if_cases (Hands s next) (is_ok (previous.quiesce limit w).0)
          (λ _. handoff_activate-Hands previous _)
          (λ g. inr (is_ok_ne _ g, refl, inl (aborted s next a)))

    begins :
        (previous : Producer W)
        → previous.identity ≡ s.lease.active_producer
        → 1 ≤ previous.identity
        → previous.identity ≢ next.identity
        → begin_handoff (some s.lease) previous.identity s.lease.generation next.identity
          ≡ (ok, some (begun s next).lease)
    unfolding begin_handoff validate
    begins previous i m d = ground arith

    handoff_from-Hands :
        (previous : Producer W) (w : W)
        → previous.identity ≡ s.lease.active_producer
        → 1 ≤ previous.identity
        → previous.identity ≢ next.identity
        → Hands s next (handoff_from k s (some previous) next limit w)
    unfolding handoff_from
    handoff_from-Hands previous w i m d =
        rw (begins previous i m d, handoff_from) (handoff_quiesce-Hands previous w)

    -- A handoff of an active service by its active producer to another one: it succeeds, writes the
    -- next generation and gives the screen to the next producer; or it is refused, writes nothing,
    -- and leaves the service as it was, faulted, or with the baseline.
    pub handoff-Hands :
        (previous : Producer W) (w : W)
        → active_producer s ≡ some previous
        → previous.identity ≡ s.lease.active_producer
        → 1 ≤ previous.identity
        → previous.identity ≢ next.identity
        → Hands s next (handoff k s next limit w)
    unfolding handoff
    handoff-Hands previous w g i m d = rw (g, handoff) (handoff_from-Hands previous w i m d)
