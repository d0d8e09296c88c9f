-- ===== src/Display/Service/Steps.antt =====
-- The four ways in which a handoff can end, as services computed from the one before.
use esp_mosaico_claw.Base.{
  ℕ, ◌≤◌, ◌≡◌, refl, ap, ◌≢◌, ◌⊎◌, inl, inr, true, false, none, some, arith, if◌then◌else◌,
  if_cases, ◌==◌, EspErr, ok, is_ok, Bool-cases,
}
use esp_mosaico_claw.Display.Lease.{
  Lease, LeaseState, is_fault, next_generation, commit_handoff, fault, begin_recover,
  pending_generation,
}
use esp_mosaico_claw.Display.Service.{
  Producer, Presenter, Service, Reply, active_producer, clear_exclusive_producer, lease_faulted,
  quiesce_faulted, terminally_faulted, recover_activate, recover_begin, recover_baseline,
}

-- The lease after a producer has got the next generation of it.
abbrev pub granted : Lease → ℕ → Lease
granted l p = record {
  active_producer = p;
  pending_producer = 0;
  generation = next_generation l.generation;
  pending_generation = 0;
  state = LeaseState.active;
}

abbrev pub faulted_lease : Lease → Lease
faulted_lease l = record l {
  pending_producer = 0;
  pending_generation = 0;
  state = LeaseState.faulted;
}

pub is_ok_ne : (e : EspErr) → is_ok e ≡ false → e ≢ ok
is_ok_ne e h q = let f : is_ok e ≡ true = ap is_ok q in absurd cc

pub is_ok_eq : (e : EspErr) → is_ok e ≡ true → e ≡ ok
is_ok_eq EspErr.ok h = refl
is_ok_eq _ h = cc

module _ {W : Type 0} where
  -- The baseline has the screen again.
  abbrev pub recovered : Service W → Service W
  recovered s = record s { lease = granted s.lease s.baseline.identity; exclusive = none }

  abbrev pub faulted : Service W → Service W
  faulted s = record s { lease = faulted_lease s.lease }

  -- The next producer has the screen.
  abbrev pub handed : Service W → Producer W → Service W
  handed s next =
      let t : Service W = record s { lease = granted s.lease next.identity } in
      if next.identity == s.baseline.identity
      then record t { exclusive = none }
      else record t { exclusive = some next }

  abbrev pub Recovers : Service W → Reply W → Type 0
  Recovers s r =
      (r.out ≡ none)
      × (((r.error ≡ ok) × (r.service ≡ recovered s)) ⊎ ((r.error ≢ ok) × (r.service ≡ faulted s)))

  -- The lease during the recovery of a service.
  abbrev recovering : Service W → Service W
  recovering s = record s {
    lease = record (s.lease) {
      pending_producer = s.baseline.identity;
      pending_generation = next_generation s.lease.generation;
      state = LeaseState.handoff;
    };
  }

  commit_recovering :
      (s : Service W)
      → 1 ≤ s.baseline.identity
      → commit_handoff (some (recovering s).lease) s.baseline.identity true ≡ (
        ok,
        some (granted s.lease s.baseline.identity),
        some (next_generation s.lease.generation),
      )
  unfolding commit_handoff
  commit_recovering s b = ground arith

  recover_activate-Recovers :
      (s : Service W) (w : W)
      → 1 ≤ s.baseline.identity
      → Recovers s (recover_activate (recovering s) w)
  unfolding recover_activate clear_exclusive_producer lease_faulted fault pending_generation
  recover_activate-Recovers s w b =
      elim (Bool-cases (is_ok (s.baseline.activate (next_generation s.lease.generation) w).0)) [
        | inl p ↦ rw (p, commit_recovering s b, recover_activate) (refl, inl (refl, refl))
        | inr p ↦ rw (p, recover_activate) (refl, inr (is_ok_ne _ p, refl))
      ]

  recover_begin-Recovers :
      (s : Service W) (w : W)
      → 1 ≤ s.baseline.identity
      → is_fault s.lease.state ≡ true
      → Recovers s (recover_begin s w)
  unfolding recover_begin begin_recover
  recover_begin-Recovers s w b f = ground (arith, recover_activate-Recovers s w b)

  pub recover_baseline-Recovers :
      (k : Presenter W) (s : Service W) (limit : ℕ) (w : W)
      → 1 ≤ s.baseline.identity
      → is_fault s.lease.state ≡ true
      → Recovers s (recover_baseline k s limit w)
  unfolding recover_baseline lease_faulted fault
  recover_baseline-Recovers k s limit w b f =
      if_cases (Recovers s) (terminally_faulted k w) (λ _. (refl, inr ((λ e. cc), refl)))
        (λ _.
          if_cases (Recovers s)
            (is_ok (k.presenter_quiesce limit (quiesce_faulted s (active_producer s) limit w)).0)
            (λ _. recover_begin-Recovers s _ b f) (λ g. (refl, inr (is_ok_ne _ g, refl))))
