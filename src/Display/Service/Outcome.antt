-- ===== src/Display/Service/Outcome.antt =====
-- What an acquisition and a release leave behind, whatever the producers and the presenter answer.
use esp_mosaico_claw.Base.{
  ℕ, ◌≤◌, ◌≡◌, refl, sym, ap, ◌∙◌, subst, ◌≢◌, ◌⊎◌, inl, inr, Bool, true, false, not, ◌&&◌, ◌||◌,
  none, some, arith, if◌then◌else◌, if_cases, ◌==◌, Ptr, ok, is_ok,
}
use esp_mosaico_claw.Display.Lease.{Lease, is_active, is_fault, next_generation, validate}
use esp_mosaico_claw.Display.Lease.Invariant.{IsValid, next_generation_bounds}
use esp_mosaico_claw.Display.Service.{
  Producer, Presenter, Service, Reply, active_producer, handoff, baseline_presents, recover_first,
  acquire_from, acquire,
}
use esp_mosaico_claw.Display.Service.Steps.{
  granted, is_ok_eq, recovered, faulted, handed, recover_baseline-Recovers,
}
use esp_mosaico_claw.Display.Service.Handoff.{Refused, handoff-Hands}

granted-IsValid : (l : Lease) (p : ℕ) → IsValid (granted l p)
granted-IsValid l p = ground (arith, next_generation_bounds l.generation)

module _ {W : Type 0} where
  -- Who holds the screen: the exclusive producer, and the baseline if there is none.
  abbrev pub Holder : Ptr (Producer W) → ℕ → ℕ → Type 0
  Holder none b a = a ≡ b
  Holder (some p) b a = (a ≡ p.identity) × (1 ≤ p.identity) × (p.identity ≢ b)

  -- A service between two calls: no handoff is pending, and the lease agrees with the producers.
  pub record IsSettled (s : Service W) : Type 0 where
    pub valid : IsValid s.lease
    pub based : 1 ≤ s.baseline.identity
    pub placed : (is_active s.lease.state ≡ true) ⊎ (is_fault s.lease.state ≡ true)
    pub holder : Holder s.exclusive s.baseline.identity s.lease.active_producer

  pub recovered-IsSettled : (s : Service W) → IsSettled s → IsSettled (recovered s)
  recovered-IsSettled s v = record {
    valid = granted-IsValid s.lease s.baseline.identity;
    based = v.based;
    placed = inl refl;
    holder = refl;
  }

  pub faulted-IsSettled : (s : Service W) → IsSettled s → IsSettled (faulted s)
  faulted-IsSettled s v = record {
    valid = record { in_word = v.valid.in_word; reserved = λ e. cc; cleared = λ _. (refl, refl) };
    based = v.based;
    placed = inr refl;
    holder = v.holder;
  }

  pub handed-IsSettled :
      (s : Service W) (next : Producer W)
      → 1 ≤ next.identity
      → IsSettled s
      → IsSettled (handed s next)
  handed-IsSettled s next n v =
      if_cases IsSettled (next.identity == s.baseline.identity)
        (λ e. record {
          valid = granted-IsValid s.lease next.identity;
          based = v.based;
          placed = inl refl;
          holder = ground arith;
        })
        (λ e. record {
          valid = granted-IsValid s.lease next.identity;
          based = v.based;
          placed = inl refl;
          holder = (refl, n, ground arith);
        })

  pub Refused-IsSettled :
      (s : Service W) (r : Reply W) → IsSettled s → Refused s r → IsSettled r.service
  Refused-IsSettled s r v (_, _, h) = elim h [
    | inl e ↦ subst IsSettled (sym e) v
    | inr (inl e) ↦ subst IsSettled (sym e) (faulted-IsSettled s v)
    | inr (inr e) ↦ subst IsSettled (sym e) (recovered-IsSettled s v)
  ]

  -- A faulted lease that is settled has nothing pending.
  faulted_same : (s : Service W) → IsSettled s → is_fault s.lease.state ≡ true → faulted s ≡ s
  faulted_same s v f = let l : IsValid s.lease = v.valid in ground arith

  pub found :
      (s : Service W) (x : Ptr (Producer W))
      → s.exclusive ≡ x
      → 1 ≤ s.baseline.identity
      → Holder x s.baseline.identity s.lease.active_producer
      → (p : Producer W) × (active_producer s ≡ some p)
        × (p.identity ≡ s.lease.active_producer)
        × (1 ≤ p.identity)
        × (((p.identity ≡ s.baseline.identity) × (x ≡ none)) ⊎ (x ≡ some p))
  unfolding active_producer
  found s none e b h = (s.baseline, ground arith, ground arith, b, inl (refl, refl))
  found s (some p) e b h = (p, ground arith, ground arith, ground arith, inr refl)

  -- The recovery that a call begins with: the service goes on active, or the call ends there.
  abbrev pub Ready : Service W → Reply W → Type 0
  Ready s r =
      ((r.error ≡ ok)
        × IsSettled r.service
        × (is_active r.service.lease.state ≡ true)
        × ((r.service ≡ s) ⊎ (r.service ≡ recovered s)))
      ⊎ ((r.error ≢ ok) × (r.service ≡ s) × (r.out ≡ none))

  pub recover_first-Ready :
      (k : Presenter W) (s : Service W) (limit : ℕ) (w : W)
      → IsSettled s
      → Ready s (recover_first k s limit w)
  unfolding recover_first
  recover_first-Ready k s limit w v =
      if_cases (Ready s) (is_fault s.lease.state)
        (λ f.
          let (o, h) = recover_baseline-Recovers k s limit w v.based f in
          elim h [
            | inl (e, t) ↦ inl (
              e,
              subst IsSettled (sym t) (recovered-IsSettled s v),
              ap (λ u. is_active u.lease.state) t,
              inr t,
            )
            | inr (e, t) ↦ inr (e, t ∙ faulted_same s v f, o)
          ])
        (λ f.
          let a : (is_active s.lease.state ≡ true) ⊎ (is_fault s.lease.state ≡ true) = v.placed in
          inl (refl, v, elim a [ inl x ↦ x | inr x ↦ absurd cc ], inl refl))

  -- What an acquisition can leave: the producer has the screen under the generation that was
  -- written, or nothing was written and the service is as before or with the baseline.
  abbrev pub Acquired : Service W → Producer W → Reply W → Type 0
  Acquired s p r =
      IsSettled r.service
      × (((r.error ≡ ok)
            × (r.service.exclusive ≡ some p)
            × ((g : ℕ) × (r.out ≡ some g) × (validate (some r.service.lease) p.identity g ≡ true)))
          ⊎ ((r.error ≢ ok) × (r.out ≡ none) × ((r.service ≡ s) ⊎ (r.service.exclusive ≡ none))))

  pub baseline_alone :
      (s : Service W) (x : Ptr (Producer W))
      → s.exclusive ≡ x
      → Holder x s.baseline.identity s.lease.active_producer
      → s.lease.active_producer ≡ s.baseline.identity
      → s.exclusive ≡ none
  baseline_alone s none e h q = e
  baseline_alone s (some p) e h q = absurd (omega (arith, q, h.0, h.2))

  Refused-Acquired :
      (s : Service W) (p : Producer W) (r : Reply W)
      → s.exclusive ≡ none
      → IsSettled s
      → Refused s r
      → Acquired s p r
  Refused-Acquired s p r x v (e, o, h) = (
    Refused-IsSettled s r v (e, o, h),
    inr (
      e,
      o,
      elim h [
        | inl t ↦ inl t
        | inr (inl t) ↦ inr (ap (λ u. u.exclusive) t ∙ x)
        | inr (inr t) ↦ inr (ap (λ u. u.exclusive) t)
      ],
    ),
  )

  handed-Acquired :
      (s : Service W) (p : Producer W) (r : Reply W)
      → 1 ≤ p.identity
      → p.identity ≢ s.baseline.identity
      → IsSettled s
      → r.error ≡ ok
      → r.out ≡ some (next_generation s.lease.generation)
      → r.service ≡ handed s p
      → Acquired s p r
  unfolding validate
  handed-Acquired s p r n d v e o t =
      let q : (p.identity == s.baseline.identity) ≡ false = ground arith in
      (
        subst IsSettled (sym t) (handed-IsSettled s p n v),
        inl (
          e,
          ap (λ u. u.exclusive) t ∙ rw q refl,
          (
            next_generation s.lease.generation,
            o,
            subst
                (λ u.
                  validate (some u.lease) p.identity (next_generation s.lease.generation) ≡ true)
                (sym t) (ground arith),
          ),
        ),
      )

  acquire_from-Acquired :
      (k : Presenter W) (s : Service W) (p : Producer W) (limit : ℕ) (w : W)
      → 1 ≤ p.identity
      → p.identity ≢ s.baseline.identity
      → IsSettled s
      → is_active s.lease.state ≡ true
      → Acquired s p (acquire_from k s p limit w)
  unfolding acquire_from baseline_presents
  acquire_from-Acquired k s p limit w n d v a =
      if_cases (Acquired s p)
        (s.lease.active_producer == s.baseline.identity
          && validate (some s.lease) s.baseline.identity s.lease.generation)
        (λ g.
          let q : s.lease.active_producer ≡ s.baseline.identity = ground arith in
          let x : s.exclusive ≡ none = baseline_alone s s.exclusive refl v.holder q in
          let (previous, f, i, m, _) = found s s.exclusive refl v.based v.holder in
          elim (handoff-Hands k s p limit v.based n (v.valid, a) previous w f i m
            (omega (arith, i, q))) [
              | inl (e, o, t) ↦ handed-Acquired s p (handoff k s p limit w) n d v e o t
              | inr h ↦ Refused-Acquired s p (handoff k s p limit w) x v h
            ])
        (λ _. (v, inr ((λ e. cc), refl, inl refl)))

  -- The acquisition goes on from a recovered service.
  weaken-Acquired :
      (s t : Service W) (p : Producer W) (r : Reply W)
      → t.exclusive ≡ none
      → Acquired t p r
      → Acquired s p r
  weaken-Acquired s t p r x (c, inl h) = (c, inl h)
  weaken-Acquired s t p r x (c, inr (e, o, inl q)) =
      (c, inr (e, o, inr (ap (λ y. y.exclusive) q ∙ x)))
  weaken-Acquired s t p r x (c, inr (e, o, inr q)) = (c, inr (e, o, inr q))

  resumed :
      (k : Presenter W) (s : Service W) (p : Producer W) (limit : ℕ)
      → 1 ≤ p.identity
      → p.identity ≢ s.baseline.identity
      → IsSettled s
      → (r : Reply W) → Ready s r
      → Acquired s p (if is_ok r.error then acquire_from k r.service p limit r.world else r)
  resumed k s p limit n d v r (inl (e, u, a, inl t)) = rw (ap is_ok e) (
      subst (λ x. Acquired x p (acquire_from k r.service p limit r.world)) t
        (acquire_from-Acquired k r.service p limit r.world n
          (ground (arith, ap (λ x. x.baseline.identity) t)) u a))
  resumed k s p limit n d v r (inl (e, u, a, inr t)) =
      let h : Acquired r.service p (acquire_from k r.service p limit r.world) =
        acquire_from-Acquired k r.service p limit r.world n
          (ground (arith, ap (λ x. x.baseline.identity) t)) u a in
      rw (ap is_ok e) (
        weaken-Acquired s r.service p (acquire_from k r.service p limit r.world)
          (ap (λ y. y.exclusive) t) h)
  resumed k s p limit n d v r (inr (e, t, o)) =
      if_cases (Acquired s p) (is_ok r.error) (λ g. absurd (e (is_ok_eq r.error g)))
        (λ _. (subst IsSettled (sym t) v, inr (e, o, inl t)))

  -- Any acquisition from a settled service, whatever the producers and the presenter answer, leaves a
  -- settled one. If it succeeds, the producer is the exclusive one and validates under the generation
  -- that was written; if it fails, nothing was written, and the service is as it was or without an
  -- exclusive producer.
  pub acquire-Acquired :
      (k : Presenter W) (s : Service W) (p : Producer W) (limit : ℕ) (out taken : Bool) (w : W)
      → IsSettled s
      → Acquired s p (acquire k s p limit out taken w)
  unfolding acquire
  acquire-Acquired k s p limit out taken w v =
      if_cases (Acquired s p)
        (p.identity == 0 || not out || limit == 0 || p.identity == s.baseline.identity)
        (λ _. (v, inr ((λ e. cc), refl, inl refl)))
        (λ g.
          if_cases (Acquired s p) (not taken) (λ _. (v, inr ((λ e. cc), refl, inl refl)))
            (λ _.
              resumed k s p limit (ground arith) (ground arith) v (recover_first k s limit w)
                (recover_first-Ready k s limit w v)))
