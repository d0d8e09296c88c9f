-- ===== src/Display/Service/Release.antt =====
-- What a release leaves behind, and any sequence of acquisitions and releases.
use esp_mosaico_claw.Base.{
  ℕ, ◌≤◌, ◌≡◌, refl, sym, ap, ◌∙◌, subst, ◌≢◌, ◌⊎◌, inl, inr, Bool, true, false, not, ◌&&◌, ◌||◌,
  none, some, arith, if◌then◌else◌, if_cases, ◌==◌, ok, is_ok,
}
use esp_mosaico_claw.Display.Lease.{is_active, next_generation, validate}
use esp_mosaico_claw.Display.Service.{
  Presenter, Service, Reply, handoff, baseline_presents, recover_first, release_from, release,
}
use esp_mosaico_claw.Display.Service.Steps.{is_ok_eq, recovered, handed}
use esp_mosaico_claw.Display.Service.Handoff.{Hands, handoff-Hands}
use esp_mosaico_claw.Display.Service.Outcome.{
  IsSettled, recovered-IsSettled, Refused-IsSettled, found, Ready, recover_first-Ready,
  baseline_alone,
}

module _ {W : Type 0} where
  -- What a release can leave: the baseline has the screen under the generation that was written, or
  -- nothing was written.
  abbrev pub Released : Reply W → Type 0
  Released r =
      IsSettled r.service
      × (((r.error ≡ ok)
            × (r.service.exclusive ≡ none)
            × (r.out ≡ some r.service.lease.generation)
            × (validate (some r.service.lease) r.service.baseline.identity
                  r.service.lease.generation
                ≡ true))
          ⊎ ((r.error ≢ ok) × (r.out ≡ none)))

  granted_validates :
      (s : Service W)
      → 1 ≤ s.baseline.identity
      → validate (some (recovered s).lease) s.baseline.identity (next_generation s.lease.generation)
        ≡ true
  unfolding validate
  granted_validates s b = ground arith

  handed_back : (s : Service W) → handed s s.baseline ≡ recovered s
  handed_back s = ground arith

  -- A handoff to the baseline.
  returned : (s : Service W) (r : Reply W) → IsSettled s → Hands s s.baseline r → Released r
  returned s r v (inr h) = (Refused-IsSettled s r v h, inr (h.0, h.1))
  returned s r v (inl (e, o, t)) =
      let q : r.service ≡ recovered s = t ∙ handed_back s in
      (
        subst IsSettled (sym q) (recovered-IsSettled s v),
        inl (
          e,
          ap (λ u. u.exclusive) q,
          o ∙ ap (λ u. some u.lease.generation) (sym q),
          subst (λ u. validate (some u.lease) u.baseline.identity u.lease.generation ≡ true) (sym q)
              (granted_validates s v.based),
        ),
      )

  other_presents :
      (s : Service W)
      → 1 ≤ s.baseline.identity
      → is_active s.lease.state ≡ true
      → (s.lease.active_producer == s.baseline.identity
          && validate (some s.lease) s.baseline.identity s.lease.generation)
        ≡ false
      → s.lease.active_producer ≢ s.baseline.identity
  unfolding validate
  other_presents s b a h q = absurd (ground arith)

  release_from-Released :
      (k : Presenter W) (s : Service W) (p g limit : ℕ) (w : W)
      → IsSettled s
      → is_active s.lease.state ≡ true
      → Released (release_from k s p g limit w)
  unfolding release_from baseline_presents
  release_from-Released k s p g limit w v a =
      if_cases Released
        (s.lease.active_producer == s.baseline.identity
          && validate (some s.lease) s.baseline.identity s.lease.generation)
        (λ h. (
          v,
          inl (refl, baseline_alone s s.exclusive refl v.holder (ground arith), refl, ground arith),
        ))
        (λ h.
          if_cases Released
            (not (validate (some s.lease) p g)
              || not (s.lease.active_producer == p)
              || s.baseline.identity == 0)
            (λ _. (v, inr ((λ e. cc), refl)))
            (λ _.
              let (previous, f, i, m, _) = found s s.exclusive refl v.based v.holder in
              returned s (handoff k s s.baseline limit w) v (
                handoff-Hands k s s.baseline limit v.based v.based (v.valid, a) previous w f i m
                  (λ q. other_presents s v.based a h (sym i ∙ q)))))

  resumed :
      (k : Presenter W) (s : Service W) (p g limit : ℕ) (r : Reply W)
      → Ready s r
      → IsSettled s
      → Released (if is_ok r.error then release_from k r.service p g limit r.world else r)
  resumed k s p g limit r (inl (e, u, a, _)) v =
      rw (ap is_ok e) (release_from-Released k r.service p g limit r.world u a)
  resumed k s p g limit r (inr (e, t, o)) v =
      if_cases Released (is_ok r.error) (λ h. absurd (e (is_ok_eq r.error h)))
        (λ _. (subst IsSettled (sym t) v, inr (e, o)))

  -- Any release from a settled service, by any producer under any generation and whatever the
  -- producers and the presenter answer, leaves a settled one. If it succeeds, there is no exclusive
  -- producer, and the baseline validates under the generation that was written; if it fails, nothing
  -- was written.
  pub release-Released :
      (k : Presenter W) (s : Service W) (p g limit : ℕ) (out taken : Bool) (w : W)
      → IsSettled s
      → Released (release k s p g limit out taken w)
  unfolding release
  release-Released k s p g limit out taken w v =
      if_cases Released (p == 0 || not out || limit == 0) (λ _. (v, inr ((λ e. cc), refl)))
        (λ _.
          if_cases Released (not taken) (λ _. (v, inr ((λ e. cc), refl)))
            (λ _.
              resumed k s p g limit (recover_first k s limit w) (recover_first-Ready k s limit w v)
                v))
