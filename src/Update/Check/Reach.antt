-- ===== src/Update/Check/Reach.antt =====
-- The calls of the service and the end of its worker, in any order.
use esp_mosaico_claw.Base.{
  ℕ, ◌+◌, ◌%◌, ◌≡◌, refl, sym, subst, ◌⊎◌, inl, inr, ◌↔◌, Bool, true, not, ◌||◌, Option-cases, none,
  some, List, [], ◌∷◌, arith, if◌then◌else◌, if_cases, EspErr, ok, is_blank, is_ok, u32_mod, ◌++◌,
}
use esp_mosaico_claw.Update.Check.Manifest.{CheckState, Snapshot, CJson}
use esp_mosaico_claw.Update.Check.Worker.{Settled, assess-Settled, Settled-sequence, Settled-over}
use esp_mosaico_claw.Update.Check.Subscription.{
  IsOrdered, subscribe_keeps, unsubscribe_keeps, subscribe-IsOrdered, unsubscribe-IsOrdered,
}
use esp_mosaico_claw.Update.Check.{
  Notice, Checker, Config, Transfer, http_get, finish, assess, worker, init, request, subscribe,
  unsubscribe, is_checking, configured, check_config,
}

-- A call, with the answers of the system under it. The task can end only while there is one.
pub data Call : Type 0 where
  requests : Bool → Bool → Call
  works : Transfer → Bool → Call
  subscribes unsubscribes : ℕ → ℕ → Bool → Call

module _ (ulong_max : ℕ) {J : Type 0} (k : CJson J) where
  -- The state after a call and the calls of the observers. The fuel is that of Download.Append.
  unfoldable pub call : Checker → Call → Checker × List Notice
  call s (requests lock created) = let (e, s', ns) = request s lock created in (s', ns)
  call s (works t lock) =
      if s.task
      then elim (worker ulong_max k (s.max_body_size + 2) s t lock) [ none ↦ (s, []) | some p ↦ p ]
      else (s, [])
  call s (subscribes c u lock) = let (e, s', ns) = subscribe s c u lock in (s', ns)
  call s (unsubscribes c u lock) = ((unsubscribe s c u lock).1, [])

  unfoldable pub calls : Checker → List Call → Checker × List Notice
  calls s [] = (s, [])
  calls s (c ∷ cs) = let (s', ns) = call s c in let (s'', ms) = calls s' cs in (s'', ns ++ ms)

  -- What a snapshot may show.
  abbrev pub Shown : Snapshot → Type 0
  Shown r =
      ((r.state ≡ CheckState.idle) × (r.last_error ≡ ok))
      ⊎ ((r.state ≡ CheckState.checking) × (r.last_error ≡ ok))
      ⊎ Settled ulong_max k r

  -- The observers are in order, there is a worker exactly while a check is under way, and the
  -- snapshot is idle, checking, failed with an error, or a decision without one.
  pub record IsCoherent (s : Checker) : Type 0 where
    pub ordered : IsOrdered s.observers
    pub working : (s.task ≡ true) ↔ (s.snapshot.state ≡ CheckState.checking)
    pub shown : Shown s.snapshot

  request-IsCoherent :
      (s : Checker) (lock created : Bool) → IsCoherent s → IsCoherent ((request s lock created).1)
  unfolding request
  request-IsCoherent s lock created v =
      let P = λ (p : EspErr × Checker × List Notice). IsCoherent p.1 in
      if_cases P (not s.initialized) (λ _. v)
        (λ _.
          if_cases P (is_blank s.manifest_url) (λ _. v)
            (λ _.
              if_cases P (not lock) (λ _. v)
                (λ _.
                  if_cases P (s.task || is_checking s.snapshot.state) (λ _. v)
                    (λ _.
                      if_cases P (not created)
                        (λ _. record {
                          ordered = v.ordered;
                          working = (λ e. ground arith, λ e. cc);
                          shown = inr (inr (inl (refl, λ e. cc)));
                        })
                        (λ _. record {
                          ordered = v.ordered;
                          working = (λ _. refl, λ _. refl);
                          shown = inr (inl (refl, refl));
                        })))))

  finish-IsCoherent :
      (s : Checker) (r : Snapshot) (lock : Bool)
      → Settled ulong_max k r
      → IsCoherent s
      → IsCoherent ((finish s r lock).0)
  unfolding finish
  finish-IsCoherent s r lock h v =
      if_cases (λ (p : Checker × List Notice). IsCoherent p.0) lock
        (λ _. record {
          ordered = v.ordered;
          working = (λ e. ground arith, λ e. absurd (Settled-over ulong_max k r h e));
          shown =
              inr (inr (Settled-sequence ulong_max k r ((s.snapshot.sequence + 1) % u32_mod) h));
        })
        (λ _. v)

  -- A call that changes the observers only.
  observed-IsCoherent :
      (s t : Checker)
      → (t.task ≡ s.task) × (t.snapshot ≡ s.snapshot)
      → IsOrdered t.observers
      → IsCoherent s
      → IsCoherent t
  observed-IsCoherent s t (a, b) o v = record {
    ordered = o;
    working =
        subst (λ x. (x ≡ true) ↔ (t.snapshot.state ≡ CheckState.checking)) (sym a)
          (subst (λ r. (s.task ≡ true) ↔ (r.state ≡ CheckState.checking)) (sym b) v.working);
    shown = subst Shown (sym b) v.shown;
  }

  call-IsCoherent : (s : Checker) (c : Call) → IsCoherent s → IsCoherent ((call s c).0)
  unfolding call worker
  call-IsCoherent s (requests lock created) v = request-IsCoherent s lock created v
  call-IsCoherent s (works t lock) v =
      if_cases (λ (p : Checker × List Notice). IsCoherent p.0) s.task
        (λ _. elim (Option-cases (http_get (s.max_body_size + 2) s.max_body_size t)) [
          | inl a ↦ rw (a, worker) v
          | inr ((e, r), a) ↦
              rw (a, worker)
                (finish-IsCoherent s (assess ulong_max k s e r) lock
                  (assess-Settled ulong_max k s e r) v)
        ])
        (λ _. v)
  call-IsCoherent s (subscribes c u lock) v =
      observed-IsCoherent s ((subscribe s c u lock).1)
        (subscribe_keeps s c u lock v.ordered.counted) (subscribe-IsOrdered s c u lock v.ordered) v
  call-IsCoherent s (unsubscribes c u lock) v =
      observed-IsCoherent s ((unsubscribe s c u lock).1) (unsubscribe_keeps s c u lock)
        (unsubscribe-IsOrdered s c u lock v.ordered) v

  calls-IsCoherent : (s : Checker) (cs : List Call) → IsCoherent s → IsCoherent ((calls s cs).0)
  unfolding calls
  calls-IsCoherent s [] v = v
  calls-IsCoherent s (c ∷ cs) v = calls-IsCoherent ((call s c).0) cs (call-IsCoherent s c v)

  configured-IsCoherent : (c : Config) → IsCoherent (configured c)
  configured-IsCoherent c = record {
    ordered = record {
      counted = refl;
      zeroed = (λ _. refl, (λ _. refl, (λ _. refl, (λ _. refl, tt))));
      distinct = (
        λ h. absurd (h refl),
        (λ h. absurd (h refl), (λ h. absurd (h refl), (λ h. absurd (h refl), tt))),
      );
    };
    working = (λ e. cc, λ e. cc);
    shown = inl (refl, refl);
  }

  init-IsCoherent :
      (s : Checker) (c : Config) (mutex : Bool)
      → (init ulong_max s (some c) mutex).0 ≡ ok
      → IsCoherent ((init ulong_max s (some c) mutex).1)
  unfolding init
  init-IsCoherent s c mutex =
      let P = λ (p : EspErr × Checker). p.0 ≡ ok → IsCoherent p.1 in
      if_cases P (not (is_ok (check_config ulong_max c s.initialized))) (λ a. λ e. ground arith)
        (λ _. if_cases P (not mutex) (λ _. λ e. cc) (λ _. λ _. configured-IsCoherent c))

  -- After an initialization that succeeds and any calls in any order, with any answers of the
  -- system, there is a worker exactly while a check is under way, the observers' slots are four, the
  -- free ones zero and the others different, and the snapshot is idle, checking, failed with an
  -- error, or without an error what the comparison of its two versions calls for.
  pub init-calls-IsCoherent :
      (s : Checker) (c : Config) (mutex : Bool) (cs : List Call)
      → (init ulong_max s (some c) mutex).0 ≡ ok
      → IsCoherent ((calls ((init ulong_max s (some c) mutex).1) cs).0)
  init-calls-IsCoherent s c mutex cs e =
      calls-IsCoherent ((init ulong_max s (some c) mutex).1) cs (init-IsCoherent s c mutex e)
