-- ===== src/Update/Check/Subscription.antt =====
-- Subscriptions and unsubscriptions of observers.
use esp_mosaico_claw.Base.{
  ℕ, ◌≡◌, refl, sym, ap, subst, ◌⊎◌, ◌∙◌, ◌≢◌, inl, inr, Bool, true, not, ◌&&◌, Option-cases, some,
  List, [], ◌∷◌, arith, if_cases, ◌==◌, length, length-set, set, get_elem?, All, EspErr, ok,
}
use esp_mosaico_claw.Update.Check.{
  Observer, Notice, Checker, subscriber_max, no_observer, is_observer, find_free, subscribe,
  clear_observer, unsubscribe,
}
use esp_mosaico_claw.Update.Check.Slots.{
  Zeroed, Other, Distinct, find_free_absent, find_free_vacant, clear-set, All-set, Distinct-set,
}

-- The slots of the observers are in order.
pub record IsOrdered (os : List Observer) : Type 0 where
  pub counted : length os ≡ subscriber_max
  pub zeroed : All Zeroed os
  pub distinct : Distinct os

abbrev pub subscribed : Checker → ℕ → ℕ → ℕ → EspErr × Checker × List Notice
subscribed s c u m = (
  ok,
  record s { observers = set s.observers m (record { callback = c; user_ctx = u }) },
  (record { callback = c; user_ctx = u }, s.snapshot) ∷ [],
)

-- The outcomes of a subscription: a slot that was free is taken, or the call is refused.
abbrev pub Subscribes : Checker → ℕ → ℕ → EspErr × Checker × List Notice → Type 0
Subscribes s c u r =
    ((m : ℕ) × (o : Observer) × (get_elem? s.observers m ≡ some o)
      × (o.callback ≡ 0)
      × (s.initialized ≡ true)
      × (c ≢ 0)
      × All (Other c u) s.observers
      × (r ≡ subscribed s c u m))
    ⊎ ((r.0 ≢ ok) × (r.1 ≡ s) × (r.2 ≡ []))

pub subscribe-Subscribes :
    (s : Checker) (c u : ℕ) (lock : Bool)
    → length s.observers ≡ subscriber_max
    → Subscribes s c u (subscribe s c u lock)
unfolding subscribe
subscribe-Subscribes s c u lock l =
    if_cases (Subscribes s c u) (not (s.initialized && not (c == 0)))
      (λ _. inr (λ e. ground arith, refl, refl))
      (λ a.
        if_cases (Subscribes s c u) (not lock) (λ _. inr (λ e. ground arith, refl, refl))
          (λ _. elim (Option-cases (find_free c u 0 subscriber_max s.observers)) [
            | inl e ↦ rw e (inr (λ x. ground arith, refl, refl))
            | inr (n, e) ↦ rw e (
                if_cases (Subscribes s c u) (n == subscriber_max)
                  (λ _. inr (λ x. ground arith, refl, refl))
                  (λ b.
                    let (m, q, o, g, z) =
                      find_free_vacant c u 0 s.observers n (omega arith) (ground arith) e in
                    inl (
                      m,
                      o,
                      g,
                      z,
                      ground arith,
                      ground arith,
                      find_free_absent c u 0 subscriber_max s.observers n e,
                      ap (subscribed s c u) (q ∙ omega arith),
                    )))
          ]))

IsOrdered-set :
    (os : List Observer) (c u m : ℕ)
    → IsOrdered os
    → c ≢ 0
    → All (Other c u) os
    → IsOrdered (set os m (record { callback = c; user_ctx = u }))
IsOrdered-set os c u m v h a =
    let o : Observer = record { callback = c; user_ctx = u } in
    record {
      counted = length-set os m o ∙ v.counted;
      zeroed = All-set Zeroed os m o v.zeroed (λ e. absurd (h e));
      distinct = Distinct-set os m o a v.distinct;
    }

pub subscribe-IsOrdered :
    (s : Checker) (c u : ℕ) (lock : Bool)
    → IsOrdered s.observers
    → IsOrdered ((subscribe s c u lock).1.observers)
subscribe-IsOrdered s c u lock v = elim (subscribe-Subscribes s c u lock v.counted) [
  | inl (m, o, g, z, i, h, a, e) ↦
      subst (λ r. IsOrdered (r.1.observers)) (sym e) (IsOrdered-set s.observers c u m v h a)
  | inr (h, e, n) ↦ subst (λ t. IsOrdered t.observers) (sym e) v
]

clear_length : (c u : ℕ) (os : List Observer) → length ((clear_observer c u os).1) ≡ length os
unfolding clear_observer
clear_length c u [] = refl
clear_length c u (o ∷ os) = ground (arith, clear_length c u os)

clear_All :
    (P : Observer → Type 0) (c u : ℕ) (os : List Observer)
    → P no_observer
    → All P os
    → All P ((clear_observer c u os).1)
unfolding clear_observer
clear_All P c u [] p a = tt
clear_All P c u (o ∷ os) p a =
    if_cases (λ (r : EspErr × List Observer). All P r.1) (is_observer c u o) (λ _. (p, a.1))
      (λ _. (a.0, clear_All P c u os p a.1))

Other-free : (o : Observer) → o.callback ≢ 0 → Other o.callback o.user_ctx no_observer
unfolding is_observer
Other-free o h = ground arith

clear_Distinct : (c u : ℕ) (os : List Observer) → Distinct os → Distinct ((clear_observer c u os).1)
unfolding clear_observer
clear_Distinct c u [] d = tt
clear_Distinct c u (o ∷ os) d =
    if_cases (λ (r : EspErr × List Observer). Distinct r.1) (is_observer c u o)
      (λ _. (λ h. absurd (h refl), d.1))
      (λ _. (
        λ h. clear_All (Other o.callback o.user_ctx) c u os (Other-free o h) (d.0 h),
        clear_Distinct c u os d.1,
      ))

pub unsubscribe-IsOrdered :
    (s : Checker) (c u : ℕ) (lock : Bool)
    → IsOrdered s.observers
    → IsOrdered ((unsubscribe s c u lock).1.observers)
unfolding unsubscribe
unsubscribe-IsOrdered s c u lock v =
    let P = λ (r : EspErr × Checker). IsOrdered (r.1.observers) in
    if_cases P (not (s.initialized && not (c == 0))) (λ _. v)
      (λ _.
        if_cases P (not lock) (λ _. v)
          (λ _. record {
            counted = clear_length c u s.observers ∙ v.counted;
            zeroed = clear_All Zeroed c u s.observers (λ _. refl) v.zeroed;
            distinct = clear_Distinct c u s.observers v.distinct;
          }))

pub subscribe_keeps :
    (s : Checker) (c u : ℕ) (lock : Bool)
    → length s.observers ≡ subscriber_max
    → let t = (subscribe s c u lock).1 in (t.task ≡ s.task) × (t.snapshot ≡ s.snapshot)
subscribe_keeps s c u lock l = elim (subscribe-Subscribes s c u lock l) [
  | inl (m, o, g, z, i, h, a, e) ↦ (ap (λ r. r.1.task) e, ap (λ r. r.1.snapshot) e)
  | inr (h, e, n) ↦ (ap (λ t. t.task) e, ap (λ t. t.snapshot) e)
]

pub unsubscribe_keeps :
    (s : Checker) (c u : ℕ) (lock : Bool)
    → let t = (unsubscribe s c u lock).1 in (t.task ≡ s.task) × (t.snapshot ≡ s.snapshot)
unfolding unsubscribe
unsubscribe_keeps s c u lock =
    let P = λ (r : EspErr × Checker). (r.1.task ≡ s.task) × (r.1.snapshot ≡ s.snapshot) in
    if_cases P (not (s.initialized && not (c == 0))) (λ _. (refl, refl))
      (λ _. if_cases P (not lock) (λ _. (refl, refl)) (λ _. (refl, refl)))

unsubscribe_back :
    (s : Checker) (c u m : ℕ)
    → s.initialized ≡ true
    → c ≢ 0
    → clear_observer c u (set s.observers m (record { callback = c; user_ctx = u }))
      ≡ (ok, s.observers)
    → unsubscribe
        (record s { observers = set s.observers m (record { callback = c; user_ctx = u }) })
        c
        u
        true
      ≡ (ok, s)
unfolding unsubscribe
unsubscribe_back s c u m i h e = ground arith

-- After a subscription that succeeds the observer has been called once, with the snapshot, and the
-- unsubscription succeeds and gives the state back as it was. (The slots of the observers are in
-- order before: four, the free ones zero and the others different.)
pub subscribe-unsubscribe :
    (s : Checker) (c u : ℕ) (lock : Bool)
    → IsOrdered s.observers
    → (subscribe s c u lock).0 ≡ ok
    → ((subscribe s c u lock).2 ≡ (record { callback = c; user_ctx = u }, s.snapshot) ∷ [])
      × (unsubscribe ((subscribe s c u lock).1) c u true ≡ (ok, s))
subscribe-unsubscribe s c u lock v e = elim (subscribe-Subscribes s c u lock v.counted) [
  | inl (m, o, g, z, i, h, a, q) ↦ (
    ap (λ r. r.2) q,
    ap (λ r. unsubscribe r.1 c u true) q
        ∙ unsubscribe_back s c u m i h (clear-set c u s.observers m o a v.zeroed g z),
  )
  | inr (h, q, n) ↦ absurd (h e)
]
