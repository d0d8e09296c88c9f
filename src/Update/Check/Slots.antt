-- ===== src/Update/Check/Slots.antt =====
-- The slots of the observers as lists: the free one that a subscription takes, and what it changes.
use esp_mosaico_claw.Base.{
  ℕ, zero, suc, ◌+◌, ◌≤◌, ◌≡◌, refl, ◌∙◌, ◌≢◌, inl, inr, false, ◌&&◌, Bool-cases, some, List, [],
  ◌∷◌, arith, if◌then◌else◌, ◌==◌, length, set, get_elem?, All, ok,
}
use esp_mosaico_claw.Update.Check.{Observer, subscriber_max, is_observer, find_free, clear_observer}

-- A free slot is all zero.
abbrev pub Zeroed : Observer → Type 0
Zeroed o = o.callback ≡ 0 → o.user_ctx ≡ 0

abbrev pub Other : ℕ → ℕ → Observer → Type 0
Other callback user_ctx o = is_observer callback user_ctx o ≡ false

-- The slots that are taken differ.
abbrev pub Distinct : List Observer → Type 0
Distinct [] = Unit
Distinct (o ∷ os) = (o.callback ≢ 0 → All (Other o.callback o.user_ctx) os) × Distinct os

pub find_free_absent :
    (c u i free : ℕ) (os : List Observer) (n : ℕ)
    → find_free c u i free os ≡ some n
    → All (Other c u) os
unfolding find_free
find_free_absent c u i free [] n e = tt
find_free_absent c u i free (o ∷ os) n e = elim (Bool-cases (is_observer c u o)) [
  | inl t ↦ ground arith
  | inr f ↦ (
    f,
    find_free_absent c u (i + 1) (if free == subscriber_max && o.callback == 0 then i else free) os
        n (ground arith),
  )
]

-- An index once chosen stays.
find_free_stays :
    (c u i free : ℕ) (os : List Observer) (n : ℕ)
    → free ≢ subscriber_max
    → find_free c u i free os ≡ some n
    → n ≡ free
unfolding find_free
find_free_stays c u i free [] n h e = ground arith
find_free_stays c u i free (o ∷ os) n h e = find_free_stays c u (i + 1) free os n h (ground arith)

pub find_free_vacant :
    (c u i : ℕ) (os : List Observer) (n : ℕ)
    → i + length os ≤ subscriber_max
    → n ≢ subscriber_max
    → find_free c u i subscriber_max os ≡ some n
    → (m : ℕ) × (n ≡ i + m) × (o : Observer) × (get_elem? os m ≡ some o) × (o.callback ≡ 0)
unfolding find_free
find_free_vacant c u i [] n l h e = ground arith
find_free_vacant c u i (o ∷ os) n l h e = elim (Bool-cases (o.callback == 0)) [
  | inl t ↦ (
    0,
    find_free_stays c u (i + 1) i os n (ground arith) (ground arith) ∙ ground arith,
    o,
    refl,
    ground arith,
  )
  | inr f ↦
      let (m, q, o', g, z) = find_free_vacant c u (i + 1) os n (omega arith) h (ground arith) in
      (suc m, omega arith, o', g, z)
]

-- Clearing the observer that was put into a free slot restores the slots.
pub clear-set :
    (c u : ℕ) (os : List Observer) (m : ℕ) (o : Observer)
    → All (Other c u) os
    → All Zeroed os
    → get_elem? os m ≡ some o
    → o.callback ≡ 0
    → clear_observer c u (set os m (record { callback = c; user_ctx = u })) ≡ (ok, os)
unfolding clear_observer is_observer
clear-set c u [] m o a z g h = ground arith
clear-set c u (x ∷ os) zero o a z g h = ground arith
clear-set c u (x ∷ os) (suc m) o a z g h =
    rw (clear-set c u os m o a.1 z.1 g h, a.0, clear_observer) refl

pub All-set :
    (P : Observer → Type 0) (os : List Observer) (m : ℕ) (o : Observer)
    → All P os
    → P o
    → All P (set os m o)
All-set P [] m o a p = tt
All-set P (x ∷ os) zero o a p = (p, a.1)
All-set P (x ∷ os) (suc m) o a p = (a.0, All-set P os m o a.1 p)

-- The test of an observer is symmetric.
Other-flip : (o o' : Observer) → Other o.callback o.user_ctx o' → Other o'.callback o'.user_ctx o
unfolding is_observer
Other-flip o o' h = ground arith

pub Distinct-set :
    (os : List Observer) (m : ℕ) (o : Observer)
    → All (Other o.callback o.user_ctx) os
    → Distinct os
    → Distinct (set os m o)
Distinct-set [] m o a d = tt
Distinct-set (x ∷ os) zero o a d = (λ _. a.1, d.1)
Distinct-set (x ∷ os) (suc m) o a d = (
  λ h. All-set (Other x.callback x.user_ctx) os m o (d.0 h) (Other-flip o x a.0),
  Distinct-set os m o a.1 d.1,
)
