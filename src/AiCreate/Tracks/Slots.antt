-- ===== src/AiCreate/Tracks/Slots.antt =====
-- Searching, filling and clearing the slots.
use esp_mosaico_claw.Base.{
  ℕ, zero, suc, ◌≤◌, ◌<◌, ◌≡◌, ◌≢◌, refl, sym, ap, subst, ◌∙◌, ◌⊎◌, inl, inr, Bool, true, false,
  ◌&&◌, none, some, List, [], ◌∷◌, ◌==◌, Bool-cases, Option-cases, arith, length, length-set, All,
  set,
}
use esp_mosaico_claw.AiCreate.Tracks.{Track, free_track, find_index, track_at}

-- What a search tells.
pub find_index-some :
    (p : ℕ → Track → Bool) (ts : List Track) (i : ℕ)
    → find_index p ts ≡ some i
    → (i < length ts) × (p i (track_at ts i) ≡ true)
unfolding find_index
find_index-some p [] i e = cc
find_index-some p (t ∷ ts) i e =
    let P = λ (n : ℕ). (n < suc (length ts)) × (p n (track_at (t ∷ ts) n) ≡ true) in
    elim (Bool-cases (p 0 t)) [
      | inl h ↦ subst P {x = 0} (ground arith) (omega arith, h)
      | inr h ↦ elim (Option-cases (find_index (λ j. p (suc j)) ts)) [
        | inl f ↦ ground arith
        | inr (j, f) ↦
            let (b, q) = find_index-some (λ j. p (suc j)) ts j f in
            subst P {x = suc j} (ground arith) (omega (arith, b), q)
      ]
    ]

pub find_index-none :
    (p : ℕ → Track → Bool) (ts : List Track)
    → find_index p ts ≡ none
    → (i : ℕ) → i < length ts
    → p i (track_at ts i) ≡ false
unfolding find_index
find_index-none p [] e i b = absurd (omega arith)
find_index-none p (t ∷ ts) e zero b = elim (Option-cases (find_index (λ j. p (suc j)) ts)) [
  | inl f ↦ ground arith
  | inr (j, f) ↦ ground arith
]
find_index-none p (t ∷ ts) e (suc i) b = elim (Option-cases (find_index (λ j. p (suc j)) ts)) [
  | inl f ↦ find_index-none (λ j. p (suc j)) ts f i (omega arith)
  | inr (j, f) ↦ ground arith
]

-- A search that finds nothing, and one that finds something.
pub find_index-absent :
    (p : ℕ → Track → Bool) (ts : List Track)
    → ((i : ℕ) → i < length ts → p i (track_at ts i) ≡ false)
    → find_index p ts ≡ none
unfolding find_index
find_index-absent p [] h = refl
find_index-absent p (t ∷ ts) h =
    rw (h 0 (omega arith), find_index-absent (λ j. p (suc j)) ts (λ i b. h (suc i) (omega arith)))
      refl

pub track_at-set_self :
    (ts : List Track) (i : ℕ) (t : Track) → i < length ts → track_at (set ts i t) i ≡ t
track_at-set_self [] i t b = absurd (omega arith)
track_at-set_self (s ∷ ts) zero t b = refl
track_at-set_self (s ∷ ts) (suc i) t b = track_at-set_self ts i t (omega arith)

pub track_at-set_ne :
    (ts : List Track) (i j : ℕ) (t : Track) → i ≢ j → track_at (set ts i t) j ≡ track_at ts j
track_at-set_ne [] i j t h = refl
track_at-set_ne (s ∷ ts) zero zero t h = absurd (h refl)
track_at-set_ne (s ∷ ts) zero (suc j) t h = refl
track_at-set_ne (s ∷ ts) (suc i) zero t h = refl
track_at-set_ne (s ∷ ts) (suc i) (suc j) t h = track_at-set_ne ts i j t (λ e. h (ap suc e))

-- A test that reads the same of the slots before and after a write searches the same.
pub find_index-same :
    (p : ℕ → Track → Bool) (ts : List Track) (i : ℕ) (t : Track)
    → p i t ≡ p i (track_at ts i)
    → find_index p (set ts i t) ≡ find_index p ts
unfolding find_index
find_index-same p [] i t h = refl
find_index-same p (s ∷ ts) zero t h = rw h refl
find_index-same p (s ∷ ts) (suc i) t h = rw (find_index-same (λ j. p (suc j)) ts i t h) refl

-- Two slots in use by the same request.
abbrev pub clash : Track → Track → Bool
clash s t = s.used && t.used && s.request_id == t.request_id

-- A request has one slot at most.
abbrev pub Distinct : List Track → Type 0
Distinct [] = Unit
Distinct (t ∷ ts) = All (λ s. clash t s ≡ false) ts × Distinct ts

pub track_at-outside : (ts : List Track) (i : ℕ) → length ts ≤ i → track_at ts i ≡ free_track
track_at-outside [] i b = refl
track_at-outside (t ∷ ts) zero b = absurd (omega arith)
track_at-outside (t ∷ ts) (suc i) b = track_at-outside ts i (omega arith)

All-at :
    (P : Track → Type 0) (ts : List Track) → All P ts → (i : ℕ) → i < length ts → P (track_at ts i)
All-at P [] a i b = absurd (omega arith)
All-at P (t ∷ ts) a zero b = a.0
All-at P (t ∷ ts) a (suc i) b = All-at P ts a.1 i (omega arith)

All-of :
    (P : Track → Type 0) (ts : List Track)
    → ((i : ℕ) → i < length ts → P (track_at ts i))
    → All P ts
All-of P [] h = tt
All-of P (t ∷ ts) h = (h 0 (omega arith), All-of P ts (λ i b. h (suc i) (omega arith)))

-- A slot that is in use is one of the eight.
pub inside : (ts : List Track) (i : ℕ) → (track_at ts i).used ≡ true → i < length ts
inside [] i u = ground arith
inside (t ∷ ts) zero u = omega arith
inside (t ∷ ts) (suc i) u = omega (arith, inside ts i u)

pub Distinct-apart :
    (ts : List Track) (i j : ℕ)
    → Distinct ts
    → (track_at ts i).used ≡ true
    → (track_at ts j).used ≡ true
    → (track_at ts i).request_id ≡ (track_at ts j).request_id
    → i ≡ j
Distinct-apart [] i j d u v e = ground arith
Distinct-apart (t ∷ ts) zero zero d u v e = refl
Distinct-apart (t ∷ ts) zero (suc j) d u v e =
    let c : clash t (track_at ts j) ≡ false =
      All-at (λ s. clash t s ≡ false) ts d.0 j (inside ts j v) in
    ground arith
Distinct-apart (t ∷ ts) (suc i) zero d u v e =
    let c : clash t (track_at ts i) ≡ false =
      All-at (λ s. clash t s ≡ false) ts d.0 i (inside ts i u) in
    ground arith
Distinct-apart (t ∷ ts) (suc i) (suc j) d u v e = ap suc (Distinct-apart ts i j d.1 u v e)

pub Distinct-of :
    (ts : List Track)
    → ((i j : ℕ)
        → (track_at ts i).used ≡ true
        → (track_at ts j).used ≡ true
        → (track_at ts i).request_id ≡ (track_at ts j).request_id
        → i ≡ j)
    → Distinct ts
Distinct-of [] h = tt
Distinct-of (t ∷ ts) h = (
  All-of (λ s. clash t s ≡ false) ts
      (λ i b. elim (Bool-cases (clash t (track_at ts i))) [
        | inl c ↦
            let q : 0 ≡ suc i = h 0 (suc i) (ground arith) (ground arith) (ground arith) in
            absurd (omega arith)
        | inr c ↦ c
      ]),
  Distinct-of ts (λ i j u v e. omega (arith, h (suc i) (suc j) u v e)),
)

pub same_or_not : (i j : ℕ) → (i ≡ j) ⊎ (i ≢ j)
same_or_not i j = elim (Bool-cases (i == j)) [
  | inl e ↦ inl (ground arith)
  | inr e ↦ inr (λ q. ground arith)
]

-- The new slot and another one.
apart_new :
    (ts : List Track) (i j k : ℕ) (t : Track)
    → i < length ts
    → i ≡ j
    → i ≢ k
    → clash t (track_at ts k) ≡ false
    → (track_at (set ts i t) j).used ≡ true
    → (track_at (set ts i t) k).used ≡ true
    → (track_at (set ts i t) j).request_id ≡ (track_at (set ts i t) k).request_id
    → j ≡ k
apart_new ts i j k t b m n c u v e =
    let p : track_at (set ts i t) j ≡ t =
      ap (track_at (set ts i t)) (sym m) ∙ track_at-set_self ts i t b in
    let q : track_at (set ts i t) k ≡ track_at ts k = track_at-set_ne ts i k t n in
    let u' : t.used ≡ true = sym (ap (λ (s : Track). s.used) p) ∙ u in
    let v' : (track_at ts k).used ≡ true = sym (ap (λ (s : Track). s.used) q) ∙ v in
    let e' : t.request_id ≡ (track_at ts k).request_id =
      sym (ap (λ (s : Track). s.request_id) p) ∙ e ∙ ap (λ (s : Track). s.request_id) q in
    ground arith

-- A write keeps requests apart if the new slot clashes with none of the others.
pub Distinct-set :
    (ts : List Track) (i : ℕ) (t : Track)
    → Distinct ts
    → ((j : ℕ) → i ≢ j → clash t (track_at ts j) ≡ false)
    → Distinct (set ts i t)
Distinct-set ts i t d h = Distinct-of (set ts i t) (λ j k u v e.
    let bj : j < length ts = omega (arith, inside (set ts i t) j u, length-set ts i t) in
    let bk : k < length ts = omega (arith, inside (set ts i t) k v, length-set ts i t) in
    elim (same_or_not i j) [
      | inl p ↦ elim (same_or_not i k) [
        | inl q ↦ sym p ∙ q
        | inr q ↦ apart_new ts i j k t (omega arith) p q (h k q) u v e
      ]
      | inr p ↦ elim (same_or_not i k) [
        | inl q ↦ sym (apart_new ts i k j t (omega arith) q p (h j p) v u (sym e))
        | inr q ↦
            let x : track_at (set ts i t) j ≡ track_at ts j = track_at-set_ne ts i j t p in
            let y : track_at (set ts i t) k ≡ track_at ts k = track_at-set_ne ts i k t q in
            Distinct-apart ts j k d (sym (ap (λ (s : Track). s.used) x) ∙ u)
              (sym (ap (λ (s : Track). s.used) y) ∙ v)
              (sym (ap (λ (s : Track). s.request_id) x) ∙ e ∙ ap (λ (s : Track). s.request_id) y)
      ]
    ])
