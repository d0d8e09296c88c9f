-- ===== src/Http/Paths/Contained.antt =====
-- Where a resolved path leads. The reference is the resolution of a path by a
-- file system without links: the components one after another, `.` and the empty one in place, `..`
-- back to the parent.
use esp_mosaico_claw.Base.{
  ℕ, ◌<◌, ◌≡◌, refl, sym, ap, ◌∙◌, subst, inl, inr, Bool, true, false, ◌&&◌, ◌||◌, Bool-cases, some,
  List, [], ◌∷◌, ◌++◌, arith, if◌then◌else◌, if_cases, ◌==◌, length, All, Text, text, text_eq,
  text_eq_iff, ok,
}
use esp_mosaico_claw.Http.Paths.{has_parent, starts_with_slash, path_is_safe, resolve_storage_path}

-- The components of a path.
abbrev pub push : ℕ → List Text → List Text
push c [] = (c ∷ []) ∷ []
push c (p ∷ ps) = (c ∷ p) ∷ ps

pub split : Text → List Text
split [] = [] ∷ []
split (c ∷ s) = let rest = split s in if c == b'/' then [] ∷ rest else push c rest

abbrev parent_of : List Text → List Text
parent_of [] = []
parent_of (p ∷ ps) = ps

-- The place that a list of components leads to; a place is its names, the innermost first.
pub walk : List Text → List Text → List Text
walk [] place = place
walk (p ∷ ps) place =
    if text_eq p (text "") || text_eq p (text ".")
    then walk ps place
    else if text_eq p (text "..")
    then walk ps (parent_of place)
    else walk ps (p ∷ place)

-- A place is another one or lies below it.
abbrev pub Below : List Text → List Text → Type 0
Below base place = (names : List Text) × (place ≡ names ++ base)

abbrev Free : Text → Type 0
Free p = has_parent p ≡ false

Free-push :
    (c d : ℕ) (slash : Bool) (ps : List Text)
    → (c == b'.' && d == b'.') ≡ false
    → All Free (if slash then [] ∷ ps else push d ps)
    → All Free (push c (if slash then [] ∷ ps else push d ps))
unfolding has_parent
Free-push c d true ps h a = (refl, a.1)
Free-push c d false [] h a = (ground arith, tt)
Free-push c d false (p ∷ ps) h a = (ground (arith, a.0), a.1)

Free-parts : (s : Text) → has_parent s ≡ false → All Free (split s)
unfolding has_parent split
Free-parts [] h = (refl, tt)
Free-parts (c ∷ []) h = if_cases (All Free) (c == b'/') (λ _. (refl, (refl, tt))) (λ _. (refl, tt))
Free-parts (c ∷ d ∷ s) h =
    let a : All Free (split (d ∷ s)) = Free-parts (d ∷ s) (ground arith) in
    if_cases (All Free) (c == b'/') (λ _. (refl, a))
      (λ _. Free-push c d (d == b'/') (split s) (ground arith) a)

parent_not-Free : ¬ Free (text "..")
unfolding has_parent
parent_not-Free = λ e. cc

Free-text : (p : Text) → Free p → text_eq p (text "..") ≡ false
Free-text p h = elim (Bool-cases (text_eq p (text ".."))) [
  | inl e ↦ absurd (parent_not-Free (subst Free ((text_eq_iff p (text "..")).0 e) h))
  | inr e ↦ e
]

walk-Below :
    (ps : List Text) (base place : List Text)
    → All Free ps
    → Below base place
    → Below base (walk ps place)
unfolding walk
walk-Below [] base place a b = b
walk-Below (p ∷ ps) base place a b =
    if_cases (Below base) (text_eq p (text "") || text_eq p (text "."))
      (λ _. walk-Below ps base place a.1 b)
      (λ _.
        if_cases (Below base) (text_eq p (text "..")) (λ e. ground (arith, Free-text p a.0))
          (λ _. walk-Below ps base (p ∷ place) a.1 (p ∷ b.0, ap (◌∷◌ p) b.1)))

-- A path has a first component.
abbrev Cons : List Text → Type 0
Cons ps = (p : Text) × (rest : List Text) × (ps ≡ p ∷ rest)

push-Cons : (c : ℕ) (ps : List Text) → Cons (push c ps)
push-Cons c [] = (c ∷ [], [], refl)
push-Cons c (p ∷ ps) = (c ∷ p, ps, refl)

split-Cons : (s : Text) → Cons (split s)
unfolding split
split-Cons [] = ([], [], refl)
split-Cons (c ∷ s) =
    if_cases Cons (c == b'/') (λ _. ([], split s, refl)) (λ _. push-Cons c (split s))

component-append :
    (c : ℕ) (slash : Bool) (ps qs : List Text)
    → Cons ps
    → (if slash then [] ∷ (ps ++ qs) else push c (ps ++ qs))
      ≡ (if slash then [] ∷ ps else push c ps) ++ qs
component-append c true ps qs h = refl
component-append c false [] qs (p, rest, e) = absurd (ground arith)
component-append c false (p' ∷ ps) qs h = refl

split-slash : (s t : Text) → split (s ++ b'/' ∷ t) ≡ split s ++ split t
unfolding split
split-slash [] t = refl
split-slash (c ∷ s) t =
    rw (split-slash s t) (component-append c (c == b'/') (split s) (split t) (split-Cons s))

walk-append : (ps qs place : List Text) → walk (ps ++ qs) place ≡ walk qs (walk ps place)
unfolding walk
walk-append [] qs place = refl
walk-append (p ∷ ps) qs place = ground (
  arith,
  walk-append ps qs place,
  walk-append ps qs (parent_of place),
  walk-append ps qs (p ∷ place),
)

-- What a resolution that succeeds tells.
resolved :
    (base relative full : Text) (size : ℕ)
    → resolve_storage_path base (some relative) size ≡ (ok, some full)
    → (full ≡ base ++ relative)
      × (length full < size)
      × (starts_with_slash relative ≡ true)
      × (has_parent relative ≡ false)
unfolding resolve_storage_path path_is_safe
resolved base relative full size e =
    let q : full ≡ base ++ relative = ground arith in
    let n : length full ≡ length (base ++ relative) = ap length q in
    (q, ground arith, ground arith, ground arith)

has_parent-tail : (c : ℕ) (s : Text) → has_parent (c ∷ s) ≡ false → has_parent s ≡ false
unfolding has_parent
has_parent-tail c [] h = refl
has_parent-tail c (d ∷ s) h = ground arith

-- A path that is resolved is the storage's followed by the relative one, fits the buffer, and leads
-- to the storage's place or to one below it, from wherever the storage's path starts.
pub resolve-Below :
    (base relative full : Text) (size : ℕ) (place : List Text)
    → resolve_storage_path base (some relative) size ≡ (ok, some full)
    → (full ≡ base ++ relative)
      × (length full < size)
      × Below (walk (split base) place) (walk (split full) place)
resolve-Below base [] full size place e =
    let (a, b, c, d) = resolved base [] full size e in ground arith
resolve-Below base (c ∷ s) full size place e =
    let (a, b, t, d) = resolved base (c ∷ s) full size e in
    let q : full ≡ base ++ b'/' ∷ s = a ∙ ap (λ x. base ++ x ∷ s) (ground arith) in
    let w : walk (split full) place ≡ walk (split s) (walk (split base) place) =
      ap (λ x. walk (split x) place) q
      ∙ ap (λ x. walk x place) (split-slash base s)
      ∙ walk-append (split base) (split s) place in
    (
      a,
      b,
      subst (Below (walk (split base) place)) (sym w) (
          walk-Below (split s) (walk (split base) place) (walk (split base) place)
            (Free-parts s (has_parent-tail c s d)) ([], refl)),
    )
