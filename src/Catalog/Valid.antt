-- ===== src/Catalog/Valid.antt =====
-- What a registry that validates gives to its lookups.
use native.Mathlib.Omega.{arith}
use mathlib.Core.Option.{some-injective}
use esp_mosaico_claw.Base.{
  ℕ, zero, suc, ◌≡◌, refl, sym, ap, ◌∙◌, ◌≢◌, ◌⊎◌, inl, inr, Bool, true, false, not, ◌&&◌, Option,
  none, some, List, [], ◌∷◌, ◌==◌, get_elem?, Text, text_eq, text_eq_iff, Bool-cases,
}
use esp_mosaico_claw.Catalog.{
  Descriptor, Package, find_first, all, is_root, root_id, no_launch_action, descriptor, root,
  descriptor_for_name, descriptor_for_action, pair_valid, apps_valid, root_valid, validate_catalog,
}

pub and_left : (a b : Bool) → (a && b) ≡ true → a ≡ true
and_left a b e = ground arith

pub and_right : (a b : Bool) → (a && b) ≡ true → b ≡ true
and_right a b e = ground arith

pub all-get_elem? :
    {A : Type 0} (p : A → Bool) (xs : List A) (i : ℕ) (x : A)
    → all p xs ≡ true
    → get_elem? xs i ≡ some x
    → p x ≡ true
all-get_elem? p [] i x h e = absurd cc
all-get_elem? p (y ∷ ys) zero x h e =
    ap p (sym (some-injective y x e)) ∙ and_left (p y) (all p ys) h
all-get_elem? p (y ∷ ys) (suc i) x h e = all-get_elem? p ys i x (and_right (p y) (all p ys) h) e

-- What a search finds is in the list and passes the test.
pub find_first_found :
    {A : Type 0} (p : A → Bool) (xs : List A) (x : A)
    → find_first p xs ≡ some x
    → (p x ≡ true) × ((i : ℕ) × (get_elem? xs i ≡ some x))
unfolding find_first
find_first_found p [] x e = absurd cc
find_first_found p (y ∷ ys) x e = elim (Bool-cases (p y)) [
  | inl t ↦
      let q : y ≡ x = some-injective y x (sym (rw (t, find_first) refl) ∙ e) in
      (ap p (sym q) ∙ t, (0, ap some q))
  | inr f ↦
      let (a, (i, b)) = find_first_found p ys x (sym (rw (f, find_first) refl) ∙ e) in
      (a, (suc i, b))
]

pair_id : (a b : Descriptor) → pair_valid a b ≡ true → b.id ≢ a.id
unfolding pair_valid
pair_id a b h = ground arith

pair_name : (a b : Descriptor) → pair_valid a b ≡ true → text_eq b.name a.name ≡ false
unfolding pair_valid
pair_name a b h = ground arith

pair_action :
    (a b : Descriptor)
    → pair_valid a b ≡ true
    → is_root a ≡ false
    → is_root b ≡ false
    → a.launch_action ≢ no_launch_action
    → b.launch_action ≢ a.launch_action
unfolding pair_valid
pair_action a b h r r' n = ground arith

other_name :
    (n : Text) (a b : Descriptor)
    → pair_valid a b ≡ true
    → text_eq b.name n ≡ true
    → text_eq a.name n ≡ false
other_name n a b h t = elim (Bool-cases (text_eq a.name n)) [
  | inl s ↦
      let e : b.name ≡ a.name = (text_eq_iff b.name n).0 t ∙ sym ((text_eq_iff a.name n).0 s) in
      let f : text_eq b.name a.name ≡ true = (text_eq_iff b.name a.name).1 e in
      let g : text_eq b.name a.name ≡ false = pair_name a b h in absurd cc
  | inr s ↦ s
]

module _ (registry : List Descriptor) (packages : List Package) where
  -- A test that no two Apps of a valid pair both pass finds the App that passes it.
  find_valid :
      (p : Descriptor → Bool)
      → ((a b : Descriptor) → pair_valid a b ≡ true → p b ≡ true → p a ≡ false)
      → (xs : List Descriptor) (i : ℕ) (app : Descriptor) → apps_valid registry packages xs ≡ true
      → get_elem? xs i ≡ some app
      → p app ≡ true
      → find_first p xs ≡ some app
  unfolding apps_valid find_first
  find_valid p h [] i app v e t = absurd cc
  find_valid p h (x ∷ xs) zero app v e t =
      let q : x ≡ app = some-injective x app e in
      let px : p x ≡ true = ap p q ∙ t in rw (px, find_first) e
  find_valid p h (x ∷ xs) (suc i) app v e t =
      let pairs : all (pair_valid x) xs ≡ true = ground arith in
      let px : p x ≡ false = h x app (all-get_elem? (pair_valid x) xs i app pairs e) t in
      rw (px, find_first) (find_valid p h xs i app (ground arith) e t)

  pub validate_catalog-apps_valid :
      validate_catalog registry packages ≡ true → apps_valid registry packages registry ≡ true
  unfolding validate_catalog
  validate_catalog-apps_valid v = ground arith

  pub launch_found :
      (i : ℕ) (app : Descriptor)
      → validate_catalog registry packages ≡ true
      → get_elem? registry i ≡ some app
      → is_root app ≡ false
      → (app.launch_action == no_launch_action) ≡ false
      → descriptor_for_action registry app.launch_action ≡ some app
  unfolding descriptor_for_action
  launch_found i app v e r n =
      rw (n, descriptor_for_action)
        (find_valid (λ a. not (is_root a) && a.launch_action == app.launch_action)
          (λ a b h t. elim (Bool-cases (is_root a)) [
            | inl s ↦ rw s refl
            | inr s ↦
                let d : a.launch_action ≢ no_launch_action → b.launch_action ≢ a.launch_action =
                  pair_action a b h s (ground arith) in
                ground (arith, d, t, s, n)
          ])
          registry i app (validate_catalog-apps_valid v) e (ground arith))

  -- In a registry that validates, the number and the name of each App find that App, and so does its
  -- launch action, unless the App is the root or has none.
  pub registry_lookups :
      (i : ℕ) (app : Descriptor)
      → validate_catalog registry packages ≡ true
      → get_elem? registry i ≡ some app
      → (descriptor registry app.id ≡ some app)
        × (descriptor_for_name registry (some app.name) ≡ some app)
        × ((app.id ≡ root_id)
            ⊎ (app.launch_action ≡ no_launch_action)
            ⊎ (descriptor_for_action registry app.launch_action ≡ some app))
  unfolding descriptor descriptor_for_name
  registry_lookups i app v e =
      let w : apps_valid registry packages registry ≡ true = validate_catalog-apps_valid v in
      (
        find_valid (λ a. a.id == app.id)
            (λ a b h t. let d : b.id ≢ a.id = pair_id a b h in ground (arith, d, t)) registry i app
            w e (ground arith),
        find_valid (λ a. text_eq a.name app.name) (other_name app.name) registry i app w e
            ((text_eq_iff app.name app.name).1 refl),
        elim (Bool-cases (is_root app)) [
          | inl r ↦ inl (ground arith)
          | inr r ↦ elim (Bool-cases (app.launch_action == no_launch_action)) [
            | inl n ↦ inr (inl (ground arith))
            | inr n ↦ inr (inr (launch_found i app v e r n))
          ]
        ],
      )

  root_given :
      (o : Option Descriptor)
      → root registry ≡ o
      → root_valid o ≡ true
      → (app : Descriptor) × (root registry ≡ some app) × (app.id ≡ root_id)
  unfolding root_valid root descriptor
  root_given none e h = absurd cc
  root_given (some app) e h =
      let (t, _) = find_first_found (λ a. a.id == root_id) registry app e in (app, e, ground arith)

  -- The root of a registry that validates has the number 0.
  pub validate_catalog-root :
      validate_catalog registry packages ≡ true
      → (app : Descriptor) × (root registry ≡ some app) × (app.id ≡ root_id)
  unfolding validate_catalog root descriptor
  validate_catalog-root v = root_given (root registry) refl (ground arith)
