-- ===== src/Catalog/Routes.antt =====
-- Where the events of the user interface lead in a registry that validates.
use mathlib.Core.Option.{some-injective}
use esp_mosaico_claw.Base.{
  ℕ, zero, suc, ◌≡◌, refl, sym, ap, ◌∙◌, ◌≢◌, inl, inr, Bool, true, false, not, ◌||◌, none, some,
  arith, List, [], ◌∷◌, ◌==◌, get_elem?, Ptr, Text, text_eq, text_eq_iff, Option-cases,
}
use esp_mosaico_claw.Catalog.{
  Route, UiEvent, Descriptor, Package, find_first, is_root, is_given, is_missing, names, root_id,
  descriptor, descriptor_for_name, route_event, route_valid, routes_valid, apps_valid,
  validate_catalog,
}
use esp_mosaico_claw.Catalog.Valid.{
  all-get_elem?, find_first_found, validate_catalog-apps_valid, registry_lookups,
  validate_catalog-root,
}

abbrev pub press : ℕ → UiEvent
press action = record { is_call = true; event_action = action }

module _ (registry : List Descriptor) where
  -- The routes of an App that validate have different actions, so each is found by its own.
  route_found :
      (app : Descriptor) (rs : List Route) (j : ℕ) (r : Route)
      → routes_valid registry app rs ≡ true
      → get_elem? rs j ≡ some r
      → find_first (λ s. r.action_id == s.action_id) rs ≡ some r
  unfolding routes_valid find_first
  route_found app [] j r v e = absurd cc
  route_found app (x ∷ xs) zero r v e =
      let q : x ≡ r = some-injective x r e in
      let px : (r.action_id == x.action_id) ≡ true =
        ap (λ s. r.action_id == s.action_id) q ∙ ground arith in
      rw (px, find_first) e
  route_found app (x ∷ xs) (suc j) r v e =
      let d : not (x.action_id == r.action_id) ≡ true =
        all-get_elem? (λ s. not (x.action_id == s.action_id)) xs j r (ground arith) e in
      let px : (r.action_id == x.action_id) ≡ false = ground arith in
      rw (px, find_first) (route_found app xs j r (ground arith) e)

  route_checked :
      (app : Descriptor) (rs : List Route) (j : ℕ) (r : Route)
      → routes_valid registry app rs ≡ true
      → get_elem? rs j ≡ some r
      → route_valid registry app r ≡ true
  unfolding routes_valid
  route_checked app [] j r v e = absurd cc
  route_checked app (x ∷ xs) zero r v e =
      ap (route_valid registry app) (sym (some-injective x r e)) ∙ ground arith
  route_checked app (x ∷ xs) (suc j) r v e = route_checked app xs j r (ground arith) e

  back_free :
      (app : Descriptor) (rs : List Route)
      → routes_valid registry app rs ≡ true
      → find_first (λ r. app.back_action == r.action_id) rs ≡ none
  unfolding routes_valid route_valid find_first
  back_free app [] v = refl
  back_free app (x ∷ xs) v =
      let px : (app.back_action == x.action_id) ≡ false = ground arith in
      rw (px, find_first) (back_free app xs (ground arith))

  -- The target of a route that validates.
  target_given :
      (n : Text) (b : Bool) (t : Ptr Text)
      → not (is_missing t || b || not (is_given (descriptor_for_name registry t)) || names t n)
        ≡ true
      → (app : Descriptor) × (descriptor_for_name registry t ≡ some app)
        × (t ≡ some app.name)
        × (app.name ≢ n)
        × ((k : ℕ) × (get_elem? registry k ≡ some app))
  unfolding descriptor_for_name names
  target_given n b none h = absurd cc
  target_given n b (some t) h = elim (Option-cases (find_first (λ a. text_eq a.name t) registry)) [
    | inl o ↦ absurd (ground (arith, ap is_given o))
    | inr (app, o) ↦
        let (q, at) = find_first_found (λ a. text_eq a.name t) registry app o in
        let m : app.name ≡ t = (text_eq_iff app.name t).0 q in
        let apart : text_eq n t ≡ false = ground arith in
        (
          app,
          o,
          ap some (sym m),
          (λ d. let c : text_eq n t ≡ true = (text_eq_iff n t).1 (sym d ∙ m) in absurd cc),
          at,
        )
  ]

  module _ (packages : List Package) where
    routes_checked :
        (xs : List Descriptor) (i : ℕ) (app : Descriptor)
        → apps_valid registry packages xs ≡ true
        → get_elem? xs i ≡ some app
        → routes_valid registry app app.routes ≡ true
    unfolding apps_valid
    routes_checked [] i app v e = absurd cc
    routes_checked (x ∷ xs) zero app v e =
        ap (λ a. routes_valid registry a a.routes) (sym (some-injective x app e)) ∙ ground arith
    routes_checked (x ∷ xs) (suc i) app v e = routes_checked xs i app (ground arith) e

    module _ (i : ℕ) (active : Descriptor) (v : validate_catalog registry packages ≡ true)
        (e : get_elem? registry i ≡ some active) where
      -- Two Apps of different names have different numbers.
      named_apart :
          (k : ℕ) (app : Descriptor)
          → get_elem? registry k ≡ some app
          → app.name ≢ active.name
          → app.id ≢ active.id
      named_apart k app f d q =
          let a : descriptor registry app.id ≡ some app =
            (registry_lookups registry packages k app v f).0 in
          let b : descriptor registry active.id ≡ some active =
            (registry_lookups registry packages i active v e).0 in
          d (ap (λ x. x.name) (some-injective app active (sym a ∙ ap (descriptor registry) q ∙ b)))

      -- In a registry that validates, the action of a route of an App but the root leads to the App
      -- that the route names, and that is another App.
      pub route_followed :
          (j : ℕ) (r : Route)
          → is_root active ≡ false
          → get_elem? active.routes j ≡ some r
          → (app : Descriptor) × (route_event registry active (press r.action_id) ≡ some app)
            × (r.target_name ≡ some app.name)
            × (app.id ≢ active.id)
      unfolding route_event
      route_followed j r n g =
          let w : routes_valid registry active active.routes ≡ true =
            routes_checked registry i active (validate_catalog-apps_valid registry packages v) e in
          let f : find_first (λ s. r.action_id == s.action_id) active.routes ≡ some r =
            route_found active active.routes j r w g in
          let c : route_valid registry active r ≡ true =
            route_checked active active.routes j r w g in
          let (app, o, t, d, (k, at)) =
            target_given active.name (r.action_id == active.back_action) r.target_name
              (unfold route_valid in c) in
          (app, rw (n, f, route_event) o, t, named_apart k app at d)

      -- In a registry that validates, the back action of an App but the root leads to the root.
      pub back_home :
          is_root active ≡ false
          → (app : Descriptor) × (route_event registry active (press active.back_action) ≡ some app)
            × (app.id ≡ root_id)
      unfolding route_event
      back_home n =
          let f : find_first (λ s. active.back_action == s.action_id) active.routes ≡ none =
            back_free active active.routes (
              routes_checked registry i active (validate_catalog-apps_valid registry packages v)
                e) in
          let (app, q, z) = validate_catalog-root registry packages v in
          let same : (active.back_action == active.back_action) ≡ true = ground arith in
          (app, rw (n, f, same, route_event) q, z)
