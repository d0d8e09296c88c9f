-- ===== src/Catalog.antt =====
-- components/mosaic_ui/common/mosaic_app_catalog.c: the Apps that are built into the device, what
-- makes their registry valid, and the App that an event of the user interface leads to. The
-- registry and the packages are generated by the build: they are parameters, whose entries and names
-- are not NULL, as every lookup relies on. The active App, the event and the result pointer of
-- `route_event` are not NULL.
pub mod Valid
pub mod Routes
mod Tests
use esp_mosaico_claw.Base.{
  ℕ, Bool, true, false, not, ◌&&◌, ◌||◌, Option, none, some, List, [], ◌∷◌, if◌then◌else◌, ◌==◌,
  ◌+◌, length, Ptr, Text, text, text_eq, is_blank,
}

-- `mosaic_app_route_t`.
pub record Route : Type 0 where
  pub action_id : ℕ
  pub target_name : Ptr Text

-- `mosaic_app_descriptor_t`: what the catalog reads, and the address of the object. Of the routes
-- and the directories, whether their pointers are NULL.
pub record Descriptor : Type 0 where
  pub address : ℕ
  pub id : ℕ
  pub launch_action : ℕ
  pub back_action : ℕ
  pub has_routes : Bool
  pub routes : List Route
  pub name : Text
  pub title : Ptr Text
  pub has_directory : Bool
  pub has_directories : Bool
  pub directory_count : ℕ

-- `mosaic_app_package_t`: what the catalog reads of it.
pub record Package : Type 0 where
  pub descriptor_address : ℕ
  pub bundle_path : Ptr Text
  pub has_logic : Bool

-- `esp_gsp_event_t`: whether it is a call, and its action.
pub record UiEvent : Type 0 where
  pub is_call : Bool
  pub event_action : ℕ

abbrev pub root_id : ℕ
root_id = 0

abbrev pub no_launch_action : ℕ
no_launch_action = 65535

-- The loop of a lookup: the first element that passes the test.
unfoldable pub find_first {ℓ} : {A : Type ℓ} → (A → Bool) → List A → Option A
find_first p [] = none
find_first p (x ∷ xs) = if p x then some x else find_first p xs

abbrev pub all {ℓ} : {A : Type ℓ} → (A → Bool) → List A → Bool
all p [] = true
all p (x ∷ xs) = p x && all p xs

abbrev pub is_given : {A : Type 0} → Ptr A → Bool
is_given none = false
is_given (some a) = true

-- The test `text == NULL || text[0] == '\0'`.
abbrev pub is_missing : Ptr Text → Bool
is_missing none = true
is_missing (some t) = is_blank t

abbrev pub is_root : Descriptor → Bool
is_root app = app.id == root_id

unfoldable pub names : Ptr Text → Text → Bool
names none n = false
names (some t) n = text_eq n t

-- The test of one descriptor's fields.
unfoldable pub fields_valid : Descriptor → Bool
fields_valid app = not (
    is_blank app.name
    || not (length app.routes == 0) && not app.has_routes
    || not app.has_directory && (not app.has_directories || app.directory_count == 0)
    || app.has_directories && app.directory_count == 0
    || not (is_root app) && is_missing app.title)

-- The test of an App against one behind it.
unfoldable pub pair_valid : Descriptor → Descriptor → Bool
pair_valid app candidate = not (
    candidate.id == app.id
    || text_eq candidate.name app.name
    || not (is_root app)
      && not (is_root candidate)
      && not (app.launch_action == no_launch_action)
      && candidate.launch_action == app.launch_action)

unfoldable pub package_valid : Option Package → Bool
package_valid none = false
package_valid (some p) = not (is_missing p.bundle_path || not p.has_logic)

unfoldable pub root_count : List Descriptor → ℕ
root_count [] = 0
root_count (app ∷ rest) = (if is_root app then 1 else 0) + root_count rest

unfoldable pub root_valid : Option Descriptor → Bool
root_valid none = false
root_valid (some app) = app.launch_action == no_launch_action

abbrev required_apps : List Text
required_apps =
    text "welcome"
    ∷ text "ai_create"
    ∷ text "camera"
    ∷ text "works"
    ∷ text "settings"
    ∷ text "setup_center"
    ∷ []

module _ (registry : List Descriptor) where
  unfoldable pub descriptor : ℕ → Option Descriptor
  descriptor id = find_first (λ app. app.id == id) registry

  unfoldable pub root : Option Descriptor
  unfolding descriptor
  root = descriptor root_id

  unfoldable pub descriptor_for_name : Ptr Text → Option Descriptor
  descriptor_for_name none = none
  descriptor_for_name (some name) = find_first (λ app. text_eq app.name name) registry

  unfoldable pub descriptor_for_action : ℕ → Option Descriptor
  descriptor_for_action action =
      if action == no_launch_action
      then none
      else find_first (λ app. not (is_root app) && app.launch_action == action) registry

  -- The App that an event leads to from the active App; `none` is the answer false. The source answers
  -- the back action with true and the root, which a valid registry has; without a root it is `none` here.
  unfoldable pub route_event : Descriptor → UiEvent → Option Descriptor
  route_event active event =
      let action : ℕ = event.event_action in
      if not event.is_call
      then none
      else if is_root active
      then descriptor_for_action action
      else elim (find_first (λ r. action == r.action_id) active.routes) [
        | some r ↦ descriptor_for_name r.target_name
        | none ↦ if action == active.back_action then root else none
      ]

  -- The test of one route of an App, without that of the routes behind it.
  unfoldable pub route_valid : Descriptor → Route → Bool
  route_valid app route = not (
      is_missing route.target_name
      || route.action_id == app.back_action
      || not (is_given (descriptor_for_name route.target_name))
      || names route.target_name app.name)

  unfoldable pub routes_valid : Descriptor → List Route → Bool
  routes_valid app [] = true
  routes_valid app (route ∷ rest) =
      route_valid app route
      && all (λ r. not (route.action_id == r.action_id)) rest
      && routes_valid app rest

module _ (registry : List Descriptor) (packages : List Package) where
  unfoldable pub package_for_descriptor : Option Descriptor → Option Package
  package_for_descriptor none = none
  package_for_descriptor (some app) = find_first (λ p. p.descriptor_address == app.address) packages

  unfoldable pub package_for_name : Ptr Text → Option Package
  package_for_name name = package_for_descriptor (descriptor_for_name registry name)

  -- The loop over the Apps from some index on.
  unfoldable pub apps_valid : List Descriptor → Bool
  apps_valid [] = true
  apps_valid (app ∷ rest) =
      fields_valid app
      && routes_valid registry app app.routes
      && package_valid (package_for_descriptor (some app))
      && all (pair_valid app) rest
      && apps_valid rest

  unfoldable pub validate_catalog : Bool
  validate_catalog =
      length registry == length packages
      && apps_valid registry
      && root_count registry == 1
      && root_valid (root registry)
      && all (λ name. is_given (descriptor_for_name registry (some name))) required_apps
