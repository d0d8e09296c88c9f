-- ===== src/Catalog/Tests.antt =====
-- Tests of the App catalog, and its theorems at a small registry.
use esp_mosaico_claw.Base.{
  ℕ, ◌+◌, ◌≡◌, refl, ◌≢◌, ◌⊎◌, true, false, some, List, [], ◌∷◌, map, Text, text, text_eq,
}
use esp_mosaico_claw.Catalog.{
  Route, Descriptor, Package, root_id, no_launch_action, find_first, names, descriptor, root,
  descriptor_for_name, descriptor_for_action, route_event, fields_valid, route_valid, routes_valid,
  pair_valid, package_for_descriptor, package_valid, apps_valid, root_count, root_valid,
  validate_catalog,
}
use esp_mosaico_claw.Catalog.Valid.{registry_lookups}
use esp_mosaico_claw.Catalog.Routes.{press, route_followed, back_home}

abbrev app_with : ℕ → ℕ → List Route → Text → Descriptor
app_with i launch rs n = record {
  address = 1000 + i;
  id = i;
  launch_action = launch;
  back_action = 65534;
  has_routes = true;
  routes = rs;
  name = n;
  title = some n;
  has_directory = true;
  has_directories = false;
  directory_count = 0;
}

abbrev hub : Descriptor
hub = app_with 0 no_launch_action [] (text "mosaic-hub")

abbrev to_works : Route
to_works = record { action_id = 7; target_name = some (text "works") }

abbrev camera : Descriptor
camera = app_with 3 13 (to_works ∷ []) (text "camera")

abbrev registry : List Descriptor
registry =
    hub
    ∷ app_with 1 no_launch_action [] (text "welcome")
    ∷ app_with 2 12 [] (text "ai_create")
    ∷ camera
    ∷ app_with 4 14 [] (text "works")
    ∷ app_with 5 15 [] (text "settings")
    ∷ app_with 6 no_launch_action [] (text "setup_center")
    ∷ []

abbrev package_of : Descriptor → Package
package_of app = record {
  descriptor_address = app.address;
  bundle_path = some (text "b");
  has_logic = true;
}

abbrev packages : List Package
packages = map package_of registry

registry_valid : validate_catalog registry packages ≡ true
unfolding validate_catalog apps_valid fields_valid routes_valid route_valid pair_valid
    package_for_descriptor package_valid root_count root_valid root descriptor descriptor_for_name
    find_first names text_eq
registry_valid = refl

-- A route to an App that is not registered.
lost_route :
    validate_catalog
      (app_with 0 no_launch_action
          (record { action_id = 7; target_name = some (text "x") } ∷ [])
          (text "hub")
        ∷ [])
      (package_of hub ∷ [])
    ≡ false
unfolding validate_catalog apps_valid fields_valid routes_valid route_valid descriptor_for_name
    find_first text_eq
lost_route = refl

registry_lookups_example :
    (descriptor registry 3 ≡ some camera)
    × (descriptor_for_name registry (some (text "camera")) ≡ some camera)
    × ((camera.id ≡ root_id)
        ⊎ (camera.launch_action ≡ no_launch_action)
        ⊎ (descriptor_for_action registry 13 ≡ some camera))
registry_lookups_example = registry_lookups registry packages 3 camera registry_valid refl

route_followed_example :
    (app : Descriptor) × (route_event registry camera (press 7) ≡ some app)
    × (some (text "works") ≡ some app.name)
    × (app.id ≢ 3)
route_followed_example =
    route_followed registry packages 3 camera registry_valid refl 0 to_works refl refl

back_home_example :
    (app : Descriptor) × (route_event registry camera (press 65534) ≡ some app) × (app.id ≡ root_id)
back_home_example = back_home registry packages 3 camera registry_valid refl refl
