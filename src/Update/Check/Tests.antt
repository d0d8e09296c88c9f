-- ===== src/Update/Check/Tests.antt =====
-- Tests of the update check, and its theorems at a concrete device.
use esp_mosaico_claw.Base.{
  ℕ, ◌-◌, ◌≤◌, ◌≡◌, refl, ap, true, false, Option, none, some, List, [], ◌∷◌, arith, text, text_eq,
  if◌then◌else◌, ◌==◌, length, Text, ok, u32_mod,
}
use esp_mosaico_claw.Update.Version.Printed.{Version, print}
use esp_mosaico_claw.Update.Version.Decimal.{decimal}
use esp_mosaico_claw.Update.Version.{
  compare_versions, parse_parts, parse_component, scan_digits, is_digit, compare_parts,
}
use esp_mosaico_claw.Update.Check.Manifest.{Snapshot, CJson, required, copy_texts, copy_optional}
use esp_mosaico_claw.Update.Check.Subscription.{IsOrdered, subscribe-unsubscribe}
use esp_mosaico_claw.Update.Check.Reach.{Call, calls, IsCoherent, init-calls-IsCoherent}
use esp_mosaico_claw.Update.Check.Decision.{Delivers, Offers, Tells, worker-Tells, worker_ends}
use esp_mosaico_claw.Update.Check.{
  Notice, Checker, Config, Transfer, notify, init, subscribe, unsubscribe, worker, configured,
  cleared, check_config, find_free, is_observer,
}

-- A document, for which any bytes that begin with a brace stand, and its fields.
data Json : Type 0 where
  document product version number absent : Json

abbrev toy_parse : List ℕ → Option Json
toy_parse [] = none
toy_parse (c ∷ s) = if c == b'{' then some document else none

abbrev toy_string : Option Json → Option Text
toy_string (some product) = some (text "claw")
toy_string (some version) = some (text "1.10.3")
toy_string _ = none

abbrev toy_get : Json → Text → Option Json
toy_get j key =
    if text_eq key (text "product")
    then some product
    else if text_eq key (text "latest_version")
    then some version
    else if text_eq key (text "schema_version")
    then some number
    else none

abbrev toy : CJson Json
toy = record {
  parse_with_length = toy_parse;
  is_object = λ j. true;
  get_item = toy_get;
  is_null = λ j. false;
  is_number = λ j. true;
  value_int = λ j. 1;
  string_value = toy_string;
}

abbrev config : Config
config = record {
  manifest_url = some (text "https://x/m");
  product = some (text "claw");
  current_version = some (text "1.9.12");
  user_agent = some (text "claw");
  timeout_ms = 0;
  max_body_size = 8;
}

abbrev device : Checker
device = configured config

abbrev transfer : Transfer
transfer = record {
  client = true;
  chunks = (text "{", true) ∷ (text "}", true) ∷ [];
  performed = ok;
  status_code = 200;
}

abbrev old : Version
old = record { major = 1; minor = 9; patch = 12 }

abbrev new : Version
new = record { major = 1; minor = 10; patch = 3 }

device-IsOrdered : IsOrdered device.observers
device-IsOrdered = record {
  counted = refl;
  zeroed = (λ _. refl, (λ _. refl, (λ _. refl, (λ _. refl, tt))));
  distinct = (
    λ h. absurd (h refl),
    (λ h. absurd (h refl), (λ h. absurd (h refl), (λ h. absurd (h refl), tt))),
  );
}

starts : (init (u32_mod - 1) cleared (some config) true) ≡ (ok, device)
unfolding init check_config text_eq compare_versions parse_parts parse_component scan_digits
    is_digit compare_parts
starts = refl

subscribes : (subscribe device 7 5 true).0 ≡ ok
unfolding subscribe find_free is_observer
subscribes = refl

subscribe-unsubscribe_example :
    ((subscribe device 7 5 true).2 ≡ (record { callback = 7; user_ctx = 5 }, device.snapshot) ∷ [])
    × (unsubscribe ((subscribe device 7 5 true).1) 7 5 true ≡ (ok, device))
subscribe-unsubscribe_example = subscribe-unsubscribe device 7 5 true device-IsOrdered subscribes

delivered : Delivers 8 transfer (text "{}")
delivered = record {
  counted = omega arith;
  client = refl;
  performed = refl;
  status_code = refl;
  plentiful = (refl, (refl, tt));
  whole = refl;
  positive = omega arith;
  bounded = omega arith;
}

printed : text "1.9.12" ≡ print old
unfolding print decimal
printed = refl

short : length (print old) ≤ 31
unfolding print decimal
short = omega arith

complete : required toy (text "claw") document ≡ some (print new)
unfolding required text_eq print decimal
complete = refl

fitting : (r : Snapshot) → (copy_texts toy document r).0 ≡ true
unfolding copy_texts copy_optional text_eq
fitting r = refl

offered : Offers toy (text "claw") (text "{}") new
offered = record {
  root = document;
  parsed = refl;
  object = refl;
  complete = complete;
  fitting = fitting;
}

worker-Tells_example :
    (r : Snapshot) × (worker (u32_mod - 1) toy 10 device transfer true
      ≡ some (record device { snapshot = r; task = false }, notify r device.observers))
    × (r.sequence ≡ 1)
    × Tells old new r
worker-Tells_example =
    worker-Tells (u32_mod - 1) (omega arith) toy device transfer (text "{}") old new (omega arith)
      (omega arith) printed short delivered offered

worker_ends_example :
    (p : Checker × List Notice) × (worker (u32_mod - 1) toy 10 device transfer false ≡ some p)
worker_ends_example =
    worker_ends (u32_mod - 1) (omega arith) toy device transfer false (omega arith)

init-calls-IsCoherent_example : IsCoherent (u32_mod - 1) toy (
    (calls
      (u32_mod - 1)
      toy
      ((init (u32_mod - 1) cleared (some config) true).1)
      (Call.requests true true ∷ Call.works transfer true ∷ [])).0)
init-calls-IsCoherent_example =
    init-calls-IsCoherent (u32_mod - 1) toy cleared config true
      (Call.requests true true ∷ Call.works transfer true ∷ []) (ap (λ p. p.0) starts)
