-- ===== src/Update/Check.antt =====
-- components/update_check_service/update_check_service.c: the check for a newer firmware. The HTTP
-- client, the creation of the lock and of the task, and whether the lock is obtained are inputs of
-- the calls; cJSON is a record of its functions. The calls of the observers are the notices that a
-- call returns, in order. A text that `strlcpy` copies has a bound on its length.
pub mod Manifest
pub mod Worker
pub mod Slots
pub mod Subscription
pub mod Reach
pub mod Decision
mod Tests
use esp_mosaico_claw.Base.{
  strlcpy, ℕ, zero, suc, ◌+◌, ◌-◌, ◌%◌, Bool, true, false, not, ◌&&◌, ◌||◌, Option, none, some,
  List, [], ◌∷◌, if◌then◌else◌, ◌==◌, leb, length, take, set, get_elem?, replicate, Ptr, Text, text,
  text_eq, is_blank, EspErr, ok, no_mem, invalid_arg, invalid_state, invalid_size, not_found,
  not_supported, timeout, invalid_response, is_ok, u32_mod,
}
use esp_mosaico_claw.Update.Version.{compare_versions}
use esp_mosaico_claw.Update.Download.{Response, receive}
use esp_mosaico_claw.Update.Check.Manifest.{CheckState, Snapshot, CJson, blank, parse_manifest}

-- `update_check_observer_t`; the callback 0 is NULL.
pub record Observer : Type 0 where
  pub callback : ℕ
  pub user_ctx : ℕ

-- A call of an observer.
abbrev pub Notice : Type 0
Notice = Observer × Snapshot

-- `update_check_service_config_t`.
pub record Config : Type 0 where
  pub manifest_url : Ptr Text
  pub product : Ptr Text
  pub current_version : Ptr Text
  pub user_agent : Ptr Text
  pub timeout_ms : ℕ
  pub max_body_size : ℕ

-- `update_check_service_state_t`; the pointers of its `config` are to its own texts. `task` says
-- whether there is a worker.
pub record Checker : Type 0 where
  pub task : Bool
  pub manifest_url : Text
  pub product : Text
  pub current_version : Text
  pub user_agent : Text
  pub timeout_ms : ℕ
  pub max_body_size : ℕ
  pub snapshot : Snapshot
  pub observers : List Observer
  pub initialized : Bool

abbrev pub subscriber_max : ℕ
subscriber_max = 4

abbrev pub no_observer : Observer
no_observer = record { callback = 0; user_ctx = 0 }

-- The state that is all zero.
abbrev pub cleared : Checker
cleared = record {
  task = false;
  manifest_url = [];
  product = [];
  current_version = [];
  user_agent = [];
  timeout_ms = 0;
  max_body_size = 0;
  snapshot = blank;
  observers = replicate subscriber_max no_observer;
  initialized = false;
}

-- What a transfer does: whether the client is allocated, the chunks with the answers of `realloc`,
-- the result of the client and the status code.
pub record Transfer : Type 0 where
  pub client : Bool
  pub chunks : List (List ℕ × Bool)
  pub performed : EspErr
  pub status_code : ℕ

abbrev pub no_response : ℕ → Response
no_response maximum = record { body = []; capacity = 0; maximum = maximum; append_error = ok }

-- The result of a transfer whose chunks have been received. The body is NULL while the capacity is 0.
unfoldable pub http_result : Transfer → Response → EspErr
http_result t r =
    if not (is_ok t.performed)
    then t.performed
    else if not (is_ok r.append_error)
    then r.append_error
    else if not (t.status_code == 200) || r.capacity == 0
    then invalid_response
    else ok

unfoldable pub http_get : ℕ → ℕ → Transfer → Option (EspErr × Response)
http_get fuel maximum t =
    if not t.client
    then some (no_mem, no_response maximum)
    else elim (receive fuel (no_response maximum) t.chunks) [
      | none ↦ none
      | some r ↦ some (http_result t r, r)
    ]

-- The loop over the observers.
unfoldable pub notify : Snapshot → List Observer → List Notice
notify snapshot [] = []
notify snapshot (o ∷ os) =
    let rest = notify snapshot os in if not (o.callback == 0) then (o, snapshot) ∷ rest else rest

-- The end of the worker, under the lock.
unfoldable pub finish : Checker → Snapshot → Bool → Checker × List Notice
finish s result lock =
    let result' = record result { sequence = (s.snapshot.sequence + 1) % u32_mod } in
    if lock
    then (record s { snapshot = result'; task = false }, notify result' s.observers)
    else (s, [])

-- A result with its error.
unfoldable pub with_error : EspErr → Snapshot → Snapshot
with_error e r =
    if is_ok e
    then record r { last_error = e }
    else record r { last_error = e; state = CheckState.failed }

module _ (ulong_max : ℕ) {J : Type 0} (k : CJson J) where
  -- What the worker makes of its response.
  unfoldable pub assess : Checker → EspErr → Response → Snapshot
  assess s e r =
      let start = record blank { current_version = strlcpy 32 s.current_version } in
      let (e', result) = parse_manifest ulong_max k s.product r.body start in
      if is_ok e then with_error e' result else with_error e start

  -- The worker; `none` means that the fuel ran out.
  unfoldable pub worker : ℕ → Checker → Transfer → Bool → Option (Checker × List Notice)
  worker fuel s t lock = elim (http_get fuel s.max_body_size t) [
    | none ↦ none
    | some (e, r) ↦ some (finish s (assess s e r) lock)
  ]

abbrev filled : Ptr Text → Bool
filled none = false
filled (some t) = not (is_blank t)

abbrev or_empty : Ptr Text → Text
or_empty none = []
or_empty (some t) = t

-- The checks of a configuration.
unfoldable pub check_config : ℕ → Config → Bool → EspErr
check_config ulong_max c initialized =
    let url = or_empty c.manifest_url in
    if not (filled c.product && filled c.current_version && filled c.user_agent)
    then invalid_arg
    else if initialized
    then invalid_state
    else if not (is_blank url) && not (text_eq (take 8 url) (text "https://"))
    then invalid_arg
    else if leb 320 (length url)
        || leb 48 (length (or_empty c.product))
        || leb 32 (length (or_empty c.current_version))
        || leb 128 (length (or_empty c.user_agent))
    then invalid_size
    else (compare_versions ulong_max c.current_version c.current_version true).0

abbrev configured : Config → Checker
configured c = record {
  task = false;
  manifest_url = strlcpy 320 (or_empty c.manifest_url);
  product = strlcpy 48 (or_empty c.product);
  current_version = strlcpy 32 (or_empty c.current_version);
  user_agent = strlcpy 128 (or_empty c.user_agent);
  timeout_ms = if not (c.timeout_ms == 0) then c.timeout_ms else 10000;
  max_body_size = if not (c.max_body_size == 0) then c.max_body_size else 4096;
  snapshot = record blank { current_version = strlcpy 32 (or_empty c.current_version) };
  observers = replicate subscriber_max no_observer;
  initialized = true;
}

-- The second input says whether the mutex is allocated.
unfoldable pub init : ℕ → Checker → Ptr Config → Bool → EspErr × Checker
init ulong_max s none mutex = (invalid_arg, s)
init ulong_max s (some c) mutex =
    let e = check_config ulong_max c s.initialized in
    if not (is_ok e) then (e, s) else if not mutex then (no_mem, cleared) else (ok, configured c)

abbrev pub is_checking : CheckState → Bool
is_checking CheckState.checking = true
is_checking _ = false

-- The inputs say whether the lock is obtained and the task created.
unfoldable pub request : Checker → Bool → Bool → EspErr × Checker × List Notice
request s lock created =
    let next = (s.snapshot.sequence + 1) % u32_mod in
    let checking = record blank {
      state = CheckState.checking;
      sequence = next;
      current_version = strlcpy 32 s.current_version;
    } in
    let failed = record checking {
      state = CheckState.failed;
      last_error = no_mem;
      sequence = (next + 1) % u32_mod;
    } in
    if not s.initialized
    then (invalid_state, s, [])
    else if is_blank s.manifest_url
    then (not_supported, s, [])
    else if not lock
    then (timeout, s, [])
    else if s.task || is_checking s.snapshot.state
    then (invalid_state, s, [])
    else if not created
    then (no_mem, record s { task = false; snapshot = failed }, notify failed s.observers)
    else (ok, record s { task = true; snapshot = checking }, notify checking s.observers)

unfoldable pub get_snapshot : Checker → Bool → Bool → EspErr × Option Snapshot
get_snapshot s out lock =
    if not (s.initialized && out)
    then (invalid_arg, none)
    else if not lock
    then (timeout, none)
    else (ok, some s.snapshot)

unfoldable pub is_observer : ℕ → ℕ → Observer → Bool
is_observer callback user_ctx o = o.callback == callback && o.user_ctx == user_ctx

-- The loop of a subscription: `none` if the observer is found, otherwise the first free index.
unfoldable pub find_free : ℕ → ℕ → ℕ → ℕ → List Observer → Option ℕ
find_free callback user_ctx index free [] = some free
find_free callback user_ctx index free (o ∷ os) =
    let free' = if free == subscriber_max && o.callback == 0 then index else free in
    let rest = find_free callback user_ctx (index + 1) free' os in
    if is_observer callback user_ctx o then none else rest

unfoldable pub subscribe : Checker → ℕ → ℕ → Bool → EspErr × Checker × List Notice
subscribe s callback user_ctx lock =
    let o : Observer = record { callback = callback; user_ctx = user_ctx } in
    if not (s.initialized && not (callback == 0))
    then (invalid_arg, s, [])
    else if not lock
    then (timeout, s, [])
    else elim (find_free callback user_ctx 0 subscriber_max s.observers) [
      | none ↦ (invalid_state, s, [])
      | some free ↦
          if free == subscriber_max
          then (no_mem, s, [])
          else (ok, record s { observers = set s.observers free o }, (o, s.snapshot) ∷ [])
    ]

-- The loop of an unsubscription, with the error that it ends with.
unfoldable pub clear_observer : ℕ → ℕ → List Observer → EspErr × List Observer
clear_observer callback user_ctx [] = (not_found, [])
clear_observer callback user_ctx (o ∷ os) =
    let (e, rest) = clear_observer callback user_ctx os in
    if is_observer callback user_ctx o then (ok, no_observer ∷ os) else (e, o ∷ rest)

unfoldable pub unsubscribe : Checker → ℕ → ℕ → Bool → EspErr × Checker
unsubscribe s callback user_ctx lock =
    let (e, os) = clear_observer callback user_ctx s.observers in
    if not (s.initialized && not (callback == 0))
    then (invalid_arg, s)
    else if not lock
    then (timeout, s)
    else (e, record s { observers = os })
