-- ===== src/Update/Check/Manifest.antt =====
-- components/update_check_service: the snapshot, and the manifest that decides about it. cJSON is the
-- record of the functions that the source calls.
use Prim.Native.Nat.{Ordering}
use esp_mosaico_claw.Base.{
  ℕ, Bool, true, false, not, ◌||◌, Option, none, some, List, [], if◌then◌else◌, ◌==◌, leb, length,
  strlcpy, Ptr, Text, text, text_eq, EspErr, ok, invalid_response, is_ok,
}
use esp_mosaico_claw.Update.Version.{compare_versions}

-- `update_check_state_t`.
pub data CheckState : Type 0 where
  idle checking up_to_date available device_ahead failed : CheckState

-- `update_check_snapshot_t`.
pub record Snapshot : Type 0 where
  pub state : CheckState
  pub current_version : Text
  pub latest_version : Text
  pub title : Text
  pub summary : Text
  pub published_at : Text
  pub sequence : ℕ
  pub last_error : EspErr

abbrev pub blank : Snapshot
blank = record {
  state = CheckState.idle;
  current_version = [];
  latest_version = [];
  title = [];
  summary = [];
  published_at = [];
  sequence = 0;
  last_error = ok;
}

-- `cJSON_ParseWithLength`, `cJSON_IsObject`, `cJSON_GetObjectItemCaseSensitive`, `cJSON_IsNull`,
-- `cJSON_IsNumber`, the field `valueint` and `cJSON_GetStringValue`.
pub record CJson (J : Type 0) : Type 0 where
  pub parse_with_length : List ℕ → Ptr J
  pub is_object : J → Bool
  pub get_item : J → Text → Ptr J
  pub is_null : J → Bool
  pub is_number : Ptr J → Bool
  pub value_int : Ptr J → ℕ
  pub string_value : Ptr J → Ptr Text

-- The copy of a value, with what remains of the destination.
abbrev copy_value : ℕ → Text → Ptr Text → EspErr × Text
copy_value size destination none = (invalid_response, destination)
copy_value size destination (some value) =
    if leb size (length value) then (invalid_response, destination) else (ok, strlcpy size value)

abbrev pub verdict : Option Ordering → CheckState
verdict none = CheckState.up_to_date
verdict (some Ordering.lt) = CheckState.available
verdict (some Ordering.eq) = CheckState.up_to_date
verdict (some Ordering.gt) = CheckState.device_ahead

module _ {J : Type 0} (k : CJson J) where
  unfoldable pub copy_optional : J → Text → Text → ℕ → EspErr × Text
  copy_optional root key destination size = elim (k.get_item root key) [
    | none ↦ (ok, [])
    | some item ↦
        if k.is_null item
        then (ok, [])
        else copy_value size destination (k.string_value (some item))
  ]

  -- The three optional texts, up to the first that is refused.
  unfoldable pub copy_texts : J → Snapshot → Bool × Snapshot
  copy_texts root r =
      let (e, title) = copy_optional root (text "title") r.title 96 in
      let (e', summary) = copy_optional root (text "summary") r.summary 256 in
      let (e'', published_at) = copy_optional root (text "published_at") r.published_at 40 in
      if not (is_ok e)
      then (false, record r { title = title })
      else if not (is_ok e')
      then (false, record r { title = title; summary = summary })
      else (is_ok e'', record r { title = title; summary = summary; published_at = published_at })

  -- The latest version, if the required fields are in order.
  unfoldable pub required : Text → J → Option Text
  required product root =
      let schema = k.get_item root (text "schema_version") in
      elim (k.string_value (k.get_item root (text "product"))) [
        | none ↦ none
        | some p ↦ elim (k.string_value (k.get_item root (text "latest_version"))) [
          | none ↦ none
          | some latest ↦
              if not (k.is_number schema)
                || not (k.value_int schema == 1)
                || not (text_eq p product)
                || leb 32 (length latest)
              then none
              else some latest
        ]
      ]

module _ (ulong_max : ℕ) {J : Type 0} (k : CJson J) where
  -- The comparison with the latest version and what follows.
  unfoldable pub parse_latest : J → Text → Snapshot → EspErr × Snapshot
  parse_latest root latest r =
      let (e, comparison) =
        compare_versions ulong_max (some r.current_version) (some latest) true in
      let (fits, r') = copy_texts k root (record r { latest_version = strlcpy 32 latest }) in
      if not (is_ok e)
      then (invalid_response, r)
      else if not fits
      then (invalid_response, r')
      else (ok, record r' { state = verdict comparison })

  unfoldable pub parse_root : Text → J → Snapshot → EspErr × Snapshot
  parse_root product root r = elim (required k product root) [
    | none ↦ (invalid_response, r)
    | some latest ↦ parse_latest root latest r
  ]

  unfoldable pub parse_manifest : Text → List ℕ → Snapshot → EspErr × Snapshot
  parse_manifest product json r = elim (k.parse_with_length json) [
    | none ↦ (invalid_response, r)
    | some root ↦
        if not (k.is_object root) then (invalid_response, r) else parse_root product root r
  ]
