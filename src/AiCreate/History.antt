-- ===== src/AiCreate/History.antt =====
-- components/mosaic_ui/common/ai_create_session_history.c: the history of a session, read from its
-- JSON. cJSON is the record of the functions that the source calls; what the session manager and the
-- memory answer are inputs.
pub mod Turns
pub mod Texts
pub mod Told
mod Tests
use esp_mosaico_claw.Base.{
  ℕ, zero, suc, ◌+◌, ◌-◌, ◌%◌, Bool, true, false, not, ◌&&◌, ◌||◌, Option, none, some, List, [],
  ◌∷◌, ◌++◌, if◌then◌else◌, ◌==◌, ltb, length, take, drop, Ptr, Text, text, text_eq, is_blank,
  strlcpy, EspErr, ok, no_mem, invalid_arg, invalid_state, not_found, is_ok,
}
use esp_mosaico_claw.AiCreate.Transcript.{Role, Message, is_user, history_max, text_size}

-- `cJSON_Parse`, `cJSON_IsArray`, the loop `cJSON_ArrayForEach`, `cJSON_GetObjectItemCaseSensitive`, and
-- `cJSON_IsString` with the field `valuestring`.
pub record HistoryJson (J : Type 0) : Type 0 where
  pub parse : Text → Ptr J
  pub is_array : Ptr J → Bool
  pub items : Ptr J → List J
  pub get_item : J → Text → Ptr J
  pub string_of : Ptr J → Ptr Text

unfoldable pub append_text : ℕ → Text → Text → Text
append_text capacity destination t =
    let used = length destination in
    let begun =
      if not (used == 0) && ltb (used + 1) capacity
      then destination ++ b'\n' ∷ []
      else destination in
    if capacity == 0 || is_blank t
    then destination
    else if ltb (length begun) (capacity - 1)
    then begun ++ strlcpy (capacity - length begun) t
    else begun

-- The last message gets more text.
unfoldable pub extend_last : Text → List Message → List Message
extend_last t [] = []
extend_last t (m ∷ []) = record m { text = append_text text_size m.text t } ∷ []
extend_last t (m ∷ n ∷ ms) = m ∷ extend_last t (n ∷ ms)

abbrev pub fresh : Role → Text → Message
fresh role t = record { request_id = 0; role = role; pending = false; error = false; text = t }

-- A message of its own, unless it is empty.
abbrev pub add_message : Role → Text → List Message → List Message
add_message role t ms = if is_blank t then ms else ms ++ fresh role t ∷ []

-- The message with the content that was copied into an empty text.
unfoldable pub append_message : List Message → Role → Text → List Message
append_message ms Role.user t =
    if not (length ms % 2 == 0)
    then extend_last t ms
    else add_message Role.user t (if length ms == history_max then drop 2 ms else ms)
append_message ms Role.assistant t =
    if length ms == 0 || length ms % 2 == 0 then ms else add_message Role.assistant t ms

module _ {J : Type 0} (k : HistoryJson J) where
  -- One block of a content that is an array.
  unfoldable pub copy_block : ℕ → Text → J → Text
  copy_block capacity destination block = elim (k.string_of (k.get_item block (text "text"))) [
    | none ↦ destination
    | some t ↦ elim (k.string_of (k.get_item block (text "type"))) [
      | none ↦ append_text capacity destination t
      | some type ↦
          if text_eq type (text "text") then append_text capacity destination t else destination
    ]
  ]

  unfoldable pub copy_blocks : ℕ → Text → List J → Text
  copy_blocks capacity destination [] = destination
  copy_blocks capacity destination (block ∷ blocks) =
      copy_blocks capacity (copy_block capacity destination block) blocks

  -- The text of a content in an empty buffer.
  unfoldable pub copy_content : ℕ → Ptr J → Text
  copy_content capacity content = elim (k.string_of content) [
    | some t ↦ strlcpy capacity t
    | none ↦ if not (k.is_array content) then [] else copy_blocks capacity [] (k.items content)
  ]

  -- One record of the history.
  unfoldable pub load_record : List Message → J → List Message
  load_record ms record_item =
      let t = copy_content text_size (k.get_item record_item (text "content")) in
      elim (k.string_of (k.get_item record_item (text "role"))) [
        | none ↦ ms
        | some role ↦
            if text_eq role (text "user")
            then append_message ms Role.user t
            else if text_eq role (text "assistant")
            then append_message ms Role.assistant t
            else ms
      ]

  unfoldable pub load_records : List Message → List J → List Message
  load_records ms [] = ms
  load_records ms (r ∷ rs) = load_records (load_record ms r) rs

  -- What follows once the memory has given the JSON.
  unfoldable pub load_json : Text → EspErr × List Message
  load_json json =
      let root = k.parse json in
      let ms = load_records [] (k.items root) in
      if not (k.is_array root)
      then (invalid_state, [])
      else if not (length ms == 0)
      then (ok, ms)
      else (not_found, ms)

  abbrev given : Ptr Text → Bool
  given none = false
  given (some t) = not (is_blank t)

  -- The inputs are whether `calloc` succeeds, the answer of the session manager with the length of the
  -- session's id, and that of the memory with its JSON.
  unfoldable pub load_history :
      Ptr Text → Ptr Text → Bool → EspErr × ℕ → EspErr × Text → EspErr × List Message
  load_history chat_id session_alias calloc (e, id_length) (e', json) =
      if not (given chat_id && given session_alias)
      then (invalid_arg, [])
      else if not calloc
      then (no_mem, [])
      else if not (is_ok e)
      then (e, [])
      else if id_length == 0
      then (not_found, [])
      else if not (is_ok e')
      then (e', [])
      else load_json json
