-- ===== src/AiCreate/History/Tests.antt =====
-- components/mosaic_ui/common/ai_create_session_history.c: a history at work. The toy JSON knows one
-- text, whose parse is an array of records with texts as their contents.
use esp_mosaico_claw.Base.{
  Bool, true, false, ◌≡◌, refl, ◌≤◌, none, some, List, [], ◌∷◌, map, length, Ptr, Text, text,
  text_eq, ok, ◌%◌, ◌==◌, if◌then◌else◌,
}
use esp_mosaico_claw.AiCreate.Transcript.{Role, Message, transcript_valid}
use esp_mosaico_claw.AiCreate.History.{
  HistoryJson, fresh, append_text, extend_last, append_message, copy_content, load_record,
  load_records, load_json, load_history,
}
use esp_mosaico_claw.AiCreate.History.Turns.{tell_all, entries}
use esp_mosaico_claw.AiCreate.History.Told.{Loaded, load_history-Loaded}

data Node : Type 0 where
  array : List (Text × Text) → Node
  object : Text → Text → Node
  leaf : Text → Node

abbrev toy_items : Ptr Node → List Node
toy_items (some (array rs)) = map (λ r. object r.0 r.1) rs
toy_items n = []

abbrev toy_is_array : Ptr Node → Bool
toy_is_array (some (array rs)) = true
toy_is_array n = false

abbrev toy_get : Node → Text → Ptr Node
toy_get (object role content) key =
    if text_eq key (text "role")
    then some (leaf role)
    else if text_eq key (text "content")
    then some (leaf content)
    else none
toy_get n key = none

abbrev toy_string : Ptr Node → Ptr Text
toy_string (some (leaf t)) = some t
toy_string n = none

abbrev toy : List (Text × Text) → HistoryJson Node
toy rs = record {
  parse = λ t. some (array rs);
  is_array = toy_is_array;
  items = toy_items;
  get_item = toy_get;
  string_of = toy_string;
}

abbrev asked : List (Text × Text)
asked =
    (text "assistant", text "Hi")
    ∷ (text "user", text "Play")
    ∷ (text "user", text "music")
    ∷ (text "tool", text "x")
    ∷ (text "assistant", text "Done")
    ∷ []

abbrev answered : List Message
answered = fresh Role.user (text "Play\nmusic") ∷ fresh Role.assistant (text "Done") ∷ []

-- An assistant without a user is left out, and a second user's text continues the first one's.
load_asked :
    load_history (toy asked) (some (text "chat")) (some (text "main")) true (ok, 3) (ok, text "[]")
    ≡ (ok, answered)
unfolding load_history load_json load_records load_record copy_content append_message extend_last
    append_text text_eq
load_asked = refl

load_history-Loaded_example :
    Loaded (tell_all [] (entries (toy asked) (toy_items (some (array asked))))) answered
    × (1 ≤ length answered)
    × (transcript_valid answered ≡ (length answered % 2 == 0))
load_history-Loaded_example =
    load_history-Loaded (toy asked) (some (text "chat")) (some (text "main")) true (ok, 3) ok
      (text "[]") answered load_asked

-- A history whose last turn is not answered is loaded and then refused by the controller.
abbrev unanswered : List Message
unanswered = fresh Role.user (text "Stop") ∷ []

load_unanswered :
    load_history
      (toy ((text "user", text "Stop") ∷ []))
      (some (text "chat"))
      (some (text "main"))
      true
      (ok, 3)
      (ok, text "[]")
    ≡ (ok, unanswered)
unfolding load_history load_json load_records load_record copy_content append_message extend_last
    append_text text_eq
load_unanswered = refl

refused_unanswered : transcript_valid unanswered ≡ false
unfolding transcript_valid
refused_unanswered = refl
