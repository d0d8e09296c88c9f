-- ===== src/AiCreate/Transcript.antt =====
-- components/mosaic_ui/common/ai_create_controller.c: the messages of a conversation. A transcript is
-- the list of its first `count` messages; those behind are never read.
pub mod Bounds
use esp_mosaico_claw.Base.{
  ℕ, zero, suc, ◌+◌, ◌*◌, ◌%◌, Bool, true, false, not, ◌&&◌, Option, none, some, List, [], ◌∷◌,
  ◌++◌, map, if◌then◌else◌, ◌==◌, leb, length, Text, strlcpy,
}

-- `ai_create_message_role_t`.
pub data Role : Type 0 where
  user assistant : Role

-- `ai_create_message_t`.
pub record Message : Type 0 where
  pub request_id : ℕ
  pub role : Role
  pub pending : Bool
  pub error : Bool
  pub text : Text

abbrev pub history_max : ℕ
history_max = 10

-- The size of a message's text, with its terminator.
abbrev pub text_size : ℕ
text_size = 512

abbrev pub is_user : Role → Bool
is_user Role.user = true
is_user Role.assistant = false

unfoldable pub drop_oldest_turn : List Message → List Message
drop_oldest_turn [] = []
drop_oldest_turn (m ∷ []) = []
drop_oldest_turn (m ∷ n ∷ ms) = if is_user m.role && not (is_user n.role) then ms else n ∷ ms

unfoldable pub transcript_append : List Message → ℕ → Role → Text → Bool → Bool → List Message
transcript_append ms request_id role text pending error =
    let m : Message = record {
      request_id = request_id;
      role = role;
      pending = pending;
      error = error;
      text = strlcpy text_size text;
    } in
    (if length ms == history_max then drop_oldest_turn ms else ms) ++ m ∷ []

-- The assistant's message of a request.
abbrev pub answers : ℕ → Message → Bool
answers request_id m = not (is_user m.role) && m.request_id == request_id

-- The loop from the last message back; `none` if there is no message of the request.
unfoldable pub update_last : ℕ → Text → Bool → Bool → List Message → Option (List Message)
update_last request_id text pending error [] = none
update_last request_id text pending error (m ∷ ms) =
    elim (update_last request_id text pending error ms) [
      | some ms' ↦ some (m ∷ ms')
      | none ↦
          if answers request_id m
          then some
              (record m { pending = pending; error = error; text = strlcpy text_size text } ∷ ms)
          else none
    ]

unfoldable pub update_assistant : List Message → ℕ → Text → Bool → Bool → List Message
update_assistant ms request_id text pending error =
    elim (update_last request_id text pending error ms) [
      | some ms' ↦ ms'
      | none ↦ transcript_append ms request_id Role.assistant text pending error
    ]

unfoldable pub rebind_request : ℕ → ℕ → List Message → List Message
rebind_request from to ms =
    map (λ m. if m.request_id == from then record m { request_id = to } else m) ms

-- The role that is due at an index.
abbrev pub expected : ℕ → Role
expected i = if i % 2 == 0 then Role.user else Role.assistant

abbrev pub same_role : Role → Role → Bool
same_role Role.user r = is_user r
same_role Role.assistant r = not (is_user r)

unfoldable pub roles_valid : ℕ → List Message → Bool
roles_valid i [] = true
roles_valid i (m ∷ ms) = same_role m.role (expected i) && roles_valid (i + 1) ms

unfoldable pub transcript_valid : List Message → Bool
transcript_valid ms = leb (length ms) history_max && length ms % 2 == 0 && roles_valid 0 ms
