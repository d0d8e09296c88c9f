-- ===== src/Voice/Session/Queue.antt =====
-- The commands of the voice worker, and what it relies on of the kernel's queue.
use esp_mosaico_claw.Base.{ℕ, ◌≡◌, ◌⊎◌, Bool, true, false, Option, none, some, List, [], ◌∷◌, ◌++◌}

-- `voice_command_type_t`.
pub data CommandType : Type 0 where
  begin finish cancel shutdown : CommandType

-- `voice_command_t`.
pub record Command : Type 0 where
  pub kind : CommandType
  pub operation_id : ℕ
  pub send : Bool

-- A FreeRTOS queue of commands: a call that succeeds adds the command at the back or at the front,
-- one that fails changes nothing, and `receive` takes the command at the front.
pub record CommandQueue (Q : Type 0) : Type 0 where
  pub send : Command → Q → Bool × Q
  pub send_front : Command → Q → Bool × Q
  pub receive : Q → Option (Command × Q)
  pub items : Q → List Command
  pub send_items :
      (c : Command) (q : Q)
      → (((send c q).0 ≡ true) × (items (send c q).1 ≡ items q ++ c ∷ []))
        ⊎ (((send c q).0 ≡ false) × (items (send c q).1 ≡ items q))
  pub send_front_items :
      (c : Command) (q : Q)
      → (((send_front c q).0 ≡ true) × (items (send_front c q).1 ≡ c ∷ items q))
        ⊎ (((send_front c q).0 ≡ false) × (items (send_front c q).1 ≡ items q))
  pub receive_items :
      (q : Q)
      → ((receive q ≡ none) × (items q ≡ []))
        ⊎ ((c : Command) × (q' : Q) × (receive q ≡ some (c, q')) × (items q ≡ c ∷ items q'))
