-- ===== src/Boot/Store.antt =====
-- The boot stages over a store that keeps what it is given.
use esp_mosaico_claw.Base.{
  ◌≡◌, ◌≢◌, ◌⊎◌, true, false, some, if◌then◌else◌, Text, text_eq, EspErr, ok,
}
use esp_mosaico_claw.Boot.{
  BootStage, SystemFlow, ExitReply, setup_app, welcome_app, is_setup, is_welcome, app_of,
  initial_app,
}

-- A store of the stage, and what the flow relies on: reading succeeds with the stage that the store
-- holds and changes nothing, and a successful write is what it holds from then on, while a failed
-- one leaves it.
pub record StageStore (W : Type 0) : Type 0 where
  pub get : W → (EspErr × BootStage) × W
  pub set : BootStage → W → EspErr × W
  pub held : W → BootStage
  pub get_held : (w : W) → get w ≡ ((ok, held w), w)
  pub set_held : (s : BootStage) (w : W) → (set s w).0 ≡ ok → held (set s w).1 ≡ s
  pub set_failed : (s : BootStage) (w : W) → (set s w).0 ≢ ok → held (set s w).1 ≡ held w

-- A flow over the store.
abbrev pub backed : {W : Type 0} → StageStore W → BootStage → SystemFlow W
backed k s = record {
  ops = record { get_boot_stage = some k.get; set_boot_stage = some k.set };
  volatile_stage = s;
}

-- The stage that follows the end of an App.
unfoldable pub next_stage : BootStage → Text → BootStage
next_stage s app =
    if is_setup s
    then (if text_eq app setup_app then BootStage.welcome else s)
    else if is_welcome s
    then (if text_eq app welcome_app then BootStage.home else s)
    else s

-- What holds of an exit and its answer.
abbrev pub Exited : {W : Type 0} → StageStore W → Text → W → ExitReply × SystemFlow W × W → Type 0
Exited k app w out =
    ((out.0.error ≡ ok)
      × (k.held out.2 ≡ next_stage (k.held w) app)
      × (out.0.handled ≡ true
          → initial_app (some out.1) true out.2 ≡ ((ok, out.0.next_app_name), out.2))
      × (out.0.handled ≡ false → next_stage (k.held w) app ≡ k.held w))
    ⊎ ((out.0.error ≢ ok) × (out.0.handled ≡ false) × (k.held out.2 ≡ k.held w))

-- The App to start with is that of the stage which the store holds.
pub initial_held :
    {W : Type 0} (k : StageStore W) (v : BootStage) (w : W)
    → initial_app (some (backed k v)) true w ≡ (app_of (k.held w), w)
unfolding initial_app
initial_held k v w = rw k.get_held
