-- ===== src/Boot.antt =====
-- components/mosaic_ui/common/mosaic_system_flow.c: which App the device starts with, and how the
-- end of an App moves the boot stage on. The store of the stage is the caller's: its two functions
-- run on a state `W`, and a null pointer is `none`.
pub mod Store
pub mod Volatile
mod Tests
use esp_mosaico_claw.Base.{
  ℕ, Bool, true, false, ◌&&◌, Option, none, some, if◌then◌else◌, Ptr, Text, text, text_eq, EspErr,
  ok, invalid_arg, invalid_state, is_ok,
}

-- `mosaic_system_boot_stage_t`. A store may hold any other number.
pub data BootStage : Type 0 where
  setup welcome home : BootStage
  unknown : ℕ → BootStage

abbrev pub is_setup : BootStage → Bool
is_setup BootStage.setup = true
is_setup _ = false

abbrev pub is_welcome : BootStage → Bool
is_welcome BootStage.welcome = true
is_welcome _ = false

-- `mosaic_system_ops_t`.
pub record SystemOps (W : Type 0) : Type 0 where
  pub get_boot_stage : Option (W → (EspErr × BootStage) × W)
  pub set_boot_stage : Option (BootStage → W → EspErr × W)

-- `mosaic_system_flow_t`.
pub record SystemFlow (W : Type 0) : Type 0 where
  pub ops : SystemOps W
  pub volatile_stage : BootStage

abbrev pub setup_app : Text
setup_app = text "setup_center"

abbrev pub welcome_app : Text
welcome_app = text "welcome"

abbrev pub hub_app : Text
hub_app = text "mosaic-hub"

-- What `handle_exit` answers: an error code, and the two results that it writes.
pub record ExitReply : Type 0 where
  pub error : EspErr
  pub handled : Bool
  pub next_app_name : Ptr Text

abbrev pub is_given {ℓ} : {A : Type ℓ} → Option A → Bool
is_given none = false
is_given (some a) = true

-- The App of a stage, if the stage is known.
abbrev pub app_of : BootStage → EspErr × Ptr Text
app_of BootStage.setup = (ok, some setup_app)
app_of BootStage.welcome = (ok, some welcome_app)
app_of BootStage.home = (ok, some hub_app)
app_of (BootStage.unknown n) = (invalid_state, none)

module _ {W : Type 0} where
  abbrev pub no_ops : SystemOps W
  no_ops = record { get_boot_stage = none; set_boot_stage = none }

  -- The flow, or the error; both functions are given, or no record is.
  pub init : Ptr (SystemFlow W) → Ptr (SystemOps W) → EspErr × Ptr (SystemFlow W)
  init none ops = (invalid_arg, none)
  init (some f) none = (ok, some (record { ops = no_ops; volatile_stage = BootStage.setup }))
  init (some f) (some ops) =
      if is_given ops.get_boot_stage && is_given ops.set_boot_stage
      then (ok, some (record { ops = ops; volatile_stage = BootStage.setup }))
      else (invalid_arg, some f)

  -- The result pointer is always given by the callers in the file.
  pub read_stage : Ptr (SystemFlow W) → W → (EspErr × Option BootStage) × W
  read_stage none w = ((invalid_arg, none), w)
  read_stage (some f) w = elim f.ops.get_boot_stage [
    | none ↦ ((ok, some f.volatile_stage), w)
    | some get ↦ let ((e, s), w') = get w in ((e, some s), w')
  ]

  pub write_stage : SystemFlow W → BootStage → W → EspErr × SystemFlow W × W
  write_stage f stage w = elim f.ops.set_boot_stage [
    | none ↦ (ok, record f { volatile_stage = stage }, w)
    | some set ↦
        let (e, w') = set stage w in
        if is_ok e then (ok, record f { volatile_stage = stage }, w') else (e, f, w')
  ]

  -- The App to start with, for a given result pointer.
  pub initial_app : Ptr (SystemFlow W) → Bool → W → (EspErr × Ptr Text) × W
  unfolding read_stage
  initial_app f false w = ((invalid_arg, none), w)
  initial_app f true w =
      let ((e, s), w') = read_stage f w in
      elim s [
        | none ↦ ((e, none), w')
        | some stage ↦ if is_ok e then (app_of stage, w') else ((e, none), w')
      ]

  -- The exit of an App at a stage that was read.
  pub exit_at : SystemFlow W → BootStage → Text → W → ExitReply × SystemFlow W × W
  unfolding write_stage
  exit_at f current app w =
      if is_setup current && text_eq app setup_app
      then (let (e, f', w') = write_stage f BootStage.welcome w in
          (record { error = e; handled = is_ok e; next_app_name = some welcome_app }, f', w'))
      else if is_welcome current && text_eq app welcome_app
      then (let (e, f', w') = write_stage f BootStage.home w in
          (record { error = e; handled = is_ok e; next_app_name = some hub_app }, f', w'))
      else (record { error = ok; handled = false; next_app_name = none }, f, w)

  -- Given the name and both result pointers.
  pub handle_exit : SystemFlow W → Text → W → ExitReply × SystemFlow W × W
  unfolding exit_at read_stage
  handle_exit f app w =
      let ((e, s), w') = read_stage (some f) w in
      let failed : ExitReply = record { error = e; handled = false; next_app_name = none } in
      elim s [
        | none ↦ (failed, f, w')
        | some stage ↦ if is_ok e then exit_at f stage app w' else (failed, f, w')
      ]
