-- ===== src/Boot/Tests.antt =====
-- Tests of the boot stages, and their theorems at a concrete store.
use esp_mosaico_claw.Base.{
  ◌≡◌, refl, ◌↔◌, ◌++◌, false, none, some, List, [], ◌∷◌, Text, text, ok, fail, text_eq,
}
use esp_mosaico_claw.Boot.{BootStage, setup_app, welcome_app, init, handle_exit}
use esp_mosaico_claw.Boot.Store.{StageStore}
use esp_mosaico_claw.Boot.Volatile.{unbacked, exits, home_iff, flow_or}

-- A store in memory.
abbrev memory : StageStore BootStage
memory = record {
  get = λ w. ((ok, w), w);
  set = λ s w. (ok, s);
  held = λ w. w;
  get_held = λ w. refl;
  set_held = λ s w e. refl;
  set_failed = λ s w n. absurd (n refl);
}

-- A write that fails still names the App that it did not get to.
failed_write_names :
    (handle_exit {W = BootStage}
      (record {
        ops = record {
          get_boot_stage = some (λ w. ((ok, w), w));
          set_boot_stage = some (λ s w. (fail, w));
        };
        volatile_stage = BootStage.setup;
      })
      setup_app
      BootStage.setup).0
    ≡ record { error = fail; handled = false; next_app_name = some welcome_app }
unfolding handle_exit text_eq
failed_write_names = refl

abbrev apps : List Text
apps = text "camera" ∷ setup_app ∷ text "album" ∷ welcome_app ∷ []

home_iff_example :
    ((exits
        (flow_or (unbacked BootStage.home) (init (some (unbacked BootStage.home)) none).1)
        apps
        BootStage.setup).volatile_stage
      ≡ BootStage.home)
    ↔ ((xs ys zs : List Text) × (apps ≡ xs ++ setup_app ∷ (ys ++ welcome_app ∷ zs)))
home_iff_example = home_iff (unbacked BootStage.home) apps BootStage.setup
