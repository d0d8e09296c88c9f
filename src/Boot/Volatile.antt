-- ===== src/Boot/Volatile.antt =====
-- The boot stages without a store: the flow itself remembers the stage.
use esp_mosaico_claw.Base.{
  ◌≡◌, refl, sym, ap, ◌∙◌, Option, none, some, ◌⊎◌, ◌↔◌, List, [], ◌∷◌, ◌++◌, arith, Text, text_eq,
  Bool-cases, inl, inr, ok, text_eq_iff,
}
use mathlib.Core.List.{append_assoc}
use esp_mosaico_claw.Boot.{BootStage, SystemFlow, setup_app, welcome_app, no_ops, init, handle_exit}
use esp_mosaico_claw.Boot.Store.{next_stage}

abbrev pub flow_or : {W : Type 0} → SystemFlow W → Option (SystemFlow W) → SystemFlow W
flow_or f none = f
flow_or f (some f') = f'

module _ {W : Type 0} where
  abbrev pub unbacked : BootStage → SystemFlow W
  unbacked s = record { ops = no_ops; volatile_stage = s }

  exit_in :
      (s : BootStage) (app : Text) (w : W)
      → let (r, f', w') = handle_exit (unbacked s) app w in
        (r.error ≡ ok) × (f' ≡ unbacked (next_stage s app)) × (w' ≡ w)
  unfolding handle_exit next_stage
  exit_in BootStage.setup app w = elim (Bool-cases (text_eq app setup_app)) [
    | inl t ↦ (ground (arith, t), ground (arith, t), ground (arith, t))
    | inr t ↦ (ground (arith, t), ground (arith, t), ground (arith, t))
  ]
  exit_in BootStage.welcome app w = elim (Bool-cases (text_eq app welcome_app)) [
    | inl t ↦ (ground (arith, t), ground (arith, t), ground (arith, t))
    | inr t ↦ (ground (arith, t), ground (arith, t), ground (arith, t))
  ]
  exit_in BootStage.home app w = (refl, refl, refl)
  exit_in (BootStage.unknown n) app w = (refl, refl, refl)

  -- The flow after the end of each App in turn.
  pub exits : SystemFlow W → List Text → W → SystemFlow W
  exits f [] w = f
  exits f (a ∷ more) w = let (r, f', w') = handle_exit f a w in exits f' more w'

-- The stages that a row of exits leads through.
stage_after : BootStage → List Text → BootStage
stage_after s [] = s
stage_after s (a ∷ more) = stage_after (next_stage s a) more

exits-stage_after :
    {W : Type 0} (s : BootStage) (apps : List Text) (w : W)
    → exits (unbacked s) apps w ≡ unbacked (stage_after s apps)
unfolding exits stage_after
exits-stage_after s [] w = refl
exits-stage_after s (a ∷ more) w =
    rw ((exit_in s a w).1, (exit_in s a w).2) (exits-stage_after (next_stage s a) more w)

next_welcome :
    (a : Text)
    → ((a ≡ welcome_app) × (next_stage BootStage.welcome a ≡ BootStage.home))
      ⊎ (next_stage BootStage.welcome a ≡ BootStage.welcome)
unfolding next_stage
next_welcome a = ground (arith, text_eq_iff a welcome_app)

next_setup :
    (a : Text)
    → ((a ≡ setup_app) × (next_stage BootStage.setup a ≡ BootStage.welcome))
      ⊎ (next_stage BootStage.setup a ≡ BootStage.setup)
unfolding next_stage
next_setup a = ground (arith, text_eq_iff a setup_app)

home_stays : (apps : List Text) → stage_after BootStage.home apps ≡ BootStage.home
unfolding stage_after next_stage
home_stays [] = refl
home_stays (a ∷ more) = home_stays more

welcome_splits :
    (apps : List Text)
    → stage_after BootStage.welcome apps ≡ BootStage.home
    → (ys zs : List Text) × (apps ≡ ys ++ welcome_app ∷ zs)
unfolding stage_after
welcome_splits [] h = cc
welcome_splits (a ∷ more) h = elim (next_welcome a) [
  | inl (e, n) ↦ ([], more, rw e)
  | inr n ↦ let (ys, zs, e) = welcome_splits more (rw n at h) in (a ∷ ys, zs, rw e)
]

welcome_joins :
    (ys zs : List Text) → stage_after BootStage.welcome (ys ++ welcome_app ∷ zs) ≡ BootStage.home
unfolding stage_after
welcome_joins [] zs = unfold next_stage text_eq in home_stays zs
welcome_joins (a ∷ ys) zs = elim (next_welcome a) [
  | inl (e, n) ↦
      ap (λ s. stage_after s (ys ++ welcome_app ∷ zs)) n ∙ home_stays (ys ++ welcome_app ∷ zs)
  | inr n ↦ ap (λ s. stage_after s (ys ++ welcome_app ∷ zs)) n ∙ welcome_joins ys zs
]

setup_splits :
    (apps : List Text)
    → stage_after BootStage.setup apps ≡ BootStage.home
    → (xs ys zs : List Text) × (apps ≡ xs ++ setup_app ∷ (ys ++ welcome_app ∷ zs))
unfolding stage_after
setup_splits [] h = cc
setup_splits (a ∷ more) h = elim (next_setup a) [
  | inl (e, n) ↦ let (ys, zs, p) = welcome_splits more (rw n at h) in ([], ys, zs, rw (e, p))
  | inr n ↦ let (xs, ys, zs, p) = setup_splits more (rw n at h) in (a ∷ xs, ys, zs, rw p)
]

setup_joins :
    (xs ys zs : List Text)
    → stage_after BootStage.setup (xs ++ setup_app ∷ (ys ++ welcome_app ∷ zs)) ≡ BootStage.home
unfolding stage_after
setup_joins [] ys zs = unfold next_stage text_eq in welcome_joins ys zs
setup_joins (a ∷ xs) ys zs = elim (next_setup a) [
  | inl (e, n) ↦
      ap (λ s. stage_after s (xs ++ setup_app ∷ (ys ++ welcome_app ∷ zs))) n
      ∙ ap (stage_after BootStage.welcome)
          (sym (append_assoc xs (setup_app ∷ ys) (welcome_app ∷ zs)))
      ∙ welcome_joins (xs ++ setup_app ∷ ys) zs
  | inr n ↦
      ap (λ s. stage_after s (xs ++ setup_app ∷ (ys ++ welcome_app ∷ zs))) n ∙ setup_joins xs ys zs
]

-- Without a store, a flow just initialised is at the home stage after a row of exits exactly if the
-- setup center has ended in it and, at some point after that, the welcome App.
pub home_iff :
    {W : Type 0} (f : SystemFlow W) (apps : List Text) (w : W)
    → let start = flow_or f (init (some f) none).1 in
      ((exits start apps w).volatile_stage ≡ BootStage.home)
      ↔ ((xs ys zs : List Text) × (apps ≡ xs ++ setup_app ∷ (ys ++ welcome_app ∷ zs)))
unfolding init
home_iff f apps w = (
  λ h. setup_splits apps (rw (exits-stage_after BootStage.setup apps w) at h),
  λ (xs, ys, zs, e). rw (exits-stage_after BootStage.setup apps w, e) (setup_joins xs ys zs),
)
