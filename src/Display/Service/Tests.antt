-- ===== src/Display/Service/Tests.antt =====
-- Tests of the presenter's owners, and their theorems at concrete producers.
use esp_mosaico_claw.Base.{
  ℕ, ◌-◌, ◌≡◌, refl, inl, true, false, none, some, arith, if◌then◌else◌, ◌==◌, EspErr, ok, fail,
}
use esp_mosaico_claw.Display.Lease.{
  LeaseState, validate, begin_handoff, commit_handoff, abort_handoff, next_generation,
}
use esp_mosaico_claw.Display.Service.{
  Producer, Presenter, Service, acquire, release, active_producer, acquire_from, recover_first,
  handoff, handoff_from, handoff_quiesce, handoff_activate, publish, roll_back, lease_aborted,
  baseline_presents,
}
use esp_mosaico_claw.Display.Service.Outcome.{IsSettled, Acquired, acquire-Acquired}
use esp_mosaico_claw.Display.Service.Release.{Released, release-Released}

-- The world counts the calls that are left before one fails; it fails when none is left.
abbrev attempt : ℕ → EspErr × ℕ
attempt w = (if w == 1 then fail else ok, if w == 0 then 0 else w - 1)

abbrev producer : ℕ → Producer ℕ
producer i = record { identity = i; quiesce = λ limit w. attempt w; activate = λ g w. attempt w }

abbrev presenter : Presenter ℕ
presenter = record { presenter_quiesce = λ limit w. attempt w; get_state = λ w. (ok, false) }

-- The baseline is 1, and nobody has acquired the screen.
abbrev resting : Service ℕ
resting = record {
  lease = record {
    active_producer = 1;
    pending_producer = 0;
    generation = 4;
    pending_generation = 0;
    state = LeaseState.active;
  };
  baseline = producer 1;
  exclusive = none;
}

resting-IsSettled : IsSettled resting
resting-IsSettled = record {
  valid = record { in_word = omega arith; reserved = λ e. absurd cc; cleared = λ e. (refl, refl) };
  based = omega arith;
  placed = inl refl;
  holder = refl;
}

acquired : (acquire presenter resting (producer 2) 100 true true 0).out ≡ some 5
unfolding acquire active_producer acquire_from recover_first handoff handoff_from handoff_quiesce
    handoff_activate publish baseline_presents validate begin_handoff commit_handoff next_generation
acquired = refl

-- The activation of the next producer fails, and the service is as it was.
rolled_back : (acquire presenter resting (producer 2) 100 true true 2).service ≡ resting
unfolding acquire active_producer acquire_from recover_first handoff handoff_from handoff_quiesce
    handoff_activate roll_back lease_aborted baseline_presents validate begin_handoff abort_handoff
rolled_back = refl

acquire-Acquired_example :
    Acquired resting (producer 2) (acquire presenter resting (producer 2) 100 true true 2)
acquire-Acquired_example =
    acquire-Acquired presenter resting (producer 2) 100 true true 2 resting-IsSettled

release-Released_example : Released (release presenter resting 2 5 100 true true 0)
release-Released_example = release-Released presenter resting 2 5 100 true true 0 resting-IsSettled
