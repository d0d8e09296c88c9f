-- ===== src/Display/Lease/Tests.antt =====
-- Tests of the lease, and its theorems at concrete leases.
use esp_mosaico_claw.Base.{
  ℕ, ◌-◌, ◌≡◌, refl, true, false, none, some, List, [], ◌∷◌, arith, u32_mod, ok, invalid_state,
}
use esp_mosaico_claw.Display.Lease.{
  Lease, LeaseState, next_generation, validate, activate, begin_handoff, commit_handoff,
  abort_handoff, fault, recover, pending_generation, init,
}
use esp_mosaico_claw.Display.Lease.Invariant.{
  IsValid, Call, begins_handoff, commits, aborts, step, run, run-init-IsValid, lease_or,
}
use esp_mosaico_claw.Display.Lease.Exclusive.{
  handoff_transfers, commit_handoff_stranger, fault_recovers,
}
use esp_mosaico_claw.Display.Lease.Generations.{publications, run-generation, stale_token, advance}

-- Producer 7 presents under generation 5.
abbrev presenting : Lease
presenting = record {
  active_producer = 7;
  pending_producer = 0;
  generation = 5;
  pending_generation = 0;
  state = LeaseState.active;
}

-- A handoff from producer 7 to producer 9 is under way.
abbrev handing_over : Lease
handing_over = record {
  active_producer = 7;
  pending_producer = 9;
  generation = 5;
  pending_generation = 6;
  state = LeaseState.handoff;
}

abbrev faulty : Lease
faulty = record presenting { state = LeaseState.faulted }

abbrev script : List Call
script = begins_handoff 7 5 9 ∷ aborts ∷ begins_handoff 7 5 9 ∷ commits 9 true ∷ []

generation_wraps : next_generation (u32_mod - 1) ≡ 1
unfolding next_generation
generation_wraps = refl

first_activation : (activate (init (some presenting)) 7 true).2 ≡ some 1
unfolding activate init next_generation
first_activation = refl

presenting-IsValid : IsValid presenting
presenting-IsValid = record {
  in_word = omega arith;
  reserved = λ e. cc;
  cleared = λ _. omega arith;
}

presenting_holds : validate (some presenting) 7 5 ≡ true
unfolding validate
presenting_holds = refl

handoff_transfers_example :
    let (r, mid) = begin_handoff (some presenting) 7 5 9 in
    let (s, after, published) = commit_handoff mid 9 true in
    (r ≡ ok)
    × (s ≡ ok)
    × (published ≡ some (pending_generation mid))
    × (validate mid 9 (pending_generation mid) ≡ true)
    × (validate mid 7 5 ≡ false)
    × (validate after 9 (pending_generation mid) ≡ true)
    × ((h : ℕ) → validate after 7 h ≡ false)
handoff_transfers_example =
    handoff_transfers presenting 7 5 9 presenting_holds refl (omega arith) (omega arith)

commit_handoff_stranger_example :
    commit_handoff (some handing_over) 8 true ≡ (invalid_state, some handing_over, none)
commit_handoff_stranger_example = commit_handoff_stranger handing_over 8 (omega arith) (omega arith)

fault_recovers_example : (recover (some faulty) 3 true).2 ≡ some (next_generation 5)
unfolding fault
fault_recovers_example = (fault_recovers presenting faulty 3 refl (omega arith)).7

run-init-IsValid_example : IsValid (run (lease_or presenting (init (some presenting))) script)
run-init-IsValid_example = run-init-IsValid presenting script

run-generation_example :
    (run presenting script).generation ≡ advance (publications presenting script) 5
run-generation_example = run-generation presenting script presenting-IsValid

script_publishes_once : publications presenting script ≡ 1
unfolding publications step begin_handoff abort_handoff commit_handoff validate next_generation
script_publishes_once = refl

stale_token_example : validate (some (run presenting script)) 7 5 ≡ false
stale_token_example =
    stale_token presenting script 7 presenting-IsValid (omega arith)
      (omega (arith, script_publishes_once)) (omega (arith, script_publishes_once))
