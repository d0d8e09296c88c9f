-- ===== src/Display/Lease/Generations.antt =====
-- The generations that a lease publishes over time, and why an old token stays dead.
use esp_mosaico_claw.Base.{
  ℕ, zero, suc, ◌+◌, ◌-◌, ◌%◌, ◌≤◌, ◌<◌, ◌≡◌, refl, Bool, false, some, List, [], ◌∷◌, arith,
  u32_mod, is_ok, if◌then◌else◌,
}
use esp_mosaico_claw.Display.Lease.{
  Lease, next_generation, validate, activate, begin_handoff, commit_handoff, abort_handoff, fault,
  begin_recover, recover,
}
use esp_mosaico_claw.Display.Lease.Invariant.{
  IsValid, IsOwned, Call, activates, begins_handoff, commits, aborts, faults, begins_recover,
  recovers, step, run, step-IsValid, run-IsValid_from,
}

-- `n` generations on.
pub advance : ℕ → ℕ → ℕ
advance zero g = g
advance (suc n) g = advance n (next_generation g)

-- The generations 1 to 2 ^ 32 - 1 form one cycle.
advance_closed : (n g : ℕ) → 1 ≤ g → g < u32_mod → advance n g ≡ (g - 1 + n) % (u32_mod - 1) + 1
unfolding advance next_generation
advance_closed zero g a b = omega arith
advance_closed (suc n) g a b = ground (arith, advance_closed n (next_generation g))

-- Does the call publish a generation?
publishes : Lease → Call → Bool
publishes l (activates p out) = is_ok (activate (some l) p out).0
publishes l (commits p out) = is_ok (commit_handoff (some l) p out).0
publishes l (recovers p out) = is_ok (recover (some l) p out).0
publishes l _ = false

-- How many calls of a run publish one.
unfoldable pub publications : Lease → List Call → ℕ
unfolding publishes
publications l [] = 0
publications l (c ∷ cs) =
    let rest = publications (step l c) cs in if publishes l c then suc rest else rest

step-generation :
    (l : Lease) (c : Call)
    → IsValid l
    → (step l c).generation ≡ (if publishes l c then next_generation l.generation else l.generation)
unfolding step publishes activate begin_handoff commit_handoff abort_handoff fault begin_recover
    recover
step-generation l (activates p out) v = ground arith
step-generation l (begins_handoff p g q) v = ground arith
step-generation l (commits p out) v = ground arith
step-generation l aborts v = ground arith
step-generation l faults v = ground arith
step-generation l (begins_recover p) v = ground arith
step-generation l (recovers p out) v = ground arith

-- From a valid lease, after any sequence of calls, the generation has moved on by exactly the
-- number of calls that published one.
pub run-generation :
    (l : Lease) (cs : List Call)
    → IsValid l
    → (run l cs).generation ≡ advance (publications l cs) l.generation
unfolding run publications advance
run-generation l [] v = refl
run-generation l (c ∷ cs) v =
    ground (arith, run-generation (step l c) cs (step-IsValid l c v), step-generation l c v)

-- A generation that a valid, owned lease publishes is dead once the lease has published again, for
-- any producer, up to 2 ^ 32 - 3 publications on: no sequence of calls in between lets a frame
-- under it be presented.
pub stale_token :
    (l : Lease) (cs : List Call) (q : ℕ)
    → IsValid l
    → IsOwned l
    → 1 ≤ publications l cs
    → publications l cs < u32_mod - 2
    → validate (some (run l cs)) q l.generation ≡ false
unfolding validate next_generation
stale_token l cs q v o lo hi = ground (
  arith,
  run-generation l cs v,
  advance_closed (publications l cs) l.generation,
  run-IsValid_from l cs v,
)
