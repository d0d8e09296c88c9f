-- ===== src/Display/Lease/Invariant.antt =====
-- What every call of the lease keeps, over any sequence of calls.
use esp_mosaico_claw.Base.{
  ℕ, ◌≤◌, ◌<◌, ◌≡◌, Bool, true, false, Option, none, some, List, [], ◌∷◌, arith, u32_mod,
}
use esp_mosaico_claw.Display.Lease.{
  Lease, is_handoff, zeroed, next_generation, init, activate, begin_handoff, commit_handoff,
  abort_handoff, fault, begin_recover, recover,
}

pub next_generation_bounds : (g : ℕ) → (1 ≤ next_generation g) × (next_generation g < u32_mod)
unfolding next_generation
next_generation_bounds g = ground arith

-- A pending producer is reserved exactly during a handoff, under the generation that follows.
pub record IsValid (l : Lease) : Type 0 where
  pub in_word : l.generation < u32_mod
  pub reserved :
      is_handoff l.state ≡ true
      → (1 ≤ l.pending_producer) × (l.pending_generation ≡ next_generation l.generation)
  pub cleared : is_handoff l.state ≡ false → (l.pending_producer ≡ 0) × (l.pending_generation ≡ 0)

-- The lease has been given to a producer once: there is a last owner, and its generation is not 0.
pub record IsOwned (l : Lease) : Type 0 where
  pub owner : 1 ≤ l.active_producer
  pub numbered : 1 ≤ l.generation

-- The calls of the component on one lease, with their arguments.
pub data Call : Type 0 where
  activates : ℕ → Bool → Call
  begins_handoff : ℕ → ℕ → ℕ → Call
  commits : ℕ → Bool → Call
  aborts faults : Call
  begins_recover : ℕ → Call
  recovers : ℕ → Bool → Call

abbrev pub lease_or : Lease → Option Lease → Lease
lease_or l none = l
lease_or l (some l') = l'

unfoldable pub step : Lease → Call → Lease
step l (activates p out) = lease_or l (activate (some l) p out).1
step l (begins_handoff p g q) = lease_or l (begin_handoff (some l) p g q).1
step l (commits p out) = lease_or l (commit_handoff (some l) p out).1
step l aborts = lease_or l (abort_handoff (some l))
step l faults = lease_or l (fault (some l))
step l (begins_recover p) = lease_or l (begin_recover (some l) p).1
step l (recovers p out) = lease_or l (recover (some l) p out).1

unfoldable pub run : Lease → List Call → Lease
run l [] = l
run l (c ∷ cs) = run (step l c) cs

pub step-IsValid : (l : Lease) (c : Call) → IsValid l → IsValid (step l c)
unfolding step activate begin_handoff commit_handoff abort_handoff fault begin_recover recover
step-IsValid l (activates p out) v = ground (arith, next_generation_bounds l.generation)
step-IsValid l (begins_handoff p g q) v = ground (arith, next_generation_bounds l.generation)
step-IsValid l (commits p out) v = ground (arith, next_generation_bounds l.generation)
step-IsValid l aborts v = ground arith
step-IsValid l faults v = ground arith
step-IsValid l (begins_recover p) v = ground (arith, next_generation_bounds l.generation)
step-IsValid l (recovers p out) v = ground (arith, next_generation_bounds l.generation)

pub step-IsOwned : (l : Lease) (c : Call) → IsValid l → IsOwned l → IsOwned (step l c)
unfolding step activate begin_handoff commit_handoff abort_handoff fault begin_recover recover
step-IsOwned l (activates p out) v o = ground (arith, next_generation_bounds l.generation)
step-IsOwned l (begins_handoff p g q) v o = ground arith
step-IsOwned l (commits p out) v o = ground (arith, next_generation_bounds l.generation)
step-IsOwned l aborts v o = ground arith
step-IsOwned l faults v o = ground arith
step-IsOwned l (begins_recover p) v o = ground arith
step-IsOwned l (recovers p out) v o = ground (arith, next_generation_bounds l.generation)

zeroed-IsValid : IsValid zeroed
zeroed-IsValid = record { in_word = omega arith; reserved = λ e. cc; cleared = λ _. omega arith }

pub run-IsValid_from : (l : Lease) (cs : List Call) → IsValid l → IsValid (run l cs)
unfolding run
run-IsValid_from l [] v = v
run-IsValid_from l (c ∷ cs) v = run-IsValid_from (step l c) cs (step-IsValid l c v)

-- After any sequence of calls on an initialised lease, in any order and with any arguments, the
-- generation fits 32 bits, and a producer and a nonzero generation are reserved during a handoff
-- and at no other time, the generation being the one that follows the current one.
pub run-init-IsValid : (l : Lease) (cs : List Call) → IsValid (run (lease_or l (init (some l))) cs)
unfolding init
run-init-IsValid l cs = run-IsValid_from zeroed cs zeroed-IsValid

pub run-IsOwned : (l : Lease) (cs : List Call) → IsValid l → IsOwned l → IsOwned (run l cs)
unfolding run
run-IsOwned l [] v o = o
run-IsOwned l (c ∷ cs) v o = run-IsOwned (step l c) cs (step-IsValid l c v) (step-IsOwned l c v o)
