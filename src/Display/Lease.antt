-- ===== src/Display/Lease.antt =====
-- components/display_service/src/display_present_lease.c: the lease that names the one producer
-- whose frames are presented. Producers are addresses, and 0 is NULL. A call takes the pointer to
-- the lease and says by a Boolean whether the pointer for its result is given; it returns the error
-- code, the lease afterwards and what is written through the pointer.
pub mod Invariant
pub mod Exclusive
pub mod Generations
mod Tests
use esp_mosaico_claw.Base.{
  ℕ, ◌+◌, ◌%◌, Bool, true, false, not, ◌&&◌, ◌||◌, Option, none, some, if◌then◌else◌, ◌==◌, Ptr,
  u32_mod, EspErr, ok, invalid_arg, invalid_state, is_ok,
}

-- `display_present_lease_state_t`.
pub data LeaseState : Type 0 where
  empty active handoff faulted : LeaseState

abbrev pub is_empty : LeaseState → Bool
is_empty LeaseState.empty = true
is_empty _ = false

abbrev pub is_active : LeaseState → Bool
is_active LeaseState.active = true
is_active _ = false

abbrev pub is_handoff : LeaseState → Bool
is_handoff LeaseState.handoff = true
is_handoff _ = false

abbrev pub is_fault : LeaseState → Bool
is_fault LeaseState.faulted = true
is_fault _ = false

-- `display_present_lease_t`.
pub record Lease : Type 0 where
  pub active_producer : ℕ
  pub pending_producer : ℕ
  pub generation : ℕ
  pub pending_generation : ℕ
  pub state : LeaseState

-- The counter skips 0 when it wraps.
unfoldable pub next_generation : ℕ → ℕ
next_generation g = let g' = (g + 1) % u32_mod in if g' == 0 then 1 else g'

abbrev pub zeroed : Lease
zeroed = record {
  active_producer = 0;
  pending_producer = 0;
  generation = 0;
  pending_generation = 0;
  state = LeaseState.empty;
}

unfoldable pub init : Ptr Lease → Ptr Lease
init none = none
init (some l) = some zeroed

unfoldable pub validate : Ptr Lease → ℕ → ℕ → Bool
validate none producer generation = false
validate (some l) producer generation =
    if producer == 0
    then false
    else if is_active l.state
    then l.active_producer == producer && l.generation == generation
    else if is_handoff l.state
    then l.pending_producer == producer && l.pending_generation == generation
    else false

-- An error code, the lease afterwards, and what is written through the result pointer.
abbrev pub Reply : Type 0
Reply = EspErr × Ptr Lease × Option ℕ

unfoldable pub activate : Ptr Lease → ℕ → Bool → Reply
activate none producer out = (invalid_arg, none, none)
activate (some l) producer out =
    if producer == 0 || not out
    then (invalid_arg, some l, none)
    else if not (is_empty l.state)
    then (invalid_state, some l, none)
    else (
      ok,
      some (record l {
        generation = next_generation l.generation;
        active_producer = producer;
        state = LeaseState.active;
      }),
      some (next_generation l.generation),
    )

unfoldable pub begin_handoff : Ptr Lease → ℕ → ℕ → ℕ → EspErr × Ptr Lease
begin_handoff none current current_generation next = (invalid_arg, none)
begin_handoff (some l) current current_generation next =
    if current == 0 || (next == 0 || current == next)
    then (invalid_arg, some l)
    else if not (validate (some l) current current_generation)
    then (invalid_state, some l)
    else (
      ok,
      some (record l {
        pending_producer = next;
        pending_generation = next_generation l.generation;
        state = LeaseState.handoff;
      }),
    )

unfoldable pub commit_handoff : Ptr Lease → ℕ → Bool → Reply
commit_handoff none next out = (invalid_arg, none, none)
commit_handoff (some l) next out =
    if next == 0 || not out
    then (invalid_arg, some l, none)
    else if not (is_handoff l.state) || not (l.pending_producer == next)
    then (invalid_state, some l, none)
    else (
      ok,
      some (record {
        generation = l.pending_generation;
        active_producer = next;
        pending_producer = 0;
        pending_generation = 0;
        state = LeaseState.active;
      }),
      some l.pending_generation,
    )

unfoldable pub abort_handoff : Ptr Lease → Ptr Lease
abort_handoff none = none
abort_handoff (some l) =
    if is_handoff l.state
    then some (record l { pending_producer = 0; pending_generation = 0; state = LeaseState.active })
    else some l

unfoldable pub fault : Ptr Lease → Ptr Lease
fault none = none
fault (some l) =
    some (record l { pending_producer = 0; pending_generation = 0; state = LeaseState.faulted })

unfoldable pub begin_recover : Ptr Lease → ℕ → EspErr × Ptr Lease
begin_recover none producer = (invalid_arg, none)
begin_recover (some l) producer =
    if producer == 0
    then (invalid_arg, some l)
    else if not (is_fault l.state)
    then (invalid_state, some l)
    else (
      ok,
      some (record l {
        pending_producer = producer;
        pending_generation = next_generation l.generation;
        state = LeaseState.handoff;
      }),
    )

unfoldable pub recover : Ptr Lease → ℕ → Bool → Reply
recover p producer out =
    let (ret, p') = begin_recover p producer in
    if is_ok ret then commit_handoff p' producer out else (ret, p', none)

unfoldable pub pending_generation : Ptr Lease → ℕ
pending_generation none = 0
pending_generation (some l) = if is_handoff l.state then l.pending_generation else 0
