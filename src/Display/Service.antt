-- ===== src/Display/Service.antt =====
-- components/display_service/src/display_service.c: the presenter's owners. The baseline producer has
-- the screen until another producer acquires it for itself, and again after that one has released
-- it. The producers and the presenter act on a state `W` of their own; a producer has both its calls,
-- and each call below runs while it holds the mutex of handoffs. Producers are named by addresses.
pub mod Steps
pub mod Handoff
pub mod Outcome
pub mod Release
mod Tests
use esp_mosaico_claw.Base.{
  ℕ, Bool, true, false, not, ◌&&◌, ◌||◌, Option, none, some, if◌then◌else◌, ◌==◌, Ptr, EspErr, ok,
  invalid_arg, invalid_state, timeout, is_ok,
}
use esp_mosaico_claw.Display.Lease.{
  Lease, is_fault, validate, begin_handoff, commit_handoff, abort_handoff, fault, begin_recover,
  pending_generation,
}
use esp_mosaico_claw.Display.Lease.Invariant.{lease_or}

-- `display_service_present_producer_t`.
pub record Producer (W : Type 0) : Type 0 where
  pub identity : ℕ
  pub quiesce : ℕ → W → EspErr × W
  pub activate : ℕ → W → EspErr × W

-- The calls of the presenter: a quiesce with its time limit, and whether its state is terminal.
pub record Presenter (W : Type 0) : Type 0 where
  pub presenter_quiesce : ℕ → W → EspErr × W
  pub get_state : W → EspErr × Bool

-- `display_service_state_t`, as far as it says who presents; no exclusive producer is the zeroed one.
pub record Service (W : Type 0) : Type 0 where
  pub lease : Lease
  pub baseline : Producer W
  pub exclusive : Ptr (Producer W)

-- An error code, the service and the world afterwards, and what is written through the pointer.
pub record Reply (W : Type 0) : Type 0 where
  pub error : EspErr
  pub service : Service W
  pub out : Option ℕ
  pub world : W

module _ {W : Type 0} where
  abbrev pub reply : EspErr → Service W → Option ℕ → W → Reply W
  reply e s g w = record { error = e; service = s; out = g; world = w }

  abbrev pub exclusive_identity : Ptr (Producer W) → ℕ
  exclusive_identity none = 0
  exclusive_identity (some p) = p.identity

  unfoldable pub active_producer : Service W → Ptr (Producer W)
  active_producer s =
      let id : ℕ = s.lease.active_producer in
      if id == 0
      then none
      else if id == exclusive_identity s.exclusive
      then s.exclusive
      else if id == s.baseline.identity
      then some s.baseline
      else none

  abbrev pub with_lease : Service W → Ptr Lease → Service W
  with_lease s l = record s { lease = lease_or s.lease l }

  unfoldable pub clear_exclusive_producer : Service W → Service W
  clear_exclusive_producer s = record s { exclusive = none }

  unfoldable pub lease_faulted : Service W → Service W
  lease_faulted s = with_lease s (fault (some s.lease))

  unfoldable pub lease_aborted : Service W → Service W
  lease_aborted s = with_lease s (abort_handoff (some s.lease))

  -- The quiesce of a producer that faulted, other than the baseline; its outcome is only logged.
  unfoldable pub quiesce_faulted : Service W → Ptr (Producer W) → ℕ → W → W
  quiesce_faulted s none limit w = w
  quiesce_faulted s (some p) limit w =
      if p.identity == s.baseline.identity then w else (p.quiesce limit w).1

  unfoldable pub terminally_faulted : Presenter W → W → Bool
  terminally_faulted k w = let (e, f) = k.get_state w in is_ok e && f

  -- The recovery from the begun handoff to the baseline on.
  unfoldable pub recover_activate : Service W → W → Reply W
  recover_activate s w =
      let (e, w') = s.baseline.activate (pending_generation (some s.lease)) w in
      let (ce, l, g) = commit_handoff (some s.lease) s.baseline.identity true in
      if not (is_ok e)
      then reply e (lease_faulted s) none w'
      else if not (is_ok ce)
      then reply ce (lease_faulted (with_lease s l)) none w'
      else reply ok (clear_exclusive_producer (with_lease s l)) none w'

  unfoldable pub recover_begin : Service W → W → Reply W
  recover_begin s w =
      let (e, l) = begin_recover (some s.lease) s.baseline.identity in
      if is_ok e
      then recover_activate (with_lease s l) w
      else reply e (lease_faulted (with_lease s l)) none w

  unfoldable pub recover_baseline : Presenter W → Service W → ℕ → W → Reply W
  recover_baseline k s limit w =
      if terminally_faulted k w
      then reply invalid_state (lease_faulted s) none w
      else let (e, w') =
          k.presenter_quiesce limit (quiesce_faulted s (active_producer s) limit w) in
        if is_ok e then recover_begin s w' else reply e (lease_faulted s) none w'

  -- The failed handoff: the outgoing producer is activated again under its generation.
  unfoldable pub roll_back :
      Presenter W → Service W → Producer W → Producer W → ℕ → ℕ → EspErr → W → Reply W
  roll_back k s previous next generation limit e w =
      let w' : W = (next.quiesce limit w).1 in
      let (re, w'') = previous.activate generation w' in
      if is_ok re
      then reply e (lease_aborted s) none w''
      else let r : Reply W = recover_baseline k (lease_faulted (lease_aborted s)) limit w'' in
        reply e r.service none r.world

  -- The producer that is published after a handoff: the baseline is never the exclusive one.
  unfoldable pub publish : Service W → Producer W → Service W
  publish s next =
      if next.identity == s.baseline.identity
      then clear_exclusive_producer s
      else record s { exclusive = some next }

  -- The handoff from the quiesced producer on.
  unfoldable pub handoff_activate :
      Presenter W → Service W → Producer W → Producer W → ℕ → ℕ → W → Reply W
  handoff_activate k s previous next generation limit w =
      let (e, w') = next.activate (pending_generation (some s.lease)) w in
      let (ce, l, g) = commit_handoff (some s.lease) next.identity true in
      if not (is_ok e)
      then roll_back k s previous next generation limit e w'
      else if is_ok ce
      then reply ok (publish (with_lease s l) next) g w'
      else roll_back k (with_lease s l) previous next generation limit ce w'

  unfoldable pub handoff_quiesce :
      Presenter W → Service W → Producer W → Producer W → ℕ → ℕ → W → Reply W
  handoff_quiesce k s previous next generation limit w =
      let (e, w') = previous.quiesce limit w in
      if is_ok e
      then handoff_activate k s previous next generation limit w'
      else reply e (lease_aborted s) none w'

  unfoldable pub handoff_from :
      Presenter W → Service W → Ptr (Producer W) → Producer W → ℕ → W → Reply W
  handoff_from k s none next limit w = reply invalid_state s none w
  handoff_from k s (some previous) next limit w =
      let generation : ℕ = s.lease.generation in
      let (e, l) = begin_handoff (some s.lease) previous.identity generation next.identity in
      if is_ok e
      then handoff_quiesce k (with_lease s l) previous next generation limit w
      else reply e (with_lease s l) none w

  unfoldable pub handoff : Presenter W → Service W → Producer W → ℕ → W → Reply W
  handoff k s next limit w = handoff_from k s (active_producer s) next limit w

  -- The test of both calls that the baseline has the screen.
  unfoldable pub baseline_presents : Service W → Bool
  baseline_presents s =
      s.lease.active_producer == s.baseline.identity
      && validate (some s.lease) s.baseline.identity s.lease.generation

  -- The recovery that both calls begin with, if the lease is faulted.
  unfoldable pub recover_first : Presenter W → Service W → ℕ → W → Reply W
  recover_first k s limit w =
      if is_fault s.lease.state then recover_baseline k s limit w else reply ok s none w

  unfoldable pub acquire_from : Presenter W → Service W → Producer W → ℕ → W → Reply W
  acquire_from k s producer limit w =
      if baseline_presents s then handoff k s producer limit w else reply invalid_state s none w

  unfoldable pub release_from : Presenter W → Service W → ℕ → ℕ → ℕ → W → Reply W
  release_from k s producer generation limit w =
      if baseline_presents s
      then reply ok s (some s.lease.generation) w
      else if not (validate (some s.lease) producer generation)
          || not (s.lease.active_producer == producer)
          || s.baseline.identity == 0
      then reply invalid_state s none w
      else handoff k s s.baseline limit w

  -- `taken` says whether the mutex was taken in time; `out` whether the result pointer is given. The
  -- presenter and the operations of a producer are given, so their tests for NULL are left out.
  unfoldable pub acquire : Presenter W → Service W → Producer W → ℕ → Bool → Bool → W → Reply W
  acquire k s producer limit out taken w =
      if producer.identity == 0 || not out || limit == 0 || producer.identity == s.baseline.identity
      then reply invalid_arg s none w
      else if not taken
      then reply timeout s none w
      else let r : Reply W = recover_first k s limit w in
        if is_ok r.error then acquire_from k r.service producer limit r.world else r

  unfoldable pub release : Presenter W → Service W → ℕ → ℕ → ℕ → Bool → Bool → W → Reply W
  release k s producer generation limit out taken w =
      if producer == 0 || not out || limit == 0
      then reply invalid_arg s none w
      else if not taken
      then reply timeout s none w
      else let r : Reply W = recover_first k s limit w in
        if is_ok r.error then release_from k r.service producer generation limit r.world else r
