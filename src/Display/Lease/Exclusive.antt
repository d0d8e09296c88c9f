-- ===== src/Display/Lease/Exclusive.antt =====
-- Who may present: at most one token, and how a handoff moves the right from one producer to the
-- next.
use esp_mosaico_claw.Base.{ℕ, ◌≤◌, ◌≡◌, ◌≢◌, ◌↔◌, true, false, none, some, arith, ok, invalid_state}
use esp_mosaico_claw.Display.Lease.{
  Lease, is_active, next_generation, validate, activate, begin_handoff, commit_handoff,
  abort_handoff, fault, begin_recover, recover, pending_generation,
}

-- Two tokens (producer and generation) that both validate against one lease are the same token.
pub validate_unique :
    (l : Lease) (p g q h : ℕ)
    → validate (some l) p g ≡ true
    → validate (some l) q h ≡ true
    → (p ≡ q) × (g ≡ h)
unfolding validate
validate_unique l p g q h a b = ground arith

-- A begun handoff and its commit, from a producer that validates to another one: both calls
-- succeed; while the handoff is pending the next producer validates under the generation that
-- `pending_generation` reports and the current one does not; the commit publishes that very
-- generation; and afterwards the next producer validates under it and the current one under no
-- generation at all.
pub handoff_transfers :
    (l : Lease) (p g q : ℕ)
    → validate (some l) p g ≡ true
    → is_active l.state ≡ true
    → 1 ≤ q
    → p ≢ q
    → let (r, mid) = begin_handoff (some l) p g q in
      let (s, after, published) = commit_handoff mid q true in
      (r ≡ ok)
      × (s ≡ ok)
      × (published ≡ some (pending_generation mid))
      × (validate mid q (pending_generation mid) ≡ true)
      × (validate mid p g ≡ false)
      × (validate after q (pending_generation mid) ≡ true)
      × ((h : ℕ) → validate after p h ≡ false)
unfolding validate begin_handoff commit_handoff pending_generation
handoff_transfers l p g q v a n d = (
  ground arith,
  ground arith,
  ground arith,
  ground arith,
  ground arith,
  ground arith,
  λ h. ground arith,
)

-- Only the reserved producer can commit a handoff: any other is refused, and the lease is left as
-- it was.
pub commit_handoff_stranger :
    (l : Lease) (q : ℕ)
    → 1 ≤ q
    → q ≢ l.pending_producer
    → commit_handoff (some l) q true ≡ (invalid_state, some l, none)
unfolding commit_handoff
commit_handoff_stranger l q n d = ground arith

-- After a fault no token validates; to activate, begin, commit or abort leaves the lease as it is
-- (a handoff is always refused, the others for well-formed arguments); the recovery of a producer
-- succeeds, publishes the generation that follows the last one, and from then on that producer
-- validates under it and no other producer validates.
pub fault_recovers :
    (l l' : Lease) (p : ℕ)
    → fault (some l) ≡ some l'
    → 1 ≤ p
    → ((q h : ℕ) → validate (some l') q h ≡ false)
      × ((q : ℕ) → 1 ≤ q → activate (some l') q true ≡ (invalid_state, some l', none))
      × ((q : ℕ) → 1 ≤ q → commit_handoff (some l') q true ≡ (invalid_state, some l', none))
      × ((q h k : ℕ) → (begin_handoff (some l') q h k).0 ≢ ok)
      × ((q h k : ℕ) → (begin_handoff (some l') q h k).1 ≡ some l')
      × (abort_handoff (some l') ≡ some l')
      × ((recover (some l') p true).0 ≡ ok)
      × ((recover (some l') p true).2 ≡ some (next_generation l.generation))
      × ((q h : ℕ)
          → (validate (recover (some l') p true).1 q h ≡ true)
            ↔ ((q ≡ p) × (h ≡ next_generation l.generation)))
unfolding validate fault activate begin_handoff commit_handoff abort_handoff recover begin_recover
fault_recovers l l' p e n = (
  λ q h. ground arith,
  λ q k. ground arith,
  λ q k. ground arith,
  λ q h k. ground arith,
  λ q h k. ground arith,
  ground arith,
  ground arith,
  ground arith,
  λ q h. (λ v. ground arith, λ v. ground arith),
)
