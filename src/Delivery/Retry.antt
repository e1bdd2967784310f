-- ===== src/Delivery/Retry.antt =====
-- runtime/ntl-core/src/delivery.rs: the wire form of a class, backoff, and the budget of retries.
use ntl.Base.{ℕ, zero, suc, ◌*◌, ◌^◌, ◌≤◌, ◌<◌, ◌≡◌, ◌↔◌, ◌-◌, min, true, Option, some, arith, max}
use ntl.Rng.{Rng, IsFair}
use ntl.Delivery.{
  DeliveryClass, best_effort, acknowledged, to_wire, from_wire, RejectReason, RetryPolicy,
  backoff_ceiling, backoff_ms, may_retry, should_retry,
}

-- A byte decodes to a class exactly when it is that class's encoding: every class survives the round
-- trip, and no other byte is accepted.
pub from_wire_iff : (b : ℕ) (c : DeliveryClass) → (from_wire b ≡ some c) ↔ (b ≡ to_wire c)
unfolding from_wire to_wire
from_wire_iff zero best_effort = ground arith
from_wire_iff zero acknowledged = ground arith
from_wire_iff (suc zero) best_effort = ground arith
from_wire_iff (suc zero) acknowledged = ground arith
from_wire_iff (suc (suc n)) best_effort = ground arith
from_wire_iff (suc (suc n)) acknowledged = ground arith

-- A retry is permitted exactly when the last rejection, if any, was transient, and both the budget of
-- attempts and the deadline have room left.
pub should_retry_iff :
    (p : RetryPolicy) (made elapsed : ℕ) (reason : Option RejectReason)
    → (should_retry p made elapsed reason ≡ true)
      ↔ ((may_retry reason ≡ true) × (made < p.max_attempts) × (elapsed < p.total_deadline_secs))
unfolding should_retry
should_retry_iff p made elapsed reason = ground arith

module _ {R : Type 0} {F : Type 0} (rng : Rng R F) (fair : IsFair rng) where
  -- With a generator that keeps to its bound, the backoff before any attempt is at most the cap, and
  -- within the base interval doubled for each attempt after the second; the first attempt waits not
  -- at all.
  pub backoff_ms_bounds :
      (p : RetryPolicy) (attempt : ℕ) (r : R)
      → ((backoff_ms rng p attempt r).0 ≤ p.cap_ms)
        × ((backoff_ms rng p attempt r).0 ≤ p.base_ms * 2 ^ min (attempt - 2) 31)
        × (attempt ≤ 1 → (backoff_ms rng p attempt r).0 ≡ 0)
  unfolding backoff_ms
  backoff_ms_bounds p attempt r = ground (arith, fair.below r (max (backoff_ceiling p attempt) 1))
