-- ===== src/Delivery.antt =====
-- runtime/ntl-core/src/delivery.rs: delivery classes, receipts and the sender's retry policy.
-- Identifiers of signals are numbers (a ULID is 128 bits).
pub mod Retry
use ntl.Base.{
  ℕ, zero, suc, ◌-◌, ◌^◌, Bool, true, false, not, ◌&&◌, Option, none, some, if◌then◌else◌, ltb, leb,
  min, max, saturating_mul,
}
use ntl.Rng.{Rng}

pub data DeliveryClass : Type 0 where
  best_effort acknowledged : DeliveryClass

unfoldable pub to_wire : DeliveryClass → ℕ
to_wire best_effort = 0
to_wire acknowledged = 1

unfoldable pub from_wire : ℕ → Option DeliveryClass
from_wire zero = some best_effort
from_wire (suc zero) = some acknowledged
from_wire (suc (suc n)) = none

unfoldable pub requires_receipt : DeliveryClass → Bool
requires_receipt best_effort = false
requires_receipt acknowledged = true

pub data RejectReason : Type 0 where
  below_threshold ttl_exhausted no_route transport_failure queue_full unsupported_type refused :
      RejectReason

unfoldable pub is_transient : RejectReason → Bool
is_transient no_route = true
is_transient queue_full = true
is_transient below_threshold = true
is_transient transport_failure = true
is_transient ttl_exhausted = false
is_transient unsupported_type = false
is_transient refused = false

pub data ReceiptStatus : Type 0 where
  delivered : ReceiptStatus
  rejected : RejectReason → ReceiptStatus

pub record Receipt : Type 0 where
  pub correlation_id : ℕ
  pub status : ReceiptStatus
  pub hops : ℕ

unfoldable pub receipt_delivered : ℕ → ℕ → Receipt
receipt_delivered correlation_id hops = record {
  correlation_id = correlation_id;
  status = delivered;
  hops = hops;
}

unfoldable pub is_delivered : Receipt → Bool
is_delivered r = elim r.status [ delivered ↦ true | rejected reason ↦ false ]

unfoldable pub receipt_rejected : ℕ → RejectReason → ℕ → Receipt
receipt_rejected correlation_id reason hops = record {
  correlation_id = correlation_id;
  status = rejected reason;
  hops = hops;
}

pub record RetryPolicy : Type 0 where
  pub base_ms : ℕ
  pub cap_ms : ℕ
  pub max_attempts : ℕ
  pub total_deadline_secs : ℕ

abbrev pub default_policy : RetryPolicy
default_policy = record {
  base_ms = 1000;
  cap_ms = 30000;
  max_attempts = 5;
  total_deadline_secs = 300;
}

-- The ceiling of the draw before `attempt`, from the second attempt on.
unfoldable pub backoff_ceiling : RetryPolicy → ℕ → ℕ
backoff_ceiling p attempt =
    let exponent = min (attempt - 2) 31 in min (saturating_mul p.base_ms (2 ^ exponent)) p.cap_ms

unfoldable pub drawn_or_zero {ℓ} : {R : Type ℓ} → Option ℕ × R → ℕ × R
drawn_or_zero (none, r) = (0, r)
drawn_or_zero (some k, r) = (k, r)

module _ {R : Type 0} {F : Type 0} (rng : Rng R F) where
  unfoldable pub backoff_ms : RetryPolicy → ℕ → R → ℕ × R
  unfolding backoff_ceiling drawn_or_zero
  backoff_ms p attempt r =
      if leb attempt 1
      then (0, r)
      else drawn_or_zero (rng.next_below r (max (backoff_ceiling p attempt) 1))

unfoldable pub may_retry : Option RejectReason → Bool
unfolding is_transient
may_retry none = true
may_retry (some reason) = is_transient reason

unfoldable pub should_retry : RetryPolicy → ℕ → ℕ → Option RejectReason → Bool
unfolding may_retry
should_retry p attempts_made elapsed_secs last_reason =
    if may_retry last_reason
    then ltb attempts_made p.max_attempts && ltb elapsed_secs p.total_deadline_secs
    else false

unfoldable pub required_dedup_secs : RetryPolicy → ℕ
required_dedup_secs p = p.total_deadline_secs
