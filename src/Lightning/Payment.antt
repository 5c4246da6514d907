-- ===== src/Lightning/Payment.antt =====
-- src/executor/lightning.rs: payments, their states and failures, and the adapter. A time is a
-- number of nanoseconds, and the clock is an argument.
use conxian_nexus.Prelude.{
  ℕ, Bool, true, false, ◌||◌, Option, none, some, Text, codes, contains, if◌then◌else◌,
}
use conxian_nexus.Prelude.Int.{ℤ, pos, ◌-ℤ◌, ltb_ℤ, i32_inc, num_seconds}

pub data LightningFailureType : Type 0 where
  permanent transient indeterminate mpp_partial : LightningFailureType

pub data LightningPaymentStatus : Type 0 where
  pending succeeded failed recovering mpp_splitting : LightningPaymentStatus

-- `Display`
unfoldable pub failure_text : LightningFailureType → Text
failure_text permanent = codes "permanent"
failure_text transient = codes "transient"
failure_text indeterminate = codes "indeterminate"
failure_text mpp_partial = codes "mpp_partial"

unfoldable pub status_text : LightningPaymentStatus → Text
status_text pending = codes "pending"
status_text succeeded = codes "succeeded"
status_text failed = codes "failed"
status_text recovering = codes "recovering"
status_text mpp_splitting = codes "mpp_splitting"

pub record PaymentIntent : Type 0 where
  pub payment_id : Text
  pub payment_hash : Text
  pub amount_msat : ℕ
  pub status : LightningPaymentStatus
  pub failure_type : Option LightningFailureType
  pub retry_count : ℤ
  pub created_at : ℤ
  pub last_updated_at : ℤ

unfoldable pub validate_transition : LightningPaymentStatus → LightningPaymentStatus → Bool
validate_transition pending succeeded = true
validate_transition pending failed = true
validate_transition pending recovering = true
validate_transition pending mpp_splitting = true
validate_transition mpp_splitting succeeded = true
validate_transition mpp_splitting failed = true
validate_transition mpp_splitting recovering = true
validate_transition recovering succeeded = true
validate_transition recovering failed = true
validate_transition recovering mpp_splitting = true
validate_transition failed recovering = true
validate_transition failed mpp_splitting = true
validate_transition current next = false

unfoldable pub categorize_failure : Text → LightningFailureType
categorize_failure reason =
    if contains reason (codes "no_route") || contains reason (codes "invalid_invoice")
    then permanent
    else if contains reason (codes "mpp_partial_failure") || contains reason (codes "split_error")
    then mpp_partial
    else if contains reason (codes "timeout") || contains reason (codes "mpp_timeout")
    then indeterminate
    else transient

-- The `match` of `should_recover`, over the state and the failure.
unfoldable pub recoverable :
    LightningPaymentStatus → Option LightningFailureType → PaymentIntent → ℤ → Bool
recoverable recovering f intent now = true
recoverable failed (some transient) intent now = ltb_ℤ intent.retry_count (pos 3)
recoverable failed (some mpp_partial) intent now = true
recoverable pending f intent now = ltb_ℤ (pos 300) (num_seconds (now -ℤ intent.created_at))
recoverable mpp_splitting f intent now =
    ltb_ℤ (pos 600) (num_seconds (now -ℤ intent.last_updated_at))
recoverable s f intent now = false

unfoldable pub should_recover : PaymentIntent → ℤ → Bool
unfolding recoverable
should_recover intent now = recoverable intent.status intent.failure_type intent now

is_pending : LightningPaymentStatus → Bool
is_pending pending = true
is_pending s = false

-- The `match` of `process_recovery`: the action, if any, and the new intent.
unfoldable pub recover :
    Option LightningFailureType → PaymentIntent → ℤ → Option (Text × PaymentIntent)
unfolding is_pending
recover (some transient) intent now = some (
  codes "retry_initiated",
  record intent {
    status = recovering;
    retry_count = i32_inc intent.retry_count;
    last_updated_at = now;
  },
)
recover (some mpp_partial) intent now = some (
  codes "split_recovery_triggered",
  record intent { status = mpp_splitting; last_updated_at = now },
)
recover (some indeterminate) intent now =
    some (
      codes "reconciliation_requested",
      record intent { status = recovering; last_updated_at = now },
    )
recover f intent now =
    if is_pending intent.status
    then some (
      codes "stale_payment_recovery",
      record intent { status = recovering; last_updated_at = now },
    )
    else none

-- The clock is read for the test, and again for the time of the update.
unfoldable pub process_recovery : PaymentIntent → ℤ → ℤ → Option (Text × PaymentIntent)
unfolding should_recover recover
process_recovery intent now later =
    if should_recover intent now then recover intent.failure_type intent later else none
