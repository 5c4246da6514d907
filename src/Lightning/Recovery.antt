-- ===== src/Lightning/Recovery.antt =====
-- What the recovery of a payment may do to its state.
use conxian_nexus.Prelude.{ℕ, suc, ◌-◌, ◌^◌, ◌≡◌, codes, ◌⊎◌, true, none, some, Text, arith}
use conxian_nexus.Prelude.Int.{ℤ, pos, ◌+ℤ◌, ◌≤ℤ◌, ◌<ℤ◌, i32_inc}
use conxian_nexus.Lightning.Payment.{
  permanent, transient, indeterminate, succeeded, failed, recovering, PaymentIntent,
  validate_transition, recover, process_recovery,
}

-- When process_recovery acts on a payment, the state stays or changes along a transition that
-- validate_transition allows; identity, hash, amount, failure and time of creation stay, and the
-- time of the update is the second clock reading.
pub process_recovery-valid :
    (intent : PaymentIntent) (now later : ℤ) (action : Text) (next : PaymentIntent)
    → process_recovery intent now later ≡ some (action, next)
    → ((next.status ≡ intent.status) ⊎ (validate_transition intent.status next.status ≡ true))
      × (next.payment_id ≡ intent.payment_id)
      × (next.payment_hash ≡ intent.payment_hash)
      × (next.amount_msat ≡ intent.amount_msat)
      × (next.failure_type ≡ intent.failure_type)
      × (next.created_at ≡ intent.created_at)
      × (next.last_updated_at ≡ later)
unfolding process_recovery validate_transition
process_recovery-valid intent now later action next e = ground arith

-- A payment that succeeded, or that failed permanently, indeterminately or without a known
-- failure, is never acted on.
pub process_recovery-final :
    (intent : PaymentIntent) (now later : ℤ)
    → (intent.status ≡ succeeded)
      ⊎ ((intent.status ≡ failed)
          × ((intent.failure_type ≡ some permanent)
              ⊎ (intent.failure_type ≡ some indeterminate)
              ⊎ (intent.failure_type ≡ none)))
    → process_recovery intent now later ≡ none
unfolding process_recovery
process_recovery-final intent now later h = ground arith

-- A failed payment with a transient failure is recovered while its retry count is below three, and
-- left alone from three on.
pub process_recovery-retry_limit :
    (intent : PaymentIntent) (now later : ℤ)
    → intent.status ≡ failed
    → intent.failure_type ≡ some transient
    → ((intent.retry_count <ℤ pos 3)
        × (process_recovery intent now later ≡ recover (some transient) intent later))
      ⊎ ((pos 3 ≤ℤ intent.retry_count) × (process_recovery intent now later ≡ none))
unfolding process_recovery
process_recovery-retry_limit intent now later s f = ground arith

-- A payment in recovery without a known failure, or with a permanent one, is not acted on.
pub process_recovery-stuck :
    (intent : PaymentIntent) (now later : ℤ)
    → intent.status ≡ recovering
    → (intent.failure_type ≡ none) ⊎ (intent.failure_type ≡ some permanent)
    → process_recovery intent now later ≡ none
unfolding process_recovery
process_recovery-stuck intent now later s f = ground arith

-- The intent after one more retry.
abbrev pub retried : PaymentIntent → ℤ → PaymentIntent
retried intent later = record intent {
  status = recovering;
  retry_count = i32_inc intent.retry_count;
  last_updated_at = later;
}

pub process_recovery-recovering :
    (intent : PaymentIntent) (now later : ℤ)
    → intent.status ≡ recovering
    → intent.failure_type ≡ some transient
    → process_recovery intent now later ≡ some (codes "retry_initiated", retried intent later)
unfolding process_recovery
process_recovery-recovering intent now later s f = ground arith

pub add_none : (r : ℤ) → r ≡ r +ℤ pos 0
unfolding ◌+ℤ◌
add_none r = ground arith

pub inc_then_add :
    (r : ℤ) (n : ℕ) → r +ℤ pos (suc n) ≤ℤ pos (2 ^ 31 - 1) → i32_inc r +ℤ pos n ≡ r +ℤ pos (suc n)
unfolding ◌+ℤ◌
inc_then_add r n h = ground arith
