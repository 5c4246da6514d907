-- ===== src/Tests/LightningTests.antt =====
-- The theorems about src/executor/lightning.rs, on one payment.
use conxian_nexus.Prelude.{
  ◌-◌, ◌^◌, ◌≡◌, ◌≢◌, refl, sym, text_eq_iff, ◌⊎◌, inl, inr, true, Option, none, some, List, [],
  ◌∷◌, Text, codes, arith,
}
use conxian_nexus.Prelude.Int.{ℤ, pos, ◌+ℤ◌, ◌-ℤ◌, ◌≤ℤ◌}
use conxian_nexus.Lightning.Payment.{
  LightningFailureType, transient, LightningPaymentStatus, failed, recovering, PaymentIntent,
  validate_transition, should_recover, recoverable, recover, process_recovery, status_text,
}
use conxian_nexus.Lightning.Recovery.{process_recovery-valid}
use conxian_nexus.Lightning.Audit.{
  IntentRow, PaymentDb, parse_status, parse_failure, row_intent, selected, select_rows, update_row,
  execute, recovery_of, store_recovery, audit_rows, audit_lightning_payments,
}
use conxian_nexus.Lightning.Tables.{IsRowOf}
use conxian_nexus.Lightning.AuditLaws.{
  AuditRun, audits, IsCompleted, audits-retry_count, audits-stuck,
}

abbrev payment : LightningPaymentStatus → Option LightningFailureType → PaymentIntent
payment status failure = record {
  payment_id = codes "p1";
  payment_hash = codes "h1";
  amount_msat = 1000;
  status = status;
  failure_type = failure;
  retry_count = pos 2;
  created_at = pos 0;
  last_updated_at = pos 0;
}

abbrev failed_payment : PaymentIntent
failed_payment = payment failed (some transient)

abbrev retried_payment : PaymentIntent
retried_payment = record failed_payment {
  status = recovering;
  retry_count = pos 3;
  last_updated_at = pos 9;
}

retries :
    process_recovery failed_payment (pos 8) (pos 9)
    ≡ some (codes "retry_initiated", retried_payment)
unfolding process_recovery should_recover recoverable recover ◌+ℤ◌ ◌-ℤ◌
retries = refl

process_recovery-valid_example :
    ((recovering ≡ failed) ⊎ (validate_transition failed recovering ≡ true))
    × (retried_payment.payment_id ≡ failed_payment.payment_id)
    × (retried_payment.payment_hash ≡ failed_payment.payment_hash)
    × (retried_payment.amount_msat ≡ failed_payment.amount_msat)
    × (retried_payment.failure_type ≡ failed_payment.failure_type)
    × (retried_payment.created_at ≡ failed_payment.created_at)
    × (retried_payment.last_updated_at ≡ pos 9)
process_recovery-valid_example =
    process_recovery-valid failed_payment (pos 8) (pos 9) (codes "retry_initiated") retried_payment
      retries

abbrev row : Text → Option Text → IntentRow
row payment_id failure_type = record {
  payment_id = payment_id;
  payment_hash = codes "h1";
  amount_msat = 1000;
  status = codes "recovering";
  failure_type = failure_type;
  retry_count = pos 2;
  created_at = pos 0;
  last_updated_at = pos 0;
}

-- A payment that is retried, and one that is given up.
abbrev db : PaymentDb
db = record {
  intents = row (codes "p1") (some (codes "transient")) ∷ row (codes "p2") none ∷ [];
  events = [];
  budget = 0;
}

abbrev run : ℤ → AuditRun
run time = record { clock = λ r. (time, time); uuid = λ r. codes "u"; budget = 9 }

abbrev runs : List AuditRun
runs = run (pos 5) ∷ run (pos 6) ∷ []

differ : codes "p2" ≢ codes "p1"
differ e = cc ((text_eq_iff (codes "p2") (codes "p1")).1 e)

first-IsRowOf : IsRowOf (row (codes "p1") (some (codes "transient"))) db.intents
first-IsRowOf = ((λ e. refl, (λ e. absurd (differ e), tt)), inl refl)

second-IsRowOf : IsRowOf (row (codes "p2") none) db.intents
second-IsRowOf = ((λ e. absurd (differ (sym e)), (λ e. refl, tt)), inr (inl refl))

runs-IsCompleted : IsCompleted runs db
unfolding audit_lightning_payments execute select_rows selected audit_rows recovery_of
    store_recovery row_intent parse_status parse_failure process_recovery should_recover recoverable
    recover update_row status_text
runs-IsCompleted = (refl, (refl, tt))

room : pos 2 +ℤ pos 2 ≤ℤ pos (2 ^ 31 - 1)
unfolding ◌+ℤ◌
room = omega arith

audits-retry_count_example :
    (row' : IntentRow) × IsRowOf row' (audits runs db).intents
    × (row'.payment_id ≡ codes "p1")
    × (row'.status ≡ codes "recovering")
    × (row'.retry_count ≡ pos 2 +ℤ pos 2)
audits-retry_count_example =
    audits-retry_count runs db (row (codes "p1") (some (codes "transient"))) refl refl first-IsRowOf
      runs-IsCompleted room

audits-stuck_example : IsRowOf (row (codes "p2") none) (audits runs db).intents
audits-stuck_example = audits-stuck runs db (row (codes "p2") none) (refl, inl refl) second-IsRowOf
