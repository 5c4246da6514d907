-- ===== src/Lightning/Audit.antt =====
-- `audit_lightning_payments` of src/orchestrator.rs over the tables `lightning_payment_intents` and
-- `lightning_payment_events`. `budget` is the number of statements that the connection carries out
-- before it fails; a failing statement ends the audit, and what was written stays.
use conxian_nexus.Prelude.{
  ℕ, zero, suc, Bool, true, false, ◌||◌, Option, none, some, List, [], ◌∷◌, ◌++◌, map, Text, codes,
  text_eq, if◌then◌else◌, ◌>>=◌,
}
use conxian_nexus.Prelude.Int.{ℤ}
use conxian_nexus.Lightning.Payment.{
  LightningFailureType, permanent, transient, indeterminate, mpp_partial, LightningPaymentStatus,
  pending, succeeded, failed, recovering, mpp_splitting, PaymentIntent, status_text,
  process_recovery,
}

pub record IntentRow : Type 0 where
  pub payment_id : Text
  pub payment_hash : Text
  pub amount_msat : ℕ
  pub status : Text
  pub failure_type : Option Text
  pub retry_count : ℤ
  pub created_at : ℤ
  pub last_updated_at : ℤ

pub record EventRow : Type 0 where
  pub event_id : Text
  pub payment_id : Text
  pub status : Text
  pub metadata : Text

pub record PaymentDb : Type 0 where
  pub intents : List IntentRow
  pub events : List EventRow
  pub budget : ℕ

unfoldable pub parse_status : Text → LightningPaymentStatus
parse_status s =
    if text_eq s (codes "pending")
    then pending
    else if text_eq s (codes "succeeded")
    then succeeded
    else if text_eq s (codes "failed")
    then failed
    else if text_eq s (codes "recovering")
    then recovering
    else if text_eq s (codes "mpp_splitting")
    then mpp_splitting
    else pending

unfoldable pub parse_failure : Text → Option LightningFailureType
parse_failure s =
    if text_eq s (codes "permanent")
    then some permanent
    else if text_eq s (codes "transient")
    then some transient
    else if text_eq s (codes "indeterminate")
    then some indeterminate
    else if text_eq s (codes "mpp_partial")
    then some mpp_partial
    else none

unfoldable pub row_intent : IntentRow → PaymentIntent
row_intent row = record {
  payment_id = row.payment_id;
  payment_hash = row.payment_hash;
  amount_msat = row.amount_msat;
  status = parse_status row.status;
  failure_type = row.failure_type >>= parse_failure;
  retry_count = row.retry_count;
  created_at = row.created_at;
  last_updated_at = row.last_updated_at;
}

-- `WHERE status IN ('pending', 'recovering', 'mpp_splitting', 'failed')`
unfoldable pub selected : IntentRow → Bool
selected row =
    text_eq row.status (codes "pending")
    || text_eq row.status (codes "recovering")
    || text_eq row.status (codes "mpp_splitting")
    || text_eq row.status (codes "failed")

unfoldable pub select_rows : List IntentRow → List IntentRow
select_rows [] = []
select_rows (row ∷ rows) = let rest = select_rows rows in if selected row then row ∷ rest else rest

-- `UPDATE lightning_payment_intents SET status, retry_count, last_updated_at WHERE payment_id`
unfoldable pub update_row : PaymentIntent → IntentRow → IntentRow
update_row intent row =
    if text_eq row.payment_id intent.payment_id
    then record row {
      status = status_text intent.status;
      retry_count = intent.retry_count;
      last_updated_at = intent.last_updated_at;
    }
    else row

-- One statement: it is carried out, or the connection has failed.
unfoldable pub execute : PaymentDb → (PaymentDb → PaymentDb) → Option PaymentDb
execute db statement = elim db.budget [
  | zero ↦ none
  | suc left ↦ some (statement (record db { budget = left }))
]

module _ (clock : IntentRow → ℤ × ℤ) (uuid : IntentRow → Text) where
  unfoldable pub recovery_of : IntentRow → Option (Text × PaymentIntent)
  recovery_of row = process_recovery (row_intent row) (clock row).0 (clock row).1

  event_of : IntentRow → Text → PaymentIntent → EventRow
  event_of row action next = record {
    event_id = codes "rec_" ++ uuid row;
    payment_id = next.payment_id;
    status = status_text next.status;
    metadata = codes "Recovery action: " ++ action;
  }

  -- The two statements for a payment with an action.
  unfoldable pub store_recovery : IntentRow → Text → PaymentIntent → PaymentDb → PaymentDb × Bool
  unfolding execute event_of
  store_recovery row action next db =
      elim (execute db (λ d. record d { intents = map (update_row next) d.intents })) [
        | none ↦ (db, false)
        | some updated ↦
            elim (execute updated
              (λ d. record d { events = event_of row action next ∷ d.events })) [
                | none ↦ (updated, false)
                | some logged ↦ (logged, true)
              ]
      ]

  -- The loop over the selected rows; `false` is the early return on an error.
  unfoldable pub audit_rows : List IntentRow → PaymentDb → PaymentDb × Bool
  unfolding recovery_of store_recovery
  audit_rows [] db = (db, true)
  audit_rows (row ∷ rows) db = elim (recovery_of row) [
    | none ↦ audit_rows rows db
    | some (action, next) ↦
        let (db', done) = store_recovery row action next db in
        elim done [ true ↦ audit_rows rows db' | false ↦ (db', false) ]
  ]

  unfoldable pub audit_lightning_payments : PaymentDb → PaymentDb × Bool
  unfolding audit_rows
  audit_lightning_payments db = elim (execute db (λ d. d)) [
    | none ↦ (db, false)
    | some queried ↦ audit_rows (select_rows db.intents) queried
  ]
