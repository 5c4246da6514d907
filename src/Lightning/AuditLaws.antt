-- ===== src/Lightning/AuditLaws.antt =====
-- What one audit does to the tables.
use conxian_nexus.Prelude.{
  ℕ, zero, suc, ◌-◌, ◌^◌, ◌≡◌, refl, sym, ap, ◌∙◌, ◌⊎◌, inl, inr, Bool, true, none, some, List, [],
  ◌∷◌, Text, codes, length, text_eq_iff, ◌>>=◌,
}
use conxian_nexus.Prelude.Int.{ℤ, pos, ◌+ℤ◌, ◌≤ℤ◌, i32_inc}
use conxian_nexus.Lightning.Payment.{
  LightningFailureType, permanent, transient, indeterminate, mpp_partial, LightningPaymentStatus,
  pending, succeeded, failed, recovering, mpp_splitting, status_text, failure_text,
}
use conxian_nexus.Lightning.Recovery.{
  retried, process_recovery-stuck, process_recovery-recovering, add_none, inc_then_add,
}
use conxian_nexus.Lightning.Audit.{
  IntentRow, PaymentDb, parse_status, parse_failure, row_intent, selected, select_rows, update_row,
  execute, recovery_of, audit_lightning_payments,
}
use conxian_nexus.Lightning.Tables.{
  IsRowOf, select-IsOnly, select-IsIn, audit_rows-stuck, audit_rows-updated,
}

-- The audit reads back every payment state and every failure that the adapter prints.
pub parse-print :
    ((s : LightningPaymentStatus) → parse_status (status_text s) ≡ s)
    × ((f : LightningFailureType) → parse_failure (failure_text f) ≡ some f)
unfolding parse_status status_text parse_failure failure_text
parse-print = (
  elim [
    | pending ↦ refl
    | succeeded ↦ refl
    | failed ↦ refl
    | recovering ↦ refl
    | mpp_splitting ↦ refl
  ],
  elim [ permanent ↦ refl | transient ↦ refl | indeterminate ↦ refl | mpp_partial ↦ refl ],
)

-- One audit: its two clock readings and the identifier of the event for each row, and the number of
-- statements that its connection carries out.
pub record AuditRun : Type 0 where
  pub clock : IntentRow → ℤ × ℤ
  pub uuid : IntentRow → Text
  pub budget : ℕ

abbrev pub audit : AuditRun → PaymentDb → PaymentDb × Bool
audit run db = audit_lightning_payments run.clock run.uuid (record db { budget = run.budget })

-- Audits one after another, on the same tables.
abbrev pub audits : List AuditRun → PaymentDb → PaymentDb
audits [] db = db
audits (run ∷ runs) db = audits runs (audit run db).0

-- No statement of any of them failed.
abbrev pub IsCompleted : List AuditRun → PaymentDb → Type 0
IsCompleted [] db = Unit
IsCompleted (run ∷ runs) db = ((audit run db).1 ≡ true) × IsCompleted runs (audit run db).0

-- The recovery of this row is given up, but its state says that it goes on.
abbrev pub IsStuck : IntentRow → Type 0
IsStuck row =
    (row.status ≡ codes "recovering")
    × ((row.failure_type ≡ none) ⊎ (row.failure_type ≡ some (codes "permanent")))

IsStuck-idle :
    (clock : IntentRow → ℤ × ℤ) (uuid : IntentRow → Text) (row : IntentRow)
    → IsStuck row
    → recovery_of clock uuid row ≡ none
unfolding recovery_of row_intent parse_status parse_failure
IsStuck-idle clock uuid row (status, failure) =
    process_recovery-stuck (row_intent row) (clock row).0 (clock row).1 (ap parse_status status)
      (elim failure [
        | inl e ↦ inl (ap (λ o. o >>= parse_failure) e)
        | inr e ↦ inr (ap (λ o. o >>= parse_failure) e)
      ])

audit-stuck :
    (run : AuditRun) (db : PaymentDb) (row : IntentRow)
    → IsStuck row
    → IsRowOf row db.intents
    → IsRowOf row (audit run db).0.intents
unfolding audit_lightning_payments execute
audit-stuck run db row stuck (only, below) = go run.budget refl
  where
    go : (n : ℕ) → run.budget ≡ n → IsRowOf row (audit run db).0.intents
    go zero e = rw (audit_lightning_payments, execute, e) (only, below)
    go (suc n) e =
        rw (audit_lightning_payments, execute, e)
          (audit_rows-stuck run.clock run.uuid row (select_rows db.intents)
            (record db { budget = n }) (IsStuck-idle run.clock run.uuid row stuck)
            (select-IsOnly row db.intents only) (only, below))

-- The one row of a payment that is recovering without a failure, or from a permanent one, is the
-- same after any number of audits, whatever the other rows are and whichever statements fail.
pub audits-stuck :
    (runs : List AuditRun) (db : PaymentDb) (row : IntentRow)
    → IsStuck row
    → IsRowOf row db.intents
    → IsRowOf row (audits runs db).intents
audits-stuck [] db row stuck h = h
audits-stuck (run ∷ runs) db row stuck h =
    audits-stuck runs (audit run db).0 row stuck (audit-stuck run db row stuck h)

-- The row after one more retry.
abbrev retried_row : IntentRow → ℤ → IntentRow
retried_row row later = record row {
  status = codes "recovering";
  retry_count = i32_inc row.retry_count;
  last_updated_at = later;
}

update-retried :
    (row : IntentRow) (later : ℤ)
    → update_row (retried (row_intent row) later) row ≡ retried_row row later
unfolding update_row row_intent status_text
update-retried row later = rw (update_row, (text_eq_iff row.payment_id row.payment_id).1 refl) refl

recovery_of-recovering :
    (clock : IntentRow → ℤ × ℤ) (uuid : IntentRow → Text) (row : IntentRow)
    → row.status ≡ codes "recovering"
    → row.failure_type ≡ some (codes "transient")
    → recovery_of clock uuid row
      ≡ some (codes "retry_initiated", retried (row_intent row) (clock row).1)
unfolding recovery_of row_intent parse_status parse_failure
recovery_of-recovering clock uuid row status failure =
    process_recovery-recovering (row_intent row) (clock row).0 (clock row).1
      (ap parse_status status) (ap (λ o. o >>= parse_failure) failure)

audit-retried :
    (run : AuditRun) (db : PaymentDb) (row : IntentRow)
    → row.status ≡ codes "recovering"
    → row.failure_type ≡ some (codes "transient")
    → IsRowOf row db.intents
    → (audit run db).1 ≡ true
    → IsRowOf (retried_row row (run.clock row).1) (audit run db).0.intents
unfolding audit_lightning_payments execute selected
audit-retried run db row status failure (only, below) = go run.budget refl
  where
    chosen : selected row ≡ true
    chosen = rw (selected, status) refl

    go :
        (n : ℕ)
        → run.budget ≡ n
        → (audit run db).1 ≡ true
        → IsRowOf (retried_row row (run.clock row).1) (audit run db).0.intents
    go zero e done = absurd (cc (rw (audit_lightning_payments, execute, e) at done))
    go (suc n) e done =
        rw (audit_lightning_payments, execute, e, sym (update-retried row (run.clock row).1))
          (audit_rows-updated run.clock run.uuid row _ _ (select_rows db.intents)
            (record db { budget = n })
            (recovery_of-recovering run.clock run.uuid row status failure)
            (select-IsOnly row db.intents only) (rw (audit_lightning_payments, execute, e) at done)
            (inl ((only, below), select-IsIn row db.intents chosen below)))

-- After any number of audits, none of whose statements failed, the one row of a payment that was
-- recovering from a transient failure has the same identifier, is still recovering, and has a
-- retry count that grew by the number of audits, as long as that fits in 31 bits; whatever the
-- other rows are.
pub audits-retry_count :
    (runs : List AuditRun) (db : PaymentDb) (row : IntentRow)
    → row.status ≡ codes "recovering"
    → row.failure_type ≡ some (codes "transient")
    → IsRowOf row db.intents
    → IsCompleted runs db
    → row.retry_count +ℤ pos (length runs) ≤ℤ pos (2 ^ 31 - 1)
    → (row' : IntentRow) × IsRowOf row' (audits runs db).intents
      × (row'.payment_id ≡ row.payment_id)
      × (row'.status ≡ codes "recovering")
      × (row'.retry_count ≡ row.retry_count +ℤ pos (length runs))
audits-retry_count [] db row status failure h done room =
    (row, h, refl, status, add_none row.retry_count)
audits-retry_count (run ∷ runs) db row status failure h (done, rest) room =
    let step = inc_then_add row.retry_count (length runs) room in
    let row1 = retried_row row (run.clock row).1 in
    let (row', h', same, still, counted) =
      audits-retry_count runs (audit run db).0 row1 refl failure
        (audit-retried run db row status failure h done) rest (rw step room) in
    (row', h', same, still, counted ∙ step)
