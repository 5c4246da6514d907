-- ===== src/Lightning/Tables.antt =====
-- The row of a payment in the table, through the statements of `audit_lightning_payments`.
use mathlib.Core.Path.{subst}
use mathlib.Core.Option.{some-injective}
use conxian_nexus.Prelude.{
  ℕ, zero, suc, ◌≡◌, ◌≢◌, refl, sym, ap, ◌∙◌, ◌⊎◌, inl, inr, true, false, none, some, List, [], ◌∷◌,
  map, Text, text_eq, text_eq_iff, Bool-cases, Option-cases,
}
use conxian_nexus.Prelude.Int.{ℤ}
use conxian_nexus.Lightning.Payment.{PaymentIntent}
use conxian_nexus.Lightning.Recovery.{process_recovery-valid}
use conxian_nexus.Lightning.Audit.{
  IntentRow, PaymentDb, row_intent, selected, select_rows, update_row, execute, recovery_of,
  store_recovery, audit_rows,
}

-- No other row has the identifier of this one.
abbrev pub IsOnly : IntentRow → List IntentRow → Type 0
IsOnly row [] = Unit
IsOnly row (r ∷ rows) = (r.payment_id ≡ row.payment_id → r ≡ row) × IsOnly row rows

abbrev pub IsIn : IntentRow → List IntentRow → Type 0
IsIn row [] = ⊥
IsIn row (r ∷ rows) = (r ≡ row) ⊎ IsIn row rows

-- The row is the one of its payment.
abbrev pub IsRowOf : IntentRow → List IntentRow → Type 0
IsRowOf row rows = IsOnly row rows × IsIn row rows

update_row-payment_id :
    (next : PaymentIntent) (row : IntentRow) → (update_row next row).payment_id ≡ row.payment_id
unfolding update_row
update_row-payment_id next row = elim (Bool-cases (text_eq row.payment_id next.payment_id)) [
  | inl e ↦ rw (update_row, e) refl
  | inr e ↦ rw (update_row, e) refl
]

update_row-other :
    (next : PaymentIntent) (row : IntentRow)
    → text_eq row.payment_id next.payment_id ≡ false
    → update_row next row ≡ row
unfolding update_row
update_row-other next row e = rw (update_row, e) refl

update-IsOnly :
    (next : PaymentIntent) (row : IntentRow) (rows : List IntentRow)
    → IsOnly row rows
    → IsOnly (update_row next row) (map (update_row next) rows)
update-IsOnly next row [] h = tt
update-IsOnly next row (r ∷ rows) (same, h) = (
  λ e.
      ap (update_row next)
        (same (sym (update_row-payment_id next r) ∙ e ∙ update_row-payment_id next row)),
  update-IsOnly next row rows h,
)

update-IsIn :
    (next : PaymentIntent) (row : IntentRow) (rows : List IntentRow)
    → IsIn row rows
    → IsIn (update_row next row) (map (update_row next) rows)
update-IsIn next row [] h = elim h [ ]
update-IsIn next row (r ∷ rows) (inl e) = inl (ap (update_row next) e)
update-IsIn next row (r ∷ rows) (inr h) = inr (update-IsIn next row rows h)

pub update-IsRowOf :
    (next : PaymentIntent) (row : IntentRow) (rows : List IntentRow)
    → IsRowOf row rows
    → IsRowOf (update_row next row) (map (update_row next) rows)
update-IsRowOf next row rows (only, in_) =
    (update-IsOnly next row rows only, update-IsIn next row rows in_)

pub select-IsOnly :
    (row : IntentRow) (rows : List IntentRow) → IsOnly row rows → IsOnly row (select_rows rows)
unfolding select_rows
select-IsOnly row [] h = tt
select-IsOnly row (r ∷ rows) (same, h) = elim (Bool-cases (selected r)) [
  | inl e ↦ rw (select_rows, e) (same, select-IsOnly row rows h)
  | inr e ↦ rw (select_rows, e) (select-IsOnly row rows h)
]

pub select-IsIn :
    (row : IntentRow) (rows : List IntentRow)
    → selected row ≡ true
    → IsIn row rows
    → IsIn row (select_rows rows)
unfolding select_rows
select-IsIn row [] chosen h = elim h [ ]
select-IsIn row (r ∷ rows) chosen (inl e) = rw (select_rows, ap selected e ∙ chosen) (inl e)
select-IsIn row (r ∷ rows) chosen (inr h) = elim (Bool-cases (selected r)) [
  | inl e ↦ rw (select_rows, e) (inr (select-IsIn row rows chosen h))
  | inr e ↦ rw (select_rows, e) (select-IsIn row rows chosen h)
]

module _ (clock : IntentRow → ℤ × ℤ) (uuid : IntentRow → Text) where
  pub recovery_of-payment_id :
      (r : IntentRow) (action : Text) (next : PaymentIntent)
      → recovery_of clock uuid r ≡ some (action, next)
      → next.payment_id ≡ r.payment_id
  unfolding recovery_of row_intent
  recovery_of-payment_id r action next e =
      let valid = process_recovery-valid (row_intent r) (clock r).0 (clock r).1 action next e in
      valid.1

  -- What two statements do to the rows: nothing or the update, and the update if both are carried
  -- out.
  pub store_recovery-intents :
      (r : IntentRow) (action : Text) (next : PaymentIntent) (db : PaymentDb)
      → (((store_recovery clock uuid r action next db).1 ≡ false)
          × ((store_recovery clock uuid r action next db).0.intents ≡ db.intents))
        ⊎ ((store_recovery clock uuid r action next db).0.intents
            ≡ map (update_row next) db.intents)
  unfolding store_recovery execute
  store_recovery-intents r action next db = go db.budget refl
    where
      go :
          (n : ℕ)
          → db.budget ≡ n
          → (((store_recovery clock uuid r action next db).1 ≡ false)
              × ((store_recovery clock uuid r action next db).0.intents ≡ db.intents))
            ⊎ ((store_recovery clock uuid r action next db).0.intents
                ≡ map (update_row next) db.intents)
      go zero e = rw (store_recovery, execute, e) (inl (refl, refl))
      go (suc zero) e = rw (store_recovery, execute, e) (inr refl)
      go (suc (suc n)) e = rw (store_recovery, execute, e) (inr refl)

  -- An action on another payment leaves the row as it is.
  other_row :
      (row r : IntentRow) (action : Text) (next : PaymentIntent)
      → recovery_of clock uuid r ≡ some (action, next)
      → r.payment_id ≢ row.payment_id
      → update_row next row ≡ row
  other_row row r action next e differs =
      elim (Bool-cases (text_eq row.payment_id next.payment_id)) [
        | inr miss ↦ update_row-other next row miss
        | inl hit ↦ absurd (
            differs (
              sym (
                (text_eq_iff row.payment_id next.payment_id).0 hit
                ∙ recovery_of-payment_id r action next e)))
      ]

  update-other :
      (row r : IntentRow) (action : Text) (next : PaymentIntent) (rows : List IntentRow)
      → recovery_of clock uuid r ≡ some (action, next)
      → r.payment_id ≢ row.payment_id
      → IsRowOf row rows
      → IsRowOf row (map (update_row next) rows)
  update-other row r action next rows e differs h =
      subst (λ x. IsRowOf x (map (update_row next) rows)) (other_row row r action next e differs)
        (update-IsRowOf next row rows h)

  -- The row of a payment that the audit does not act on.
  pub audit_rows-stuck :
      (row : IntentRow) (rows : List IntentRow) (db : PaymentDb)
      → recovery_of clock uuid row ≡ none
      → IsOnly row rows
      → IsRowOf row db.intents
      → IsRowOf row (audit_rows clock uuid rows db).0.intents
  unfolding audit_rows
  audit_rows-stuck row [] db idle only h = h
  audit_rows-stuck row (r ∷ rows) db idle (same, only) h =
      elim (Option-cases (recovery_of clock uuid r)) [
        | inl e ↦ rw (audit_rows, e) (audit_rows-stuck row rows db idle only h)
        | inr ((action, next), e) ↦
            let differs : r.payment_id ≢ row.payment_id =
              λ k. cc (sym e ∙ ap (recovery_of clock uuid) (same k) ∙ idle) in
            let stored : IsRowOf row (store_recovery clock uuid r action next db).0.intents =
              elim (store_recovery-intents r action next db) [
                | inl (_, i) ↦ rw i h
                | inr i ↦ rw i (update-other row r action next db.intents e differs h)
              ] in
            elim (Bool-cases (store_recovery clock uuid r action next db).1) [
              | inl done ↦
                  rw (audit_rows, e, done)
                    (audit_rows-stuck row rows (store_recovery clock uuid r action next db).0 idle
                      only stored)
              | inr ended ↦ rw (audit_rows, e, ended) stored
            ]
      ]

  update_row-again :
      (next : PaymentIntent) (row : IntentRow)
      → update_row next (update_row next row) ≡ update_row next row
  unfolding update_row
  update_row-again next row = elim (Bool-cases (text_eq row.payment_id next.payment_id)) [
    | inl e ↦ rw (update_row, e, update_row, e) refl
    | inr e ↦ rw (update_row, e, update_row, e) refl
  ]

  -- The row is still to be updated, by one of these rows, or it is updated.
  abbrev IsOnItsWay : IntentRow → PaymentIntent → List IntentRow → List IntentRow → Type 0
  IsOnItsWay row next rows intents =
      (IsRowOf row intents × IsIn row rows) ⊎ IsRowOf (update_row next row) intents

  after_update :
      (row r : IntentRow) (action act : Text) (next nx : PaymentIntent)
      (rows intents : List IntentRow)
      → recovery_of clock uuid row ≡ some (action, next)
      → recovery_of clock uuid r ≡ some (act, nx)
      → (r.payment_id ≡ row.payment_id → r ≡ row)
      → IsOnItsWay row next (r ∷ rows) intents
      → IsOnItsWay row next rows (map (update_row nx) intents)
  after_update row r action act next nx rows intents er e same way =
      elim (Bool-cases (text_eq r.payment_id row.payment_id)) [
        | inl hit ↦ inr (mine ((text_eq_iff r.payment_id row.payment_id).0 hit) way)
        | inr miss ↦ others (λ k. cc (sym miss ∙ (text_eq_iff r.payment_id row.payment_id).1 k)) way
      ]
    where
      mine :
          r.payment_id ≡ row.payment_id
          → IsOnItsWay row next (r ∷ rows) intents
          → IsRowOf (update_row next row) (map (update_row nx) intents)
      mine k way =
          let one : nx ≡ next =
            ap (λ t. t.1)
              (some-injective (act, nx) (action, next)
                (sym e ∙ ap (recovery_of clock uuid) (same k) ∙ er)) in
          elim way [
            | inl (h, _) ↦ rw one (update-IsRowOf next row intents h)
            | inr h ↦ rw one (
                subst (λ x. IsRowOf x (map (update_row next) intents)) (update_row-again next row)
                  (update-IsRowOf next (update_row next row) intents h))
          ]

      others :
          r.payment_id ≢ row.payment_id
          → IsOnItsWay row next (r ∷ rows) intents
          → IsOnItsWay row next rows (map (update_row nx) intents)
      others differs (inl (h, inl k)) = absurd (differs (ap (λ (x : IntentRow). x.payment_id) k))
      others differs (inl (h, inr below)) =
          inl (update-other row r act nx intents e differs h, below)
      others differs (inr h) = inr (
          update-other (update_row next row) r act nx intents e
            (λ k. differs (k ∙ update_row-payment_id next row)) h)

  -- The row of a payment that the audit acts on, when no statement fails.
  pub audit_rows-updated :
      (row : IntentRow) (action : Text) (next : PaymentIntent) (rows : List IntentRow)
      (db : PaymentDb)
      → recovery_of clock uuid row ≡ some (action, next)
      → IsOnly row rows
      → (audit_rows clock uuid rows db).1 ≡ true
      → IsOnItsWay row next rows db.intents
      → IsRowOf (update_row next row) (audit_rows clock uuid rows db).0.intents
  unfolding audit_rows
  audit_rows-updated row action next [] db er only done (inl (h, below)) = elim below [ ]
  audit_rows-updated row action next [] db er only done (inr h) = h
  audit_rows-updated row action next (r ∷ rows) db er (same, only) done way =
      elim (Option-cases (recovery_of clock uuid r)) [
        | inl e ↦
            rw (audit_rows, e)
              (audit_rows-updated row action next rows db er only (rw (audit_rows, e) at done)
                (passed e way))
        | inr ((act, nx), e) ↦ elim (Bool-cases (store_recovery clock uuid r act nx db).1) [
          | inr ended ↦ absurd (cc (rw (audit_rows, e, ended) at done))
          | inl went ↦
              let stored : IsOnItsWay row next rows
                  (store_recovery clock uuid r act nx db).0.intents =
                elim (store_recovery-intents r act nx db) [
                  | inl (ended, _) ↦ absurd (cc (sym ended ∙ went))
                  | inr i ↦
                      rw i (after_update row r action act next nx rows db.intents er e same way)
                ] in
              rw (audit_rows, e, went)
                (audit_rows-updated row action next rows (store_recovery clock uuid r act nx db).0
                  er only (rw (audit_rows, e, went) at done) stored)
        ]
      ]
    where
      passed :
          recovery_of clock uuid r ≡ none
          → IsOnItsWay row next (r ∷ rows) db.intents
          → IsOnItsWay row next rows db.intents
      passed e (inl (h, inl k)) = absurd (cc (sym e ∙ ap (recovery_of clock uuid) k ∙ er))
      passed e (inl (h, inr below)) = inl (h, below)
      passed e (inr h) = inr h
