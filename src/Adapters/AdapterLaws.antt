-- ===== src/Adapters/AdapterLaws.antt =====
-- What the adapters of src/executor/rgb.rs, evm.rs and cosmos.rs accept, and their tables.
use conxian_nexus.Prelude.{
  ◌≡◌, ◌≤◌, refl, sym, inl, inr, ◌⊎◌, Bool, true, false, not, ◌&&◌, ◌||◌, some, List, [], ◌∷◌, Text,
  codes, starts_with, contains, utf8_len, add64, ltb, text_eq_iff, Bool-cases, Option-cases, arith,
}
use mathlib.Core.Path.{subst}
use mathlib.Core.Option.{some-injective}
use conxian_nexus.Prelude.Dict.{lookup, lookup-insert, has_text}
use conxian_nexus.Prelude.Int.{ℤ, as_i64}
use conxian_nexus.Prelude.Result.{ok, >>=-eq-ok, ok_inj, guard_passed, not_refused}
use conxian_nexus.Adapters.Evm.{
  EvmReceiptProof, ReceiptRow, is_hash, same_receipt, has_receipt, insert_receipt, receipt_row,
  verify_receipt_proof,
}
use conxian_nexus.Adapters.Cosmos.{IbcClientUpdate, ClientRow, upsert, verify_client_update}
use conxian_nexus.Adapters.Rgb.{
  RgbAdapter, RgbContractMetadata, RgbRolloutMode, RgbSchema, disabled, shadow, active,
  validate_contract_id, look_up, lookup_contract,
}

-- No two rows have the same block hash and transaction index.
abbrev pub IsUnique : List ReceiptRow → Type 0
IsUnique [] = Unit {0}
IsUnique (row ∷ rows) = (has_receipt row rows ≡ false) × IsUnique rows

insert_receipt-IsUnique :
    (runs : Bool) (row : ReceiptRow) (rows : List ReceiptRow)
    → IsUnique rows
    → IsUnique (insert_receipt runs row rows)
unfolding insert_receipt
insert_receipt-IsUnique runs row rows h = elim (Bool-cases (runs && not (has_receipt row rows))) [
  | inr e ↦ rw e h
  | inl e ↦ rw e (ground arith, h)
]

same_receipt_refl : (row : ReceiptRow) → same_receipt row row ≡ true
same_receipt_refl row = rw ((text_eq_iff row.block_hash row.block_hash).1 refl) ground arith

insert_receipt-stored :
    (row : ReceiptRow) (rows : List ReceiptRow)
    → has_receipt row (insert_receipt true row rows) ≡ true
unfolding insert_receipt has_receipt
insert_receipt-stored row rows = elim (Bool-cases (has_receipt row rows)) [
  | inl e ↦ rw (insert_receipt, e) e
  | inr e ↦ rw (insert_receipt, e, has_receipt, same_receipt_refl row) refl
]

-- verify_receipt_proof keeps at most one row for each block hash and transaction index, and
-- answers as valid exactly the receipts whose block hash and receipt root are both well formed.
pub verify_receipt_proof-IsUnique :
    (runs : Bool) (proof : EvmReceiptProof) (rows : List ReceiptRow)
    → IsUnique rows
    → IsUnique (verify_receipt_proof runs proof rows).0
      × ((verify_receipt_proof runs proof rows).1.valid
          ≡ is_hash proof.block_hash && is_hash proof.receipt_root)
unfolding verify_receipt_proof
verify_receipt_proof-IsUnique runs proof rows h = elim (Bool-cases (is_hash proof.block_hash)) [
  | inr e ↦ rw (verify_receipt_proof, e) (h, refl)
  | inl e ↦ elim (Bool-cases (is_hash proof.receipt_root)) [
    | inr f ↦ rw (verify_receipt_proof, e, f) (h, refl)
    | inl f ↦
        rw (verify_receipt_proof, e, f)
          (insert_receipt-IsUnique runs (receipt_row proof) rows h, refl)
  ]
]

-- A receipt that is answered as valid has a row, when the statement runs.
pub verify_receipt_proof-stored :
    (proof : EvmReceiptProof) (rows : List ReceiptRow)
    → (verify_receipt_proof true proof rows).1.valid ≡ true
    → has_receipt (receipt_row proof) (verify_receipt_proof true proof rows).0 ≡ true
unfolding verify_receipt_proof
verify_receipt_proof-stored proof rows h = elim (Bool-cases (is_hash proof.block_hash)) [
  | inr e ↦ absurd (cc (rw (verify_receipt_proof, e) at h))
  | inl e ↦ elim (Bool-cases (is_hash proof.receipt_root)) [
    | inr f ↦ absurd (cc (rw (verify_receipt_proof, e, f) at h))
    | inl f ↦ rw (verify_receipt_proof, e, f) (insert_receipt-stored (receipt_row proof) rows)
  ]
]

-- The client has this height.
pub record IsAt (height : ℤ) (client : Text) (rows : List (Text × ClientRow)) : Type 0 where
  pub row : ClientRow
  pub stored : lookup client rows ≡ some row
  pub at_height : row.latest_height ≡ height

upsert-IsAt :
    (client : Text) (row : ClientRow) (rows : List (Text × ClientRow))
    → IsAt row.latest_height client (upsert client row rows)
unfolding upsert
upsert-IsAt client row rows = elim (Option-cases (lookup client rows)) [
  | inl e ↦
      rw (upsert, e)
        (record { row = row; stored = lookup-insert client row rows; at_height = refl })
  | inr (old, e) ↦
      rw (upsert, e) (record { row = _; stored = lookup-insert client _ rows; at_height = refl })
]

-- When verify_client_update answers that an update is valid and its statement runs, the stored
-- height of the client is the trusted height plus one, modulo 2^64 and read as a signed number,
-- whatever it was before.
pub verify_client_update-IsAt :
    (update : IbcClientUpdate) (rows : List (Text × ClientRow))
    → (verify_client_update true update rows).1.valid ≡ true
    → IsAt
        (as_i64 (add64 update.trusted_height 1))
        update.client_id
        (verify_client_update true update rows).0
unfolding verify_client_update
verify_client_update-IsAt update rows h =
    elim (Bool-cases
      (not (contains update.client_id (codes "-")) || ltb (utf8_len update.client_id) 5)) [
        | inl e ↦ absurd (cc (rw (verify_client_update, e) at h))
        | inr e ↦ rw (verify_client_update, e) (upsert-IsAt update.client_id _ rows)
      ]

-- What is known of a contract that was found.
pub record IsLookedUp (adapter : RgbAdapter) (contract_id : Text) (found : RgbContractMetadata)
    : Type 0 where
  pub prefix : starts_with contract_id (codes "rgb:") ≡ true
  pub long : 40 ≤ utf8_len contract_id
  pub named : found.contract_id ≡ contract_id
  pub mode : found.mode ≡ adapter.mode
  pub schema : validate_contract_id contract_id ≡ ok found.schema
  pub enabled :
      (adapter.mode ≡ shadow)
      ⊎ ((adapter.mode ≡ active) × (has_text adapter.known_contracts contract_id ≡ true))

validate_contract_id_sound :
    (contract_id : Text) (schema : RgbSchema)
    → validate_contract_id contract_id ≡ ok schema
    → (starts_with contract_id (codes "rgb:") ≡ true) × (40 ≤ utf8_len contract_id)
unfolding validate_contract_id
validate_contract_id_sound contract_id schema h =
    let (prefixed, h') = guard_passed (not (starts_with contract_id (codes "rgb:"))) _ _ h in
    let (long, _) = guard_passed (ltb (utf8_len contract_id) 40) _ _ h' in
    (not_refused (starts_with contract_id (codes "rgb:")) prefixed, ground arith)

look_up-IsLookedUp :
    (adapter : RgbAdapter) (contract_id : Text) (schema : RgbSchema) (found : RgbContractMetadata)
    (mode : RgbRolloutMode)
    → adapter.mode ≡ mode
    → validate_contract_id contract_id ≡ ok schema
    → (starts_with contract_id (codes "rgb:") ≡ true) × (40 ≤ utf8_len contract_id)
    → look_up adapter contract_id schema ≡ ok (some found)
    → IsLookedUp adapter contract_id found
unfolding look_up
look_up-IsLookedUp adapter contract_id schema found disabled e valid sound h =
    absurd (cc (rw (look_up, e) at h))
look_up-IsLookedUp adapter contract_id schema found shadow e valid sound h =
    subst (IsLookedUp adapter contract_id) (some-injective _ found (ok_inj (rw (look_up, e) at h)))
      (record {
        prefix = sound.0;
        long = sound.1;
        named = refl;
        mode = sym e;
        schema = valid;
        enabled = inl e;
      })
look_up-IsLookedUp adapter contract_id schema found active e valid sound h =
    elim (Bool-cases (has_text adapter.known_contracts contract_id)) [
      | inr unknown_id ↦ absurd (cc (rw (look_up, e, unknown_id) at h))
      | inl known ↦
          subst (IsLookedUp adapter contract_id)
            (some-injective _ found (ok_inj (rw (look_up, e, known) at h)))
            (record {
              prefix = sound.0;
              long = sound.1;
              named = refl;
              mode = sym e;
              schema = valid;
              enabled = inr (e, known);
            })
    ]

-- When lookup_contract finds a contract, it is the one that was asked for, its identifier begins
-- with "rgb:" and has at least 40 bytes, its schema is the one validated, and the adapter is in
-- shadow mode, or in active mode with this contract among the known ones.
pub lookup_contract-IsLookedUp :
    (adapter : RgbAdapter) (contract_id : Text) (found : RgbContractMetadata)
    → lookup_contract adapter contract_id ≡ ok (some found)
    → IsLookedUp adapter contract_id found
unfolding lookup_contract
lookup_contract-IsLookedUp adapter contract_id found h =
    let (schema, valid, h') = >>=-eq-ok (validate_contract_id contract_id) _ h in
    look_up-IsLookedUp adapter contract_id schema found adapter.mode refl valid
      (validate_contract_id_sound contract_id schema valid) h'
