-- ===== src/Adapters/Cosmos.antt =====
-- `CosmosAdapter` of src/executor/cosmos.rs. The table `cosmos_verified_client_updates` is an
-- association list under the client.
use conxian_nexus.Prelude.{
  ℕ, Bool, true, false, not, ◌||◌, none, some, List, Text, codes, contains, utf8_len, add64, ltb,
  if◌then◌else◌,
}
use conxian_nexus.Prelude.Dict.{lookup, insert}
use conxian_nexus.Prelude.Int.{ℤ, as_i64}

pub record IbcClientUpdate : Type 0 where
  pub client_id : Text
  pub header : Text
  pub trusted_height : ℕ

pub record IbcVerificationResult : Type 0 where
  pub valid : Bool
  pub client_id : Text
  pub latest_height : ℕ
  pub trust_level : Text

pub record ClientRow : Type 0 where
  pub latest_height : ℤ
  pub trust_level : Text

-- `INSERT … ON CONFLICT (client_id) DO UPDATE SET latest_height`
unfoldable pub upsert : Text → ClientRow → List (Text × ClientRow) → List (Text × ClientRow)
upsert client_id row rows = elim (lookup client_id rows) [
  | none ↦ insert client_id row rows
  | some old ↦ insert client_id (record old { latest_height = row.latest_height }) rows
]

unfoldable pub verify_client_update :
    Bool
    → IbcClientUpdate
    → List (Text × ClientRow)
    → List (Text × ClientRow) × IbcVerificationResult
unfolding upsert
verify_client_update runs update rows =
    let latest_height = add64 update.trusted_height 1 in
    let trust_level = codes "T1 (NIP-005 Phase 1)" in
    if not (contains update.client_id (codes "-")) || ltb (utf8_len update.client_id) 5
    then (
      rows,
      record {
        valid = false;
        client_id = update.client_id;
        latest_height = 0;
        trust_level = codes "None";
      },
    )
    else (
      if runs
          then upsert update.client_id
              (record { latest_height = as_i64 latest_height; trust_level = trust_level }) rows
          else rows,
      record {
        valid = true;
        client_id = update.client_id;
        latest_height = latest_height;
        trust_level = trust_level;
      },
    )
