-- ===== src/Adapters/Stacks.antt =====
-- `StacksAdapter` of src/executor/stacks.rs and `FedimintAdapter` of src/executor/fedimint.rs.
use conxian_nexus.Prelude.{
  ℕ, Bool, true, false, not, ◌||◌, Text, codes, is_empty, starts_with, ◌==◌, if◌then◌else◌,
}
use conxian_nexus.Prelude.Result.{Result, ok}

pub record StacksTransaction : Type 0 where
  pub tx_id : Text
  pub block_height : ℕ
  pub sender : Text
  pub amount_sbtc : ℕ

pub record StacksVerificationResult : Type 0 where
  pub valid : Bool
  pub status : Text
  pub verified_at_height : ℕ

unfoldable pub verify_transaction : StacksTransaction → StacksVerificationResult
verify_transaction tx =
    if is_empty tx.tx_id || not (starts_with tx.tx_id (codes "0x"))
    then record {
      valid = false;
      status = codes "Invalid transaction ID format";
      verified_at_height = 0;
    }
    else if tx.amount_sbtc == 0
    then record {
      valid = false;
      status = codes "Zero amount sBTC transaction";
      verified_at_height = 0;
    }
    else record {
      valid = true;
      status = codes "Stacks transaction verified (Pilot)";
      verified_at_height = tx.block_height;
    }

-- The proof is not read.
unfoldable pub verify_mint_proof : Text → Result Bool Text
verify_mint_proof proof = ok true
