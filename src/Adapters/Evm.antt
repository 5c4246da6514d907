-- ===== src/Adapters/Evm.antt =====
-- `EVMAdapter` of src/executor/evm.rs. A result of a statement that the code drops leaves its table
-- as it is when the statement fails.
use conxian_nexus.Prelude.{
  ℕ, Bool, true, false, not, ◌&&◌, ◌||◌, List, [], ◌∷◌, Text, codes, text_eq, starts_with, utf8_len,
  ◌==◌, if◌then◌else◌,
}
use conxian_nexus.Prelude.Int.{ℤ, as_i64, eq_ℤ}

pub record EvmReceiptProof : Type 0 where
  pub block_hash : Text
  pub transaction_index : ℕ
  pub proof_nodes : List Text
  pub receipt_root : Text

pub record EvmVerificationResult : Type 0 where
  pub valid : Bool
  pub status : Text
  pub verified_at_height : ℕ

-- A row of `evm_verified_receipts`.
pub record ReceiptRow : Type 0 where
  pub block_hash : Text
  pub transaction_index : ℤ
  pub receipt_root : Text
  pub status : Text
  pub verified_at_height : ℤ

unfoldable pub is_hash : Text → Bool
is_hash t = starts_with t (codes "0x") && (utf8_len t == 66)

abbrev pub same_receipt : ReceiptRow → ReceiptRow → Bool
same_receipt row other =
    text_eq row.block_hash other.block_hash && eq_ℤ row.transaction_index other.transaction_index

unfoldable pub has_receipt : ReceiptRow → List ReceiptRow → Bool
has_receipt row [] = false
has_receipt row (r ∷ rows) = same_receipt r row || has_receipt row rows

-- `INSERT … ON CONFLICT (block_hash, transaction_index) DO NOTHING`
unfoldable pub insert_receipt : Bool → ReceiptRow → List ReceiptRow → List ReceiptRow
unfolding has_receipt
insert_receipt runs row rows = if runs && not (has_receipt row rows) then row ∷ rows else rows

abbrev pub invalid : Text → EvmVerificationResult
invalid status = record { valid = false; status = status; verified_at_height = 0 }

unfoldable pub receipt_row : EvmReceiptProof → ReceiptRow
receipt_row proof = record {
  block_hash = proof.block_hash;
  transaction_index = as_i64 proof.transaction_index;
  receipt_root = proof.receipt_root;
  status = codes "Receipt proof verified and audited (NIP-005 Phase 1: Structural)";
  verified_at_height = as_i64 1_000_000;
}

unfoldable pub verify_receipt_proof :
    Bool → EvmReceiptProof → List ReceiptRow → List ReceiptRow × EvmVerificationResult
unfolding insert_receipt receipt_row
verify_receipt_proof runs proof rows =
    if not (is_hash proof.block_hash)
    then (rows, invalid (codes "Invalid block hash format"))
    else if not (is_hash proof.receipt_root)
    then (rows, invalid (codes "Invalid receipt root format"))
    else (
      insert_receipt runs (receipt_row proof) rows,
      record {
        valid = true;
        status = codes "Receipt proof verified and audited (NIP-005 Phase 1: Structural)";
        verified_at_height = 1_000_000;
      },
    )
