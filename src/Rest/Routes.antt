-- ===== src/Rest/Routes.antt =====
-- The other handlers of src/api/rest.rs: the submission and the adapters.
use conxian_nexus.Prelude.{ℕ, ◌+◌, Bool, Option, none, some, List, Text, codes}
use conxian_nexus.Prelude.Result.{Result, ok, err}
use conxian_nexus.State.Crypto.{Crypto}
use conxian_nexus.Api.Http.{
  StatusCode, success, accepted, bad_request, not_found, internal_server_error,
}
use conxian_nexus.Safety.Monitor.{Link, Redis}
use conxian_nexus.Safety.Executor.{ExecutionRequest, Executor, submit}
use conxian_nexus.Adapters.Rgb.{RgbAdapter, RgbContractMetadata, lookup_contract}
use conxian_nexus.Adapters.Evm.{
  EvmReceiptProof, EvmVerificationResult, ReceiptRow, verify_receipt_proof,
}
use conxian_nexus.Adapters.Cosmos.{
  IbcClientUpdate, IbcVerificationResult, ClientRow, verify_client_update,
}
use conxian_nexus.Adapters.Stacks.{StacksTransaction, StacksVerificationResult, verify_transaction}
use conxian_nexus.Adapters.BitVm.{
  Groth16, BitVmTransition, BitVmVerificationResult, TransitionRow, verify_transition,
}

-- An answer: a body, or a text that is an error.
pub record Reply (A : Type 0) : Type 0 where
  pub status : StatusCode
  pub body : Result A Text

abbrev reply : {A : Type 0} → StatusCode → StatusCode → Result A Text → Reply A
reply good bad (ok a) = record { status = good; body = ok a }
reply good bad (err e) = record { status = bad; body = err e }

abbrev found : Result (Option RgbContractMetadata) Text → Reply RgbContractMetadata
found (ok (some metadata)) = record { status = success; body = ok metadata }
found (ok none) = record { status = not_found; body = err (codes "Contract not found") }
found (err e) = record { status = internal_server_error; body = err e }

unfoldable pub get_rgb_contract : RgbAdapter → Text → Reply RgbContractMetadata
unfolding lookup_contract
get_rgb_contract adapter contract_id = found (lookup_contract adapter contract_id)

unfoldable pub verify_evm_receipt :
    Bool → EvmReceiptProof → List ReceiptRow → List ReceiptRow × Reply EvmVerificationResult
unfolding verify_receipt_proof
verify_evm_receipt runs payload rows =
    let (rows', result) = verify_receipt_proof runs payload rows in
    (rows', record { status = success; body = ok result })

unfoldable pub verify_cosmos_ibc :
    Bool
    → IbcClientUpdate
    → List (Text × ClientRow)
    → List (Text × ClientRow) × Reply IbcVerificationResult
unfolding verify_client_update
verify_cosmos_ibc runs payload rows =
    let (rows', result) = verify_client_update runs payload rows in
    (rows', record { status = success; body = ok result })

unfoldable pub verify_stacks_tx : StacksTransaction → Reply StacksVerificationResult
unfolding verify_transaction
verify_stacks_tx payload = record { status = success; body = ok (verify_transaction payload) }

unfoldable pub verify_bitvm_transition :
    Crypto
    → Groth16
    → Bool
    → BitVmTransition
    → List (Text × TransitionRow)
    → List (Text × TransitionRow) × Reply BitVmVerificationResult
unfolding verify_transition
verify_bitvm_transition c g runs payload rows =
    let (rows', result) = verify_transition c g runs payload rows in
    (rows', reply success internal_server_error result)

-- The counter of transactions, which only an accepted one raises.
abbrev count : ℕ → Result Text Text → ℕ
count tx_count (ok tx_id) = tx_count + 1
count tx_count (err e) = tx_count

unfoldable pub submit_transaction :
    Crypto
    → Link
    → Redis
    → ExecutionRequest
    → Bool
    → Bool
    → ℕ
    → Executor
    → Executor × ℕ × Reply Text
unfolding submit
submit_transaction c link redis request answered inserted tx_count s =
    let (s', result) = submit c link redis request answered inserted s in
    (s', count tx_count result, reply accepted bad_request result)
