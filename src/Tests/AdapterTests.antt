-- ===== src/Tests/AdapterTests.antt =====
-- The adapters on concrete requests.
use conxian_nexus.Prelude.{
  ℕ, ◌≡◌, refl, ◌&&◌, true, some, List, [], ◌∷◌, ◌++◌, Text, codes, length, ◌==◌,
}
use conxian_nexus.Prelude.Int.{as_i64, pos}
use conxian_nexus.State.Crypto.{Bytes}
use conxian_nexus.Adapters.Rgb.{RgbAdapter, RgbContractMetadata, active, nia}
use conxian_nexus.Adapters.Evm.{
  EvmReceiptProof, is_hash, has_receipt, insert_receipt, receipt_row, verify_receipt_proof,
}
use conxian_nexus.Adapters.Cosmos.{IbcClientUpdate, ClientRow, verify_client_update}
use conxian_nexus.Adapters.BitVm.{
  Groth16, BitVmTransition, check_proof, conclude, read_inputs, verify_transition,
}
use conxian_nexus.Adapters.AdapterLaws.{
  IsUnique, verify_receipt_proof-IsUnique, IsAt, verify_client_update-IsAt,
}
use conxian_nexus.Adapters.BitVmLaws.{IsProved, verify_transition-IsProved}
use conxian_nexus.Tests.Stubs.{repeat, toy_crypto}

abbrev hash : ℕ → Text
hash digit = codes "0x" ++ repeat 64 digit

abbrev receipt : ℕ → EvmReceiptProof
receipt index = record {
  block_hash = hash b'a';
  transaction_index = index;
  proof_nodes = [];
  receipt_root = hash b'b';
}

verify_receipt_proof-IsUnique_example :
    IsUnique (verify_receipt_proof true (receipt 1) (receipt_row (receipt 0) ∷ [])).0
    × ((verify_receipt_proof true (receipt 1) (receipt_row (receipt 0) ∷ [])).1.valid
        ≡ is_hash (hash b'a') && is_hash (hash b'b'))
unfolding has_receipt
verify_receipt_proof-IsUnique_example =
    verify_receipt_proof-IsUnique true (receipt 1) (receipt_row (receipt 0) ∷ []) (refl, tt)

-- A second proof for the same receipt adds no row.
one_row : length (verify_receipt_proof true (receipt 0) (receipt_row (receipt 0) ∷ [])).0 ≡ 1
unfolding verify_receipt_proof insert_receipt has_receipt receipt_row is_hash as_i64
one_row = refl

abbrev update : ℕ → IbcClientUpdate
update trusted_height = record {
  client_id = codes "07-tendermint-0";
  header = [];
  trusted_height = trusted_height;
}

abbrev clients : List (Text × ClientRow)
clients =
    (codes "07-tendermint-0", record { latest_height = pos 900; trust_level = codes "T1" }) ∷ []

-- The height goes back from 900 to 101.
verify_client_update-IsAt_example :
    IsAt (as_i64 101) (codes "07-tendermint-0") (verify_client_update true (update 100) clients).0
unfolding verify_client_update
verify_client_update-IsAt_example = verify_client_update-IsAt (update 100) clients refl

abbrev contract_id : Text
contract_id = codes "rgb:asset_nia_123456789012345678901234567890"

abbrev adapter : RgbAdapter
adapter = record { mode = active; known_contracts = contract_id ∷ [] }

abbrev metadata : RgbContractMetadata
metadata = record {
  contract_id = contract_id;
  status = codes "active";
  mode = active;
  schema = nia;
  supply_total = some 100_000_000;
  issued_at_height = some 840_000;
}

-- A verifier that counts the inputs and the bytes of the proof.
abbrev groth16 : Groth16
groth16 = record {
  Proof = Bytes;
  VerifyingKey = Bytes;
  Fr = Bytes;
  proof_of = some;
  key_of = some;
  input_of = some;
  verify = λ vk inputs proof. some (length inputs == length proof);
}

abbrev transition : BitVmTransition
transition = record {
  prev_state_root = hash b'1';
  next_state_root = hash b'2';
  proof_bytes = codes "07";
  vk_bytes = codes "08";
  public_inputs = codes "09" ∷ [];
  trace_id = codes "trace";
}

verify_transition-IsProved_example :
    (is_hash (hash b'1') ≡ true)
    × (is_hash (hash b'2') ≡ true)
    × IsProved toy_crypto groth16 transition
unfolding verify_transition check_proof conclude read_inputs is_hash
verify_transition-IsProved_example =
    verify_transition-IsProved toy_crypto groth16 true transition [] _ refl refl
