-- ===== src/Adapters/BitVm.antt =====
-- `BitVMAdapter` of src/executor/bitvm.rs. The crates `ark_groth16` and `ark_serialize` are
-- parameters; the confidence, 0.0 or 1.0, is a truth value. The
-- texts of errors end without the reason that the crate gives.
use conxian_nexus.Prelude.{
  ℕ, Bool, true, false, not, Option, none, some, List, [], ◌∷◌, ◌++◌, Text, codes, if◌then◌else◌,
}
use conxian_nexus.Prelude.Dict.{lookup, insert}
use conxian_nexus.Prelude.Int.{ℤ, as_i64}
use conxian_nexus.Prelude.Result.{Result, ok, err, ok_or, ◌>>=◌}
use conxian_nexus.State.Crypto.{Bytes, Crypto}
use conxian_nexus.Adapters.Evm.{is_hash}

pub record Groth16 : Type 1 where
  pub Proof : Type 0
  pub VerifyingKey : Type 0
  pub Fr : Type 0
  pub proof_of : Bytes → Option Proof
  pub key_of : Bytes → Option VerifyingKey
  pub input_of : Bytes → Option Fr
  pub verify : VerifyingKey → List Fr → Proof → Option Bool

pub record BitVmTransition : Type 0 where
  pub prev_state_root : Text
  pub next_state_root : Text
  pub proof_bytes : Text
  pub vk_bytes : Text
  pub public_inputs : List Text
  pub trace_id : Text

pub record BitVmVerificationResult : Type 0 where
  pub valid : Bool
  pub message : Text
  pub steps_verified : ℕ
  pub confidence : Bool

-- A row of `bitvm_verified_transitions`, without its key `trace_id`.
pub record TransitionRow : Type 0 where
  pub prev_state_root : Text
  pub next_state_root : Text
  pub proof_hash : Text
  pub vk_hash : Text
  pub public_inputs_hash : Text
  pub steps_verified : ℤ
  pub confidence : Bool

-- `INSERT … ON CONFLICT (trace_id) DO NOTHING`
unfoldable pub insert_new :
    Bool → Text → TransitionRow → List (Text × TransitionRow) → List (Text × TransitionRow)
insert_new runs key row rows = elim (lookup key rows) [
  | some old ↦ rows
  | none ↦ if runs then insert key row rows else rows
]

abbrev pub invalid : Text → BitVmVerificationResult
invalid message = record {
  valid = false;
  message = message;
  steps_verified = 0;
  confidence = false;
}

module _ (c : Crypto) (g : Groth16) where
  open c use {sha256, hex_encode, hex_decode}
  open g use {Fr, proof_of, key_of, input_of, verify}

  -- The loop over the inputs: their elements and their bytes, one behind the other.
  unfoldable pub read_inputs : List Text → Result (List Fr × Bytes) Text
  read_inputs [] = ok ([], [])
  read_inputs (input_hex ∷ inputs) = do
    input_bytes ← ok_or (hex_decode input_hex) (codes "Invalid input hex")
    input_fr ← ok_or (input_of input_bytes) (codes "Failed to deserialize public input")
    (rest, bytes) ← read_inputs inputs
    ok (input_fr ∷ rest, input_bytes ++ bytes)

  -- Behind the checks of the format: whether the proof is valid, and the row for it.
  unfoldable pub check_proof : BitVmTransition → Result (Bool × TransitionRow) Text
  unfolding read_inputs
  check_proof t = do
    proof_bytes ← ok_or (hex_decode t.proof_bytes) (codes "Invalid proof hex")
    vk_bytes ← ok_or (hex_decode t.vk_bytes) (codes "Invalid VK hex")
    proof ← ok_or (proof_of proof_bytes) (codes "Failed to deserialize proof")
    vk ← ok_or (key_of vk_bytes) (codes "Failed to deserialize VK")
    (public_inputs, concatenated) ← read_inputs t.public_inputs
    is_valid ← ok_or (verify vk public_inputs proof) (codes "SNARK verification error")
    ok (
      is_valid,
      record {
        prev_state_root = t.prev_state_root;
        next_state_root = t.next_state_root;
        proof_hash = hex_encode (sha256 proof_bytes);
        vk_hash = hex_encode (sha256 vk_bytes);
        public_inputs_hash = hex_encode (sha256 concatenated);
        steps_verified = as_i64 1024;
        confidence = true;
      },
    )

  unfoldable pub conclude :
      Bool
      → BitVmTransition
      → Result (Bool × TransitionRow) Text
      → List (Text × TransitionRow)
      → List (Text × TransitionRow) × Result BitVmVerificationResult Text
  unfolding insert_new
  conclude runs t (err e) rows = (rows, err e)
  conclude runs t (ok (is_valid, row)) rows =
      if is_valid
      then (
        insert_new runs t.trace_id row rows,
        ok (record {
          valid = true;
          message =
              codes "Transition cryptographically verified and audited successfully (NIP-005)";
          steps_verified = 1024;
          confidence = true;
        }),
      )
      else (rows, ok (invalid (codes "Groth16 proof verification failed")))

  unfoldable pub verify_transition :
      Bool
      → BitVmTransition
      → List (Text × TransitionRow)
      → List (Text × TransitionRow) × Result BitVmVerificationResult Text
  unfolding check_proof conclude
  verify_transition runs t rows =
      if not (is_hash t.prev_state_root)
      then (rows, ok (invalid (codes "Invalid prev_state_root format")))
      else if not (is_hash t.next_state_root)
      then (rows, ok (invalid (codes "Invalid next_state_root format")))
      else conclude runs t (check_proof t) rows
