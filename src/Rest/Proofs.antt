-- ===== src/Rest/Proofs.antt =====
-- The proofs of src/api/rest.rs. `serde_json::to_string` of a proof is a parameter, and so is the
-- version of the package.
use mathlib.Core.List.{reverse}
use conxian_nexus.Prelude.{
  ℕ, Bool, true, false, not, ◌&&◌, Option, none, some, List, [], ◌∷◌, Text, codes, map, is_empty,
  starts_with, utf8_len, ◌==◌, if◌then◌else◌,
}
use conxian_nexus.Prelude.Result.{Result, ok, err, ok_or, ◌>>=◌}
use conxian_nexus.State.Crypto.{Bytes, Crypto}
use conxian_nexus.State.Tree.{MerkleProof}
use conxian_nexus.State.Node.{
  NexusState, MmrProof, get_leaf_index, get_leaf_by_index, get_mmr_proof_metadata, generate_proof,
  assemble_mmr_proof,
}
use conxian_nexus.Api.Http.{StatusCode, bad_request, not_found, internal_server_error}
use conxian_nexus.Safety.Monitor.{Link, Redis, is_safety_mode_active}

pub record ProofResponse : Type 0 where
  pub root : Text
  pub proof : Text

pub record MmrProofParams : Type 0 where
  pub index : Option ℕ
  pub tx_id : Option Text

-- An error: its status and its text.
abbrev pub Failure : Type 0
Failure = StatusCode × Text

pub record HealthResponse : Type 0 where
  pub status : Text
  pub version : Text
  pub safety_mode : Bool

pub record HealthStatus : Type 0 where
  pub status : Text
  pub version : Text
  pub safety_mode : Bool
  pub uptime_seconds : Option ℕ

pub record ProofRoutes : Type 0 where
  pub proof_endpoint : Text
  pub mmr_proof_endpoint : Text
  pub health_endpoint : Text
  pub submit_endpoint : Text

pub record MmrInfo : Type 0 where
  pub leaf_count : Option ℕ
  pub peaks : List Text
  pub initialized : Bool

pub record ServiceMetadata : Type 0 where
  pub version : Text
  pub proof_surface_version : Text
  pub supported_chains : List Text

pub record ProofManifest : Type 0 where
  pub health : HealthStatus
  pub proof_routes : ProofRoutes
  pub state_root : Option Text
  pub mmr_info : MmrInfo
  pub service : ServiceMetadata

-- `is_safety_mode_active(..).await.unwrap_or(false)`
unfoldable pub safety_flag : Link → Redis → Bool
unfolding is_safety_mode_active
safety_flag link redis = elim (is_safety_mode_active link redis) [
  | ok active ↦ active
  | err e ↦ false
]

unfoldable pub health_handler : Text → Link → Redis → HealthResponse
unfolding safety_flag
health_handler version link redis = record {
  status = codes "ok";
  version = version;
  safety_mode = safety_flag link redis;
}

abbrev pub is_tx_id : Text → Bool
is_tx_id tx_id = starts_with tx_id (codes "0x") && (utf8_len tx_id == 66)

-- The index that the parameters ask for.
unfoldable pub leaf_index : NexusState → MmrProofParams → Result (Option ℕ) Failure
unfolding get_leaf_index
leaf_index s params = elim params.index [
  | some idx ↦ ok (some idx)
  | none ↦ elim params.tx_id [
    | none ↦ ok none
    | some tx_id ↦
        if not (is_tx_id tx_id)
        then err (bad_request, codes "Invalid tx_id format")
        else ok (get_leaf_index s tx_id)
  ]
]

-- `NexusState::get_state_root`, `get_mmr_root` and `get_mmr_state`
abbrev pub get_state_root : NexusState → Text
get_state_root s = s.state_root

unfoldable pub get_mmr_state : NexusState → List Bytes × ℕ
get_mmr_state s = (reverse s.mmr.peaks, s.mmr.size)

module _ (c : Crypto) where
  open c use {hex_encode}

  unfoldable pub get_mmr_proof : NexusState → MmrProofParams → Result MmrProof Failure
  unfolding leaf_index get_leaf_by_index get_mmr_proof_metadata assemble_mmr_proof
  get_mmr_proof s params = do
    asked ← leaf_index s params
    idx ← ok_or asked (not_found, codes "Leaf not found")
    leaf ←
        ok_or (get_leaf_by_index s idx)
          (internal_server_error, codes "Failed to generate MMR proof")
    (pos, siblings) ←
        ok_or (get_mmr_proof_metadata s idx)
          (internal_server_error, codes "Failed to generate MMR proof")
    ok (assemble_mmr_proof c s leaf pos [])

  module _ (to_json : MerkleProof → Text) where
    -- No result when the state tracker panics.
    unfoldable pub get_proof : NexusState → Text → Option ProofResponse
    unfolding generate_proof
    get_proof s key = elim (generate_proof c to_json s key) [
      | none ↦ none
      | some (root, proof) ↦ some (record { root = root; proof = proof })
    ]

    unfoldable pub get_proof_manifest : Text → Link → Redis → NexusState → Option ProofManifest
    unfolding generate_proof safety_flag get_mmr_state
    get_proof_manifest version link redis s =
        elim (generate_proof c to_json s (codes "state_root")) [
          | none ↦ none
          | some (root, proof) ↦ some (record {
            health = record {
              status = codes "ok";
              version = version;
              safety_mode = safety_flag link redis;
              uptime_seconds = none;
            };
            proof_routes = record {
              proof_endpoint = codes "/v1/proof?key=<key>";
              mmr_proof_endpoint = codes "/v1/mmr-proof?index=<n>";
              health_endpoint = codes "/health";
              submit_endpoint = codes "/v1/submit";
            };
            state_root = if is_empty root then none else some root;
            mmr_info = record {
              leaf_count = some (get_mmr_state s).1;
              peaks = map hex_encode (get_mmr_state s).0;
              initialized = true;
            };
            service = record {
              version = version;
              proof_surface_version = codes "1.0.0";
              supported_chains =
                  codes "stacks" ∷ codes "bitcoin" ∷ codes "evm" ∷ codes "cosmos" ∷ [];
            };
          })
        ]
