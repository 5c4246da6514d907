-- ===== src/Tests/SyncTests.antt =====
-- Microblocks, the requests to Kwil and the proofs over HTTP at concrete inputs.
use conxian_nexus.Prelude.{
  ℕ, ◌+◌, length, ◌≡◌, refl, true, false, none, some, List, [], ◌∷◌, ◌++◌, Text, codes, map, ones,
  count_ones, arith,
}
use conxian_nexus.Prelude.Result.{ok, err}
use conxian_nexus.State.Crypto.{Bytes}
use conxian_nexus.State.Counting.{Consecutive}
use conxian_nexus.State.Mmr.{empty_mmr}
use conxian_nexus.State.Node.{
  NexusState, new_state, get_leaf_by_index, get_mmr_proof_metadata, sibling_loop,
  update_state_batch, assemble_mmr_proof,
}
use conxian_nexus.State.NodeLaws.{new_state-IsSound}
use conxian_nexus.Kwil.Requests.{KwilSettlementProposalCommitment, settlement_proposal_payload}
use conxian_nexus.Kwil.RequestLaws.{settlement_proposal_payload-inj}
use conxian_nexus.Sync.Microblock.{MicroblockData, Synced, commitment, process_microblock}
use conxian_nexus.Sync.MicroblockLaws.{
  IsSynced, process_microblock-IsSynced, process_microblock-again,
}
use conxian_nexus.Rest.Proofs.{leaf_index, get_mmr_proof}
use conxian_nexus.Rest.ProofLaws.{IsServed, get_mmr_proof-IsServed}
use conxian_nexus.Tests.Stubs.{toy_crypto}

abbrev block : MicroblockData
block = record {
  hash = codes "0xb1";
  height = 7;
  parent_hash = codes "0xb0";
  tx_ids = codes "tx1" ∷ codes "tx2" ∷ [];
}

abbrev start : Synced
start = record { state = new_state; state_root = none; committed = [] }

process_microblock-IsSynced_example :
    (s' : Synced) × (nodes : List (ℕ × Bytes)) × (process_microblock toy_crypto true true true block
        start
      ≡ some (s', ok tt))
    × IsSynced toy_crypto s'
    × (s'.state.leaves ≡ [] ++ block.tx_ids)
    × (update_state_batch toy_crypto start.state block.tx_ids ≡ some (s'.state, nodes))
    × (s'.state.mmr.node_count ≡ empty_mmr.node_count + length nodes)
    × Consecutive empty_mmr.node_count nodes
    × (s'.committed ≡ [] ++ map (commitment toy_crypto 7) nodes)
process_microblock-IsSynced_example =
    process_microblock-IsSynced toy_crypto true block start (new_state-IsSound toy_crypto)
      (omega arith)

process_microblock-again_example :
    (failed : Synced) × (retried : Synced) × (process_microblock toy_crypto false false true block
        start
      ≡ some (failed, err (codes "redis")))
    × (failed.state_root ≡ none)
    × (failed.committed ≡ [])
    × (process_microblock toy_crypto true true true block failed ≡ some (retried, ok tt))
    × (retried.state.leaves ≡ ([] ++ block.tx_ids) ++ block.tx_ids)
process_microblock-again_example =
    process_microblock-again toy_crypto true block start (new_state-IsSound toy_crypto)
      (omega arith)

abbrev proposal : KwilSettlementProposalCommitment Text
proposal = record {
  proposal_id = codes "p|1";
  external_id = codes "e\\";
  source = codes "iso20022";
  payload = codes "one";
  status = codes "pending";
  init_height = 100;
  unlock_height = 244;
}

-- Another payload, and the same text to sign.
abbrev other : KwilSettlementProposalCommitment Text
other = record proposal { payload = codes "two" }

settlement_proposal_payload-inj_example :
    (codes "p|1" ≡ codes "p|1")
    × (codes "e\\" ≡ codes "e\\")
    × (codes "iso20022" ≡ codes "iso20022")
    × (codes "pending" ≡ codes "pending")
    × (proposal.init_height ≡ other.init_height)
    × (proposal.unlock_height ≡ other.unlock_height)
    × (codes "now" ≡ codes "now")
unfolding settlement_proposal_payload
settlement_proposal_payload-inj_example =
    settlement_proposal_payload-inj proposal other (codes "now") (codes "now") (omega arith)
      (omega arith) (omega arith) (omega arith) refl

-- The state tracker of three transactions, but for its roots.
abbrev three : NexusState
three = record {
  state_root = [];
  leaves = codes "tx1" ∷ codes "tx2" ∷ codes "tx3" ∷ [];
  tree_levels = [];
  mmr = record { peaks = (3 ∷ []) ∷ (2 ∷ []) ∷ []; size = 3; node_count = 4 };
}

-- The second transaction has the first one as its sibling, at position zero.
second_siblings : get_mmr_proof_metadata three 1 ≡ some (1, 0 ∷ [])
unfolding get_mmr_proof_metadata sibling_loop ones count_ones
second_siblings = refl

get_mmr_proof-IsServed_example :
    IsServed toy_crypto three
      (record { index = some 1; tx_id = none })
      (assemble_mmr_proof toy_crypto three (codes "tx2") 1 [])
unfolding get_mmr_proof get_mmr_proof_metadata sibling_loop leaf_index get_leaf_by_index ones
    count_ones
get_mmr_proof-IsServed_example =
    get_mmr_proof-IsServed toy_crypto three (record { index = some 1; tx_id = none }) _ refl
