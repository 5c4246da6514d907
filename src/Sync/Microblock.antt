-- ===== src/Sync/Microblock.antt =====
-- `NexusSync` of src/sync/mod.rs. Of Redis only the key `nexus:state_root` is kept; the errors of
-- Kwil are dropped by the code, so that only the requests count. The result is `none` if the state
-- tracker panics.
use conxian_nexus.Prelude.{
  ℕ, Bool, ◌&&◌, Option, some, List, ◌++◌, Text, codes, map, if◌then◌else◌, ◌>>=◌,
}
use conxian_nexus.Prelude.Result.{Result, ok, err}
use conxian_nexus.State.Crypto.{Bytes, Crypto}
use conxian_nexus.State.Node.{NexusState, update_state_batch}
use conxian_nexus.Kwil.Requests.{KwilMmrNodeCommitment}

pub record MicroblockData : Type 0 where
  pub hash : Text
  pub height : ℕ
  pub parent_hash : Text
  pub tx_ids : List Text

-- The state tracker, the stored root, and the nodes handed to `persist_mmr_node`, in their order.
pub record Synced : Type 0 where
  pub state : NexusState
  pub state_root : Option Text
  pub committed : List KwilMmrNodeCommitment

-- The arguments are whether the connection opens and whether SET is answered.
unfoldable pub persist_root_to_redis : Bool → Bool → Text → Synced → Synced × Result (Unit {0}) Text
persist_root_to_redis connects answers root s =
    if connects && answers
    then (record s { state_root = some root }, ok tt)
    else (s, err (codes "redis"))

module _ (c : Crypto) where
  open c use {hex_encode}

  abbrev pub commitment : ℕ → ℕ × Bytes → KwilMmrNodeCommitment
  commitment height (pos, hash) = record {
    pos = pos;
    hash = hex_encode hash;
    block_height = height;
  }

  -- The part behind the root: the commitments, if Kwil is configured and there was no error.
  unfoldable pub commit_nodes :
      Bool
      → MicroblockData
      → List (ℕ × Bytes)
      → Synced × Result (Unit {0}) Text
      → Synced × Result (Unit {0}) Text
  commit_nodes kwil data_ nodes (s, err e) = (s, err e)
  commit_nodes kwil data_ nodes (s, ok done) =
      if kwil
      then (record s { committed = s.committed ++ map (commitment data_.height) nodes }, ok done)
      else (s, ok done)

  unfoldable pub process_microblock :
      Bool → Bool → Bool → MicroblockData → Synced → Option (Synced × Result (Unit {0}) Text)
  unfolding commit_nodes persist_root_to_redis
  process_microblock connects answers kwil data_ s = do
    (state, nodes) ← update_state_batch c s.state data_.tx_ids
    some (
        commit_nodes kwil data_ nodes
          (persist_root_to_redis connects answers state.state_root (record s { state = state })))
