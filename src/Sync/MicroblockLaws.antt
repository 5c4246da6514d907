-- ===== src/Sync/MicroblockLaws.antt =====
-- What a microblock leaves behind in src/sync/mod.rs.
use conxian_nexus.Prelude.{
  ℕ, ◌+◌, ◌^◌, ◌≤◌, ◌≡◌, refl, ap, ◌∙◌, Bool, true, false, some, List, ◌++◌, codes, map, length,
  length-append, if◌then◌else◌, arith,
}
use conxian_nexus.Prelude.Result.{ok, err}
use conxian_nexus.State.Crypto.{Bytes, Crypto}
use conxian_nexus.State.Counting.{Consecutive}
use conxian_nexus.State.Node.{update_state_batch}
use conxian_nexus.State.NodeLaws.{IsSound, update_state_batch-IsSound}
use conxian_nexus.Sync.Microblock.{
  MicroblockData, Synced, persist_root_to_redis, commitment, commit_nodes, process_microblock,
}

-- The state tracker is sound, and the stored root is its root.
pub record IsSynced (c : Crypto) (s : Synced) : Type 0 where
  pub sound : IsSound c s.state
  pub rooted : s.state_root ≡ some s.state.state_root

-- The nodes are handed on exactly if Kwil is configured.
commit_nodes-ok :
    (c : Crypto) (kwil : Bool) (block : MicroblockData) (nodes : List (ℕ × Bytes)) (s : Synced)
    → commit_nodes c kwil block nodes (s, ok tt) ≡ (
      record s {
        committed =
            if kwil then s.committed ++ map (commitment c block.height) nodes else s.committed;
      },
      ok tt,
    )
unfolding commit_nodes
commit_nodes-ok c true block nodes s = refl
commit_nodes-ok c false block nodes s = refl

-- On a sound state, with Redis up and at most 2^62 leaves in all, process_microblock succeeds: its
-- transactions are the last leaves, the state is sound, the stored root is its root, and what is
-- handed to Kwil, if it is configured, are, in their order and with the height of the block, all
-- the nodes that update_state_batch added, at consecutive positions from the old node count to the
-- new one.
pub process_microblock-IsSynced :
    (c : Crypto) (kwil : Bool) (block : MicroblockData) (s : Synced)
    → IsSound c s.state
    → length s.state.leaves + length block.tx_ids ≤ 2 ^ 62
    → (s' : Synced) × (nodes : List (ℕ × Bytes)) × (process_microblock c true true kwil block s
        ≡ some (s', ok tt))
      × IsSynced c s'
      × (s'.state.leaves ≡ s.state.leaves ++ block.tx_ids)
      × (update_state_batch c s.state block.tx_ids ≡ some (s'.state, nodes))
      × (s'.state.mmr.node_count ≡ s.state.mmr.node_count + length nodes)
      × Consecutive s.state.mmr.node_count nodes
      × (s'.committed
          ≡ (if kwil then s.committed ++ map (commitment c block.height) nodes else s.committed))
unfolding process_microblock persist_root_to_redis
process_microblock-IsSynced c kwil block s sound small =
    let (state, nodes, e, sound', leaves, placed, grown) =
      update_state_batch-IsSound c s.state block.tx_ids sound small in
    (
      _,
      nodes,
      rw (process_microblock, e) (ap some (commit_nodes-ok c kwil block nodes _)),
      record { sound = sound'; rooted = refl },
      leaves,
      e,
      grown,
      placed,
      refl,
    )

-- On a sound state and with at most 2^62 leaves in all, process_microblock without Redis ends in
-- an error, leaves the stored root and what went to Kwil as they were, and has added the
-- transactions as leaves; a second call for the same block with Redis up succeeds and adds them
-- once more.
pub process_microblock-again :
    (c : Crypto) (kwil : Bool) (block : MicroblockData) (s : Synced)
    → IsSound c s.state
    → length s.state.leaves + length block.tx_ids + length block.tx_ids ≤ 2 ^ 62
    → (failed : Synced) × (retried : Synced) × (process_microblock c false false kwil block s
        ≡ some (failed, err (codes "redis")))
      × (failed.state_root ≡ s.state_root)
      × (failed.committed ≡ s.committed)
      × (process_microblock c true true kwil block failed ≡ some (retried, ok tt))
      × (retried.state.leaves ≡ (s.state.leaves ++ block.tx_ids) ++ block.tx_ids)
unfolding process_microblock commit_nodes persist_root_to_redis
process_microblock-again c kwil block s sound small =
    let (state, nodes, e, sound', leaves, _, _) =
      update_state_batch-IsSound c s.state block.tx_ids sound (omega arith) in
    let failed = record s { state = state } in
    let (retried, _, again, _, leaves', _, _, _, _) =
      process_microblock-IsSynced c kwil block failed sound'
        (omega (arith, ap length leaves, length-append s.state.leaves block.tx_ids)) in
    (
      failed,
      retried,
      rw (process_microblock, e) refl,
      refl,
      refl,
      again,
      leaves' ∙ ap (λ ls. ls ++ block.tx_ids) leaves,
    )
