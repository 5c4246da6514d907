-- ===== src/Tests/StateTests.antt =====
-- The theorems about src/state/mod.rs, on three transactions.
use conxian_nexus.Prelude.{
  ◌^◌, ◌≤◌, suc, ℕ, ◌+◌, ◌≡◌, ◌≢◌, refl, sym, ap, ◌∙◌, text_eq, All-get_elem?, true, false, some,
  List, [], ◌∷◌, ◌++◌, Text, codes, ◌<◌, count_ones, ones, arith, get_elem?, length,
}
use conxian_nexus.State.Crypto.{Bytes}
use conxian_nexus.State.Tree.{MerkleProof, verify_merkle_proof}
use conxian_nexus.State.Mmr.{MmrFoundation, empty_mmr, add_leaves}
use conxian_nexus.State.Counting.{Consecutive}
use conxian_nexus.State.MmrLaws.{Represents, empty-Represents, add_leaves-Represents}
use conxian_nexus.State.Node.{
  NexusState, new_state, update_state_batch, set_initial_leaves, generate_merkle_proof,
}
use conxian_nexus.State.NodeLaws.{
  IsSound, new_state-IsSound, update_state_batch-IsSound, set_initial_leaves-IsSound,
  update_state_batch-eq-set_initial_leaves, verify_merkle_proof-generate,
}
use mathlib.Core.List.{reverse}
use conxian_nexus.State.Tree.{leaf_hash}
use conxian_nexus.State.Mmr.{add_leaf}
use conxian_nexus.State.Positions.{
  get_mmr_node_pos, get_mmr_node_height, height_loop, get_mmr_peaks, peaks_loop, leading_zeros,
  target_peak, descend, descend_from, get_mmr_path,
}
use conxian_nexus.State.PositionLaws.{get_mmr_node_height_total}
use conxian_nexus.State.Peaks.{InRange, get_mmr_path-InRange, add_leaf-get_mmr_node_pos}
use conxian_nexus.Tests.Stubs.{toy_crypto}

abbrev txs : List Text
txs = codes "tx1" ∷ codes "tx2" ∷ codes "tx3" ∷ []

-- The state after the three transactions, and what is known of it.
loaded :
    (s : NexusState) × (set_initial_leaves toy_crypto new_state txs ≡ some s)
    × IsSound toy_crypto s
    × (s.leaves ≡ txs)
loaded = set_initial_leaves-IsSound toy_crypto new_state txs (omega arith)

add_leaves-Represents_example :
    (m' : MmrFoundation) × (nodes : List (ℕ × Bytes)) × (add_leaves toy_crypto empty_mmr txs
      ≡ some (m', nodes))
    × Represents toy_crypto m' ([] ++ txs)
    × Consecutive empty_mmr.node_count nodes
    × (m'.node_count ≡ empty_mmr.node_count + length nodes)
add_leaves-Represents_example =
    add_leaves-Represents toy_crypto empty_mmr [] txs (empty-Represents toy_crypto) (omega arith)

ranged :
    (m' : MmrFoundation) × (nodes : List (ℕ × Bytes)) × (add_leaves toy_crypto empty_mmr txs
      ≡ some (m', nodes))
    × Represents toy_crypto m' ([] ++ txs)
    × Consecutive empty_mmr.node_count nodes
    × (m'.node_count ≡ empty_mmr.node_count + length nodes)
ranged =
    add_leaves-Represents toy_crypto empty_mmr [] txs (empty-Represents toy_crypto) (omega arith)

update_state_batch-IsSound_example :
    (s' : NexusState) × (nodes : List (ℕ × Bytes)) × (update_state_batch toy_crypto new_state txs
      ≡ some (s', nodes))
    × IsSound toy_crypto s'
    × (s'.leaves ≡ txs)
    × Consecutive 0 nodes
    × (s'.mmr.node_count ≡ 0 + length nodes)
update_state_batch-IsSound_example =
    update_state_batch-IsSound toy_crypto new_state txs (new_state-IsSound toy_crypto) (omega arith)

update_state_batch-eq-set_initial_leaves_example :
    (s' : NexusState) × (nodes : List (ℕ × Bytes)) × (update_state_batch toy_crypto new_state txs
      ≡ some (s', nodes))
    × (set_initial_leaves toy_crypto new_state ([] ++ txs) ≡ some s')
update_state_batch-eq-set_initial_leaves_example =
    update_state_batch-eq-set_initial_leaves toy_crypto new_state txs (new_state-IsSound toy_crypto)
      (omega arith)

verify_merkle_proof-generate_example :
    (proof : MerkleProof) × (generate_merkle_proof toy_crypto loaded.0 (codes "tx2")
      ≡ some (some proof))
    × (proof.leaf ≡ codes "tx2")
    × (proof.root ≡ loaded.0.state_root)
    × (verify_merkle_proof toy_crypto proof ≡ true)
verify_merkle_proof-generate_example =
    verify_merkle_proof-generate toy_crypto loaded.0 1 (codes "tx2") loaded.2
      (ap (λ ls. get_elem? ls 1) loaded.3)

no_tx9 : (i : ℕ) → get_elem? loaded.0.leaves i ≢ some (codes "tx9")
no_tx9 i h = other (
    All-get_elem? (λ l. text_eq l (codes "tx9") ≡ false) txs i (refl, (refl, (refl, tt)))
      (ap (λ ls. get_elem? ls i) (sym loaded.3) ∙ h))
  where
    other : text_eq (codes "tx9") (codes "tx9") ≡ false → ⊥
    other e = cc

-- Seven leaves: a tree of four, one of two, and one of one.
peaks_of_seven : get_mmr_peaks 7 ≡ some (6 ∷ 9 ∷ 10 ∷ [])
unfolding get_mmr_peaks peaks_loop leading_zeros
peaks_of_seven = refl

path_to_leaf_two : get_mmr_path 3 7 ≡ some (4 ∷ 2 ∷ [])
unfolding get_mmr_path get_mmr_peaks peaks_loop leading_zeros target_peak descend_from descend
    get_mmr_node_height height_loop
path_to_leaf_two = refl

-- Position three is a leaf.
height_of_a_leaf : (get_mmr_node_pos 2 ≡ 3) × (get_mmr_node_height 3 ≡ some 1)
unfolding get_mmr_node_pos count_ones ones get_mmr_node_height height_loop
height_of_a_leaf = (refl, refl)

get_mmr_path-InRange_example :
    (path : List ℕ) × (get_mmr_path 3 7 ≡ some (reverse path)) × InRange 7 0 3 path
get_mmr_path-InRange_example = get_mmr_path-InRange 3 7 (omega arith)

get_mmr_node_height_total_example :
    (h : ℕ) × (get_mmr_node_height 3 ≡ some h)
    × (2 ^ suc h ≤ 3 + h + 2)
    × (3 + h + 3 < 2 ^ suc (suc h))
get_mmr_node_height_total_example = get_mmr_node_height_total 3 (omega arith)

add_leaf-get_mmr_node_pos_example :
    (m' : MmrFoundation) × (added : List (ℕ × Bytes)) × (add_leaf toy_crypto ranged.0 (codes "tx4")
      ≡ some (m', (get_mmr_node_pos 3, leaf_hash toy_crypto (codes "tx4")) ∷ added))
add_leaf-get_mmr_node_pos_example =
    add_leaf-get_mmr_node_pos toy_crypto ranged.0 txs (codes "tx4") ranged.3 (omega arith)
