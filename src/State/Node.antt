-- ===== src/State/Node.antt =====
-- `NexusState` of src/state/mod.rs. The locks are taken in one order by every method, so each
-- method is one step; the result `none` is a panic.
use mathlib.Core.List.{reverse}
use conxian_nexus.Prelude.{
  ℕ, zero, suc, ◌+◌, ◌/◌, ◌%◌, true, false, Option, none, some, List, [], ◌∷◌, ◌++◌, Text, codes,
  text_eq, is_empty, get_elem?, init, length, position, sub64, mul64, checked_add, checked_sub,
  checked_shl_one, count_ones, leb, ltb, ◌==◌, if◌then◌else◌, ◌>>=◌, map,
}
use conxian_nexus.State.Crypto.{Bytes, Crypto}
use conxian_nexus.State.Tree.{MerkleProof, last_level, hex0x, tree_levels_of, proof_path}
use conxian_nexus.State.Mmr.{MmrFoundation, empty_mmr, zero_root, add_leaves, get_root}

pub record NexusState : Type 0 where
  pub state_root : Text
  pub leaves : List Text
  pub tree_levels : List (List Bytes)
  pub mmr : MmrFoundation

-- `MMRProof`
pub record MmrProof : Type 0 where
  pub leaf : Text
  pub pos : ℕ
  pub siblings : List (ℕ × Text)
  pub peaks : List Text
  pub root : Text

-- `NexusState::new`
abbrev pub new_state : NexusState
new_state = record { state_root = zero_root; leaves = []; tree_levels = []; mmr = empty_mmr }

-- The level that the loop of `rebuild_tree` ends with.
abbrev pub top_level : List (List Bytes) → List Bytes
top_level [] = []
top_level (first ∷ rest) = last_level first rest

-- `get_leaf_index`
unfoldable pub get_leaf_index : NexusState → Text → Option ℕ
get_leaf_index s tx_id = position (λ l. text_eq l tx_id) s.leaves

unfoldable pub get_leaf_by_index : NexusState → ℕ → Option Text
get_leaf_by_index s index = get_elem? s.leaves index

-- `set_mmr_state`: the node count stays as it is.
unfoldable pub set_mmr_state : NexusState → List Bytes → ℕ → NexusState
set_mmr_state s peaks size = record s { mmr = record mmr { peaks = peaks; size = size } }
  where
    open s use {mmr}

-- The loop of `get_mmr_proof_metadata`. Its last argument but one halves, so 64 rounds end it.
unfoldable pub sibling_loop : ℕ → ℕ → ℕ → ℕ → ℕ → ℕ → Option (List ℕ)
sibling_loop zero curr_pos height leaves_before remaining node_count = some []
sibling_loop (suc fuel) curr_pos height leaves_before remaining node_count = elim (remaining == 0) [
  | true ↦ some []
  | false ↦ do
    pow ← checked_shl_one height
    below ← checked_sub pow 1
    offset ← checked_add below pow
    elim (leaves_before % 2 == 1) [
      | true ↦ do
        sibling ← checked_sub curr_pos offset
        next ← checked_add curr_pos 1
        rest ← sibling_loop fuel next (height + 1) (leaves_before / 2) (remaining / 2) node_count
        some (sibling ∷ rest)
      | false ↦ do
        sibling ← checked_add curr_pos offset
        elim (ltb sibling node_count) [
          | true ↦ do
            next ← checked_add sibling 1
            rest ←
                sibling_loop fuel next (height + 1) (leaves_before / 2) (remaining / 2) node_count
            some (sibling ∷ rest)
          | false ↦ some []
        ]
    ]
]

unfoldable pub get_mmr_proof_metadata : NexusState → ℕ → Option (ℕ × List ℕ)
unfolding sibling_loop
get_mmr_proof_metadata s leaf_index =
    let pos = sub64 (mul64 2 leaf_index) (count_ones leaf_index) in
    let siblings = sibling_loop 64 pos 0 leaf_index (length s.leaves) s.mmr.node_count in
    if leb (length s.leaves) leaf_index
    then none
    else if leb s.mmr.node_count pos
    then none
    else siblings >>= λ found. some (pos, found)

module _ (c : Crypto) where
  unfoldable pub rebuild_tree : NexusState → List Text → Option NexusState
  rebuild_tree s [] = some (record s { state_root = zero_root; tree_levels = [] })
  rebuild_tree s (l ∷ ls) = do
    let levels = tree_levels_of c (l ∷ ls)
    top ← get_elem? (top_level levels) 0
    some (record s { state_root = hex0x c top; tree_levels = levels })

  unfoldable pub update_state_batch :
      NexusState → List Text → Option (NexusState × List (ℕ × Bytes))
  unfolding rebuild_tree
  update_state_batch s tx_ids = do
    let leaves = s.leaves ++ tx_ids
    s' ← rebuild_tree (record s { leaves = leaves }) leaves
    (mmr, nodes) ← add_leaves c s'.mmr tx_ids
    some (record s' { mmr = mmr }, nodes)

  -- The height is not used.
  unfoldable pub update_state : NexusState → Text → ℕ → Option NexusState
  unfolding update_state_batch
  update_state s tx_id height = do (s', nodes) ← update_state_batch s (tx_id ∷ []); some s'

  unfoldable pub set_initial_leaves : NexusState → List Text → Option NexusState
  unfolding rebuild_tree
  set_initial_leaves s leaves = do
    s' ← rebuild_tree (record s { leaves = leaves }) leaves
    (mmr, nodes) ← add_leaves c empty_mmr leaves
    some (record s' { mmr = mmr })

  unfoldable pub generate_merkle_proof : NexusState → Text → Option (Option MerkleProof)
  generate_merkle_proof s key = elim (position (λ l. text_eq l key) s.leaves) [
    | none ↦ some none
    | some index ↦ if is_empty s.tree_levels then some none else (do
      path ← proof_path c (init s.tree_levels) index
      some (some (record { leaf = key; path = path; root = s.state_root })))
  ]

  -- The proof as JSON, by `serde_json::to_string`, with the root that it is for.
  unfoldable pub generate_proof : (MerkleProof → Text) → NexusState → Text → Option (Text × Text)
  unfolding generate_merkle_proof
  generate_proof to_json s key = do
    found ← generate_merkle_proof s key
    elim found [
      | some proof ↦ some (proof.root, to_json proof)
      | none ↦ some (s.state_root, codes "{}")
    ]

  unfoldable pub assemble_mmr_proof : NexusState → Text → ℕ → List (ℕ × Text) → MmrProof
  assemble_mmr_proof s leaf pos siblings = record {
    leaf = leaf;
    pos = pos;
    siblings = siblings;
    peaks = reverse (map (hex0x c) s.mmr.peaks);
    root = get_root c s.mmr;
  }
