-- ===== src/State/NodeLaws.antt =====
-- The invariant of `NexusState`, and what a client of its proofs may rely on.
use mathlib.Core.Path.{subst}
use mathlib.Core.Option.{some-injective}
use conxian_nexus.Prelude.{
  ℕ, zero, suc, ◌+◌, ◌^◌, ◌≤◌, ◌<◌, ◌≡◌, ◌≢◌, refl, sym, ap, ◌∙◌, inl, inr, Bool, true, false, none,
  some, List, [], ◌∷◌, ◌++◌, Text, text_eq, text_eq_iff, is_empty, get_elem?, init, length,
  position, position_sound, position_complete, map, get_elem?-map, All, arith, Option-cases,
  length-append,
}
use conxian_nexus.State.Crypto.{Bytes, Crypto}
use conxian_nexus.State.Tree.{
  MerkleProof, last_level, hex0x, leaf_hash, level_up, upper_levels, tree_levels_of, proof_path,
  fold_path, verify_merkle_proof,
}
use conxian_nexus.State.TreeLaws.{IsBytes, length-level_up, fold_path-proof_path}
use conxian_nexus.State.Mmr.{empty_mmr, zero_root}
use conxian_nexus.State.Counting.{Consecutive}
use conxian_nexus.State.MmrLaws.{
  Represents, empty-Represents, add_leaves-Represents, Represents-unique,
}
use conxian_nexus.State.Node.{
  NexusState, new_state, top_level, rebuild_tree, update_state_batch, set_initial_leaves,
  generate_merkle_proof,
}

module _ (c : Crypto) where
  open c use {sha256, sha256_bytes}

  leaf_hashes-IsBytes : (ls : List Text) → All (IsBytes c) (map (leaf_hash c) ls)
  leaf_hashes-IsBytes [] = tt
  leaf_hashes-IsBytes (l ∷ ls) = (sha256_bytes _, leaf_hashes-IsBytes ls)

  -- The loop of `rebuild_tree` ends with a level of one node.
  last_level-some :
      (fuel : ℕ) (l : List Bytes)
      → 0 < length l
      → length l ≤ fuel
      → (top : Bytes) × (last_level l (upper_levels c fuel l) ≡ top ∷ [])
  unfolding upper_levels
  last_level-some zero l h k = absurd (omega arith)
  last_level-some (suc fuel) [] h k = absurd (omega arith)
  last_level-some (suc fuel) (x ∷ []) h k = (x, refl)
  last_level-some (suc fuel) (x ∷ y ∷ l) h k =
      let (top, e) =
        last_level-some fuel (level_up c (x ∷ y ∷ l)) (omega (arith, length-level_up c (x ∷ y ∷ l)))
          (omega (arith, length-level_up c (x ∷ y ∷ l))) in
      (top, ground (arith, e))

  -- The root and the levels are those of the tree over the leaves.
  abbrev pub TreeOf : List Text → Text → List (List Bytes) → Type 0
  TreeOf [] root levels = (root ≡ zero_root) × (levels ≡ [])
  TreeOf (l ∷ ls) root levels =
      (top : Bytes) × (levels ≡ tree_levels_of c (l ∷ ls))
      × (top_level levels ≡ top ∷ [])
      × (root ≡ hex0x c top)

  TreeOf-unique :
      (ls : List Text) {r r' : Text} {levels levels' : List (List Bytes)}
      → TreeOf ls r levels
      → TreeOf ls r' levels'
      → (r ≡ r') × (levels ≡ levels')
  TreeOf-unique [] t t' = (cc, cc)
  TreeOf-unique (l ∷ ls) (top, e, single, root) (top', e', single', root') =
      let same : top ≡ top' =
        some-injective top top'
          (ap (λ x. get_elem? x 0) (sym single ∙ ap top_level (e ∙ sym e') ∙ single')) in
      (root ∙ ap (hex0x c) same ∙ sym root', e ∙ sym e')

  -- The state root and the tree are those of the leaves, and so is the mountain range.
  pub record IsSound (s : NexusState) : Type 0 where
    pub tree : TreeOf s.leaves s.state_root s.tree_levels
    pub mountains : Represents c s.mmr s.leaves

  pub new_state-IsSound : IsSound new_state
  new_state-IsSound = record { tree = (refl, refl); mountains = empty-Represents c }

  -- `rebuild_tree` never panics.
  rebuild_tree-TreeOf :
      (s : NexusState) (ls : List Text)
      → (root : Text) × (levels : List (List Bytes)) × (rebuild_tree c s ls
          ≡ some (record s { state_root = root; tree_levels = levels }))
        × TreeOf ls root levels
  unfolding rebuild_tree tree_levels_of
  rebuild_tree-TreeOf s [] = (zero_root, [], refl, (refl, refl))
  rebuild_tree-TreeOf s (l ∷ ls) =
      let hashes = map (leaf_hash c) (l ∷ ls) in
      let (top, e) = last_level-some (length hashes) hashes (omega arith) (omega arith) in
      (hex0x c top, tree_levels_of c (l ∷ ls), rw e refl, (top, refl, e, refl))

  -- On a sound state, and with at most 2^62 leaves in all, update_state_batch never panics and
  -- keeps the state sound: the root, the tree and the mountain range are those of the leaves,
  -- which are the old ones followed by the batch. The nodes that it returns have consecutive
  -- positions, from the old node count to the new one.
  pub update_state_batch-IsSound :
      (s : NexusState) (tx_ids : List Text)
      → IsSound s
      → length s.leaves + length tx_ids ≤ 2 ^ 62
      → (s' : NexusState) × (nodes : List (ℕ × Bytes)) × (update_state_batch c s tx_ids
          ≡ some (s', nodes))
        × IsSound s'
        × (s'.leaves ≡ s.leaves ++ tx_ids)
        × Consecutive s.mmr.node_count nodes
        × (s'.mmr.node_count ≡ s.mmr.node_count + length nodes)
  unfolding update_state_batch
  update_state_batch-IsSound s tx_ids v small =
      let leaves = s.leaves ++ tx_ids in
      let (root, levels, e, t) = rebuild_tree-TreeOf (record s { leaves = leaves }) leaves in
      let (m, nodes, added, r, placed, grown) =
        add_leaves-Represents c s.mmr s.leaves tx_ids v.mountains small in
      (
        record { state_root = root; leaves = leaves; tree_levels = levels; mmr = m },
        nodes,
        rw (e, added) refl,
        record { tree = t; mountains = r },
        refl,
        placed,
        grown,
      )

  -- With at most 2^62 leaves, set_initial_leaves does not panic, gives a sound state, and its
  -- leaves are those loaded, whatever the state was before.
  pub set_initial_leaves-IsSound :
      (s : NexusState) (leaves : List Text)
      → length leaves ≤ 2 ^ 62
      → (s' : NexusState) × (set_initial_leaves c s leaves ≡ some s')
        × IsSound s'
        × (s'.leaves ≡ leaves)
  unfolding set_initial_leaves
  set_initial_leaves-IsSound s leaves small =
      let (root, levels, e, t) = rebuild_tree-TreeOf (record s { leaves = leaves }) leaves in
      let (m, nodes, added, r, placed, grown) =
        add_leaves-Represents c empty_mmr [] leaves (empty-Represents c) (omega arith) in
      (
        record { state_root = root; leaves = leaves; tree_levels = levels; mmr = m },
        rw (e, added) refl,
        record { tree = t; mountains = r },
        refl,
      )

  -- A sound state is determined by its leaves.
  pub IsSound-unique : (s t : NexusState) → IsSound s → IsSound t → s.leaves ≡ t.leaves → s ≡ t
  IsSound-unique s t v w e =
      let (roots, levels) =
        TreeOf-unique t.leaves (subst (λ ls. TreeOf ls s.state_root s.tree_levels) e v.tree)
          w.tree in
      let mmrs : s.mmr ≡ t.mmr =
        Represents-unique c s.mmr t.mmr t.leaves (subst (λ ls. Represents c s.mmr ls) e v.mountains)
          w.mountains in
      λ i. record { state_root = roots i; leaves = e i; tree_levels = levels i; mmr = mmrs i }

  -- On a sound state, and with at most 2^62 leaves in all, update_state_batch succeeds and gives
  -- the very state that set_initial_leaves builds from scratch, starting at the new state, out of
  -- the old leaves followed by the batch.
  pub update_state_batch-eq-set_initial_leaves :
      (s : NexusState) (tx_ids : List Text)
      → IsSound s
      → length s.leaves + length tx_ids ≤ 2 ^ 62
      → (s' : NexusState) × (nodes : List (ℕ × Bytes)) × (update_state_batch c s tx_ids
          ≡ some (s', nodes))
        × (set_initial_leaves c new_state (s.leaves ++ tx_ids) ≡ some s')
  update_state_batch-eq-set_initial_leaves s tx_ids v small =
      let (s', nodes, e, v', leaves, _, _) = update_state_batch-IsSound s tx_ids v small in
      let (t, e', w, leaves') =
        set_initial_leaves-IsSound new_state (s.leaves ++ tx_ids)
          (omega (arith, length-append s.leaves tx_ids)) in
      (s', nodes, e, e' ∙ ap some (IsSound-unique t s' w v' (leaves' ∙ sym leaves)))

  key_index :
      (s : NexusState) (i : ℕ) (key : Text)
      → get_elem? s.leaves i ≡ some key
      → (j : ℕ) × (position (λ l. text_eq l key) s.leaves ≡ some j)
        × (get_elem? s.leaves j ≡ some key)
  key_index s i key e =
      let (j, found) = position_complete _ s.leaves i key e ((text_eq_iff key key).1 refl) in
      let (x, at_j, hit) = position_sound (λ l. text_eq l key) s.leaves j found in
      (j, found, rw ((text_eq_iff x key).0 hit) at at_j)

  -- The path of a leaf leads to the root.
  proof_path-TreeOf :
      (ls : List Text) (root : Text) (levels : List (List Bytes)) (j : ℕ) (key : Text)
      → TreeOf ls root levels
      → get_elem? ls j ≡ some key
      → (path : List (Text × Bool)) × (top : Bytes) × (is_empty levels ≡ false)
        × (proof_path c (init levels) j ≡ some path)
        × (fold_path c (leaf_hash c key) path ≡ some top)
        × (hex0x c top ≡ root)
  unfolding tree_levels_of
  proof_path-TreeOf [] root levels j key t e = cc
  proof_path-TreeOf (l ∷ ls) root levels j key (top, shape, single, r) e =
      let hashes = map (leaf_hash c) (l ∷ ls) in
      let (path, built, folded) =
        fold_path-proof_path c (length hashes) hashes j (leaf_hash c key) (omega arith)
          (leaf_hashes-IsBytes (l ∷ ls)) (get_elem?-map (leaf_hash c) (l ∷ ls) j e) in
      let top_is : top_level levels ≡ last_level hashes (upper_levels c (length hashes) hashes) =
        ap top_level shape in
      (
        path,
        top,
        rw shape refl,
        rw shape built,
        folded ∙ ap (λ x. get_elem? x 0) (sym top_is ∙ single),
        sym r,
      )

  -- In a sound state, generate_merkle_proof returns a proof for every transaction among the
  -- leaves: it names that transaction and the current state root, and verify_merkle_proof accepts
  -- it.
  pub verify_merkle_proof-generate :
      (s : NexusState) (i : ℕ) (key : Text)
      → IsSound s
      → get_elem? s.leaves i ≡ some key
      → (proof : MerkleProof) × (generate_merkle_proof c s key ≡ some (some proof))
        × (proof.leaf ≡ key)
        × (proof.root ≡ s.state_root)
        × (verify_merkle_proof c proof ≡ true)
  unfolding generate_merkle_proof verify_merkle_proof
  verify_merkle_proof-generate s i key v e =
      let (j, found, at_j) = key_index s i key e in
      let (path, top, filled, built, folded, root) =
        proof_path-TreeOf s.leaves s.state_root s.tree_levels j key v.tree at_j in
      (
        record { leaf = key; path = path; root = s.state_root },
        rw (found, filled, built, generate_merkle_proof) refl,
        refl,
        refl,
        rw (folded, verify_merkle_proof) ((text_eq_iff (hex0x c top) s.state_root).1 root),
      )

  -- For a text that is not among the leaves, generate_merkle_proof returns that there is no proof,
  -- and does not panic.
  pub generate_merkle_proof-absent :
      (s : NexusState) (key : Text)
      → ((i : ℕ) → get_elem? s.leaves i ≢ some key)
      → generate_merkle_proof c s key ≡ some none
  unfolding generate_merkle_proof
  generate_merkle_proof-absent s key absent =
      elim (Option-cases (position (λ l. text_eq l key) s.leaves)) [
        | inl e ↦ rw (e, generate_merkle_proof) refl
        | inr (j, found) ↦
            let (x, at_j, hit) = position_sound (λ l. text_eq l key) s.leaves j found in
            absurd (absent j (rw ((text_eq_iff x key).0 hit) at at_j))
      ]
