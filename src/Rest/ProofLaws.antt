-- ===== src/Rest/ProofLaws.antt =====
-- What the proofs of src/api/rest.rs hold.
use conxian_nexus.Prelude.{
  ℕ, ◌<◌, ◌≡◌, ◌⊎◌, ◌∙◌, refl, sym, ap, inl, inr, true, false, none, some, List, [], Text,
  get_elem?, length, text_eq, text_eq_iff, position_sound, mul64, sub64, count_ones, leb, arith,
  Option-cases, Bool-cases,
}
use mathlib.Core.Path.{subst}
use mathlib.Core.Option.{some-injective}
use conxian_nexus.Prelude.Result.{ok, ok_or, >>=-eq-ok, ok_inj, ok_or-some}
use conxian_nexus.State.Crypto.{Crypto}
use conxian_nexus.State.Mmr.{get_root}
use conxian_nexus.State.Node.{
  NexusState, MmrProof, get_leaf_index, get_leaf_by_index, get_mmr_proof_metadata,
  assemble_mmr_proof, sibling_loop,
}
use conxian_nexus.State.Positions.{get_mmr_node_pos}
use conxian_nexus.Rest.Proofs.{MmrProofParams, is_tx_id, leaf_index, get_mmr_proof}

-- The leaf that the parameters ask for: the one at the index, or without an index the first one
-- that is the transaction.
abbrev pub IsAsked : NexusState → MmrProofParams → ℕ → Text → Type 0
IsAsked s params idx leaf =
    (get_elem? s.leaves idx ≡ some leaf)
    × ((params.index ≡ some idx)
        ⊎ ((params.index ≡ none)
            × (params.tx_id ≡ some leaf)
            × (is_tx_id leaf ≡ true)
            × (get_leaf_index s leaf ≡ some idx)))

leaf_index-IsAsked :
    (s : NexusState) (params : MmrProofParams) (idx : ℕ) (leaf : Text)
    → leaf_index s params ≡ ok (some idx)
    → get_elem? s.leaves idx ≡ some leaf
    → IsAsked s params idx leaf
unfolding leaf_index get_leaf_index
leaf_index-IsAsked s params idx leaf e at_idx = elim (Option-cases params.index) [
  | inr (i, asked) ↦ (at_idx, inl (asked ∙ ok_inj (rw (leaf_index, asked) at e)))
  | inl missing ↦ elim (Option-cases params.tx_id) [
    | inl nothing ↦ absurd (cc (ok_inj (rw (leaf_index, missing, nothing) at e)))
    | inr (tx_id, given) ↦ (at_idx, inr (found tx_id missing given))
  ]
]
  where
    found :
        (tx_id : Text)
        → params.index ≡ none
        → params.tx_id ≡ some tx_id
        → (params.index ≡ none)
          × (params.tx_id ≡ some leaf)
          × (is_tx_id leaf ≡ true)
          × (get_leaf_index s leaf ≡ some idx)
    found tx_id missing given = elim (Bool-cases (is_tx_id tx_id)) [
      | inr bad ↦ absurd (cc (rw (leaf_index, missing, given, bad) at e))
      | inl good ↦
          let at_tx : get_leaf_index s tx_id ≡ some idx =
            ok_inj (rw (leaf_index, missing, given, good) at e) in
          let (x, here, hit) = position_sound (λ l. text_eq l tx_id) s.leaves idx at_tx in
          let same : tx_id ≡ leaf =
            sym ((text_eq_iff x tx_id).0 hit) ∙ some-injective x leaf (sym here ∙ at_idx) in
          (missing, given ∙ ap some same, rw (sym same) good, rw (sym same) at_tx)
    ]

not_past : (n p : ℕ) → leb n p ≡ false → p < n
not_past n p e = ground arith

-- The computed position is that of the leaf among the nodes, and it is one of them.
get_mmr_proof_metadata-placed :
    (s : NexusState) (idx pos : ℕ) (siblings : List ℕ)
    → get_mmr_proof_metadata s idx ≡ some (pos, siblings)
    → (pos ≡ get_mmr_node_pos idx) × (pos < s.mmr.node_count)
unfolding get_mmr_proof_metadata get_mmr_node_pos
get_mmr_proof_metadata-placed s idx pos siblings e =
    let p = sub64 (mul64 2 idx) (count_ones idx) in
    let same : p ≡ sub64 (mul64 idx 2) (count_ones idx) =
      ap (λ k. sub64 k (count_ones idx)) (omega arith) in
    elim (Bool-cases (leb (length s.leaves) idx)) [
      | inl past ↦ absurd (cc (rw (get_mmr_proof_metadata, past) at e))
      | inr below ↦ elim (Bool-cases (leb s.mmr.node_count p)) [
        | inl past ↦ absurd (cc (rw (get_mmr_proof_metadata, below, past) at e))
        | inr held ↦
            elim (Option-cases (sibling_loop 64 p 0 idx (length s.leaves) s.mmr.node_count)) [
              | inl none_found ↦
                  absurd (cc (rw (get_mmr_proof_metadata, below, held, none_found) at e))
              | inr (found, looped) ↦
                  let at_p : (p, found) ≡ (pos, siblings) =
                    some-injective (p, found) (pos, siblings)
                      (rw (get_mmr_proof_metadata, below, held, looped) at e) in
                  let here : p ≡ pos = ap (λ t. t.0) at_p in
                  (
                    sym here ∙ same,
                    subst (λ q. q < s.mmr.node_count) here (not_past s.mmr.node_count p held),
                  )
            ]
      ]
    ]

-- What is known of a proof that was answered.
pub record IsServed (c : Crypto) (s : NexusState) (params : MmrProofParams) (proof : MmrProof)
    : Type 0 where
  pub idx : ℕ
  pub asked : IsAsked s params idx proof.leaf
  pub placed : proof.pos ≡ get_mmr_node_pos idx
  pub present : proof.pos < s.mmr.node_count
  pub rooted : proof.root ≡ get_root c s.mmr
  pub dropped : proof.siblings ≡ []

-- When get_mmr_proof answers with a proof, it is for the leaf of the state at the index asked for,
-- or, without an index, for the transaction asked for, a well-formed one, at its first index; its
-- position is the one that get_mmr_node_pos gives for that index and is below the node count, its
-- root is that of the mountain range, and its list of siblings is empty.
pub get_mmr_proof-IsServed :
    (c : Crypto) (s : NexusState) (params : MmrProofParams) (proof : MmrProof)
    → get_mmr_proof c s params ≡ ok proof
    → IsServed c s params proof
unfolding get_mmr_proof get_leaf_by_index assemble_mmr_proof
get_mmr_proof-IsServed c s params proof h =
    let (asked, e1, h1) = >>=-eq-ok (leaf_index s params) _ h in
    let (idx, e2, h2) = >>=-eq-ok (ok_or asked _) _ h1 in
    let (leaf, e3, h3) = >>=-eq-ok (ok_or (get_leaf_by_index s idx) _) _ h2 in
    let ((pos, siblings), e4, h4) = >>=-eq-ok (ok_or (get_mmr_proof_metadata s idx) _) _ h3 in
    let (placed, present) = get_mmr_proof_metadata-placed s idx pos siblings (ok_or-some _ _ e4) in
    subst (IsServed c s params) (ok_inj h4) (record {
      idx = idx;
      asked =
          leaf_index-IsAsked s params idx leaf (e1 ∙ ap ok (ok_or-some _ _ e2)) (ok_or-some _ _ e3);
      placed = placed;
      present = present;
      rooted = refl;
      dropped = refl;
    })
