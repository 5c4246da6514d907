-- ===== src/State/Mmr.antt =====
-- `MMRFoundation` of src/state/mod.rs, the Merkle mountain range. The head of the list `peaks` is
-- the back of the vector; popping an empty one panics, and the result is `none`.
use mathlib.Core.List.{reverse}
use conxian_nexus.Prelude.{
  ℕ, ◌/◌, ◌%◌, Option, none, some, List, [], ◌∷◌, ◌++◌, Text, codes, add64, ◌==◌, if◌then◌else◌,
  ◌>>=◌,
}
use conxian_nexus.State.Crypto.{Bytes, Crypto}
use conxian_nexus.State.Tree.{hex0x, leaf_hash}

pub record MmrFoundation : Type 0 where
  pub peaks : List Bytes
  pub size : ℕ
  pub node_count : ℕ

-- `MMRFoundation::new`
abbrev pub empty_mmr : MmrFoundation
empty_mmr = record { peaks = []; size = 0; node_count = 0 }

-- The root of no leaves: "0x" and 64 zeros.
abbrev pub zero_root : Text
zero_root = codes "0x0000000000000000000000000000000000000000000000000000000000000000"

module _ (c : Crypto) where
  open c use {sha256}

  -- `while pos & 1 == 1` and the push behind it: the peaks, the node count and the nodes added.
  unfoldable pub merge_peaks :
      ℕ → List Bytes → Bytes → ℕ → Option (List Bytes × ℕ × List (ℕ × Bytes))
  merge_peaks pos [] current count = if pos % 2 == 1 then none else some (current ∷ [], count, [])
  merge_peaks pos (peak ∷ peaks) current count =
      let parent = sha256 (peak ++ current) in
      let merged = (do
        (peaks', count', added) ← merge_peaks (pos / 2) peaks parent (add64 count 1)
        some (peaks', count', (count, parent) ∷ added)) in
      if pos % 2 == 1 then merged else some (current ∷ peak ∷ peaks, count, [])

  unfoldable pub add_leaf : MmrFoundation → Text → Option (MmrFoundation × List (ℕ × Bytes))
  add_leaf m leaf = do
    (peaks, count, added) ← merge_peaks m.size m.peaks (leaf_hash c leaf) (add64 m.node_count 1)
    some (
      record { peaks = peaks; size = add64 m.size 1; node_count = count },
      (m.node_count, leaf_hash c leaf) ∷ added,
    )

  -- The calls of `add_leaf` for a batch, with all the nodes that they add.
  unfoldable pub add_leaves : MmrFoundation → List Text → Option (MmrFoundation × List (ℕ × Bytes))
  add_leaves m [] = some (m, [])
  add_leaves m (leaf ∷ leaves) = do
    (m', nodes) ← add_leaf m leaf
    (m'', more) ← add_leaves m' leaves
    some (m'', nodes ++ more)

  -- The loop of `get_root`, over the peaks from left to right.
  unfoldable pub bag_peaks : Bytes → List Bytes → Bytes
  bag_peaks root [] = root
  bag_peaks root (peak ∷ peaks) = bag_peaks (sha256 (peak ++ root)) peaks

  unfoldable pub get_root : MmrFoundation → Text
  unfolding bag_peaks
  get_root m = elim (reverse m.peaks) [
    | [] ↦ zero_root
    | first ∷ peaks ↦ hex0x c (bag_peaks first peaks)
  ]
