-- ===== src/State/Positions.antt =====
-- The free helpers on positions in src/state/mod.rs. A shift counts its distance modulo 64, and the
-- other operators wrap, as in a release build. The loops run on fuel.
use mathlib.Core.List.{reverse}
use conxian_nexus.Prelude.{
  ℕ, zero, suc, ◌+◌, ◌^◌, ◌%◌, Option, none, some, List, [], ◌∷◌, count_ones, add64, sub64, mul64,
  ltb, leb, ◌==◌, if◌then◌else◌, ◌>>=◌,
}

-- `1u64 << k`
abbrev pub shl_one : ℕ → ℕ
shl_one k = 2 ^ (k % 64)

-- The zero bits above the highest set bit among the `w` low ones.
unfoldable pub leading_zeros : ℕ → ℕ → ℕ
leading_zeros zero n = 0
leading_zeros (suc w) n = let rest = leading_zeros w n in if ltb n (2 ^ w) then suc rest else 0

unfoldable pub get_mmr_node_pos : ℕ → ℕ
get_mmr_node_pos leaf_index = sub64 (mul64 leaf_index 2) (count_ones leaf_index)

-- The loop at `p` and `h`.
unfoldable pub height_loop : ℕ → ℕ → ℕ → Option ℕ
height_loop zero p h = none
height_loop (suc fuel) p h =
    let full_tree_size = sub64 (shl_one (h + 1)) 1 in
    let rest = height_loop fuel (sub64 p full_tree_size) (h + 1) in
    if ltb p full_tree_size then some h else rest

unfoldable pub get_mmr_node_height : ℕ → Option ℕ
unfolding height_loop
get_mmr_node_height pos = height_loop 64 pos 0

abbrev pub prepend : ℕ → Option (List ℕ) → Option (List ℕ)
prepend x none = none
prepend x (some xs) = some (x ∷ xs)

unfoldable pub peaks_loop : ℕ → ℕ → ℕ → Option (List ℕ)
peaks_loop zero leaf_count offset = if leaf_count == 0 then some [] else none
peaks_loop (suc fuel) leaf_count offset =
    let h = sub64 63 (leading_zeros 64 leaf_count) in
    let full_tree_size = sub64 (shl_one (h + 1)) 1 in
    let rest = peaks_loop fuel (sub64 leaf_count (shl_one h)) (add64 offset full_tree_size) in
    if leaf_count == 0 then some [] else prepend (sub64 (add64 offset full_tree_size) 1) rest

unfoldable pub get_mmr_peaks : ℕ → Option (List ℕ)
unfolding peaks_loop
get_mmr_peaks leaf_count = peaks_loop 64 leaf_count 0

-- The first peak that is not before the position, with the start of its tree.
unfoldable pub target_peak : ℕ → ℕ → List ℕ → Option (ℕ × ℕ)
target_peak pos peak_start [] = none
target_peak pos peak_start (peak_pos ∷ peaks) =
    let rest = target_peak pos (add64 peak_pos 1) peaks in
    if leb pos peak_pos then some (peak_pos, peak_start) else rest

-- The loop from the peak `p` down to `pos`: what is pushed on `path`, the first one in front.
unfoldable pub descend : ℕ → ℕ → ℕ → ℕ → Option (List ℕ)
descend zero pos p subtree_start = if ltb pos p then none else some []
descend (suc fuel) pos p subtree_start =
    let right_child = sub64 p 1 in
    let down = (do
      h ← get_mmr_node_height (sub64 p subtree_start)
      let left_child = sub64 p (shl_one h)
      let left = descend fuel pos left_child subtree_start
      let right = descend fuel pos right_child (add64 left_child 1)
      if leb pos left_child then prepend right_child left else prepend left_child right) in
    if ltb pos p then down else some []

-- Without such a peak the path is empty.
unfoldable pub descend_from : ℕ → Option (ℕ × ℕ) → Option (List ℕ)
descend_from pos none = some []
descend_from pos (some (p, subtree_start)) = descend 64 pos p subtree_start

unfoldable pub get_mmr_path : ℕ → ℕ → Option (List ℕ)
get_mmr_path pos leaf_count = do
  peaks ← get_mmr_peaks leaf_count
  path ← descend_from pos (target_peak pos 0 peaks)
  some (reverse path)
