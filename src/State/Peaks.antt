-- ===== src/State/Peaks.antt =====
-- The peaks and the paths of src/state/mod.rs on a whole mountain range.
use native.Mathlib.Nat.{pow-suc, pow-le-pow_right}
use mathlib.Core.List.{reverse}
use conxian_nexus.Prelude.{
  ℕ, zero, suc, ◌+◌, ◌-◌, ◌*◌, ◌^◌, ◌≤◌, ◌<◌, ◌≡◌, refl, sym, ap, ◌∙◌, inl, inr, false, some, List,
  [], ◌∷◌, Text, Bool-cases, Option-cases, length, count_ones, add64, sub64, ltb, leb, ◌==◌, arith,
}
use conxian_nexus.Prelude.Dict.{if_true, if_false}
use conxian_nexus.State.Crypto.{Bytes, Crypto}
use conxian_nexus.State.Tree.{leaf_hash}
use conxian_nexus.State.Mmr.{MmrFoundation, merge_peaks, add_leaf}
use conxian_nexus.State.MmrLaws.{Represents, add_leaf-Represents}
use conxian_nexus.State.Positions.{
  shl_one, leading_zeros, get_mmr_node_pos, prepend, peaks_loop, get_mmr_peaks, target_peak,
  descend_from, get_mmr_path,
}
use conxian_nexus.State.PositionLaws.{Below, pow_positive, full_size, descend-Below}

-- The path to `pos` in the trees of a mountain range of `n` leaves that begins at `start`, the
-- tallest tree first: the path in the tree that has the position, none behind the last tree.
pub data InRange : ℕ → ℕ → ℕ → List ℕ → Type 0 where
  beyond : {n start pos : ℕ} {path : List ℕ} → n ≡ 0 → path ≡ [] → InRange n start pos path
  inside :
      {n start pos : ℕ} {path : List ℕ} (h : ℕ)
      → 2 ^ h ≤ n
      → n < 2 ^ suc h
      → Below h start pos path
      → InRange n start pos path
  later :
      {n start pos : ℕ} {path : List ℕ} (h m next : ℕ)
      → 2 ^ h ≤ n
      → n < 2 ^ suc h
      → n ≡ m + 2 ^ h
      → next + 1 ≡ start + 2 ^ suc h
      → next ≤ pos
      → InRange m next pos path
      → InRange n start pos path

-- `63 - leading_zeros` is the height of the tallest tree.
leading_zeros-height :
    (w n : ℕ)
    → 0 < n
    → n < 2 ^ w
    → (h : ℕ) × (h + leading_zeros w n + 1 ≡ w) × (2 ^ h ≤ n) × (n < 2 ^ suc h)
unfolding leading_zeros
leading_zeros-height zero n pos b = absurd (omega (arith, pos, b))
leading_zeros-height (suc w) n pos b = elim (Bool-cases (ltb n (2 ^ w))) [
  | inl small ↦
      let (h, e, low, high) = leading_zeros-height w n pos (ground arith) in
      (h, rw small omega arith, low, high)
  | inr large ↦ (w, rw large omega arith, ground arith, b)
]

exponent_below : (h k n : ℕ) → 2 ^ h ≤ n → n < 2 ^ k → h < k
exponent_below h k n low high = elim (Bool-cases (ltb h k)) [
  | inl below ↦ ground arith
  | inr above ↦
      let more : 2 ^ k ≤ 2 ^ h = pow-le-pow_right (omega arith) (ground arith) in
      absurd (omega (arith, more, low, high))
]

peaks_loop-go :
    (fuel n start h : ℕ)
    → 0 < n
    → sub64 63 (leading_zeros 64 n) ≡ h
    → h ≤ 62
    → 2 ^ h ≤ n
    → n < 2 ^ 64
    → start + 2 * n ≤ 2 ^ 63
    → peaks_loop (suc fuel) n start
      ≡ prepend (start + 2 ^ suc h - 2) (peaks_loop fuel (n - 2 ^ h) (start + 2 ^ suc h - 1))
unfolding peaks_loop
peaks_loop-go fuel n start h pos e b low high room =
    let test : (n == 0) ≡ false = ground arith in
    let double = pow-suc 2 h in
    let one = pow_positive h in
    let size = full_size h b in
    let shift : shl_one h ≡ 2 ^ h = ap (λ k. 2 ^ k) (omega arith) in
    let rest : sub64 n (shl_one h) ≡ n - 2 ^ h = omega arith in
    let next : add64 start (sub64 (shl_one (h + 1)) 1) ≡ start + 2 ^ suc h - 1 = omega arith in
    let peak : sub64 (start + 2 ^ suc h - 1) 1 ≡ start + 2 ^ suc h - 2 = omega arith in
    if_false (n == 0) _ _ test ∙ rw (e, rest, next, peak) refl

-- What the two loops find from `start` on.
record Found (fuel n start : ℕ) : Type 0 where
  peaks : List ℕ
  looped : peaks_loop fuel n start ≡ some peaks
  paths :
      (pos : ℕ)
      → start ≤ pos
      → (path : List ℕ) × (descend_from pos (target_peak pos start peaks) ≡ some path)
        × InRange n start pos path

-- The tallest tree in front of what the rest finds.
first_tree :
    (fuel n start h : ℕ)
    → sub64 63 (leading_zeros 64 n) ≡ h
    → h ≤ 62
    → 2 ^ h ≤ n
    → n < 2 ^ suc h
    → n ≤ 2 ^ 62
    → start + 2 * n ≤ 2 ^ 63
    → Found fuel (n - 2 ^ h) (start + 2 ^ suc h - 1)
    → Found (suc fuel) n start
unfolding target_peak descend_from
first_tree fuel n start h e b low high small room found =
    let one = pow_positive h in
    let double = pow-suc 2 h in
    record {
      peaks = peak ∷ found.peaks;
      looped =
          peaks_loop-go fuel n start h (omega arith) e b low (omega arith) room
          ∙ ap (prepend peak) found.looped;
      paths = λ pos after. elim (Bool-cases (leb pos peak)) [
        | inl here ↦
            let (path, d, below) =
              descend-Below 64 h pos peak start (omega arith) b (omega arith) (omega arith) after
                (ground arith) in
            (
              path,
              ap (descend_from pos) (if_true (leb pos peak) _ _ here) ∙ d,
              inside h low high below,
            )
        | inr further ↦
            let (path, d, range) = found.paths pos (ground arith) in
            let step : add64 peak 1 ≡ next = omega arith in
            (
              path,
              ap (descend_from pos) (
                    if_false (leb pos peak) _ _ further
                    ∙ ap (λ s. target_peak pos s found.peaks) step)
                  ∙ d,
              later h (n - 2 ^ h) next low high (omega arith) (omega arith) (ground arith) range,
            )
      ];
    }
  where
    peak : ℕ
    peak = start + 2 ^ suc h - 2

    next : ℕ
    next = start + 2 ^ suc h - 1

peaks_loop-Found :
    (fuel n start : ℕ) → n < 2 ^ fuel → n ≤ 2 ^ 62 → start + 2 * n ≤ 2 ^ 63 → Found fuel n start
unfolding peaks_loop target_peak descend_from
peaks_loop-Found zero n start f b room =
    let empty : n ≡ 0 = omega (arith, f) in
    record {
      peaks = [];
      looped = rw (peaks_loop, empty) refl;
      paths = λ pos low. ([], refl, beyond empty refl);
    }
peaks_loop-Found (suc fuel) n start f b room = elim (Bool-cases (n == 0)) [
  | inl nothing ↦ record {
    peaks = [];
    looped = if_true (n == 0) _ _ nothing;
    paths = λ pos low. ([], refl, beyond (ground arith) refl);
  }
  | inr some_leaves ↦
      let (h, e, low, high) = leading_zeros-height 64 n (ground arith) (omega arith) in
      let below : h < suc fuel = exponent_below h (suc fuel) n low f in
      let small : h < 63 = exponent_below h 63 n low (omega arith) in
      let powers : 2 ^ h ≤ 2 ^ fuel = pow-le-pow_right (omega arith) (omega (arith, below)) in
      let double = pow-suc 2 h in
      let one = pow_positive h in
      first_tree fuel n start h (omega arith) (omega (arith, small)) low high b room (
        peaks_loop-Found fuel (n - 2 ^ h) (start + 2 ^ suc h - 1)
          (omega (arith, powers, low, high, double)) (omega arith)
          (omega (arith, low, double, one, room)))
]

-- On at most 2^62 leaves, get_mmr_path ends for every position. Its result, from the end, is the
-- path down to the position in the tree that has it: at each step the position beside the one
-- taken, in trees laid out one behind the other, the tallest first, each with its left tree first
-- and its root last. Behind the last tree it is empty.
pub get_mmr_path-InRange :
    (pos leaf_count : ℕ)
    → leaf_count ≤ 2 ^ 62
    → (path : List ℕ) × (get_mmr_path pos leaf_count ≡ some (reverse path))
      × InRange leaf_count 0 pos path
unfolding get_mmr_path get_mmr_peaks
get_mmr_path-InRange pos leaf_count b =
    let found = peaks_loop-Found 64 leaf_count 0 (omega arith) b (omega arith) in
    let (path, d, range) = found.paths pos (omega arith) in
    (path, rw (get_mmr_path, get_mmr_peaks, found.looped, d) refl, range)

get_mmr_node_pos-node_count :
    (c : Crypto) (m : MmrFoundation) (xs : List Text)
    → Represents c m xs
    → length xs < 2 ^ 62
    → get_mmr_node_pos (length xs) ≡ m.node_count
unfolding get_mmr_node_pos
get_mmr_node_pos-node_count c m xs r small =
    let nodes : m.node_count + count_ones (length xs) ≡ 2 * length xs = rw (sym r.sized) r.nodes in
    omega (arith, nodes, small)

-- In a mountain range that stands for fewer than 2^62 leaves, add_leaf does not panic, and the
-- first node that it adds is the hash of the leaf at the position that get_mmr_node_pos gives for
-- the number of the leaves before it.
pub add_leaf-get_mmr_node_pos :
    (c : Crypto) (m : MmrFoundation) (xs : List Text) (l : Text)
    → Represents c m xs
    → length xs < 2 ^ 62
    → (m' : MmrFoundation) × (added : List (ℕ × Bytes)) × (add_leaf c m l
        ≡ some (m', (get_mmr_node_pos (length xs), leaf_hash c l) ∷ added))
unfolding add_leaf
add_leaf-get_mmr_node_pos c m xs l r small =
    let (m', nodes, e, _, _, _) = add_leaf-Represents c m xs l r small in
    let place = get_mmr_node_pos-node_count c m xs r small in
    elim (Option-cases (merge_peaks c m.size m.peaks (leaf_hash c l) (add64 m.node_count 1))) [
      | inl stuck ↦ absurd (cc (rw (add_leaf, stuck) at e))
      | inr ((ps, k, added), merged) ↦ (
        record { peaks = ps; size = add64 m.size 1; node_count = k },
        added,
        rw (add_leaf, merged, place) refl,
      )
    ]
