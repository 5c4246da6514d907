-- ===== src/State/Mountains.antt =====
-- What the mountain range stands for: one perfect tree for each binary digit 1 of the leaf count.
use mathlib.Core.List.{append_assoc}
use conxian_nexus.Prelude.{
  ℕ, suc, ◌+◌, ◌/◌, ◌%◌, ◌<◌, ◌≡◌, refl, some, List, [], ◌∷◌, ◌++◌, Text, add64, arith,
}
use conxian_nexus.State.Crypto.{Bytes, Crypto}
use conxian_nexus.State.Tree.{leaf_hash}
use conxian_nexus.State.Mmr.{merge_peaks}

module _ (c : Crypto) where
  open c use {sha256}

  -- `d` is the root of the perfect tree of height `h` over the leaves.
  pub data Mountain : ℕ → Bytes → List Text → Type 0 where
    single :
        {d : Bytes} {xs : List Text} (l : Text) → d ≡ leaf_hash c l → xs ≡ l ∷ [] → Mountain 0 d xs
    pair :
        {h : ℕ} {a b d : Bytes} {xs ys zs : List Text}
        → Mountain h a xs
        → Mountain h b ys
        → d ≡ sha256 (a ++ b)
        → zs ≡ xs ++ ys
        → Mountain (suc h) d zs

  -- The peaks, from the right, of the trees of height `h` and more: one of height `h + k` for each
  -- digit `2 ^ k` of `n`, the taller the further left.
  pub data Range : ℕ → ℕ → List Bytes → List Text → Type 0 where
    none_left :
        {h n : ℕ} {ps : List Bytes} {xs : List Text} → n ≡ 0 → ps ≡ [] → xs ≡ [] → Range h n ps xs
    digit_zero :
        {h n : ℕ} {ps : List Bytes} {xs : List Text}
        → 0 < n
        → n % 2 ≡ 0
        → Range (suc h) (n / 2) ps xs
        → Range h n ps xs
    digit_one :
        {h n : ℕ} {p : Bytes} {ps qs : List Bytes} {xs ys zs : List Text}
        → n % 2 ≡ 1
        → ps ≡ p ∷ qs
        → xs ≡ ys ++ zs
        → Mountain h p zs
        → Range (suc h) (n / 2) qs ys
        → Range h n ps xs

  merge_peaks-even :
      (n : ℕ) (ps : List Bytes) (d : Bytes) (count : ℕ)
      → n % 2 ≡ 0
      → merge_peaks c n ps d count ≡ some (d ∷ ps, count, [])
  unfolding merge_peaks
  merge_peaks-even n [] d count e = ground arith
  merge_peaks-even n (p ∷ ps) d count e = rw e refl

  merge_peaks-odd :
      (n : ℕ) (p : Bytes) (ps : List Bytes) (d : Bytes) (count : ℕ) {ps' : List Bytes} {count' : ℕ}
      {added : List (ℕ × Bytes)}
      → n % 2 ≡ 1
      → merge_peaks c (n / 2) ps (sha256 (p ++ d)) (add64 count 1) ≡ some (ps', count', added)
      → merge_peaks c n (p ∷ ps) d count ≡ some (ps', count', (count, sha256 (p ++ d)) ∷ added)
  unfolding merge_peaks
  merge_peaks-odd n p ps d count e h = rw (e, h) refl

  -- Adding a tree of the lowest height carries like adding one to the count.
  pub merge_peaks-Range :
      {h n : ℕ} {ps : List Bytes} {xs : List Text} (d : Bytes) (zs : List Text) (count : ℕ)
      → Range h n ps xs
      → Mountain h d zs
      → (ps' : List Bytes) × (count' : ℕ) × (added : List (ℕ × Bytes)) × (merge_peaks c n ps d count
          ≡ some (ps', count', added))
        × Range h (n + 1) ps' (xs ++ zs)
  merge_peaks-Range {h} {n} {ps} {xs} d zs count (none_left n0 p0 x0) m = (
    d ∷ ps,
    count,
    [],
    merge_peaks-even n ps d count (omega arith),
    digit_one (omega arith) refl refl m (none_left (omega arith) p0 x0),
  )
  merge_peaks-Range {h} {n} {ps} {xs} d zs count (digit_zero pos e r) m = (
    d ∷ ps,
    count,
    [],
    merge_peaks-even n ps d count e,
    digit_one (omega arith) refl refl m (rw half r),
  )
    where
      half : (n + 1) / 2 ≡ n / 2
      half = omega arith
  merge_peaks-Range {h} {n} {ps} {xs} d zs count
        (digit_one {p = p} {qs = qs} {ys = ys} {zs = ts} e ep ex t r) m =
      let (ps', count', added, eq, r') =
        merge_peaks-Range (sha256 (p ++ d)) (ts ++ zs) (add64 count 1) r (pair t m refl refl) in
      (
        ps',
        count',
        (count, sha256 (p ++ d)) ∷ added,
        rw ep (merge_peaks-odd n p qs d count e eq),
        digit_zero (omega arith) (omega arith) (rw (half, ex, append_assoc ys ts zs) r'),
      )
    where
      half : (n + 1) / 2 ≡ n / 2 + 1
      half = omega arith
