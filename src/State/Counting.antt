-- ===== src/State/Counting.antt =====
-- Positions and node counts of the mountain range.
use native.Mathlib.Nat.{pow-suc}
use conxian_nexus.Prelude.{
  ℕ, zero, suc, ◌+◌, ◌/◌, ◌%◌, ◌^◌, ◌<◌, ◌≡◌, refl, ◌⊎◌, inl, inr, Option-cases, some, List, [],
  ◌∷◌, ◌++◌, add64, u64_mod, arith, length, ones,
}
use conxian_nexus.State.Crypto.{Bytes, Crypto}
use conxian_nexus.State.Mmr.{merge_peaks}

-- The nodes stand at `n`, `n + 1` and so on.
abbrev pub Consecutive : ℕ → List (ℕ × Bytes) → Type 0
Consecutive n [] = Unit {0}
Consecutive n (node ∷ nodes) = (node.0 ≡ n) × Consecutive (n + 1) nodes

half-even : (n : ℕ) → n % 2 ≡ 0 → (n + 1) / 2 ≡ n / 2
half-even n e = omega arith

half-odd : (n : ℕ) → n % 2 ≡ 1 → (n + 1) / 2 ≡ n / 2 + 1
half-odd n e = omega arith

half_below : (w n : ℕ) → n % 2 ≡ 1 → n + 1 < 2 ^ suc w → n / 2 + 1 < 2 ^ w
half_below w n e h = omega (arith, pow-suc 2 w)

parity : (n : ℕ) → (n % 2 ≡ 0) ⊎ (n % 2 ≡ 1)
parity n = omega arith

module _ (c : Crypto) where
  open c use {sha256}

  -- What a successful merge has done.
  merge_peaks-cases :
      (n : ℕ) (ps : List Bytes) (d : Bytes) (count : ℕ) (ps' : List Bytes) (count' : ℕ)
      (added : List (ℕ × Bytes))
      → merge_peaks c n ps d count ≡ some (ps', count', added)
      → ((n % 2 ≡ 0) × (count' ≡ count) × (added ≡ []))
        ⊎ ((p : Bytes) × (qs : List Bytes) × (more : List (ℕ × Bytes)) × (n % 2 ≡ 1)
            × (merge_peaks c (n / 2) qs (sha256 (p ++ d)) (add64 count 1)
                ≡ some (ps', count', more))
            × (added ≡ (count, sha256 (p ++ d)) ∷ more))
  unfolding merge_peaks
  merge_peaks-cases n [] d count ps' count' added e = inl (ground arith)
  merge_peaks-cases n (p ∷ ps) d count ps' count' added e = elim (parity n) [
    | inl even ↦ inl (ground arith)
    | inr odd ↦ elim (Option-cases (merge_peaks c (n / 2) ps (sha256 (p ++ d)) (add64 count 1))) [
      | inl stuck ↦ absurd (ground arith)
      | inr ((qs', k, more), eq) ↦ inr (p, ps, more, odd, ground arith, ground arith)
    ]
  ]

  -- Carrying adds one node for each digit that goes from 1 to 0.
  pub merge_peaks-count :
      (w n : ℕ) (ps : List Bytes) (d : Bytes) (count : ℕ) (ps' : List Bytes) (count' : ℕ)
      (added : List (ℕ × Bytes))
      → merge_peaks c n ps d count ≡ some (ps', count', added)
      → n + 1 < 2 ^ w
      → count + w < u64_mod
      → (count' + ones w (n + 1) ≡ count + ones w n + 1)
        × (count' ≡ count + length added)
        × Consecutive count added
  unfolding ones
  merge_peaks-count zero n ps d count ps' count' added e h b = absurd (omega arith)
  merge_peaks-count (suc w) n ps d count ps' count' added e h b =
      elim (merge_peaks-cases n ps d count ps' count' added e) [
        | inl (even, same, none_added) ↦ (
          rw (same, half-even n even) (omega arith),
          rw (same, none_added) (omega arith),
          rw none_added tt,
        )
        | inr (p, qs, more, odd, rest, eq) ↦
            let ih =
              merge_peaks-count w (n / 2) qs (sha256 (p ++ d)) (add64 count 1) ps' count' more rest
                (half_below w n odd h) (omega arith) in
            let step : add64 count 1 ≡ count + 1 = omega arith in
            (
              rw (half-odd n odd) (omega (arith, ih.0)),
              rw eq (omega (arith, ih.1)),
              rw eq (refl, rw step at ih.2),
            )
      ]
