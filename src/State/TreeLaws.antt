-- ===== src/State/TreeLaws.antt =====
-- A path that `generate_merkle_proof` builds leads `verify_merkle_proof` from the leaf to the root.
use conxian_nexus.Prelude.{
  ℕ, zero, suc, ◌+◌, ◌/◌, ◌%◌, ◌≤◌, ◌<◌, ◌≡◌, refl, sym, inl, inr, Bool, some, List, [], ◌∷◌, ◌++◌,
  Text, length, get_elem?, init, All, All-get_elem?, ltb, ◌==◌, if◌then◌else◌, arith, tests,
  Bool-cases, ltb-ge,
}
use conxian_nexus.State.Crypto.{Bytes, IsHexDigit, Crypto}
use conxian_nexus.State.Tree.{
  trim_0x, sibling_idx, last_level, hex0x, level_up, upper_levels, proof_path, fold_path,
}

-- Digits hold no "x", so trimming stops before them.
trim_0x-digits : (s : Text) → All IsHexDigit s → trim_0x s ≡ s
unfolding trim_0x
trim_0x-digits [] h = refl
trim_0x-digits (c ∷ []) h = refl
trim_0x-digits (c ∷ d ∷ s) h = ground arith

sibling_idx-suc :
    (len i : ℕ) → sibling_idx (suc (suc len)) (suc (suc i)) ≡ suc (suc (sibling_idx len i))
sibling_idx-suc len i = ground arith

get_elem?-only :
    (l : List Bytes) (i : ℕ) (d : Bytes)
    → length l ≤ 1
    → get_elem? l i ≡ some d
    → get_elem? l 0 ≡ some d
get_elem?-only [] i d h e = cc
get_elem?-only (x ∷ l) zero d h e = e
get_elem?-only (x ∷ []) (suc i) d h e = cc
get_elem?-only (x ∷ y ∷ l) (suc i) d h e = absurd (omega arith)

half-suc : (i : ℕ) → suc (suc i) / 2 ≡ suc (i / 2)
half-suc i = omega arith

mod_two-suc : (i : ℕ) → suc (suc i) % 2 ≡ i % 2
mod_two-suc i = omega arith

module _ (c : Crypto) where
  open c use {sha256, hex_encode, hex_decode, sha256_bytes, encode_digits, decode_encode}

  -- A list of bytes proper.
  abbrev pub IsBytes : Bytes → Type 0
  IsBytes m = All (λ b. b < 256) m

  -- `verify_merkle_proof` reads back the hash that a proof writes.
  pub decode-hex0x : (d : Bytes) → IsBytes d → hex_decode (trim_0x (hex0x c d)) ≡ some d
  unfolding trim_0x
  decode-hex0x d h = rw (trim_0x-digits (hex_encode d) (encode_digits d h)) (decode_encode d h)

  pub length-level_up : (l : List Bytes) → length (level_up c l) ≡ (length l + 1) / 2
  unfolding level_up
  length-level_up [] = omega arith
  length-level_up (x ∷ []) = omega arith
  length-level_up (x ∷ y ∷ rest) = omega (arith, length-level_up rest)

  pub level_up-IsBytes : (l : List Bytes) → All IsBytes (level_up c l)
  unfolding level_up
  level_up-IsBytes [] = tt
  level_up-IsBytes (x ∷ []) = (sha256_bytes _, tt)
  level_up-IsBytes (x ∷ y ∷ rest) = (sha256_bytes _, level_up-IsBytes rest)

  -- One step of a path: the sibling exists, and with it the node hashes to its parent.
  pub level_up-sibling :
      (l : List Bytes) (i : ℕ) (d : Bytes)
      → get_elem? l i ≡ some d
      → (s : Bytes) × (get_elem? l (sibling_idx (length l) i) ≡ some s)
        × (get_elem? (level_up c l) (i / 2) ≡ some (sha256 (if i % 2 == 0 then d ++ s else s ++ d)))
  unfolding level_up
  level_up-sibling [] i d e = cc
  level_up-sibling (x ∷ []) zero d e = (x, refl, cc)
  level_up-sibling (x ∷ []) (suc i) d e = cc
  level_up-sibling (x ∷ y ∷ rest) zero d e = (y, ground arith, cc)
  level_up-sibling (x ∷ y ∷ rest) (suc zero) d e = (x, refl, cc)
  level_up-sibling (x ∷ y ∷ rest) (suc (suc i)) d e =
      let (s, h, k) = level_up-sibling rest i d e in
      (s, rw (sibling_idx-suc (length rest) i) h, rw (half-suc i, mod_two-suc i) k)

  -- From a node of a level, the path above it folds to the top of the tree.
  pub fold_path-proof_path :
      (fuel : ℕ) (l : List Bytes) (i : ℕ) (d : Bytes)
      → length l ≤ fuel
      → All IsBytes l
      → get_elem? l i ≡ some d
      → (path : List (Text × Bool)) × (proof_path c (init (l ∷ upper_levels c fuel l)) i
          ≡ some path)
        × (fold_path c d path ≡ get_elem? (last_level l (upper_levels c fuel l)) 0)
  unfolding upper_levels proof_path fold_path
  fold_path-proof_path zero [] i d h bytes e = cc
  fold_path-proof_path zero (x ∷ l) i d h bytes e = absurd (omega arith)
  fold_path-proof_path (suc fuel) l i d h bytes e = elim (Bool-cases (ltb 1 (length l))) [
    | inl more ↦
        let (s, found, up) = level_up-sibling l i d e in
        let (path, built, folded) =
          fold_path-proof_path fuel (level_up c l) (i / 2)
            (sha256 (if i % 2 == 0 then d ++ s else s ++ d)) (omega (tests, length-level_up l))
            (level_up-IsBytes l) up in
        (
          (hex0x c s, i % 2 == 0) ∷ path,
          rw more (rw (found, built)),
          rw more (rw (decode-hex0x s (All-get_elem? IsBytes l _ bytes found)) folded),
        )
    | inr done ↦
        ([], rw done refl, rw done (sym (get_elem?-only l i d (ltb-ge 1 (length l) done) e)))
  ]
