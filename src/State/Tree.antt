-- ===== src/State/Tree.antt =====
-- The Merkle tree of src/state/mod.rs: `rebuild_tree`, the path of `generate_merkle_proof` and
-- `verify_merkle_proof`. An index out of bounds panics: the result is `none`.
use conxian_nexus.Prelude.{
  ℕ, zero, suc, ◌+◌, ◌-◌, ◌/◌, ◌%◌, Bool, false, ◌&&◌, Option, none, some, List, [], ◌∷◌, ◌++◌, map,
  Text, codes, text_eq, as_bytes, length, get_elem?, ltb, ◌==◌, if◌then◌else◌, ◌>>=◌,
}
use conxian_nexus.State.Crypto.{Bytes, Crypto}

pub record MerkleProof : Type 0 where
  pub leaf : Text
  pub path : List (Text × Bool)
  pub root : Text

-- `s.trim_start_matches("0x")`: every "0x" at the front goes.
unfoldable pub trim_0x : Text → Text
trim_0x [] = []
trim_0x (c ∷ []) = c ∷ []
trim_0x (c ∷ d ∷ s) = let rest = trim_0x s in if (c == b'0') && (d == b'x') then rest else c ∷ d ∷ s

-- The sibling that a proof names: the node itself, at the end of a level of odd length.
abbrev pub sibling_idx : ℕ → ℕ → ℕ
sibling_idx len idx = if idx % 2 == 0 then (if ltb (idx + 1) len then idx + 1 else idx) else idx - 1

-- The last level, of a first one and those pushed after it.
abbrev pub last_level : List Bytes → List (List Bytes) → List Bytes
last_level first [] = first
last_level first (next ∷ rest) = last_level next rest

module _ (c : Crypto) where
  open c use {sha256, hex_encode, hex_decode}

  -- format!("0x{}", hex::encode(d))
  abbrev pub hex0x : Bytes → Text
  hex0x d = codes "0x" ++ hex_encode d

  abbrev pub leaf_hash : Text → Bytes
  leaf_hash l = sha256 (as_bytes l)

  -- The pairs of `current_level.chunks(2)`, hashed; a last single node is paired with itself.
  unfoldable pub level_up : List Bytes → List Bytes
  level_up [] = []
  level_up (x ∷ []) = sha256 (x ++ x) ∷ []
  level_up (x ∷ y ∷ rest) = sha256 (x ++ y) ∷ level_up rest

  -- `while current_level.len() > 1`: the levels that it pushes.
  unfoldable pub upper_levels : ℕ → List Bytes → List (List Bytes)
  upper_levels zero current = []
  upper_levels (suc fuel) current =
      let next = level_up current in
      let rest = upper_levels fuel next in if ltb 1 (length current) then next ∷ rest else []

  -- Each round shortens the level, so its length is fuel enough.
  unfoldable pub tree_levels_of : List Text → List (List Bytes)
  tree_levels_of leaves =
      let first = map leaf_hash leaves in first ∷ upper_levels (length first) first

  unfoldable pub proof_path : List (List Bytes) → ℕ → Option (List (Text × Bool))
  proof_path [] idx = some []
  proof_path (level ∷ levels) idx = do
    sibling ← get_elem? level (sibling_idx (length level) idx)
    rest ← proof_path levels (idx / 2)
    some ((hex0x sibling, idx % 2 == 0) ∷ rest)

  -- The loop of `verify_merkle_proof`; a sibling that is no hexadecimal text ends it.
  unfoldable pub fold_path : Bytes → List (Text × Bool) → Option Bytes
  fold_path current [] = some current
  fold_path current ((sibling_str, is_left) ∷ path) = do
    sibling ← hex_decode (trim_0x sibling_str)
    fold_path (sha256 (if is_left then current ++ sibling else sibling ++ current)) path

  unfoldable pub verify_merkle_proof : MerkleProof → Bool
  verify_merkle_proof proof = elim (fold_path (leaf_hash proof.leaf) proof.path) [
    | none ↦ false
    | some current ↦ text_eq (hex0x current) proof.root
  ]
