-- ===== src/State/Crypto.antt =====
-- The crates `sha2` and `hex`, which src/state/mod.rs calls: a parameter of the model.
use conxian_nexus.Prelude.{ℕ, ◌≤◌, ◌<◌, ◌≡◌, ◌⊎◌, Option, some, List, Text, All}

abbrev pub Bytes : Type 0
Bytes = List ℕ

-- The digits that `hex::encode` writes, `0` to `9` and `a` to `f`.
abbrev pub IsHexDigit : ℕ → Type 0
IsHexDigit c = ((b'0' ≤ c) × (c ≤ b'9')) ⊎ ((b'a' ≤ c) × (c ≤ b'f'))

-- A digest is a list of bytes, and `hex::decode` reads back what `hex::encode` writes of bytes.
pub record Crypto : Type 0 where
  pub sha256 : Bytes → Bytes
  pub hex_encode : Bytes → Text
  pub hex_decode : Text → Option Bytes
  pub sha256_bytes : (m : Bytes) → All (λ b. b < 256) (sha256 m)
  pub encode_digits : (m : Bytes) → All (λ b. b < 256) m → All IsHexDigit (hex_encode m)
  pub decode_encode : (m : Bytes) → All (λ b. b < 256) m → hex_decode (hex_encode m) ≡ some m
