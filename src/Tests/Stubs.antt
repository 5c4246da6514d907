-- ===== src/Tests/Stubs.antt =====
-- A stand-in for `sha2`, `hex` and `hmac`, and a replay store, to run the code on.
use conxian_nexus.Prelude.{
  ℕ, zero, suc, ◌+◌, ◌-◌, ◌*◌, ◌/◌, ◌%◌, ◌<◌, ◌≡◌, ◌≢◌, ap, inl, inr, refl, Bool, true, false, ◌&&◌,
  ◌||◌, Option, none, some, List, [], ◌∷◌, ◌++◌, Text, All, text_eq, text_eq_iff, ltb,
  if◌then◌else◌, Bool-cases, arith,
}
use conxian_nexus.Prelude.Int.{ℤ, pos, ◌+ℤ◌, ◌≤ℤ◌, ◌<ℤ◌, ltb_ℤ}
use conxian_nexus.State.Crypto.{Bytes, IsHexDigit, Crypto}
use conxian_nexus.Erp.Sync.{ReplayStore}

abbrev pub checksum : Bytes → ℕ
checksum [] = 0
checksum (b ∷ m) = (b + 3 * checksum m + 1) % 256

abbrev pub digit : ℕ → ℕ
digit n = if ltb n 10 then b'0' + n else 87 + n

abbrev pub undigit : ℕ → ℕ
undigit d = if ltb d 58 then d - 48 else d - 87

abbrev pub hex_encode : Bytes → Text
hex_encode [] = []
hex_encode (b ∷ m) = digit (b / 16) ∷ digit (b % 16) ∷ hex_encode m

abbrev pub hex_decode : Text → Option Bytes
hex_decode [] = some []
hex_decode (d ∷ []) = none
hex_decode (d ∷ e ∷ s) = elim (hex_decode s) [
  | none ↦ none
  | some m ↦ some ((16 * undigit d + undigit e) ∷ m)
]

digit-IsHexDigit : (n : ℕ) → n < 16 → IsHexDigit (digit n)
digit-IsHexDigit n h = ground arith

undigit-digit : (n : ℕ) → n < 16 → undigit (digit n) ≡ n
undigit-digit n h = ground arith

pub encode_digits : (m : Bytes) → All (λ b. b < 256) m → All IsHexDigit (hex_encode m)
encode_digits [] h = tt
encode_digits (b ∷ m) h = (
  digit-IsHexDigit (b / 16) (omega (arith, h.0)),
  (digit-IsHexDigit (b % 16) (omega arith), encode_digits m h.1),
)

pub decode_encode : (m : Bytes) → All (λ b. b < 256) m → hex_decode (hex_encode m) ≡ some m
decode_encode [] h = refl
decode_encode (b ∷ m) h =
    rw
      (
        decode_encode m h.1,
        hex_decode,
        undigit-digit (b / 16) (omega (arith, h.0)),
        undigit-digit (b % 16) (omega arith),
      )
      (ap (λ x. some (x ∷ m)) (omega arith))

pub checksum-byte : (m : Bytes) → checksum m < 256
checksum-byte [] = omega arith
checksum-byte (b ∷ m) = omega arith

abbrev pub toy_crypto : Crypto
toy_crypto = record {
  sha256 = λ m. checksum m ∷ [];
  hex_encode = hex_encode;
  hex_decode = hex_decode;
  sha256_bytes = λ m. (checksum-byte m, tt);
  encode_digits = encode_digits;
  decode_encode = decode_encode;
}

abbrev pub repeat : ℕ → ℕ → Bytes
repeat zero b = []
repeat (suc n) b = b ∷ repeat n b

-- A tag of 32 bytes.
abbrev pub toy_hmac : Bytes → Bytes → Option Bytes
toy_hmac key message = some (repeat 32 (checksum (key ++ message)))

abbrev pub Expiries : Type 0
Expiries = List (Text × ℤ)

abbrev pub holds : Expiries → Text → ℤ → Bool
holds [] key now = false
holds ((k, expiry) ∷ rest) key now = (text_eq k key && ltb_ℤ now expiry) || holds rest key now

abbrev pub claim : Text → ℕ → ℤ → Expiries → Expiries × Option Bool
claim key ttl now s =
    if holds s key now then (s, some false) else ((key, now +ℤ pos ttl) ∷ s, some true)

pub claim_refused :
    (s : Expiries) (key : Text) (ttl : ℕ) (now : ℤ)
    → holds s key now ≡ true
    → (claim key ttl now s).1 ≢ some true
claim_refused s key ttl now h e = ground arith

pub claim_holds :
    (s : Expiries) (key : Text) (ttl : ℕ) (now later : ℤ)
    → (claim key ttl now s).1 ≡ some true
    → now ≤ℤ later
    → later <ℤ now +ℤ pos ttl
    → holds (claim key ttl now s).0 key later ≡ true
claim_holds s key ttl now later e after before = elim (Bool-cases (holds s key now)) [
  | inl held ↦ absurd (claim_refused s key ttl now held e)
  | inr free ↦ rw (free, (text_eq_iff key key).1 refl) ground arith
]

pub claim_keeps :
    (s : Expiries) (key other : Text) (ttl : ℕ) (now later : ℤ)
    → holds s other later ≡ true
    → holds (claim key ttl now s).0 other later ≡ true
claim_keeps s key other ttl now later h = elim (Bool-cases (holds s key now)) [
  | inl held ↦ rw held h
  | inr free ↦ rw (free, h) ground arith
]

abbrev pub toy_store : ReplayStore
toy_store = record {
  Store = Expiries;
  claim = claim;
  holds = holds;
  claim_refused = claim_refused;
  claim_holds = claim_holds;
  claim_keeps = claim_keeps;
}
