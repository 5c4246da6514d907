-- ===== src/Admin/SignatureLaws.antt =====
-- What two signatures are worth in src/api/admin.rs.
use conxian_nexus.Prelude.{
  ℕ, suc, ◌≡◌, ◌≢◌, ◌≤◌, ◌↔◌, ◌⊎◌, refl, inl, inr, sym, ◌∙◌, Bool, true, false, ◌||◌, some, List,
  [], ◌∷◌, Text, text_eq, text_eq_iff, as_bytes, is_empty, length, ltb, Bool-cases, arith,
}
use mathlib.Core.Path.{subst}
use conxian_nexus.Prelude.Dict.{either}
use conxian_nexus.Prelude.Result.{ok}
use conxian_nexus.State.Crypto.{Bytes, Crypto}
use conxian_nexus.Prelude.Dict.{has_text}
use conxian_nexus.Admin.Signatures.{
  Ecdsa, DualSignatureRequest, unique, verified, verified_count, signatures_of,
  validate_dual_signature,
}

-- Two texts of the list that differ and are both accepted.
pub record AreTwo (accepted : Text → Bool) (ts : List Text) : Type 0 where
  pub first : Text
  pub second : Text
  pub apart : first ≢ second
  pub first_in : has_text ts first ≡ true
  pub second_in : has_text ts second ≡ true
  pub first_accepted : accepted first ≡ true
  pub second_accepted : accepted second ≡ true

has_text_head : (t : Text) (ts : List Text) → has_text (t ∷ ts) t ≡ true
unfolding has_text
has_text_head t ts = rw ((text_eq_iff t t).1 refl) refl

has_text_later : (s t : Text) (ts : List Text) → has_text ts t ≡ true → has_text (s ∷ ts) t ≡ true
unfolding has_text
has_text_later s t ts h = elim (Bool-cases (text_eq s t)) [
  | inl e ↦ rw e refl
  | inr e ↦ rw (e, h) refl
]

two_later :
    (accepted : Text → Bool) (s : Text) (ts : List Text)
    → AreTwo accepted ts
    → AreTwo accepted (s ∷ ts)
two_later accepted s ts w = record {
  first = w.first;
  second = w.second;
  apart = w.apart;
  first_in = has_text_later s w.first ts w.first_in;
  second_in = has_text_later s w.second ts w.second_in;
  first_accepted = w.first_accepted;
  second_accepted = w.second_accepted;
}

or_cases : (a b : Bool) → a || b ≡ true → (a ≡ true) ⊎ (b ≡ true)
or_cases true b h = inl refl
or_cases false b h = inr h

has_text-unique : (ts : List Text) (t : Text) → has_text (unique ts) t ≡ has_text ts t
unfolding has_text unique
has_text-unique [] t = refl
has_text-unique (s ∷ ts) t = elim (Bool-cases (has_text ts s)) [
  | inr new ↦ rw (unique, new, has_text, has_text-unique ts t) refl
  | inl dup ↦ elim (Bool-cases (text_eq s t)) [
    | inl same ↦
        rw (unique, dup, has_text-unique ts t, same)
          (subst (λ x. has_text ts x ≡ true) ((text_eq_iff s t).0 same) dup)
    | inr other ↦ rw (unique, dup, has_text-unique ts t, other) refl
  ]
]

suc_le : {n : ℕ} → 1 ≤ n → 2 ≤ suc n
suc_le h = omega (arith, h)

module _ (c : Crypto) (ecdsa : Ecdsa) (keys : List Text) (msg : Bytes) where
  abbrev count : List Text → ℕ
  count = verified_count c ecdsa keys msg

  abbrev accepted : Text → Bool
  accepted = verified c ecdsa keys msg

  count_one :
      (ts : List Text) → 1 ≤ count ts → (t : Text) × (has_text ts t ≡ true) × (accepted t ≡ true)
  unfolding verified_count has_text
  count_one [] h = absurd (omega (arith, h))
  count_one (s ∷ ts) h = elim (Bool-cases (accepted s)) [
    | inl hit ↦ (s, rw ((text_eq_iff s s).1 refl) refl, hit)
    | inr miss ↦
        let (t, i, v) = count_one ts (rw (verified_count, miss) at h) in
        (t, has_text_later s t ts i, v)
  ]

  one_count : (ts : List Text) (t : Text) → has_text ts t ≡ true → accepted t ≡ true → 1 ≤ count ts
  unfolding verified_count has_text
  one_count [] t i v = cc
  one_count (s ∷ ts) t i v = elim (Bool-cases (accepted s)) [
    | inl hit ↦ rw (verified_count, hit) omega arith
    | inr miss ↦ elim (or_cases (text_eq s t) (has_text ts t) i) [
      | inl same ↦ absurd (cc (subst (λ x. accepted x ≡ false) ((text_eq_iff s t).0 same) miss, v))
      | inr later ↦ rw (verified_count, miss) (one_count ts t later v)
    ]
  ]

  count_two : (ts : List Text) → 2 ≤ count (unique ts) → AreTwo accepted ts
  unfolding verified_count unique
  count_two [] h = absurd (omega (arith, h))
  count_two (s ∷ ts) h = elim (Bool-cases (has_text ts s)) [
    | inl dup ↦ two_later accepted s ts (count_two ts (rw (unique, dup) at h))
    | inr new ↦ elim (Bool-cases (accepted s)) [
      | inr miss ↦
          two_later accepted s ts (count_two ts (rw (unique, new, verified_count, miss) at h))
      | inl hit ↦
          let two : 2 ≤ suc (count (unique ts)) = rw (unique, new, verified_count, hit) at h in
          let (t, i, v) = count_one (unique ts) (omega (arith, two)) in
          let inside : has_text ts t ≡ true = rw (has_text-unique ts t) at i in
          record {
            first = s;
            second = t;
            apart = λ e. cc (subst (λ x. has_text ts x ≡ false) e new, inside);
            first_in = rw (has_text, (text_eq_iff s s).1 refl) refl;
            second_in = has_text_later s t ts inside;
            first_accepted = hit;
            second_accepted = v;
          }
    ]
  ]

  two_count :
      (ts : List Text) (t u : Text)
      → t ≢ u
      → has_text ts t ≡ true
      → has_text ts u ≡ true
      → accepted t ≡ true
      → accepted u ≡ true
      → 2 ≤ count ts
  unfolding verified_count has_text
  two_count [] t u d i j v w = cc
  two_count (s ∷ ts) t u d i j v w = elim (or_cases (text_eq s t) (has_text ts t) i) [
    | inl s_t ↦ elim (or_cases (text_eq s u) (has_text ts u) j) [
      | inl s_u ↦ absurd (d (sym ((text_eq_iff s t).0 s_t) ∙ (text_eq_iff s u).0 s_u))
      | inr j' ↦
          let hit : accepted s ≡ true = rw (sym ((text_eq_iff s t).0 s_t)) at v in
          rw (verified_count, hit) (suc_le (one_count ts u j' w))
    ]
    | inr i' ↦ elim (or_cases (text_eq s u) (has_text ts u) j) [
      | inl s_u ↦
          let hit : accepted s ≡ true = rw (sym ((text_eq_iff s u).0 s_u)) at w in
          rw (verified_count, hit) (suc_le (one_count ts t i' v))
      | inr j' ↦
          let rest = two_count ts t u d i' j' v w in
          either (λ n. 2 ≤ n) (accepted s) (suc (count ts)) (count ts) (omega (arith, rest)) rest
    ]
  ]

  count-length : (ts : List Text) → count ts ≤ length ts
  unfolding verified_count
  count-length [] = omega arith
  count-length (s ∷ ts) =
      let rest = count-length ts in
      either (λ n. n ≤ suc (length ts)) (accepted s) (suc (count ts)) (count ts)
        (omega (arith, rest)) (omega (arith, rest))

-- With trusted keys configured, validate_dual_signature accepts a request exactly when two
-- different texts among its signatures are each verified by a trusted key over its message.
pub validate_dual_signature-AreTwo :
    (c : Crypto) (ecdsa : Ecdsa) (debug : Bool) (keys : List Text) (request : DualSignatureRequest)
    → is_empty keys ≡ false
    → (validate_dual_signature c ecdsa debug keys request ≡ ok tt)
      ↔ AreTwo
          (verified c ecdsa keys (as_bytes request.approval_message))
          (signatures_of request.signatures)
unfolding validate_dual_signature
validate_dual_signature-AreTwo c ecdsa debug keys request configured = (forth, back)
  where
    msg : Bytes
    msg = as_bytes request.approval_message

    sigs : List Text
    sigs = signatures_of request.signatures

    forth :
        validate_dual_signature c ecdsa debug keys request ≡ ok tt
        → AreTwo (verified c ecdsa keys msg) (signatures_of request.signatures)
    forth h = elim (Bool-cases (ltb (length (unique sigs)) 2)) [
      | inl few ↦ absurd (cc (rw (validate_dual_signature, few) at h))
      | inr enough ↦ elim (Bool-cases (ltb (verified_count c ecdsa keys msg (unique sigs)) 2)) [
        | inl short ↦ absurd (cc (rw (validate_dual_signature, enough, configured, short) at h))
        | inr long ↦ count_two c ecdsa keys msg sigs (ground arith)
      ]
    ]

    back :
        AreTwo (verified c ecdsa keys msg) (signatures_of request.signatures)
        → validate_dual_signature c ecdsa debug keys request ≡ ok tt
    back w =
        let two : 2 ≤ verified_count c ecdsa keys msg (unique sigs) =
          two_count c ecdsa keys msg (unique sigs) w.first w.second w.apart
            (rw (has_text-unique sigs w.first) w.first_in)
            (rw (has_text-unique sigs w.second) w.second_in) w.first_accepted w.second_accepted in
        let bound = count-length c ecdsa keys msg (unique sigs) in
        let enough : ltb (length (unique sigs)) 2 ≡ false = ground arith in
        let long : ltb (verified_count c ecdsa keys msg (unique sigs)) 2 ≡ false = ground arith in
        rw (validate_dual_signature, enough, configured, long) refl

-- With one trusted key, a request with two different texts that decode to the same bytes, the
-- first of which that key verifies, passes validate_dual_signature.
pub validate_dual_signature-one_signer :
    (c : Crypto) (ecdsa : Ecdsa) (debug : Bool) (pk a b : Text) (request : DualSignatureRequest)
    → a ≢ b
    → c.hex_decode a ≡ c.hex_decode b
    → request.signatures ≡ some (a ∷ b ∷ [])
    → verified c ecdsa (pk ∷ []) (as_bytes request.approval_message) a ≡ true
    → validate_dual_signature c ecdsa debug (pk ∷ []) request ≡ ok tt
unfolding verified
validate_dual_signature-one_signer c ecdsa debug pk a b request d same given v =
    (validate_dual_signature-AreTwo c ecdsa debug (pk ∷ []) request refl).1 (
      subst
        (λ sigs.
          AreTwo (verified c ecdsa (pk ∷ []) (as_bytes request.approval_message))
            (signatures_of sigs))
        (sym given)
        (record {
          first = a;
          second = b;
          apart = d;
          first_in = has_text_head a (b ∷ []);
          second_in = has_text_later a b (b ∷ []) (has_text_head b []);
          first_accepted = v;
          second_accepted = rw (verified, same) at v;
        }))
