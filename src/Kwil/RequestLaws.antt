-- ===== src/Kwil/RequestLaws.antt =====
-- The texts that are signed for Kwil determine what they are made of.
use conxian_nexus.Prelude.{
  ℕ, ◌≡◌, ◌≢◌, ◌<◌, ◌^◌, refl, sym, ap, ◌∙◌, ◌⊎◌, inl, inr, ◌||◌, [], ◌∷◌, ◌++◌, Text, codes, All,
  ◌==◌, Bool-cases, arith,
}
use mathlib.Core.List.{append-nil}
use conxian_nexus.Prelude.Decimal.{show_ℕ}
use conxian_nexus.Prelude.DecimalLaws.{show_ℕ-avoids, show_ℕ-inj}
use conxian_nexus.Erp.Canonical.{split_at_separator}
use conxian_nexus.Kwil.Requests.{
  KwilSettlementProposalCommitment, settlement_proposal_payload, KwilBlockCommitment,
  encode_payload_value, field, block_payload,
}

-- None of the characters that are escaped or escape.
abbrev IsPlain : Text → Type 0
IsPlain name = All (λ ch. (ch ≢ b'|') × (ch ≢ b'=') × (ch ≢ b'\\')) name

-- A bar or an equals sign stands by itself only behind the value.
no_raw :
    (d : ℕ) (w r x : Text)
    → (d ≡ b'|') ⊎ (d ≡ b'=')
    → encode_payload_value w ++ b'|' ∷ r ≡ d ∷ x
    → (w ≡ []) × (d ≡ b'|') × (r ≡ x)
unfolding encode_payload_value
no_raw d [] r x h e = (refl, cc, cc)
no_raw d (c ∷ w) r x h e = absurd (ground arith)

clash : (v name r t : Text) → IsPlain name → encode_payload_value v ++ b'|' ∷ r ≢ name ++ b'=' ∷ t
unfolding encode_payload_value
clash v [] r t h e = let (_, d, _) = no_raw b'=' v r t (inr refl) e in absurd (ground arith)
clash [] (n ∷ name) r t h e = h.0.0 (ground arith)
clash (c ∷ v) (n ∷ name) r t h e = elim (Bool-cases ((c == b'|') || (c == b'='))) [
  | inl special ↦ h.0.2 (ground arith)
  | inr plain ↦ clash v name r t h.1 (ground arith)
]

cancel : (name s t : Text) → name ++ s ≡ name ++ t → s ≡ t
cancel [] s t e = e
cancel (n ∷ name) s t e = cancel name s t (cc)

-- A value in front of a field is told apart from it.
encode_payload_value-split :
    (v w name s t : Text)
    → IsPlain name
    → encode_payload_value v ++ field name s ≡ encode_payload_value w ++ field name t
    → (v ≡ w) × (s ≡ t)
unfolding encode_payload_value
encode_payload_value-split [] [] name s t h e =
    let rest : b'=' ∷ s ≡ b'=' ∷ t = cancel name (b'=' ∷ s) (b'=' ∷ t) (cc) in (refl, cc)
encode_payload_value-split [] (d ∷ w) name s t h e = absurd (ground arith)
encode_payload_value-split (c ∷ v) [] name s t h e = absurd (ground arith)
encode_payload_value-split (c ∷ v) (d ∷ w) name s t h e =
    elim (Bool-cases ((c == b'|') || (c == b'='))) [
      | inl p ↦ elim (Bool-cases ((d == b'|') || (d == b'='))) [
        | inl q ↦
            let (same, rest) = encode_payload_value-split v w name s t h (ground arith) in
            let head : c ≡ d = ground arith in (cc, rest)
        | inr q ↦ absurd (escaped c v w name s t h (ground arith) (ground arith))
      ]
      | inr p ↦ elim (Bool-cases ((d == b'|') || (d == b'='))) [
        | inl q ↦ absurd (escaped d w v name t s h (ground arith) (ground arith))
        | inr q ↦
            let (same, rest) = encode_payload_value-split v w name s t h (ground arith) in
            let head : c ≡ d = ground arith in (cc, rest)
      ]
    ]
  where
    escaped :
        (c : ℕ) (v w name s t : Text)
        → IsPlain name
        → (c ≡ b'|') ⊎ (c ≡ b'=')
        → encode_payload_value w ++ field name t ≡ c ∷ (encode_payload_value v ++ field name s)
        → ⊥
    escaped c v w name s t h special e =
        let (_, _, rest) = no_raw c w (name ++ b'=' ∷ t) _ special e in
        clash v name (name ++ b'=' ∷ s) t h (sym rest)

number_split :
    (m n : ℕ) (s t : Text)
    → m < 2 ^ 64
    → n < 2 ^ 64
    → show_ℕ m ++ b'|' ∷ s ≡ show_ℕ n ++ b'|' ∷ t
    → (m ≡ n) × (s ≡ t)
number_split m n s t hm hn e =
    let (same, rest) =
      split_at_separator b'|' (show_ℕ m) (show_ℕ n) (b'|' ∷ s) (b'|' ∷ t)
        (show_ℕ-avoids b'|' m (omega arith)) (show_ℕ-avoids b'|' n (omega arith)) refl refl e in
    (show_ℕ-inj m n (omega arith) (omega arith) same, cc)

last_value : (v w : Text) → encode_payload_value v ++ [] ≡ encode_payload_value w ++ [] → v ≡ w
last_value v w e =
    (encode_payload_value-split v w [] [] [] tt (
      ap (λ x. x ++ field [] [])
        (sym (append-nil (encode_payload_value v)) ∙ e ∙ append-nil (encode_payload_value w)))).0

-- Two blocks whose signed texts are equal are equal, and so are the times.
pub block_payload-inj :
    (a b : KwilBlockCommitment) (s t : Text)
    → a.height < 2 ^ 64
    → b.height < 2 ^ 64
    → block_payload a s ≡ block_payload b t
    → (a.hash ≡ b.hash)
      × (a.height ≡ b.height)
      × (a.block_type ≡ b.block_type)
      × (a.state ≡ b.state)
      × (s ≡ t)
unfolding block_payload
block_payload-inj a b s t ha hb e =
    let (hash, e1) =
      encode_payload_value-split a.hash b.hash (codes "height") _ _ (ground arith)
        (cancel (codes "nexus:kwil:block:v1|hash=") _ _ e) in
    let (height, e2) = number_split a.height b.height _ _ ha hb e1 in
    let (kind, e3) =
      encode_payload_value-split a.block_type b.block_type (codes "state") _ _ (ground arith)
        (cancel (codes "type=") _ _ e2) in
    let (state, e4) =
      encode_payload_value-split a.state b.state (codes "created_at") _ _ (ground arith) e3 in
    (hash, height, kind, state, last_value s t e4)

-- Two settlement proposals whose heights fit in 64 bits and whose signed texts are equal agree in
-- identifiers, source, status and heights, and were made at the same time.
pub settlement_proposal_payload-inj :
    {V : Type 0} (a b : KwilSettlementProposalCommitment V) (s t : Text)
    → a.init_height < 2 ^ 64
    → b.init_height < 2 ^ 64
    → a.unlock_height < 2 ^ 64
    → b.unlock_height < 2 ^ 64
    → settlement_proposal_payload a s ≡ settlement_proposal_payload b t
    → (a.proposal_id ≡ b.proposal_id)
      × (a.external_id ≡ b.external_id)
      × (a.source ≡ b.source)
      × (a.status ≡ b.status)
      × (a.init_height ≡ b.init_height)
      × (a.unlock_height ≡ b.unlock_height)
      × (s ≡ t)
unfolding settlement_proposal_payload
settlement_proposal_payload-inj a b s t ha hb ka kb e =
    let (id, e1) =
      encode_payload_value-split a.proposal_id b.proposal_id (codes "external_id") _ _
        (ground arith) (cancel (codes "nexus:kwil:settlement_proposal:v1|proposal_id=") _ _ e) in
    let (external, e2) =
      encode_payload_value-split a.external_id b.external_id (codes "source") _ _ (ground arith)
        e1 in
    let (source, e3) =
      encode_payload_value-split a.source b.source (codes "status") _ _ (ground arith) e2 in
    let (status, e4) =
      encode_payload_value-split a.status b.status (codes "init_height") _ _ (ground arith) e3 in
    let (init, e5) = number_split a.init_height b.init_height _ _ ha hb e4 in
    let (unlock, e6) =
      number_split a.unlock_height b.unlock_height _ _ ka kb
        (cancel (codes "unlock_height=") _ _ e5) in
    (
      id,
      external,
      source,
      status,
      init,
      unlock,
      last_value s t (cancel (codes "created_at=") _ _ e6),
    )
