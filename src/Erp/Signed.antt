-- ===== src/Erp/Signed.antt =====
-- A signature covers every field of a request: the signed text determines them.
use conxian_nexus.Prelude.{
  ◌+◌, ◌^◌, ◌≤◌, ◌≡◌, refl, sym, ap, ◌∙◌, List, [], ◌∷◌, ◌++◌, map, Text, codes, All, arith, trim,
}
use conxian_nexus.Prelude.Int.{ℤ, pos_part, neg_part}
use conxian_nexus.Prelude.Decimal.{show_ℤ}
use conxian_nexus.Prelude.DecimalLaws.{show_ℤ-avoids, show_ℤ-inj}
use conxian_nexus.Erp.Attestation.{
  ErpSyncRequest, encode_payload_value, join_comma, encode_tx_ids, render, payload_fields,
  canonical_erp_attestation_payload,
}
use conxian_nexus.Erp.Canonical.{
  Without, Ends, split_at_separator, encode_payload_value-Without, encode_payload_value-inj, IsDash,
  encode_tx_ids-inj, Without-append,
}

append_cancel : (s t u : Text) → s ++ t ≡ s ++ u → t ≡ u
append_cancel [] t u h = h
append_cancel (c ∷ s) t u h = append_cancel s t u (cc)

-- Two lists of fields with the same names, none of whose values holds the separator.
abbrev Parallel : List (Text × Text) → List (Text × Text) → Type 0
Parallel [] [] = Unit {0}
Parallel (f ∷ fs) (g ∷ gs) = (f.0 ≡ g.0) × Without b'|' f.1 × Without b'|' g.1 × Parallel fs gs
Parallel fs gs = ⊥

abbrev SameValues : List (Text × Text) → List (Text × Text) → Type 0
SameValues (f ∷ fs) (g ∷ gs) = (f.1 ≡ g.1) × SameValues fs gs
SameValues fs gs = Unit {0}

render-Ends : (fs : List (Text × Text)) → Ends b'|' (render fs)
unfolding render
render-Ends [] = tt
render-Ends ((n, v) ∷ fs) = refl

render-inj :
    (fs gs : List (Text × Text)) → Parallel fs gs → render fs ≡ render gs → SameValues fs gs
unfolding render
render-inj [] [] p e = tt
render-inj [] (g ∷ gs) p e = tt
render-inj (f ∷ fs) [] p e = tt
render-inj ((n, v) ∷ fs) ((m, w) ∷ gs) (same, hv, hw, rest) e =
    let x : Text = b'=' ∷ (v ++ render fs) in
    let y : Text = b'=' ∷ (w ++ render gs) in
    let behind : n ++ x ≡ m ++ y = cc in
    let tails : x ≡ y = append_cancel n x y (behind ∙ ap (λ t. t ++ y) (sym same)) in
    let values : v ++ render fs ≡ w ++ render gs = cc (tails) in
    let (p, q) =
      split_at_separator b'|' v w (render fs) (render gs) hv hw (render-Ends fs) (render-Ends gs)
        values in
    (p, render-inj fs gs rest q)

join_comma-Without : (xs : List Text) → All (Without b'|') xs → Without b'|' (join_comma xs)
unfolding join_comma
join_comma-Without [] h = tt
join_comma-Without (x ∷ []) h = h.0
join_comma-Without (x ∷ y ∷ rest) h =
    Without-append b'|' x _ h.0 (omega arith, join_comma-Without (y ∷ rest) h.1)

encoded-Without : (xs : List Text) → All (Without b'|') (map encode_payload_value xs)
encoded-Without [] = tt
encoded-Without (x ∷ xs) = ((encode_payload_value-Without x).0, encoded-Without xs)

encode_tx_ids-Without : (xs : List Text) → Without b'|' (encode_tx_ids xs)
unfolding encode_tx_ids
encode_tx_ids-Without [] = (omega arith, tt)
encode_tx_ids-Without (x ∷ xs) = join_comma-Without _ (encoded-Without (x ∷ xs))

-- A number of 64 bits.
abbrev pub Is64 : ℤ → Type 0
Is64 x = pos_part x + neg_part x ≤ 2 ^ 64

module _ {Value : Type 0} where
  -- The times of a request are of 64 bits.
  pub record IsTimed (r : ErpSyncRequest Value) : Type 0 where
    pub timestamp : Is64 r.timestamp
    pub issued_at : Is64 r.attestation.issued_at
    pub expires_at : Is64 r.attestation.expires_at

  payload_fields-Parallel :
      (r r' : ErpSyncRequest Value) (action action' : Text) (ids ids' : List Text)
      → Parallel (payload_fields r action ids) (payload_fields r' action' ids')
  unfolding payload_fields
  payload_fields-Parallel r r' action action' ids ids' =
      ((
        refl,
        value r.organization_id,
        value r'.organization_id,
        (
          refl,
          value r.erp_type,
          value r'.erp_type,
          (
            refl,
            number r.timestamp,
            number r'.timestamp,
            (
              refl,
              value action,
              value action',
              (
                refl,
                encode_tx_ids-Without ids,
                encode_tx_ids-Without ids',
                (
                  refl,
                  value (trim a.key_id),
                  value (trim a'.key_id),
                  (
                    refl,
                    value (trim a.nonce),
                    value (trim a'.nonce),
                    (
                      refl,
                      number a.issued_at,
                      number a'.issued_at,
                      (refl, number a.expires_at, number a'.expires_at, tt),
                    ),
                  ),
                ),
              ),
            ),
          ),
        ),
      ))
    where
      open r use {attestation as a}
      open r' use {attestation as a'}

      value : (v : Text) → Without b'|' (encode_payload_value v)
      value v = (encode_payload_value-Without v).0

      number : (x : ℤ) → Without b'|' (show_ℤ x)
      number x = show_ℤ-avoids b'|' x (omega arith)

  -- Agreement in all that the signed text is made of.
  abbrev pub Agree :
      ErpSyncRequest Value → ErpSyncRequest Value → Text → Text → List Text → List Text → Type 0
  Agree r r' action action' ids ids' =
      (r.organization_id ≡ r'.organization_id)
      × (r.erp_type ≡ r'.erp_type)
      × (r.timestamp ≡ r'.timestamp)
      × (action ≡ action')
      × (ids ≡ ids')
      × (trim r.attestation.key_id ≡ trim r'.attestation.key_id)
      × (trim r.attestation.nonce ≡ trim r'.attestation.nonce)
      × (r.attestation.issued_at ≡ r'.attestation.issued_at)
      × (r.attestation.expires_at ≡ r'.attestation.expires_at)

  -- Two requests whose times fit in 64 bits and whose signed texts are equal agree in
  -- organization, ERP type, times, action, list of transactions, and in key and nonce without the
  -- blanks around them, provided that neither list of transactions is the one text "-".
  pub canonical-inj :
      (r r' : ErpSyncRequest Value) (action action' : Text) (ids ids' : List Text)
      → IsTimed r
      → IsTimed r'
      → ¬ IsDash ids
      → ¬ IsDash ids'
      → canonical_erp_attestation_payload r action ids
        ≡ canonical_erp_attestation_payload r' action' ids'
      → Agree r r' action action' ids ids'
  unfolding canonical_erp_attestation_payload
  canonical-inj r r' action action' ids ids' t t' d d' e =
      let fields =
        render-inj (payload_fields r action ids) (payload_fields r' action' ids')
          (payload_fields-Parallel r r' action action' ids ids')
          (append_cancel (codes "nexus:erp:attestation:v1") _ _ e) in
      read_values fields
    where
      read_values :
          SameValues (payload_fields r action ids) (payload_fields r' action' ids')
          → Agree r r' action action' ids ids'
      read_values (o, (k, (s, (a, (i, (key, (n, (b, (x, _))))))))) = (
        encode_payload_value-inj _ _ o,
        encode_payload_value-inj _ _ k,
        show_ℤ-inj _ _ t.timestamp t'.timestamp s,
        encode_payload_value-inj _ _ a,
        encode_tx_ids-inj ids ids' d d' i,
        encode_payload_value-inj _ _ key,
        encode_payload_value-inj _ _ n,
        show_ℤ-inj _ _ t.issued_at t'.issued_at b,
        show_ℤ-inj _ _ t.expires_at t'.expires_at x,
      )
