-- ===== src/Erp/Canonical.antt =====
-- The signed text of an ERP attestation determines what is signed.
use conxian_nexus.Prelude.{
  ℕ, ◌≡◌, ◌≢◌, refl, sym, ◌∙◌, List, [], ◌∷◌, ◌++◌, map, Text, codes, All, arith,
}
use conxian_nexus.Erp.Attestation.{encode_char, encode_payload_value, join_comma, encode_tx_ids}

-- No character of the text is `b`.
abbrev pub Without : ℕ → Text → Type 0
Without b s = All (λ ch. ch ≢ b) s

pub Without-append : (b : ℕ) (s t : Text) → Without b s → Without b t → Without b (s ++ t)
Without-append b [] t h k = k
Without-append b (c ∷ s) t h k = (h.0, Without-append b s t h.1 k)

encode_char-Without : (ch : ℕ) → Without b'|' (encode_char ch) × Without b',' (encode_char ch)
encode_char-Without ch = ground arith

pub encode_payload_value-Without :
    (v : Text) → Without b'|' (encode_payload_value v) × Without b',' (encode_payload_value v)
unfolding encode_payload_value
encode_payload_value-Without [] = (tt, tt)
encode_payload_value-Without (ch ∷ v) =
    let (bars, commas) = encode_payload_value-Without v in
    let (bar, comma) = encode_char-Without ch in
    (Without-append b'|' _ _ bar bars, Without-append b',' _ _ comma commas)

-- An escaped character and what follows it can be told apart.
encode_char-inj :
    (a b : ℕ) (s t : Text) → encode_char a ++ s ≡ encode_char b ++ t → (a ≡ b) × (s ≡ t)
encode_char-inj a b s t h = ground arith

encode_char-ne-nil : (a : ℕ) (s : Text) → encode_char a ++ s ≢ []
encode_char-ne-nil a s h = ground arith

-- Two values that are escaped alike are equal.
pub encode_payload_value-inj :
    (v w : Text) → encode_payload_value v ≡ encode_payload_value w → v ≡ w
unfolding encode_payload_value
encode_payload_value-inj [] [] h = refl
encode_payload_value-inj [] (b ∷ w) h = absurd (encode_char-ne-nil b _ (sym h))
encode_payload_value-inj (a ∷ v) [] h = absurd (encode_char-ne-nil a _ h)
encode_payload_value-inj (a ∷ v) (b ∷ w) h =
    let (same, rest) = encode_char-inj a b _ _ h in cc (same, encode_payload_value-inj v w rest)

-- The text behind a value begins with the separator, or is empty.
abbrev pub Ends : ℕ → Text → Type 0
Ends b [] = Unit {0}
Ends b (c ∷ s) = c ≡ b

-- A value without the separator ends where the separator stands.
pub split_at_separator :
    (b : ℕ) (v w s t : Text)
    → Without b v
    → Without b w
    → Ends b s
    → Ends b t
    → v ++ s ≡ w ++ t
    → (v ≡ w) × (s ≡ t)
split_at_separator b [] [] s t hv hw hs ht e = (refl, e)
split_at_separator b [] (y ∷ w) [] t hv hw hs ht e = absurd (ground arith)
split_at_separator b [] (y ∷ w) (c ∷ s) t hv hw hs ht e = absurd (hw.0 (ground arith))
split_at_separator b (x ∷ v) [] s [] hv hw hs ht e = absurd (ground arith)
split_at_separator b (x ∷ v) [] s (c ∷ t) hv hw hs ht e = absurd (hv.0 (ground arith))
split_at_separator b (x ∷ v) (y ∷ w) s t hv hw hs ht e =
    let (p, q) = split_at_separator b v w s t hv.1 hw.1 hs ht (cc) in (cc, q)

separator_inside : (b : ℕ) (v w s : Text) → Without b v → v ≢ w ++ b ∷ s
separator_inside b [] [] s h e = absurd (ground arith)
separator_inside b [] (y ∷ w) s h e = absurd (ground arith)
separator_inside b (x ∷ v) [] s h e = h.0 (ground arith)
separator_inside b (x ∷ v) (y ∷ w) s h e = separator_inside b v w s h.1 (cc)

-- `join(",")` of values without commas determines them, if there is one.
join_comma-inj :
    (x y : Text) (xs ys : List Text)
    → All (Without b',') (x ∷ xs)
    → All (Without b',') (y ∷ ys)
    → join_comma (x ∷ xs) ≡ join_comma (y ∷ ys)
    → x ∷ xs ≡ y ∷ ys
unfolding join_comma
join_comma-inj x y [] [] hx hy e = cc
join_comma-inj x y [] (y' ∷ ys) hx hy e = absurd (separator_inside b',' x y _ hx.0 e)
join_comma-inj x y (x' ∷ xs) [] hx hy e = absurd (separator_inside b',' y x _ hy.0 (sym e))
join_comma-inj x y (x' ∷ xs) (y' ∷ ys) hx hy e =
    let (p, q) = split_at_separator b',' x y _ _ hx.0 hy.0 refl refl e in
    let rest = join_comma-inj x' y' xs ys hx.1 hy.1 (cc) in cc

encode_values-Without : (ids : List Text) → All (Without b',') (map encode_payload_value ids)
encode_values-Without [] = tt
encode_values-Without (x ∷ ids) = ((encode_payload_value-Without x).1, encode_values-Without ids)

map-encode-inj :
    (xs ys : List Text) → map encode_payload_value xs ≡ map encode_payload_value ys → xs ≡ ys
map-encode-inj [] [] h = refl
map-encode-inj [] (y ∷ ys) h = cc
map-encode-inj (x ∷ xs) [] h = cc
map-encode-inj (x ∷ xs) (y ∷ ys) h =
    let first = encode_payload_value-inj x y (cc) in let rest = map-encode-inj xs ys (cc) in cc

-- The list of a lone "-" is written like the empty list.
abbrev pub IsDash : List Text → Type 0
IsDash ids = ids ≡ codes "-" ∷ []

encode_payload_value-dash : (x : Text) → codes "-" ≡ encode_payload_value x → x ≡ codes "-"
encode_payload_value-dash x h = sym (encode_payload_value-inj (codes "-") x (dash_self ∙ h))
  where
    dash_self : encode_payload_value (codes "-") ≡ codes "-"
    dash_self = unfold encode_payload_value in refl

encode-IsDash :
    (y : Text) (ys : List Text)
    → codes "-" ≡ join_comma (map encode_payload_value (y ∷ ys))
    → IsDash (y ∷ ys)
unfolding join_comma
encode-IsDash y [] h = let e = encode_payload_value-dash y h in cc
encode-IsDash y (z ∷ ys) h =
    absurd (separator_inside b',' (codes "-") (encode_payload_value y) _ (omega arith) h)

pub encode_tx_ids-inj :
    (xs ys : List Text) → ¬ IsDash xs → ¬ IsDash ys → encode_tx_ids xs ≡ encode_tx_ids ys → xs ≡ ys
unfolding encode_tx_ids
encode_tx_ids-inj [] [] hx hy h = refl
encode_tx_ids-inj [] (y ∷ ys) hx hy h = absurd (hy (encode-IsDash y ys h))
encode_tx_ids-inj (x ∷ xs) [] hx hy h = absurd (hx (encode-IsDash x xs (sym h)))
encode_tx_ids-inj (x ∷ xs) (y ∷ ys) hx hy h = map-encode-inj (x ∷ xs) (y ∷ ys) (
    join_comma-inj (encode_payload_value x) (encode_payload_value y) (map encode_payload_value xs)
      (map encode_payload_value ys) (encode_values-Without (x ∷ xs))
      (encode_values-Without (y ∷ ys)) h)
