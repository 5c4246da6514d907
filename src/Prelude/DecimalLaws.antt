-- ===== src/Prelude/DecimalLaws.antt =====
-- Decimal texts determine their numbers.
use mathlib.Core.Path.{subst}
use mathlib.Core.List.{List, [], ◌∷◌, ◌++◌}
use native.Mathlib.Nat.{pow-suc}
use conxian_nexus.Prelude.{
  ℕ, zero, suc, ◌+◌, ◌-◌, ◌*◌, ◌/◌, ◌%◌, ◌^◌, ◌≤◌, ◌<◌, ◌≡◌, ◌≢◌, refl, sym, ap, ◌∙◌, ◌⊎◌, inl, inr,
  arith, All, Bool-cases, ltb, tests,
}
use conxian_nexus.Prelude.Int.{ℤ, pos, negsuc, pos_part, neg_part}
use conxian_nexus.Prelude.Decimal.{digits_text, show_ℕ, show_ℤ}

-- The number that digits stand for, from the left.
text_value : ℕ → List ℕ → ℕ
text_value acc [] = acc
text_value acc (d ∷ ds) = text_value (10 * acc + (d - 48)) ds

text_value-append :
    (acc : ℕ) (s : List ℕ) (d : ℕ) → text_value acc (s ++ d ∷ []) ≡ 10 * text_value acc s + (d - 48)
unfolding text_value
text_value-append acc [] d = refl
text_value-append acc (c ∷ s) d = text_value-append (10 * acc + (c - 48)) s d

digits_text-value : (fuel n : ℕ) → n < 10 ^ fuel → text_value 0 (digits_text fuel n) ≡ n
unfolding digits_text text_value
digits_text-value zero n h = omega arith
digits_text-value (suc fuel) n h = elim (Bool-cases (ltb n 10)) [
  | inl small ↦ rw small (omega arith)
  | inr large ↦
      rw
        (
          large,
          text_value-append 0 (digits_text fuel (n / 10)) (48 + n % 10),
          digits_text-value fuel (n / 10) (omega (arith, pow-suc 10 fuel)),
        )
        (omega arith)
]

abbrev IsDigit : ℕ → Type 0
IsDigit c = (48 ≤ c) × (c ≤ 57)

All-append : (s t : List ℕ) → All IsDigit s → All IsDigit t → All IsDigit (s ++ t)
All-append [] t h k = k
All-append (c ∷ s) t h k = (h.0, All-append s t h.1 k)

digits_text-digits : (fuel n : ℕ) → All IsDigit (digits_text fuel n)
unfolding digits_text
digits_text-digits zero n = tt
digits_text-digits (suc fuel) n = elim (Bool-cases (ltb n 10)) [
  | inl small ↦ rw small (omega tests)
  | inr large ↦
      rw large
        (All-append (digits_text fuel (n / 10)) _ (digits_text-digits fuel (n / 10)) (omega arith))
]

-- A decimal text holds no character outside "0" to "9" and "-".
digits-avoid : (b : ℕ) (s : List ℕ) → (b < 48) ⊎ (57 < b) → All IsDigit s → All (λ ch. ch ≢ b) s
digits-avoid b [] h k = tt
digits-avoid b (c ∷ s) h k = (omega arith, digits-avoid b s h k.1)

pub show_ℤ-avoids : (b : ℕ) (x : ℤ) → 57 < b → All (λ ch. ch ≢ b) (show_ℤ x)
unfolding show_ℤ
show_ℤ-avoids b (pos n) h = digits-avoid b _ (inr h) (digits_text-digits 20 n)
show_ℤ-avoids b (negsuc n) h =
    (omega arith, digits-avoid b _ (inr h) (digits_text-digits 20 (suc n)))

pub show_ℕ-avoids : (b n : ℕ) → 57 < b → All (λ ch. ch ≢ b) (show_ℕ n)
unfolding show_ℕ
show_ℕ-avoids b n h = digits-avoid b _ (inr h) (digits_text-digits 20 n)

pub show_ℕ-inj : (m n : ℕ) → m < 10 ^ 20 → n < 10 ^ 20 → show_ℕ m ≡ show_ℕ n → m ≡ n
unfolding show_ℕ
show_ℕ-inj m n hm hn e =
    sym (digits_text-value 20 m hm) ∙ ap (text_value 0) e ∙ digits_text-value 20 n hn

minus_no_digit : (n : ℕ) (s : List ℕ) → show_ℕ n ≢ b'-' ∷ s
unfolding show_ℕ
minus_no_digit n s e =
    let first = (subst (All IsDigit) e (digits_text-digits 20 n)).0 in absurd (omega arith)

-- Numbers of 64 bits are told apart by their texts.
pub show_ℤ-inj :
    (x y : ℤ)
    → pos_part x + neg_part x ≤ 2 ^ 64
    → pos_part y + neg_part y ≤ 2 ^ 64
    → show_ℤ x ≡ show_ℤ y
    → x ≡ y
unfolding show_ℤ
show_ℤ-inj (pos m) (pos n) hx hy e = ap pos (show_ℕ-inj m n (omega arith) (omega arith) e)
show_ℤ-inj (pos m) (negsuc n) hx hy e = absurd (minus_no_digit m _ e)
show_ℤ-inj (negsuc m) (pos n) hx hy e = absurd (minus_no_digit n _ (sym e))
show_ℤ-inj (negsuc m) (negsuc n) hx hy e =
    let same = show_ℕ-inj (suc m) (suc n) (omega arith) (omega arith) (cc) in
    ap negsuc (omega (arith, same))
