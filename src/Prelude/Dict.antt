-- ===== src/Prelude/Dict.antt =====
-- Association lists for `HashMap<String, _>` and for the hashes of Redis: the first entry of a key
-- counts, and an insertion replaces it.
use mathlib.Core.Path.{◌≡◌, refl, ap}
use mathlib.Core.Bool.{Bool, true, false, ◌||◌}
use mathlib.Core.List.{List, [], ◌∷◌}
use mathlib.Core.Logic.{◌≢◌, inl, inr}
use mathlib.Core.Option.{Option, none, some}
use conxian_nexus.Prelude.Tests.{if◌then◌else◌, Bool-cases}
use conxian_nexus.Prelude.Strings.{Text, text_eq, text_eq_iff}

pub text_differ : (a b : Text) → a ≢ b → text_eq a b ≡ false
text_differ a b d = elim (Bool-cases (text_eq a b)) [
  | inl same ↦ absurd (d ((text_eq_iff a b).0 same))
  | inr other ↦ other
]

pub if_true {ℓ} : {A : Type ℓ} (b : Bool) (x y : A) → b ≡ true → (if b then x else y) ≡ x
if_true true x y h = refl
if_true false x y h = cc

pub if_false {ℓ} : {A : Type ℓ} (b : Bool) (x y : A) → b ≡ false → (if b then x else y) ≡ y
if_false true x y h = cc
if_false false x y h = refl

-- A predicate that holds of both branches.
pub either {ℓ κ} :
    {A : Type ℓ} (P : A → Type κ) (b : Bool) (x y : A) → P x → P y → P (if b then x else y)
either P true x y p q = p
either P false x y p q = q

-- `list.contains(&text)`
unfoldable pub has_text : List Text → Text → Bool
has_text [] text = false
has_text (t ∷ ts) text = text_eq t text || has_text ts text

module _ {ℓ} {V : Type ℓ} where
  unfoldable pub lookup : Text → List (Text × V) → Option V
  lookup key [] = none
  lookup key ((k, v) ∷ entries) =
      let rest = lookup key entries in if text_eq k key then some v else rest

  unfoldable pub insert : Text → V → List (Text × V) → List (Text × V)
  insert key v [] = (key, v) ∷ []
  insert key v ((k, old) ∷ entries) =
      let rest = insert key v entries in
      if text_eq k key then (key, v) ∷ entries else (k, old) ∷ rest

  pub lookup-insert :
      (key : Text) (v : V) (entries : List (Text × V)) → lookup key (insert key v entries) ≡ some v
  unfolding lookup insert
  lookup-insert key v [] = rw ((text_eq_iff key key).1 refl) refl
  lookup-insert key v ((k, old) ∷ entries) = elim (Bool-cases (text_eq k key)) [
    | inl same ↦ rw (same, insert, lookup, (text_eq_iff key key).1 refl) refl
    | inr other ↦ rw (other, insert, lookup, other) (lookup-insert key v entries)
  ]

  pub lookup-insert_other :
      (key other : Text) (v : V) (entries : List (Text × V))
      → key ≢ other
      → lookup other (insert key v entries) ≡ lookup other entries
  unfolding lookup insert
  lookup-insert_other key other v [] d = rw (text_differ key other d) refl
  lookup-insert_other key other v ((k, old) ∷ entries) d = elim (Bool-cases (text_eq k key)) [
    | inl same ↦
        let k_is : k ≡ key = (text_eq_iff k key).0 same in
        rw (same, insert, lookup, text_differ key other d, k_is, text_differ key other d) refl
    | inr apart ↦
        rw (apart, insert, lookup)
          (ap (λ found. if text_eq k other then some old else found)
            (lookup-insert_other key other v entries d))
  ]
