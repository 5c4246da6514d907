-- ===== src/Prelude/Lists.antt =====
-- Lists measured and indexed by native numbers, under the library's names.
use Prim.Native.Nat.{ℕ, zero, suc, ◌+◌}
use mathlib.Core.Path.{◌≡◌, refl, sym, ap, subst}
use mathlib.Core.Bool.{Bool, true, false}
use mathlib.Core.List.{List, [], ◌∷◌, ◌++◌, map}
use mathlib.Core.Option.{Option, none, some, some-injective}
use mathlib.Core.Logic.{inl, inr}
use native.Mathlib.Omega.{arith}
use conxian_nexus.Prelude.Tests.{Bool-cases, Option-cases}

module _ {ℓ} {A : Type ℓ} where
  abbrev pub length : List A → ℕ
  length [] = 0
  length (x ∷ xs) = suc (length xs)

  abbrev pub get_elem? : List A → ℕ → Option A
  get_elem? [] i = none
  get_elem? (x ∷ xs) zero = some x
  get_elem? (x ∷ xs) (suc i) = get_elem? xs i

  abbrev pub take : ℕ → List A → List A
  take zero xs = []
  take (suc n) [] = []
  take (suc n) (x ∷ xs) = x ∷ take n xs

  pub length-append : (xs ys : List A) → length (xs ++ ys) ≡ length xs + length ys
  length-append [] ys = omega arith
  length-append (x ∷ xs) ys = omega (arith, length-append xs ys)

  -- All but the last element.
  abbrev pub init : List A → List A
  init [] = []
  init (x ∷ []) = []
  init (x ∷ y ∷ ys) = x ∷ init (y ∷ ys)

  -- The first position at which the test passes.
  abbrev pub position : (A → Bool) → List A → Option ℕ
  position p [] = none
  position p (x ∷ xs) = elim (p x) [
    | true ↦ some 0
    | false ↦ elim (position p xs) [ none ↦ none | some i ↦ some (suc i) ]
  ]

pub length-map {ℓ κ} :
    {A : Type ℓ} {B : Type κ} (f : A → B) (xs : List A) → length (map f xs) ≡ length xs
length-map f [] = refl
length-map f (x ∷ xs) = ap suc (length-map f xs)

pub get_elem?-map {ℓ κ} :
    {A : Type ℓ} {B : Type κ} (f : A → B) (xs : List A) (i : ℕ) {x : A}
    → get_elem? xs i ≡ some x
    → get_elem? (map f xs) i ≡ some (f x)
get_elem?-map f [] i h = cc
get_elem?-map f (y ∷ xs) zero h = cc
get_elem?-map f (y ∷ xs) (suc i) h = get_elem?-map f xs i h

module _ {ℓ κ} {A : Type ℓ} where
  abbrev pub All : (A → Type κ) → List A → Type κ
  All P [] = Unit
  All P (x ∷ xs) = P x × All P xs

  pub All-get_elem? :
      (P : A → Type κ) (xs : List A) (i : ℕ) {x : A} → All P xs → get_elem? xs i ≡ some x → P x
  All-get_elem? P [] i h e = cc
  All-get_elem? P (y ∷ xs) zero {x} h e = subst P (some-injective y x e) h.0
  All-get_elem? P (y ∷ xs) (suc i) h e = All-get_elem? P xs i h.1 e

module _ {ℓ} {A : Type ℓ} (p : A → Bool) where
  pub position_sound :
      (xs : List A) (i : ℕ)
      → position p xs ≡ some i
      → (x : A) × (get_elem? xs i ≡ some x) × (p x ≡ true)
  position_sound [] i h = cc
  position_sound (x ∷ xs) i h = elim (Bool-cases (p x)) [
    | inl hit ↦ (x, rw (sym (some-injective 0 i (rw (hit, position) at h))) refl, hit)
    | inr miss ↦ elim (Option-cases (position p xs)) [
      | inl e ↦ absurd (ground arith)
      | inr (j, e) ↦
          let (y, found, ok) = position_sound xs j e in
          let next : i ≡ suc j = sym (some-injective (suc j) i (rw (miss, e, position) at h)) in
          (y, rw next found, ok)
    ]
  ]

  pub position_complete :
      (xs : List A) (i : ℕ) (x : A)
      → get_elem? xs i ≡ some x
      → p x ≡ true
      → (j : ℕ) × (position p xs ≡ some j)
  position_complete [] i x e h = cc
  position_complete (y ∷ xs) zero x e h =
      let passes : p y ≡ true = subst (λ z. p z ≡ true) (sym (some-injective y x e)) h in
      (0, rw (passes, position))
  position_complete (y ∷ xs) (suc i) x e h = elim (Bool-cases (p y)) [
    | inl hit ↦ (0, rw (hit, position))
    | inr miss ↦
        let (j, found) = position_complete xs i x e h in (suc j, rw (miss, found, position))
  ]
