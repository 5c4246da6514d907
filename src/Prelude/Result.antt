-- ===== src/Prelude/Result.antt =====
-- Rust's `Result`, with `?` as the bind of a `do` block.
use mathlib.Core.Path.{◌≡◌, refl, ap}
use mathlib.Core.Bool.{Bool, true, false, not}
use conxian_nexus.Prelude.Tests.{if◌then◌else◌}
use mathlib.Core.Option.{Option, none, some}

pub data Result {ℓ κ} (A : Type ℓ) (E : Type κ) : Type (ℓ ⊔ κ) where
  ok : A → Result A E
  err : E → Result A E

-- `?`: an error ends the chain.
infixl 5 ◌>>◌ ◌>>=◌
abbrev pub ◌>>=◌ {μ ℓ κ} :
    {E : Type μ} {A : Type ℓ} {B : Type κ} → Result A E → (A → Result B E) → Result B E
err reason >>= next = err reason
ok value >>= next = next value

-- `option.ok_or(e)?`
abbrev pub ok_or {ℓ κ} : {A : Type ℓ} {E : Type κ} → Option A → E → Result A E
ok_or none e = err e
ok_or (some a) e = ok a

-- A statement of a `do` block, whose value is not used.
abbrev pub ◌>>◌ {μ κ} : {E : Type μ} {B : Type κ} → Result (Unit {0}) E → Result B E → Result B E
statement >> rest = statement >>= λ done. rest

-- What a successful chain has computed.
pub >>=-eq-ok {μ ℓ κ} :
    {E : Type μ} {A : Type ℓ} {B : Type κ} (first : Result A E) (next : A → Result B E) {result : B}
    → (first >>= next) ≡ ok result
    → (value : A) × (first ≡ ok value) × (next value ≡ ok result)
>>=-eq-ok (err reason) next done = cc
>>=-eq-ok (ok value) next done = (value, refl, done)

abbrev ok_value {ℓ κ} : {A : Type ℓ} {E : Type κ} → A → Result A E → A
ok_value d (ok a) = a
ok_value d (err e) = d

pub ok_inj {ℓ κ} : {A : Type ℓ} {E : Type κ} {a b : A} → ◌≡◌ {A = Result A E} (ok a) (ok b) → a ≡ b
ok_inj {a} h = ap (ok_value a) h

-- A guard that a successful chain has passed.
pub guard_passed {ℓ κ} :
    {A : Type ℓ} {E : Type κ} (b : Bool) (e : E) (rest : Result A E) {a : A}
    → (if b then err e else rest) ≡ ok a
    → (b ≡ false) × (rest ≡ ok a)
guard_passed true e rest h = cc
guard_passed false e rest h = (refl, h)

pub not_refused : (b : Bool) → not b ≡ false → b ≡ true
not_refused true h = refl
not_refused false h = cc

pub ok_or-some {ℓ κ} :
    {A : Type ℓ} {E : Type κ} (o : Option A) (e : E) {a : A} → ok_or o e ≡ ok a → o ≡ some a
ok_or-some none e h = cc
ok_or-some (some b) e h = ap some (ok_inj h)
