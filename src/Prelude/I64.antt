-- ===== src/Prelude/I64.antt =====
-- Sums and differences of `i64` in a release build, which wrap, and when they do not.
use conxian_nexus.Prelude.{◌-◌, ◌^◌, ◌≡◌, ◌⊎◌, inl, inr, true, false, Bool-cases, arith}
use conxian_nexus.Prelude.Int.{ℤ, pos, negsuc, ◌+ℤ◌, ◌-ℤ◌, ◌≤ℤ◌, leb_ℤ, as_u64, as_i64}

unfoldable pub i64_add : ℤ → ℤ → ℤ
unfolding as_u64 as_i64 ◌+ℤ◌
i64_add a b = as_i64 (as_u64 (a +ℤ b))

unfoldable pub i64_sub : ℤ → ℤ → ℤ
unfolding as_u64 as_i64 ◌-ℤ◌
i64_sub a b = as_i64 (as_u64 (a -ℤ b))

-- The values of an `i64`.
pub record IsI64 (x : ℤ) : Type 0 where
  pub least : negsuc (2 ^ 63 - 1) ≤ℤ x
  pub greatest : x ≤ℤ pos (2 ^ 63 - 1)

wrap_kept : (x : ℤ) → IsI64 x → as_i64 (as_u64 x) ≡ x
unfolding as_u64 as_i64
wrap_kept x h = let low = h.least in let high = h.greatest in ground arith

wrap_above : (x : ℤ) → pos (2 ^ 63) ≤ℤ x → x ≤ℤ pos (2 ^ 64 - 1) → as_i64 (as_u64 x) ≤ℤ negsuc 0
unfolding as_u64 as_i64
wrap_above x low high = ground arith

pub i64_add_kept : (a b : ℤ) → IsI64 (a +ℤ b) → i64_add a b ≡ a +ℤ b
unfolding i64_add
i64_add_kept a b h = wrap_kept (a +ℤ b) h

pub i64_sub_kept : (a b : ℤ) → IsI64 (a -ℤ b) → i64_sub a b ≡ a -ℤ b
unfolding i64_sub
i64_sub_kept a b h = wrap_kept (a -ℤ b) h

-- The difference of a number and one that is not after it is right, or it is negative.
pub i64_sub_cases :
    (a b : ℤ)
    → IsI64 a
    → IsI64 b
    → b ≤ℤ a
    → ((a -ℤ b ≤ℤ pos (2 ^ 63 - 1)) × (i64_sub a b ≡ a -ℤ b))
      ⊎ ((pos (2 ^ 63) ≤ℤ a -ℤ b) × (i64_sub a b ≤ℤ negsuc 0))
unfolding i64_sub
i64_sub_cases a b ha hb h = elim (Bool-cases (leb_ℤ (a -ℤ b) (pos (2 ^ 63 - 1)))) [
  | inl e ↦ inl (
    order e,
    wrap_kept (a -ℤ b) (record { least = unfold ◌-ℤ◌ in ground arith; greatest = order e }),
  )
  | inr e ↦ inr (far e, wrap_above (a -ℤ b) (far e) (wide ha.greatest hb.least))
]
  where
    order : leb_ℤ (a -ℤ b) (pos (2 ^ 63 - 1)) ≡ true → a -ℤ b ≤ℤ pos (2 ^ 63 - 1)
    order e = ground arith

    far : leb_ℤ (a -ℤ b) (pos (2 ^ 63 - 1)) ≡ false → pos (2 ^ 63) ≤ℤ a -ℤ b
    far e = ground arith

    wide : a ≤ℤ pos (2 ^ 63 - 1) → negsuc (2 ^ 63 - 1) ≤ℤ b → a -ℤ b ≤ℤ pos (2 ^ 64 - 1)
    wide high low = unfold ◌-ℤ◌ in ground arith
