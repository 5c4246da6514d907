-- ===== src/Prelude/Word.antt =====
-- Rust's unsigned integers as native numbers: `u64` and `usize` (64 bits). Plain operators wrap, as
-- in a release build; the `checked_` ones return an option.
use Prim.Native.Nat.{ℕ, zero, suc, ◌+◌, ◌-◌, ◌*◌, ◌/◌, ◌%◌, ◌^◌}
use mathlib.Core.Option.{Option, none, some}
use conxian_nexus.Prelude.Tests.{ltb, leb, if◌then◌else◌}

abbrev pub u64_mod : ℕ
u64_mod = 2 ^ 64

abbrev pub add64 : ℕ → ℕ → ℕ
add64 a b = (a + b) % u64_mod

abbrev pub sub64 : ℕ → ℕ → ℕ
sub64 a b = (a + u64_mod - b) % u64_mod

abbrev pub mul64 : ℕ → ℕ → ℕ
mul64 a b = (a * b) % u64_mod

abbrev pub saturating_sub : ℕ → ℕ → ℕ
saturating_sub a b = a - b

abbrev pub checked_add : ℕ → ℕ → Option ℕ
checked_add a b = if ltb (a + b) u64_mod then some (a + b) else none

abbrev pub checked_sub : ℕ → ℕ → Option ℕ
checked_sub a b = if leb b a then some (a - b) else none

-- `1u64.checked_shl(k)`: the shift fails at 64 bits and more.
abbrev pub checked_shl_one : ℕ → Option ℕ
checked_shl_one k = if ltb k 64 then some (2 ^ k) else none

-- The set bits among the `w` low ones.
unfoldable pub ones : ℕ → ℕ → ℕ
ones zero n = 0
ones (suc w) n = n % 2 + ones w (n / 2)

unfoldable pub count_ones : ℕ → ℕ
count_ones n = ones 64 n
