-- ===== src/Prelude/Words.antt =====
-- Machine words as native numbers: the wrap-around of `u16`/`u32` arithmetic, and the bit-field
-- macros of the kernel (`BIT`, `FIELD_GET`, `FIELD_PREP`) as division and remainder.
use Prim.Native.Nat.{ℕ, ◌+◌, ◌-◌, ◌*◌, ◌/◌, ◌%◌, ◌^◌, compare, Ordering}
use mathlib.Core.Bool.{Bool, true, false}

abbrev pub u16 : ℕ → ℕ
u16 n = n % 65536

abbrev pub u32 : ℕ → ℕ
u32 n = n % 4294967296

-- `a - b` on `unsigned int`, for `b` in range.
abbrev pub sub32 : ℕ → ℕ → ℕ
sub32 a b = (a + 4294967296 - b) % 4294967296

-- A 32-bit pattern read as `int` is negative.
abbrev pub is_neg : ℕ → Bool
is_neg w = elim (compare 2147483648 w) [ Ordering.gt ↦ false | _ ↦ true ]

-- `FIELD_GET(GENMASK(lo + width - 1, lo), x)`, given the two powers of two.
abbrev pub field_get : ℕ → ℕ → ℕ → ℕ
field_get lo width x = x / 2 ^ lo % 2 ^ width

-- `FIELD_PREP(GENMASK(lo + width - 1, lo), v)`. Disjoint fields are joined by `+`.
abbrev pub field_prep : ℕ → ℕ → ℕ → ℕ
field_prep lo width v = v % 2 ^ width * 2 ^ lo

-- `x & BIT(k)` as a truth value.
abbrev pub test_bit : ℕ → ℕ → Bool
test_bit k x = elim (compare (x / 2 ^ k % 2) 1) [ Ordering.eq ↦ true | _ ↦ false ]

-- `x & ~BIT(k)` and `x | BIT(k)`.
abbrev pub clear_bit : ℕ → ℕ → ℕ
clear_bit k x = x - x / 2 ^ k % 2 * 2 ^ k

abbrev pub set_bit : ℕ → ℕ → ℕ
set_bit k x = x - x / 2 ^ k % 2 * 2 ^ k + 2 ^ k
