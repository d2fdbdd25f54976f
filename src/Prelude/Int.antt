-- ===== src/Prelude/Int.antt =====
-- Signed integers over the native numbers, and the casts of C between `int16_t` and `uint16_t`.
use Prim.Native.Nat.{ℕ, suc, ◌-◌, ◌%◌, ◌^◌, ◌≤◌}
use rtl_sdr.Prelude.Tests.{leb, if◌then◌else◌}

-- `negsuc n` is -(n + 1).
pub data ℤ : Type 0 where
  pos : ℕ → ℤ
  negsuc : ℕ → ℤ

abbrev pub pos_part : ℤ → ℕ
pos_part (pos n) = n
pos_part (negsuc n) = 0

abbrev pub neg_part : ℤ → ℕ
neg_part (pos n) = 0
neg_part (negsuc n) = suc n

-- a - b, as an integer.
abbrev pub sub_ℕ : ℕ → ℕ → ℤ
sub_ℕ a b = if leb b a then pos (a - b) else negsuc (b - a - 1)

-- The values of an `int16_t`.
abbrev pub IsInt16 : ℤ → Type 0
IsInt16 a = (pos_part a ≤ 2 ^ 15 - 1) × (neg_part a ≤ 2 ^ 15)

-- `(uint16_t)a`
abbrev pub cast_u16 : ℤ → ℕ
cast_u16 (pos n) = n % 2 ^ 16
cast_u16 (negsuc n) = 2 ^ 16 - 1 - n % 2 ^ 16
