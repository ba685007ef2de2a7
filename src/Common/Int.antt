-- ===== src/Common/Int.antt =====
-- Go's signed integers: `int` (64 bits) and `int32`, as integers with their wrap-around written out.
use Prim.Native.Nat.{ℕ, suc, ◌+◌, ◌-◌, ◌/◌, ◌%◌, ◌^◌, ◌≤◌}
use mathlib.Core.Path.{◌≡◌}
use mathlib.Core.Bool.{Bool, true, false}
use native.Mathlib.Omega.{arith}
use open_kmip_server.Common.Tests.{ltb, leb, ◌==◌, if◌then◌else◌}

-- `negsuc n` is -(n + 1).
pub data ℤ : Type 0 where
  pos : ℕ → ℤ
  negsuc : ℕ → ℤ

abbrev pub pos_part : ℤ → ℕ
pos_part (pos n) = n
pos_part (negsuc n) = 0

abbrev pub neg_part : ℤ → ℕ
neg_part (pos n) = 0
neg_part (negsuc n) = suc n

-- a <= b, a == b
abbrev pub leb_ℤ : ℤ → ℤ → Bool
leb_ℤ a b = leb (pos_part a + neg_part b) (pos_part b + neg_part a)

abbrev pub eq_ℤ : ℤ → ℤ → Bool
eq_ℤ (pos a) (pos b) = a == b
eq_ℤ (negsuc a) (negsuc b) = a == b
eq_ℤ _ _ = false

pub eq_ℤ→eq : (a b : ℤ) → eq_ℤ a b ≡ true → a ≡ b
eq_ℤ→eq a b h = ground arith

pub eq_ℤ-refl : (a : ℤ) → eq_ℤ a a ≡ true
eq_ℤ-refl a = ground arith

-- a / k for a positive k: Go's quotient is truncated towards 0.
abbrev pub quot : ℤ → ℕ → ℤ
quot (pos n) k = pos (n / k)
quot (negsuc n) k = if (suc n / k) == 0 then pos 0 else negsuc (suc n / k - 1)

-- The value of a w-bit two's complement word whose bits, as a number, are n.
abbrev pub signed_word : ℕ → ℕ → ℤ
signed_word w n = if ltb n (2 ^ (w - 1)) then pos n else negsuc (2 ^ w - n - 1)

-- a + 1 in an `int` of 64 bits.
unfoldable pub inc_int : ℤ → ℤ
inc_int (pos n) = signed_word 64 ((n + 1) % 2 ^ 64)
inc_int (negsuc n) = if n == 0 then pos 0 else negsuc (n - 1)

-- The conversion `int32(a)` of an `int`: the low 32 bits.
unfoldable pub to_int32 : ℤ → ℤ
to_int32 (pos n) = signed_word 32 (n % 2 ^ 32)
to_int32 (negsuc n) = signed_word 32 ((2 ^ 64 - 1 - n) % 2 ^ 32)

pub inc_int-pos : (n : ℕ) → n + 1 ≤ 2 ^ 63 - 1 → inc_int (pos n) ≡ pos (n + 1)
unfolding inc_int
inc_int-pos n h = ground arith
