-- ===== src/Prelude/Int.antt =====
-- Signed integers over the native numbers, and the two's complement int64.
use Prim.Native.Nat.{ℕ, suc, ◌+◌, ◌-◌, ◌*◌, ◌%◌, ◌^◌, ◌<◌}
use mathlib.Core.Path.{◌≡◌}
use mathlib.Core.Bool.{Bool}
use native.Mathlib.Omega.{arith}
use bs_notify_hub.Prelude.Tests.{ltb, leb, if◌then◌else◌}

-- `negsuc n` is -(n + 1).
pub data ℤ : Type 0 where
  pos : ℕ → ℤ
  negsuc : ℕ → ℤ

abbrev pub pos_part : ℤ → ℕ
pos_part (pos n) = n
pos_part (negsuc n) = 0

abbrev pub neg_part : ℤ → ℕ
neg_part (pos n) = 0
neg_part (negsuc n) = suc n

-- a - b, as an integer.
abbrev pub sub_ℕ : ℕ → ℕ → ℤ
sub_ℕ a b = if leb b a then pos (a - b) else negsuc (b - a - 1)

infixl 65 ◌+ℤ◌
unfoldable pub ◌+ℤ◌ : ℤ → ℤ → ℤ
a +ℤ b = sub_ℕ (pos_part a + pos_part b) (neg_part a + neg_part b)

abbrev pub leb_ℤ : ℤ → ℤ → Bool
leb_ℤ a b = leb (pos_part a + neg_part b) (pos_part b + neg_part a)

abbrev pub ltb_ℤ : ℤ → ℤ → Bool
ltb_ℤ a b = ltb (pos_part a + neg_part b) (pos_part b + neg_part a)

abbrev pub int64_mod : ℕ
int64_mod = 2 ^ 64

abbrev pub int64_half : ℕ
int64_half = 2 ^ 63

-- The int64 with the bits of an unsigned 64-bit number.
abbrev pub signed64 : ℕ → ℤ
signed64 u = if ltb u int64_half then pos u else negsuc (int64_mod - 1 - u)

-- An integer, wrapped to an int64.
abbrev pub wrap64 : ℤ → ℤ
wrap64 (pos n) = signed64 (n % int64_mod)
wrap64 (negsuc n) = signed64 (int64_mod - 1 - n % int64_mod)

-- In range nothing wraps.
pub wrap64_in_range : (n : ℕ) → n < int64_half → wrap64 (pos n) ≡ pos n
wrap64_in_range n h = ground arith

-- An integer, wrapped to an int32 and to an int8.
abbrev pub signed32 : ℕ → ℤ
signed32 u = if ltb u (2 ^ 31) then pos u else negsuc (2 ^ 32 - 1 - u)

abbrev pub wrap32 : ℤ → ℤ
wrap32 (pos n) = signed32 (n % 2 ^ 32)
wrap32 (negsuc n) = signed32 (2 ^ 32 - 1 - n % 2 ^ 32)

abbrev pub signed8 : ℕ → ℤ
signed8 u = if ltb u 128 then pos u else negsuc (255 - u)

abbrev pub wrap8 : ℤ → ℤ
wrap8 (pos n) = signed8 (n % 256)
wrap8 (negsuc n) = signed8 (255 - n % 256)

-- time.Second, in nanoseconds
abbrev pub second : ℕ
second = 1_000_000_000

-- time.Duration(s) * time.Second
unfoldable pub seconds : ℤ → ℤ
seconds (pos n) = wrap64 (pos (n * second))
seconds (negsuc n) = wrap64 (negsuc (suc n * second - 1))
