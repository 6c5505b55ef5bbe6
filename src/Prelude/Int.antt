-- ===== src/Prelude/Int.antt =====
-- Signed integers over the native numbers: Go's `int32`, `int64` and `time.Duration`, whose ranges
-- the code that computes with them checks or wraps.
use Prim.Native.Nat.{ℕ, suc, ◌+◌, ◌-◌, ◌/◌, ◌%◌, ◌≤◌, ◌<◌}
use mathlib.Core.Path.{◌≡◌}
use mathlib.Core.Bool.{Bool}
use native.Mathlib.Omega.{arith}
use go_minimal_pbft.Prelude.Tests.{ltb, leb, ◌==◌, if◌then◌else◌}

-- `negsuc n` is -(n + 1).
pub data ℤ : Type 0 where
  pos : ℕ → ℤ
  negsuc : ℕ → ℤ

abbrev pub pos_part : ℤ → ℕ
pos_part (pos n) = n
pos_part (negsuc n) = 0

abbrev pub neg_part : ℤ → ℕ
neg_part (pos n) = 0
neg_part (negsuc n) = suc n

-- a - b, as an integer.
abbrev pub sub_ℕ : ℕ → ℕ → ℤ
sub_ℕ a b = if leb b a then pos (a - b) else negsuc (b - a - 1)

infixl 65 ◌+ℤ◌ ◌-ℤ◌
infix 50 ◌≤ℤ◌ ◌<ℤ◌
unfoldable pub ◌+ℤ◌ : ℤ → ℤ → ℤ
a +ℤ b = sub_ℕ (pos_part a + pos_part b) (neg_part a + neg_part b)

unfoldable pub ◌-ℤ◌ : ℤ → ℤ → ℤ
a -ℤ b = sub_ℕ (pos_part a + neg_part b) (neg_part a + pos_part b)

abbrev pub ◌≤ℤ◌ : ℤ → ℤ → Type 0
a ≤ℤ b = pos_part a + neg_part b ≤ pos_part b + neg_part a

abbrev pub ◌<ℤ◌ : ℤ → ℤ → Type 0
a <ℤ b = pos_part a + neg_part b < pos_part b + neg_part a

abbrev pub ltb_ℤ : ℤ → ℤ → Bool
ltb_ℤ a b = ltb (pos_part a + neg_part b) (pos_part b + neg_part a)

abbrev pub leb_ℤ : ℤ → ℤ → Bool
leb_ℤ a b = leb (pos_part a + neg_part b) (pos_part b + neg_part a)

abbrev pub eqb_ℤ : ℤ → ℤ → Bool
eqb_ℤ a b = (pos_part a + neg_part b) == (pos_part b + neg_part a)

-- One lemma for each operation lets `omega` work with the operations shut.
pub +ℤ_parts :
    (a b : ℤ)
    → pos_part (a +ℤ b) + neg_part a + neg_part b ≡ neg_part (a +ℤ b) + pos_part a + pos_part b
unfolding ◌+ℤ◌
+ℤ_parts a b = ground arith

pub -ℤ_parts :
    (a b : ℤ)
    → pos_part (a -ℤ b) + neg_part a + pos_part b ≡ neg_part (a -ℤ b) + pos_part a + neg_part b
unfolding ◌-ℤ◌
-ℤ_parts a b = ground arith

pub eq_of_parts : (a b : ℤ) → pos_part a + neg_part b ≡ pos_part b + neg_part a → a ≡ b
eq_of_parts a b h = ground arith

pub ruleset int_laws = (arith, +ℤ_parts, -ℤ_parts, eq_of_parts)

abbrev pub min_int32 : ℤ
min_int32 = negsuc 2147483647

abbrev pub max_int32 : ℤ
max_int32 = pos 2147483647

-- The values of a Go `int32`.
pub record IsInt32 (a : ℤ) : Type 0 where
  pub above : min_int32 ≤ℤ a
  pub below : a ≤ℤ max_int32

-- `int32(a)` of an `int64`, and the result of `int32` arithmetic: the value modulo 2^32.
unfoldable pub wrap_int32 : ℤ → ℤ
wrap_int32 (pos n) =
    let m = n % 4294967296 in if ltb m 2147483648 then pos m else negsuc (4294967295 - m)
wrap_int32 (negsuc n) =
    let m = n % 4294967296 in if ltb m 2147483648 then negsuc m else pos (4294967295 - m)

pub wrap_int32_id : (a : ℤ) → IsInt32 a → wrap_int32 a ≡ a
unfolding wrap_int32
wrap_int32_id (pos n) h = ground arith
wrap_int32_id (negsuc n) h = ground arith

pub wrap_int32-IsInt32 : (a : ℤ) → IsInt32 (wrap_int32 a)
unfolding wrap_int32
wrap_int32-IsInt32 (pos n) = ground arith
wrap_int32-IsInt32 (negsuc n) = ground arith

-- The conversion of an integer to `uint32`.
abbrev pub to_u32 : ℤ → ℕ
to_u32 (pos n) = n % 4294967296
to_u32 (negsuc n) = 4294967295 - n % 4294967296

-- The result of `int64` arithmetic: the value modulo 2^64.
unfoldable pub wrap_int64 : ℤ → ℤ
wrap_int64 (pos n) =
    let m = n % 18446744073709551616 in
    if ltb m 9223372036854775808 then pos m else negsuc (18446744073709551615 - m)
wrap_int64 (negsuc n) =
    let m = n % 18446744073709551616 in
    if ltb m 9223372036854775808 then negsuc m else pos (18446744073709551615 - m)

-- Half of -(n + 1), towards 0.
abbrev pub neg_half : ℕ → ℤ
neg_half n = if n == 0 then pos 0 else negsuc ((n + 1) / 2 - 1)
