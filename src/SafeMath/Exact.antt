-- ===== src/SafeMath/Exact.antt =====
-- consensus/safe_math.go: the results of the checked arithmetic, and integers.
use go_minimal_pbft.Prelude.{ℕ, ◌<◌, ◌≡◌, Bool, ◌&&◌, if◌then◌else◌, arith}
use go_minimal_pbft.Prelude.Int.{
  ℤ, pos, wrap_int32, ◌+ℤ◌, ◌-ℤ◌, min_int32, max_int32, leb_ℤ, IsInt32, +ℤ_parts, -ℤ_parts,
  wrap_int32_id,
}
use go_minimal_pbft.SafeMath.{
  value, overflow, safe_add_int32, safe_sub_int32, safe_convert_int32,
  safe_convert_int32_from_uint32,
}

abbrev pub in_int32 : ℤ → Bool
in_int32 a = leb_ℤ min_int32 a && leb_ℤ a max_int32

-- On int32 arguments the checked sum is the integer sum where that is an int32, and `overflow`
-- exactly where it is not.
pub safe_add_int32_exact :
    (a b : ℤ)
    → IsInt32 a
    → IsInt32 b
    → safe_add_int32 a b ≡ (if in_int32 (a +ℤ b) then value (a +ℤ b) else overflow)
unfolding safe_add_int32
safe_add_int32_exact a b ha hb = ground (
  arith,
  +ℤ_parts a b,
  -ℤ_parts max_int32 b,
  -ℤ_parts min_int32 b,
  wrap_int32_id (max_int32 -ℤ b),
  wrap_int32_id (min_int32 -ℤ b),
  wrap_int32_id (a +ℤ b),
)

-- On int32 arguments the checked difference is the integer difference where that is an int32, and
-- `overflow` exactly where it is not.
pub safe_sub_int32_exact :
    (a b : ℤ)
    → IsInt32 a
    → IsInt32 b
    → safe_sub_int32 a b ≡ (if in_int32 (a -ℤ b) then value (a -ℤ b) else overflow)
unfolding safe_sub_int32
safe_sub_int32_exact a b ha hb = ground (
  arith,
  -ℤ_parts a b,
  +ℤ_parts max_int32 b,
  +ℤ_parts min_int32 b,
  wrap_int32_id (max_int32 +ℤ b),
  wrap_int32_id (min_int32 +ℤ b),
  wrap_int32_id (a -ℤ b),
)

-- The conversion of a uint32 to int32 gives the number where it is an int32, and `overflow`
-- exactly where it is not.
pub safe_convert_int32_from_uint32_exact :
    (a : ℕ)
    → a < 4294967296
    → safe_convert_int32_from_uint32 a ≡ (if in_int32 (pos a) then value (pos a) else overflow)
unfolding safe_convert_int32_from_uint32 wrap_int32
safe_convert_int32_from_uint32_exact a h = ground (arith, h)

-- The conversion of any integer to int32 gives the integer where it is an int32, and `overflow`
-- exactly where it is not.
pub safe_convert_int32_exact :
    (a : ℤ) → safe_convert_int32 a ≡ (if in_int32 a then value a else overflow)
unfolding safe_convert_int32
safe_convert_int32_exact a = ground (arith, wrap_int32_id a)
