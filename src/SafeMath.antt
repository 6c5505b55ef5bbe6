-- ===== src/SafeMath.antt =====
-- consensus/safe_math.go: int32 arithmetic and conversions that detect an overflow. A call that
-- panics, and a conversion that returns an error, give `overflow`.
pub mod Exact
use go_minimal_pbft.Prelude.{ℕ, ◌≡◌, Bool, true, false, ◌&&◌, if◌then◌else◌}
use go_minimal_pbft.Prelude.Int.{
  ℤ, pos, negsuc, ◌+ℤ◌, ◌-ℤ◌, ltb_ℤ, min_int32, max_int32, wrap_int32,
}

pub data Checked : Type 0 where
  value : ℤ → Checked
  overflow : Checked

-- The bound that the guard compares with is itself int32 arithmetic, and wraps.
unfoldable pub safe_add_int32 : ℤ → ℤ → Checked
safe_add_int32 a b =
    if ltb_ℤ (pos 0) b && ltb_ℤ (wrap_int32 (max_int32 -ℤ b)) a
    then overflow
    else if ltb_ℤ b (pos 0) && ltb_ℤ a (wrap_int32 (min_int32 -ℤ b))
    then overflow
    else value (wrap_int32 (a +ℤ b))

unfoldable pub safe_sub_int32 : ℤ → ℤ → Checked
safe_sub_int32 a b =
    if ltb_ℤ (pos 0) b && ltb_ℤ a (wrap_int32 (min_int32 +ℤ b))
    then overflow
    else if ltb_ℤ b (pos 0) && ltb_ℤ (wrap_int32 (max_int32 +ℤ b)) a
    then overflow
    else value (wrap_int32 (a -ℤ b))

unfoldable pub safe_convert_int32 : ℤ → Checked
safe_convert_int32 a =
    if ltb_ℤ max_int32 a
    then overflow
    else if ltb_ℤ a min_int32
    then overflow
    else value (wrap_int32 a)

-- `uint8(a)` and `int8(a)` after their range tests, where the value is unchanged.
unfoldable pub safe_convert_uint8 : ℤ → Checked
safe_convert_uint8 a =
    if ltb_ℤ (pos 255) a then overflow else if ltb_ℤ a (pos 0) then overflow else value a

unfoldable pub safe_convert_int8 : ℤ → Checked
safe_convert_int8 a =
    if ltb_ℤ (pos 127) a then overflow else if ltb_ℤ a (negsuc 127) then overflow else value a

unfoldable pub safe_convert_int32_from_uint32 : ℕ → Checked
safe_convert_int32_from_uint32 a =
    let b = wrap_int32 (pos a) in if ltb_ℤ b (pos 0) then overflow else value b

unfoldable pub safe_convert_uint32_from_int32 : ℤ → Checked
safe_convert_uint32_from_int32 a = if ltb_ℤ a (pos 0) then overflow else value a
