-- ===== src/Words.antt =====
-- `encoding/binary`'s big-endian integers, as the code uses them: 8 bytes for a height, 4 for a length.
use go_minimal_pbft.Prelude.{
  ℕ, ◌+◌, ◌*◌, ◌/◌, ◌%◌, ◌<◌, ◌≡◌, Option, none, some, List, [], ◌∷◌, arith,
}

-- `PutUint64`
unfoldable pub put_uint64 : ℕ → List ℕ
put_uint64 n =
    (n / 72057594037927936 % 256)
    ∷ (n / 281474976710656 % 256)
    ∷ (n / 1099511627776 % 256)
    ∷ (n / 4294967296 % 256)
    ∷ (n / 16777216 % 256)
    ∷ (n / 65536 % 256)
    ∷ (n / 256 % 256)
    ∷ (n % 256)
    ∷ []

-- `Uint64` of a slice of 8 bytes; `none` for any other length.
unfoldable pub get_uint64 : List ℕ → Option ℕ
get_uint64 (a ∷ b ∷ c ∷ d ∷ e ∷ f ∷ g ∷ h ∷ []) = some (
    a * 72057594037927936
    + b * 281474976710656
    + c * 1099511627776
    + d * 4294967296
    + e * 16777216
    + f * 65536
    + g * 256
    + h)
get_uint64 _ = none

-- `PutUint32`
unfoldable pub put_uint32 : ℕ → List ℕ
put_uint32 n = (n / 16777216 % 256) ∷ (n / 65536 % 256) ∷ (n / 256 % 256) ∷ (n % 256) ∷ []

-- `Uint32` of four bytes.
unfoldable pub get_uint32 : ℕ → ℕ → ℕ → ℕ → ℕ
get_uint32 a b c d = a * 16777216 + b * 65536 + c * 256 + d

pub get_uint64-put_uint64 : (n : ℕ) → n < 18446744073709551616 → get_uint64 (put_uint64 n) ≡ some n
unfolding get_uint64 put_uint64
get_uint64-put_uint64 n h = ground arith

pub get_uint32-put_uint32 :
    (n : ℕ)
    → n < 4294967296
    → get_uint32 (n / 16777216 % 256) (n / 65536 % 256) (n / 256 % 256) (n % 256) ≡ n
unfolding get_uint32
get_uint32-put_uint32 n h = omega arith
