-- ===== src/Store/Keys.antt =====
-- cmd/main/default_block_store.go: the keys of the database are apart.
use go_minimal_pbft.Prelude.{ℕ, ◌<◌, ◌≡◌, ◌≢◌, sym, ap, ◌∙◌, [], ◌∷◌, arith}
use go_minimal_pbft.Messages.{Bytes}
use go_minimal_pbft.Words.{put_uint64, get_uint64, get_uint64-put_uint64}
use go_minimal_pbft.Store.{height_key, block_key, commit_key, or_zero}

-- The bytes of the height in a key.
abbrev after5 : Bytes → Bytes
after5 (a ∷ b ∷ c ∷ d ∷ e ∷ rest) = rest
after5 _ = []

abbrev after6 : Bytes → Bytes
after6 (a ∷ b ∷ c ∷ d ∷ e ∷ f ∷ rest) = rest
after6 _ = []

abbrev first_byte : Bytes → ℕ
first_byte [] = 0
first_byte (a ∷ rest) = a

put_uint64_injective :
    (m n : ℕ)
    → m < 18446744073709551616
    → n < 18446744073709551616
    → put_uint64 m ≡ put_uint64 n
    → m ≡ n
put_uint64_injective m n hm hn same =
    ap or_zero (sym (get_uint64-put_uint64 m hm) ∙ ap get_uint64 same ∙ get_uint64-put_uint64 n hn)

pub block_key_injective :
    (m n : ℕ)
    → m < 18446744073709551616
    → n < 18446744073709551616
    → block_key m ≡ block_key n
    → m ≡ n
unfolding block_key
block_key_injective m n hm hn same = put_uint64_injective m n hm hn (ap after5 same)

pub commit_key_injective :
    (m n : ℕ)
    → m < 18446744073709551616
    → n < 18446744073709551616
    → commit_key m ≡ commit_key n
    → m ≡ n
unfolding commit_key
commit_key_injective m n hm hn same = put_uint64_injective m n hm hn (ap after6 same)

pub block_key-commit_key : (m n : ℕ) → block_key m ≢ commit_key n
unfolding block_key commit_key
block_key-commit_key m n same = grind (arith, ap first_byte same)

pub block_key-height_key : (m : ℕ) → block_key m ≢ height_key
unfolding block_key
block_key-height_key m same = grind (arith, ap first_byte same)

pub commit_key-height_key : (m : ℕ) → commit_key m ≢ height_key
unfolding commit_key
commit_key-height_key m same = grind (arith, ap first_byte same)
