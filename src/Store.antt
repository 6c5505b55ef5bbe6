-- ===== src/Store.antt =====
-- cmd/main/default_block_store.go: blocks and commits in LevelDB. The database and RLP are parameters
-- with the laws that are documented for them: a `Put` that returns no error is seen by a `Get` of its
-- key and by no other, and decoding undoes encoding.
pub mod Keys
pub mod Refinement
pub mod Interface
use go_minimal_pbft.Prelude.{
  ℕ, ◌+◌, ◌≡◌, ◌≢◌, Bool, not, Option, none, some, List, [], ◌∷◌, ◌++◌, ◌==◌, u64, if◌then◌else◌,
}
use go_minimal_pbft.Messages.{Bytes}
use go_minimal_pbft.Library.{Library}
use go_minimal_pbft.Words.{put_uint64, get_uint64}

-- `put` is none where `Put` returns an error; `get` is none where `Get` does.
pub record Database : Type 1 where
  pub Db : Type 0
  pub get : Db → Bytes → Option Bytes
  pub put : Db → Bytes → Bytes → Option Db
  pub get-put_same : (d t : Db) (k v : Bytes) → put d k v ≡ some t → get t k ≡ some v
  pub get-put_other : (d t : Db) (k j v : Bytes) → put d k v ≡ some t → j ≢ k → get t j ≡ get d j

-- RLP of blocks and commits; `none` is an error.
pub record Rlp (x : Library) : Type 0 where
  pub encode_block : x.Block → Option Bytes
  pub decode_block : Bytes → Option x.Block
  pub encode_commit : x.Commit → Option Bytes
  pub decode_commit : Bytes → Option x.Commit
  pub decode-encode_block :
      (b : x.Block) (d : Bytes) → encode_block b ≡ some d → decode_block d ≡ some b
  pub decode-encode_commit :
      (c : x.Commit) (d : Bytes) → encode_commit c ≡ some d → decode_commit d ≡ some c

-- What a load gives: a value, nil where the key is missing, or the panic of bytes that do not decode.
pub data Loaded (A : Type 0) : Type 0 where
  found : A → Loaded A
  missing : Loaded A
  corrupt : Loaded A

-- "height", and "block" and "commit" with the height's bytes.
abbrev height_key : Bytes
height_key = 104 ∷ 101 ∷ 105 ∷ 103 ∷ 104 ∷ 116 ∷ []

abbrev seen_commit_key : Bytes
seen_commit_key = 115 ∷ 101 ∷ 101 ∷ 110 ∷ 95 ∷ 99 ∷ 111 ∷ 109 ∷ 109 ∷ 105 ∷ 116 ∷ []

unfoldable pub block_key : ℕ → Bytes
block_key height = 98 ∷ 108 ∷ 111 ∷ 99 ∷ 107 ∷ put_uint64 height

unfoldable pub commit_key : ℕ → Bytes
commit_key height = 99 ∷ 111 ∷ 109 ∷ 109 ∷ 105 ∷ 116 ∷ put_uint64 height

module _ {A : Type 0} where
  abbrev pub decoded : Option A → Loaded A
  decoded none = corrupt
  decoded (some a) = found a

  abbrev pub loaded : (Bytes → Option A) → Option Bytes → Loaded A
  loaded decode none = missing
  loaded decode (some bytes) = decoded (decode bytes)

abbrev pub or_zero : Option ℕ → ℕ
or_zero none = 0
or_zero (some n) = n

-- A value of another length than 8 counts as 0.
unfoldable pub height_of : Option Bytes → ℕ
unfolding get_uint64
height_of none = 0
height_of (some bytes) = or_zero (get_uint64 bytes)

module _ (x : Library) (db : Database) (rlp : Rlp x) where
  unfoldable pub height : db.Db → ℕ
  height d = height_of (db.get d height_key)

  abbrev pub base : db.Db → ℕ
  base d = 0

  unfoldable pub size : db.Db → ℕ
  unfolding height
  size d = if height d == 0 then 0 else u64 (height d + 1)

  unfoldable pub load_block : ℕ → db.Db → Loaded x.Block
  unfolding block_key
  load_block n d = loaded rlp.decode_block (db.get d (block_key n))

  unfoldable pub load_block_commit : ℕ → db.Db → Loaded x.Commit
  unfolding commit_key
  load_block_commit n d = loaded rlp.decode_commit (db.get d (commit_key n))

  unfoldable pub load_seen_commit : db.Db → Loaded x.Commit
  load_seen_commit d = loaded rlp.decode_commit (db.get d seen_commit_key)

  abbrev pub continued : db.Db → (db.Db → db.Db) → Option db.Db → db.Db
  continued d next none = d
  continued d next (some t) = next t

  -- A `Put` that fails ends `SaveBlock`, with what was written before it.
  abbrev pub then_put : db.Db → Bytes → Bytes → (db.Db → db.Db) → db.Db
  then_put d k v next = continued d next (db.put d k v)

  unfoldable pub save_height : ℕ → db.Db → db.Db
  save_height n d = then_put d height_key (put_uint64 n) (λ t. t)

  abbrev pub put_commit : ℕ → Option Bytes → db.Db → db.Db
  unfolding save_height
  put_commit n none d = d
  put_commit n (some bytes) d = then_put d (commit_key n) bytes (save_height n)

  abbrev pub put_block : ℕ → x.Commit → Option Bytes → db.Db → db.Db
  unfolding save_height
  put_block n c none d = d
  put_block n c (some bytes) d = then_put d (block_key n) bytes (put_commit n (rlp.encode_commit c))

  -- `none` is the panic on a block that does not follow the last one.
  unfoldable pub save_block : x.Block → x.Commit → db.Db → Option db.Db
  unfolding height save_height
  save_block b c d =
      if not (x.number b == u64 (height d + 1))
      then none
      else some (put_block (x.number b) c (rlp.encode_block b) d)
