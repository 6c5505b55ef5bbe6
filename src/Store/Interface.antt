-- ===== src/Store/Interface.antt =====
-- cmd/main/default_block_store.go as the block store that the state machine and block sync take.
use go_minimal_pbft.Prelude.{◌+◌, ◌≡◌, refl, true, Option, none, some, u64, ◌==◌, arith}
use go_minimal_pbft.Messages.{Bytes}
use go_minimal_pbft.Library.{Library}
use go_minimal_pbft.Interfaces.{BlockStore}
use go_minimal_pbft.Words.{put_uint64}
use go_minimal_pbft.Store.{
  Database, Rlp, Loaded, found, missing, corrupt, height_key, block_key, commit_key, height,
  load_block, load_block_commit, load_seen_commit, save_block, put_block, put_commit, save_height,
}
use go_minimal_pbft.Store.Refinement.{height-put}

-- The interface has no panic of a load; the store has none where it represents a log.
-- `BlockStore` has nil both for a missing key and for bytes that do not decode, where the code panics.
abbrev pub to_option : {A : Type 0} → Loaded A → Option A
to_option (found a) = some a
to_option missing = none
to_option corrupt = none

abbrev pub default_block_store : (x : Library) (db : Database) → Rlp x → BlockStore x
default_block_store x db rlp = record {
  Store = db.Db;
  store_height = height x db rlp;
  save_block = save_block x db rlp;
  load_block = λ d n. to_option (load_block x db rlp n d);
  load_block_commit = λ d n. to_option (load_block_commit x db rlp n d);
  load_seen_commit = λ d. to_option (load_seen_commit x db rlp d);
}

module _ (x : Library) (db : Database) (rlp : Rlp x)
    (puts : (d : db.Db) (k v : Bytes) → (t : db.Db) × (db.put d k v ≡ some t))
    (block_bytes : (b : x.Block) → (d : Bytes) × (rlp.encode_block b ≡ some d))
    (commit_bytes : (c : x.Commit) → (d : Bytes) × (rlp.encode_commit c ≡ some d)) where
  -- Where no `Put` and no encoding fails, the store takes the block after its last one, and has then
  -- its height: what block sync asks of a store.
  pub save_block-accepts :
      (b : x.Block) (c : x.Commit) (d : db.Db)
      → x.number b ≡ u64 (height x db rlp d + 1)
      → (t : db.Db) × (save_block x db rlp b c d ≡ some t) × (height x db rlp t ≡ x.number b)
  unfolding save_block put_block put_commit save_height
  save_block-accepts b c d follows =
      let n = x.number b in
      let (bb, eb) = block_bytes b in
      let (cb, ec) = commit_bytes c in
      let (t, et) = puts d (block_key n) bb in
      let (u, eu) = puts t (commit_key n) cb in
      let (v, ev) = puts u height_key (put_uint64 n) in
      let next : (n == u64 (height x db rlp d + 1)) ≡ true = ground (arith, follows) in
      (v, rw (next, eb, et, ec, eu, ev) refl, height-put x db rlp n u v (omega (arith, follows)) ev)
