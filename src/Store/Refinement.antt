-- ===== src/Store/Refinement.antt =====
-- cmd/main/default_block_store.go: the database as a log of blocks and their commits.
use go_minimal_pbft.Prelude.{
  ℕ, suc, ◌+◌, ◌<◌, ◌≡◌, refl, sym, ap, subst, ◌∙◌, ◌⊎◌, inl, inr, true, Option, none, some, List,
  [], ◌∷◌, length, ◌==◌, u64, arith,
}
use go_minimal_pbft.Messages.{Bytes}
use go_minimal_pbft.Library.{Library}
use go_minimal_pbft.Words.{put_uint64, get_uint64-put_uint64}
use go_minimal_pbft.Store.Keys.{
  block_key_injective, commit_key_injective, block_key-commit_key, block_key-height_key,
  commit_key-height_key,
}
use go_minimal_pbft.Store.{
  Database, Rlp, found, loaded, decoded, height_key, block_key, commit_key, height_of, or_zero,
  height, load_block, load_block_commit, then_put, continued, save_height, put_commit, put_block,
  save_block,
}

module _ (x : Library) (db : Database) (rlp : Rlp x) where
  abbrev Log : Type 0
  Log = List (x.Block × x.Commit)

  -- The block of this height and its commit are there.
  abbrev pub Holds : ℕ → x.Block → x.Commit → db.Db → Type 0
  Holds n b c d =
      (load_block x db rlp n d ≡ found b)
      × (load_block_commit x db rlp n d ≡ found c)
      × (x.number b ≡ n)

  abbrev pub AllHold : List (x.Block × x.Commit) → db.Db → Type 0
  AllHold [] d = Unit
  AllHold ((b, c) ∷ log) d = Holds (suc (length log)) b c d × AllHold log d

  -- The database has the blocks of the log, newest first, at the heights from 1 on, each with its
  -- commit, and the newest one's height as its height.
  abbrev pub Represents : List (x.Block × x.Commit) → db.Db → Type 0
  Represents log d = (height x db rlp d ≡ length log) × AllHold log d

  -- The keys of the heights below `n` are as they were.
  abbrev SameBelow : ℕ → db.Db → db.Db → Type 0
  SameBelow n d t =
      (m : ℕ)
      → m < n
      → (db.get t (block_key m) ≡ db.get d (block_key m))
        × (db.get t (commit_key m) ≡ db.get d (commit_key m))

  AllHold-SameBelow :
      (log : List (x.Block × x.Commit)) (n : ℕ) (d t : db.Db)
      → length log < n
      → SameBelow n d t
      → AllHold log d
      → AllHold log t
  unfolding load_block load_block_commit
  AllHold-SameBelow [] n d t lt same h = tt
  AllHold-SameBelow ((b, c) ∷ log) n d t lt same ((hb, hc, at), hs) =
      let (sb, sc) = same (suc (length log)) lt in
      (
        (ap (loaded rlp.decode_block) sb ∙ hb, ap (loaded rlp.decode_commit) sc ∙ hc, at),
        AllHold-SameBelow log n d t (omega arith) same hs,
      )

  load_block-put :
      (n : ℕ) (b : x.Block) (bytes : Bytes) (d t : db.Db)
      → rlp.encode_block b ≡ some bytes
      → db.put d (block_key n) bytes ≡ some t
      → load_block x db rlp n t ≡ found b
  unfolding load_block
  load_block-put n b bytes d t enc put =
      ap (loaded rlp.decode_block) (db.get-put_same d t (block_key n) bytes put)
      ∙ ap decoded (rlp.decode-encode_block b bytes enc)

  load_block_commit-put :
      (n : ℕ) (c : x.Commit) (bytes : Bytes) (d t : db.Db)
      → rlp.encode_commit c ≡ some bytes
      → db.put d (commit_key n) bytes ≡ some t
      → load_block_commit x db rlp n t ≡ found c
  unfolding load_block_commit
  load_block_commit-put n c bytes d t enc put =
      ap (loaded rlp.decode_commit) (db.get-put_same d t (commit_key n) bytes put)
      ∙ ap decoded (rlp.decode-encode_commit c bytes enc)

  pub height-put :
      (n : ℕ) (d t : db.Db)
      → n < 18446744073709551616
      → db.put d height_key (put_uint64 n) ≡ some t
      → height x db rlp t ≡ n
  unfolding height height_of
  height-put n d t lt put =
      ap height_of (db.get-put_same d t height_key (put_uint64 n) put)
      ∙ ap or_zero (get_uint64-put_uint64 n lt)

  module _ (log : List (x.Block × x.Commit)) (b : x.Block) (c : x.Commit) (d : db.Db)
      (at : x.number b ≡ suc (length log)) (lt : suc (length log) < 18446744073709551616)
      (before : Represents log d) where
    abbrev next : ℕ
    next = suc (length log)

    -- The log is the old one, or the old one with the block.
    abbrev Atomic : db.Db → Type 0
    Atomic t = Represents ((b, c) ∷ log) t ⊎ Represents log t

    -- Nothing of the old log was touched.
    abbrev Kept : db.Db → Type 0
    Kept t = SameBelow next d t × (db.get t height_key ≡ db.get d height_key)

    Kept-log : (t : db.Db) → Kept t → Represents log t
    unfolding height
    Kept-log t (same, top) =
        (ap height_of top ∙ before.0, AllHold-SameBelow log next d t (omega arith) same before.1)

    put_cases :
        (t : db.Db) (k v : Bytes) (next_step : db.Db → db.Db)
        → Kept t
        → ((u : db.Db) → db.put t k v ≡ some u → Atomic (next_step u))
        → Atomic (then_put x db rlp t k v next_step)
    put_cases t k v next_step kept go = by_result (db.put t k v) refl
      where
        by_result :
            (o : Option db.Db) → db.put t k v ≡ o → Atomic (continued x db rlp t next_step o)
        by_result none e = inr (Kept-log t kept)
        by_result (some u) e = go u e

    save_height-Atomic :
        (t : db.Db)
        → Kept t
        → load_block x db rlp next t ≡ found b
        → load_block_commit x db rlp next t ≡ found c
        → Atomic (save_height x db rlp next t)
    unfolding save_height load_block load_block_commit
    save_height-Atomic t kept hb hc =
        put_cases t height_key (put_uint64 next) (λ u. u) kept
          (λ u put.
            let sb = λ (m : ℕ).
              db.get-put_other t u height_key (block_key m) (put_uint64 next) put
                (block_key-height_key m) in
            let sc = λ (m : ℕ).
              db.get-put_other t u height_key (commit_key m) (put_uint64 next) put
                (commit_key-height_key m) in
            inl (
              height-put next t u lt put,
              (
                (
                  ap (loaded rlp.decode_block) (sb next) ∙ hb,
                  ap (loaded rlp.decode_commit) (sc next) ∙ hc,
                  at,
                ),
                AllHold-SameBelow log next d u (omega arith)
                    (λ m below. (sb m ∙ (kept.0 m below).0, sc m ∙ (kept.0 m below).1)) before.1,
              ),
            ))

    -- What a `Put` of the new block or commit leaves.
    Kept-put_commit :
        (t u : db.Db) (v : Bytes) → Kept t → db.put t (commit_key next) v ≡ some u → Kept u
    Kept-put_commit t u v kept put = (
      λ m below. (
        db.get-put_other t u (commit_key next) (block_key m) v put (block_key-commit_key m next)
            ∙ (kept.0 m below).0,
        db.get-put_other t u (commit_key next) (commit_key m) v put (λ same.
              ground (arith, below, commit_key_injective m next (omega (arith, below, lt)) lt same))
            ∙ (kept.0 m below).1,
      ),
      db.get-put_other t u (commit_key next) height_key v put
            (λ same. commit_key-height_key next (sym same))
          ∙ kept.1,
    )

    Kept-put_block :
        (t u : db.Db) (v : Bytes) → Kept t → db.put t (block_key next) v ≡ some u → Kept u
    Kept-put_block t u v kept put = (
      λ m below. (
        db.get-put_other t u (block_key next) (block_key m) v put (λ same.
              ground (arith, below, block_key_injective m next (omega (arith, below, lt)) lt same))
            ∙ (kept.0 m below).0,
        db.get-put_other t u (block_key next) (commit_key m) v put
              (λ same. block_key-commit_key next m (sym same))
            ∙ (kept.0 m below).1,
      ),
      db.get-put_other t u (block_key next) height_key v put
            (λ same. block_key-height_key next (sym same))
          ∙ kept.1,
    )

    put_commit-Atomic :
        (o : Option Bytes) (t : db.Db)
        → rlp.encode_commit c ≡ o
        → Kept t
        → load_block x db rlp next t ≡ found b
        → Atomic (put_commit x db rlp next o t)
    unfolding load_block put_commit
    put_commit-Atomic none t enc kept hb = inr (Kept-log t kept)
    put_commit-Atomic (some bytes) t enc kept hb =
        put_cases t (commit_key next) bytes (save_height x db rlp next) kept (λ u put.
          save_height-Atomic u (Kept-put_commit t u bytes kept put)
            (ap (loaded rlp.decode_block) (
                db.get-put_other t u (commit_key next) (block_key next) bytes put
                  (block_key-commit_key next next))
              ∙ hb)
            (load_block_commit-put next c bytes t u enc put))

    put_block-Atomic :
        (o : Option Bytes) → rlp.encode_block b ≡ o → Atomic (put_block x db rlp next c o d)
    unfolding put_block put_commit
    put_block-Atomic none enc = inr before
    put_block-Atomic (some bytes) enc =
        put_cases d (block_key next) bytes (put_commit x db rlp next (rlp.encode_commit c))
          ((λ m below. (refl, refl)), refl)
          (λ u put.
            put_commit-Atomic (rlp.encode_commit c) u refl
              (Kept-put_block d u bytes ((λ m below. (refl, refl)), refl) put)
              (load_block-put next b bytes d u enc put))

    follows : (x.number b == u64 (height x db rlp d + 1)) ≡ true
    follows = rw before.0 (ground (arith, at, lt))

    -- Where the database represents a log and the block has the next height, below 2^64: `SaveBlock`
    -- does not panic, and whichever `Put` or encoding fails, the database then represents the log with
    -- the block and its commit, or the old log.
    pub save_block_atomic :
        (u : db.Db) × (save_block x db rlp b c d ≡ some u)
        × (Represents ((b, c) ∷ log) u ⊎ Represents log u)
    unfolding save_block
    save_block_atomic = (
      put_block x db rlp (x.number b) c (rlp.encode_block b) d,
      rw follows refl,
      subst (λ n. Atomic (put_block x db rlp n c (rlp.encode_block b) d)) (sym at)
          (put_block-Atomic (rlp.encode_block b) refl),
    )
