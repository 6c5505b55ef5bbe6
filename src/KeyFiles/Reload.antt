-- ===== src/KeyFiles/Reload.antt =====
-- cmd/main/keygen.go and cmd/main/node.go: a key that was written is the one that is read later.
use mathlib.Core.Option.{some-injective}
use go_minimal_pbft.Prelude.{
  ◌≡◌, refl, sym, ap, ◌∙◌, subst, Bool, true, false, not, Option, none, some, if◌then◌else◌, inl,
  inr, Bool-cases, arith,
}
use go_minimal_pbft.Messages.{Bytes}
use go_minimal_pbft.KeyFiles.{
  FilePath, ReadResult, contents, not_found, unreadable, FileSystem, KeyCodec, KeyResult, key_ok,
  key_error, override_refused, parsed, read_key, load_validator_key, written, write_marshalled,
  write_validator_key, run_keygen, create_node_key, identified, found_key, found_or_create,
  get_or_create_node_key,
}

module _ (f : FileSystem) (c : KeyCodec) where
  abbrev result_of : {A : Type 0} → KeyResult A → Option A
  result_of (key_ok a) = some a
  result_of _ = none

  -- Where a key is written, it is in the file, and the result is `a`.
  abbrev InFile : {A : Type 0} → FilePath → c.Key → A → f.Files × KeyResult A → Type 0
  InFile path key a (fs, key_ok r) = (read_key f c (f.read_file fs path) ≡ key_ok key) × (r ≡ a)
  InFile path key a (fs, _) = Unit

  written-InFile :
      {A : Type 0} (a : A) (path : FilePath) (key : c.Key) (b : Bytes) (fs : f.Files)
      → c.marshal key ≡ some b
      → InFile path key a (written f c a (f.write_file fs path b))
  written-InFile {A} a path key b fs e = by_result (f.write_file fs path b) refl
    where
      by_result :
          (r : f.Files × Bool) → f.write_file fs path b ≡ r → InFile path key a (written f c a r)
      by_result (gs, true) w = (
        ap (read_key f c) (f.read_file-write_file fs gs path b w)
            ∙ ap (parsed f c) (c.unmarshal-marshal key b e),
        refl,
      )
      by_result (gs, false) w = tt

  write_marshalled-InFile :
      {A : Type 0} (a : A) (path : FilePath) (key : c.Key) (o : Option Bytes) (fs : f.Files)
      → c.marshal key ≡ o
      → InFile path key a (write_marshalled f c path a o fs)
  write_marshalled-InFile a path key none fs e = tt
  write_marshalled-InFile a path key (some b) fs e = written-InFile a path key b fs e

  -- A file that holds a key is there.
  key-stat :
      (path : FilePath) (fs : f.Files) (key : c.Key)
      → read_key f c (f.read_file fs path) ≡ key_ok key
      → f.stat_not_exist fs path ≡ false
  key-stat path fs key e = by_result (f.read_file fs path) refl e
    where
      by_result :
          (r : ReadResult)
          → f.read_file fs path ≡ r
          → read_key f c r ≡ key_ok key
          → f.stat_not_exist fs path ≡ false
      by_result (contents b) at h = f.stat-read_file fs path b at
      by_result not_found at h = ground (arith, ap result_of h)
      by_result unreadable at h = ground (arith, ap result_of h)

  module _ (peer_id : c.Key → Option Bytes) where
    -- The file's key, where `getOrCreateNodeKey` finds one and it has an identity.
    reread :
        (again : Option c.Key) (path : FilePath) (r : ReadResult) (fs : f.Files) (key : c.Key)
        (id : Bytes)
        → read_key f c r ≡ key_ok key
        → peer_id key ≡ some id
        → found_or_create f c peer_id again path r fs ≡ (fs, key_ok key)
    reread again path (contents b) fs key id e named = ap (λ r. (fs, r)) (by_key (c.unmarshal b) e)
      where
        by_key :
            (o : Option c.Key) → parsed f c o ≡ key_ok key → found_key f c peer_id o ≡ key_ok key
        by_key none h = ground (arith, ap result_of h)
        by_key (some k) h =
            let same : k ≡ key = some-injective _ _ (ap result_of h) in rw (same, named) refl
    reread again path not_found fs key id e named = ground (arith, ap result_of e)
    reread again path unreadable fs key id e named = ground (arith, ap result_of e)

    -- A key that was found is in the file.
    found_in_file :
        (o : Option c.Key) (key : c.Key)
        → found_key f c peer_id o ≡ key_ok key
        → parsed f c o ≡ key_ok key
    found_in_file none key h = h
    found_in_file (some k) key h = by_id (peer_id k) h
      where
        by_id :
            (id : Option Bytes) → identified f c peer_id k id ≡ key_ok key → key_ok k ≡ key_ok key
        by_id none h = ground (arith, ap result_of h)
        by_id (some id) h = h

    -- Where `getOrCreateNodeKey` gives a key and libp2p has an identity for it, each later call on the
    -- files that it leaves gives that key and leaves them as they are, whatever key would be generated:
    -- a node that starts again has the same identity.
    pub get_or_create_node_key_again :
        (fresh again : Option c.Key) (path : FilePath) (fs gs : f.Files) (key : c.Key) (id : Bytes)
        → peer_id key ≡ some id
        → get_or_create_node_key f c peer_id fresh path fs ≡ (gs, key_ok key)
        → get_or_create_node_key f c peer_id again path gs ≡ (gs, key_ok key)
    unfolding get_or_create_node_key
    get_or_create_node_key_again fresh again path fs gs key id named e =
        reread again path (f.read_file gs path) gs key id (in_file (f.read_file fs path) refl e)
          named
      where
        created :
            (o : Option c.Key)
            → create_node_key f c o path fs ≡ (gs, key_ok key)
            → read_key f c (f.read_file gs path) ≡ key_ok key
        created none h = ground (arith, ap (λ r. result_of r.1) h)
        created (some k) h =
            let (there, same) =
              subst (InFile path k k) h (write_marshalled-InFile k path k (c.marshal k) fs refl) in
            there ∙ ap key_ok (sym same)

        in_file :
            (r : ReadResult)
            → f.read_file fs path ≡ r
            → found_or_create f c peer_id fresh path r fs ≡ (gs, key_ok key)
            → read_key f c (f.read_file gs path) ≡ key_ok key
        in_file (contents b) at h =
            subst (λ t. read_key f c (f.read_file t path) ≡ key_ok key) (ap (λ r. r.0) h)
              (ap (read_key f c) at ∙ found_in_file (c.unmarshal b) key (ap (λ r. r.1) h))
        in_file not_found at h = created fresh h
        in_file unreadable at h = ground (arith, ap (λ r. result_of r.1) h)

  -- Where `runKeygen` writes a key, `loadValidatorKey` gives that key from there, and each later run
  -- for that file is refused and leaves the files as they are.
  pub run_keygen-load_validator_key :
      (key : c.Key) (path : FilePath) (fs gs : f.Files)
      → run_keygen f c (some key) path fs ≡ (gs, key_ok tt)
      → (load_validator_key f c path gs ≡ key_ok key)
        × ((other : c.Key) → run_keygen f c (some other) path gs ≡ (gs, key_error override_refused))
  unfolding run_keygen write_validator_key load_validator_key
  run_keygen-load_validator_key key path fs gs e = elim (Bool-cases (f.stat_not_exist fs path)) [
    | inr there ↦ ground (arith, ap (λ r. result_of r.1) (e_of false there))
    | inl absent ↦
        let (here, _) =
          subst (InFile path key tt) (e_of true absent)
            (write_marshalled-InFile tt path key (c.marshal key) fs refl) in
        (here, λ other. rw (key-stat path gs key here) refl)
  ]
    where
      e_of :
          (b : Bool)
          → f.stat_not_exist fs path ≡ b
          → (if not b
              then (fs, key_error override_refused)
              else write_marshalled f c path tt (c.marshal key) fs)
            ≡ (gs, key_ok tt)
      e_of b at =
          subst
            (λ b.
              (if not b
                then (fs, key_error override_refused)
                else write_marshalled f c path tt (c.marshal key) fs)
              ≡ (gs, key_ok tt))
            at e
