-- ===== src/KeyFiles.antt =====
-- cmd/main/keygen.go and `getOrCreateNodeKey` of cmd/main/node.go: the files with the keys of a
-- validator and of a node. The file system and the encodings of keys are parameters.
pub mod Reload
use go_minimal_pbft.Prelude.{ℕ, ◌≡◌, ◌≢◌, Bool, true, false, not, Option, none, some, if◌then◌else◌}
use go_minimal_pbft.Messages.{Bytes}

abbrev pub FilePath : Type 0
FilePath = Bytes

pub data ReadResult : Type 0 where
  contents : Bytes → ReadResult
  not_found : ReadResult
  unreadable : ReadResult

-- `stat_not_exist` is whether `os.Stat` gives an error that `os.IsNotExist` holds of; `write_file` gives
-- what is left, and whether there is no error. A file that was written is read back, and no other file
-- changes.
pub record FileSystem : Type 1 where
  pub Files : Type 0
  pub read_file : Files → FilePath → ReadResult
  pub stat_not_exist : Files → FilePath → Bool
  pub write_file : Files → FilePath → Bytes → Files × Bool
  pub read_file-write_file :
      (fs gs : Files) (p : FilePath) (b : Bytes)
      → write_file fs p b ≡ (gs, true)
      → read_file gs p ≡ contents b
  pub read_file-write_file_other :
      (fs : Files) (p q : FilePath) (b : Bytes)
      → q ≢ p
      → read_file (write_file fs p b).0 q ≡ read_file fs q
  pub stat-read_file :
      (fs : Files) (p : FilePath) (b : Bytes)
      → read_file fs p ≡ contents b
      → stat_not_exist fs p ≡ false

-- The keys of a kind as bytes: an encoding is none where it gives an error, and so is a decoding.
pub record KeyCodec : Type 1 where
  pub Key : Type 0
  pub marshal : Key → Option Bytes
  pub unmarshal : Bytes → Option Key
  pub unmarshal-marshal : (k : Key) (b : Bytes) → marshal k ≡ some b → unmarshal b ≡ some k

pub data KeyError : Type 0 where
  read_failed bad_key write_failed override_refused : KeyError

-- What a call gives: a value, an error or a panic.
pub data KeyResult (A : Type 0) : Type 0 where
  key_ok : A → KeyResult A
  key_error : KeyError → KeyResult A
  key_panic : KeyResult A

module _ (f : FileSystem) (c : KeyCodec) where
  abbrev pub parsed : Option c.Key → KeyResult c.Key
  parsed none = key_error bad_key
  parsed (some k) = key_ok k

  abbrev pub read_key : ReadResult → KeyResult c.Key
  read_key (contents b) = parsed (c.unmarshal b)
  read_key not_found = key_error read_failed
  read_key unreadable = key_error read_failed

  -- `loadValidatorKey`; the codec is `crypto.FromECDSA` and `crypto.ToECDSA`.
  unfoldable pub load_validator_key : FilePath → f.Files → KeyResult c.Key
  load_validator_key filename fs = read_key (f.read_file fs filename)

  abbrev pub written : {A : Type 0} → A → f.Files × Bool → f.Files × KeyResult A
  written a (fs, true) = (fs, key_ok a)
  written a (fs, false) = (fs, key_error write_failed)

  abbrev pub write_marshalled :
      {A : Type 0} → FilePath → A → Option Bytes → f.Files → f.Files × KeyResult A
  write_marshalled path a none fs = (fs, key_panic)
  write_marshalled path a (some b) fs = written a (f.write_file fs path b)

  -- `writeValidatorKey`.
  unfoldable pub write_validator_key : c.Key → FilePath → f.Files → f.Files × KeyResult (Unit {0})
  write_validator_key key filename fs =
      if not (f.stat_not_exist fs filename)
      then (fs, key_error override_refused)
      else write_marshalled filename tt (c.marshal key) fs

  -- `runKeygen`, with what `GenerateKey` gives, or none where it fails.
  unfoldable pub run_keygen : Option c.Key → FilePath → f.Files → f.Files × KeyResult (Unit {0})
  unfolding write_validator_key
  run_keygen none filename fs = (fs, key_panic)
  run_keygen (some key) filename fs = write_validator_key key filename fs

  abbrev pub create_node_key : Option c.Key → FilePath → f.Files → f.Files × KeyResult c.Key
  create_node_key none path fs = (fs, key_panic)
  create_node_key (some key) path fs = write_marshalled path key (c.marshal key) fs

  -- `peer.IDFromPrivateKey` is called for a key that was read, and panics where it gives an error.
  module _ (peer_id : c.Key → Option Bytes) where
    abbrev pub identified : c.Key → Option Bytes → KeyResult c.Key
    identified key none = key_panic
    identified key (some id) = key_ok key

    abbrev pub found_key : Option c.Key → KeyResult c.Key
    found_key none = key_error bad_key
    found_key (some key) = identified key (peer_id key)

    abbrev pub found_or_create :
        Option c.Key → FilePath → ReadResult → f.Files → f.Files × KeyResult c.Key
    found_or_create fresh path (contents b) fs = (fs, found_key (c.unmarshal b))
    found_or_create fresh path not_found fs = create_node_key fresh path fs
    found_or_create fresh path unreadable fs = (fs, key_error read_failed)

    -- `getOrCreateNodeKey`; the codec is libp2p's `MarshalPrivateKey` and `UnmarshalPrivateKey`, and
    -- `fresh` is what `GenerateKeyPair` would give.
    unfoldable pub get_or_create_node_key :
        Option c.Key → FilePath → f.Files → f.Files × KeyResult c.Key
    get_or_create_node_key fresh path fs = found_or_create fresh path (f.read_file fs path) fs
