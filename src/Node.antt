-- ===== src/Node.antt =====
-- cmd/main/node.go: `runNode`, from the flags to the running consensus state.
pub mod Powers
pub mod After
pub mod Start
pub mod Default
use go_minimal_pbft.Prelude.{
  ℕ, ◌+◌, ◌≡◌, Bool, true, false, not, ◌&&◌, ◌||◌, Option, none, some, List, [], ◌∷◌, length, map,
  ◌==◌, if◌then◌else◌,
}
use go_minimal_pbft.Prelude.Int.{ℤ, pos, wrap_int64}
use go_minimal_pbft.Messages.{Address, Bytes}
use go_minimal_pbft.ChainState.{ChainState, make_genesis_chain_state}
use go_minimal_pbft.Interfaces.{Env}
use go_minimal_pbft.Consensus.Monad.{Outcome, ok, panic, final}
use go_minimal_pbft.Consensus.State.{State}
use go_minimal_pbft.Consensus.New.{new_consensus_state}
use go_minimal_pbft.Consensus.Signing.{set_priv_validator}
use go_minimal_pbft.Consensus.Routine.{on_start}
use go_minimal_pbft.P2p.Wire.{WireRlp}
use go_minimal_pbft.BlockSync.{
  Network, BlockSync, SyncResult, finished, failed, panicked, waiting, out_of_fuel, sync,
}
use go_minimal_pbft.KeyFiles.{
  FilePath, FileSystem, KeyCodec, KeyResult, key_ok, key_error, key_panic, load_validator_key,
  get_or_create_node_key,
}
use go_minimal_pbft.Node.Powers.{powers_of}

pub data StartError : Type 0 where
  node_key_failed no_node_key no_genesis_time validator_key_failed : StartError
  invalid_powers not_in_set db_failed block_sync_failed : StartError

-- How far `runNode` comes: on with a value, a return that was logged, a panic, or a block sync that does
-- not end, on its fuel or since a peer stays silent.
pub data Startup (A : Type 0) : Type 0 where
  goes_on : A → Startup A
  gives_up : StartError → Startup A
  crashes : Startup A
  still_syncing : Startup A

infixl 5 ◌>>=◌
unfoldable pub ◌>>=◌ : {A B : Type 0} → Startup A → (A → Startup B) → Startup B
◌>>=◌ (goes_on a) next = next a
◌>>=◌ (gives_up err) next = gives_up err
◌>>=◌ crashes next = crashes
◌>>=◌ still_syncing next = still_syncing

unfoldable pub unless : StartError → Bool → Startup (Unit {0})
unless err good = if good then goes_on tt else gives_up err

unfoldable pub or_give_up : {A : Type 0} → StartError → Option A → Startup A
or_give_up err none = gives_up err
or_give_up err (some a) = goes_on a

unfoldable pub with_key : {A : Type 0} → StartError → KeyResult A → Startup A
with_key err (key_ok a) = goes_on a
with_key err (key_error _) = gives_up err
with_key err key_panic = crashes

-- `NewP2PServer` gives no server where it fails, and its error is not read: the goroutine that calls
-- `Run` then panics.
unfoldable pub with_server : Bool → Startup (Unit {0})
with_server has_server = if has_server then goes_on tt else crashes

-- The flags; strings are lists of bytes.
pub record Flags : Type 0 where
  pub node_key_path : FilePath
  pub genesis_time_ms : ℕ
  pub val_key_path : FilePath
  pub validator_set : List Bytes
  pub val_powers : Bytes
  pub proposer_repetition : ℕ
  pub skip_block_sync : Bool

abbrev pub is_blank : Bytes → Bool
is_blank [] = true
is_blank (b ∷ bs) = false

abbrev pub contains : Address → List Address → Bool
contains a [] = false
contains a (v ∷ vs) = let rest = contains a vs in v == a || rest

-- Whether the set is this one validator.
abbrev pub is_only : Address → List Address → Bool
is_only a (v ∷ []) = v == a
is_only a vs = false

module _ (e : Env) where
  -- `privVal` with `pubVal`: the validator of a node that has a key.
  abbrev pub Validator : Type 0
  Validator = e.PrivValidator × e.PubKey

  abbrev pub is_member : Option Validator → List Address → Bool
  is_member none vals = true
  is_member (some (pv, key)) vals = contains (e.key_address key) vals

  abbrev pub is_self_validator : Option Validator → List Address → Bool
  is_self_validator none vals = false
  is_self_validator (some (pv, key)) vals = is_only (e.key_address key) vals

  abbrev pub priv_validator_of : Option Validator → Option e.PrivValidator
  priv_validator_of none = none
  priv_validator_of (some (pv, key)) = some pv

  abbrev pub genesis_state : Flags → List Address → List ℤ → ChainState e.lib
  unfolding make_genesis_chain_state
  genesis_state flags vals powers =
      make_genesis_chain_state e.lib "test" flags.genesis_time_ms vals powers 128
        (wrap_int64 (pos flags.proposer_repetition))

  unfoldable pub synced : SyncResult e → Startup (BlockSync e)
  synced (finished s) = goes_on s
  synced (failed s) = gives_up block_sync_failed
  synced (panicked s) = crashes
  synced (waiting s) = still_syncing
  synced out_of_fuel = still_syncing

  unfoldable pub returned : {A : Type 0} → Outcome (State e) A → Startup (State e)
  returned (ok a s) = goes_on s
  returned (panic p s) = crashes

  -- `NewConsensusState`, `SetPrivValidator` and `Start`, whose error is not read.
  unfoldable pub start_consensus : Option Validator → BlockSync e → Startup (State e)
  unfolding new_consensus_state set_priv_validator on_start
  start_consensus validator s = do
    made ← returned (new_consensus_state e s.chain_state s.block_store)
    keyed ← returned (set_priv_validator e (priv_validator_of validator) made)
    returned (on_start e keyed)

  module _ (rlp : WireRlp e.Block) (net : Network) (passes fuel : ℕ) where
    unfoldable pub sync_blocks :
        Flags → Option Validator → List Address → BlockSync e → Startup (BlockSync e)
    unfolding sync
    sync_blocks flags validator vals s =
        if is_self_validator validator vals || flags.skip_block_sync
        then goes_on s
        else synced (sync e rlp net passes fuel s)

  module _ (f : FileSystem) (node_keys : KeyCodec) (peer_id : node_keys.Key → Option Bytes)
      (val_keys : KeyCodec) (hex_to_address : Bytes → Address)
      (new_priv_validator : val_keys.Key → e.PrivValidator) (deadline : ℤ) where
    unfoldable pub with_pub_key : e.PrivValidator → Option e.PubKey → Startup (Option Validator)
    with_pub_key pv none = gives_up validator_key_failed
    with_pub_key pv (some key) = goes_on (some (pv, key))

    unfoldable pub validator_of : FilePath → f.Files → Startup (Option Validator)
    unfolding load_validator_key
    validator_of [] fs = goes_on none
    validator_of (b ∷ path) fs = do
      key ← with_key validator_key_failed (load_validator_key f val_keys (b ∷ path) fs)
      with_pub_key (new_priv_validator key) (e.get_pub_key (new_priv_validator key) deadline)

    -- The checks, up to the database.
    unfoldable pub check_flags :
        Option node_keys.Key → Flags → f.Files → Startup (Option Validator × List Address × List ℤ)
    unfolding get_or_create_node_key validator_of powers_of
    check_flags fresh flags fs = do
      key ←
          with_key node_key_failed
            (get_or_create_node_key f node_keys peer_id fresh flags.node_key_path fs).1
      named ← unless no_node_key (not (is_blank flags.node_key_path))
      timed ← unless no_genesis_time (not (flags.genesis_time_ms == 0))
      validator ←
          validator_of flags.val_key_path
            (get_or_create_node_key f node_keys peer_id fresh flags.node_key_path fs).0
      powers ← or_give_up invalid_powers (powers_of flags.val_powers (length flags.validator_set))
      member ← unless not_in_set (is_member validator (map hex_to_address flags.validator_set))
      goes_on (validator, map hex_to_address flags.validator_set, powers)

    module _ (rlp : WireRlp e.Block) (net : Network) (passes fuel : ℕ) where
      -- `db` is the store of the new database, or none where it is not opened, and `has_server` whether
      -- `NewP2PServer` gives a server.
      unfoldable pub run_node :
          Option node_keys.Key → Flags → Option e.Store → Bool → f.Files → Startup (State e)
      unfolding check_flags sync_blocks start_consensus
      run_node fresh flags db has_server fs = do
        (validator, vals, powers) ← check_flags fresh flags fs
        store ← or_give_up db_failed db
        served ← with_server has_server
        s ←
            sync_blocks rlp net passes fuel flags validator vals
              (record { chain_state = genesis_state flags vals powers; block_store = store })
        start_consensus validator s
