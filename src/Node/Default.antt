-- ===== src/Node/Default.antt =====
-- cmd/main/node.go: `runNode` with the executor, the block store and the validator that it makes.
use go_minimal_pbft.Prelude.{ℕ, ◌<◌, ◌≡◌, ◌≢◌, Bool, Option, some, arith}
use go_minimal_pbft.Prelude.Int.{ℤ}
use go_minimal_pbft.Messages.{Address, Bytes}
use go_minimal_pbft.Library.{Library}
use go_minimal_pbft.ChainState.{ChainState}
use go_minimal_pbft.Interfaces.{Config, Env}
use go_minimal_pbft.Consensus.Invariant.{Inv}
use go_minimal_pbft.Executor.{apply_block, update_state}
use go_minimal_pbft.Executor.Laws.{default_block_executor}
use go_minimal_pbft.Store.{Database, Rlp, height}
use go_minimal_pbft.Store.Interface.{default_block_store, save_block-accepts}
use go_minimal_pbft.PrivValidator.{Crypto, EcdsaPubKey, local_signer}
use go_minimal_pbft.P2p.Wire.{WireRlp}
use go_minimal_pbft.BlockSync.{Network, last_height}
use go_minimal_pbft.BlockSync.Peers.{Reported}
use go_minimal_pbft.BlockSync.Termination.{Stalls}
use go_minimal_pbft.KeyFiles.{FileSystem, KeyCodec}
use go_minimal_pbft.Node.{Flags, run_node}
use go_minimal_pbft.Node.After.{After}
use go_minimal_pbft.Node.Start.{run_node-Inv}

-- What a node is made of, with the database, the RLP, the keys and the clock as parameters.
abbrev pub default_env :
    (x : Library)
    → (db : Database) → Rlp x
    → Crypto x.Block
    → (EcdsaPubKey → x.PubKey)
    → Config
    → (ℕ → ℕ)
    → Env
default_env x db rlp c to_key config clock = record {
  lib = x;
  executor = default_block_executor x;
  store = default_block_store x db rlp;
  signer = local_signer x c to_key;
  config = config;
  clock = clock;
}

-- `updateState` keeps the initial height.
apply_block-initial_height :
    (x : Library) (s t : ChainState x) (b : x.Block)
    → apply_block x s b ≡ some t
    → t.initial_height ≡ s.initial_height
unfolding apply_block update_state
apply_block-initial_height x s t b h = ground (arith, h)

module _ (x : Library) (db : Database) (store_rlp : Rlp x) (c : Crypto x.Block)
    (to_key : EcdsaPubKey → x.PubKey) (config : Config) (clock : ℕ → ℕ) where
  abbrev env : Env
  env = default_env x db store_rlp c to_key config clock

  module _ (f : FileSystem) (node_keys : KeyCodec) (peer_id : node_keys.Key → Option Bytes)
      (val_keys : KeyCodec) (private_key : val_keys.Key → c.PrivateKey)
      (hex_to_address : Bytes → Address) (deadline : ℤ) (rlp : WireRlp x.Block) (net : Network)
      (bound passes fuel : ℕ) (small : bound < 18446744073709551615)
      (puts : (d : db.Db) (k v : Bytes) → (t : db.Db) × (db.put d k v ≡ some t))
      (block_bytes : (b : x.Block) → (d : Bytes) × (store_rlp.encode_block b ≡ some d))
      (commit_bytes : (m : x.Commit) → (d : Bytes) × (store_rlp.encode_commit m ≡ some d))
      (reported : (n : ℕ) → Reported (last_height env rlp net n) net.peers bound)
      (enough : bound < passes) (fits : bound < fuel) (speaks : ¬ (Stalls net)) where
    -- A node with the repository's own executor, block store and validator starts on a database in
    -- which it finds the height 0, where no `Put` and no encoding fails, and no peer reports a
    -- height above a bound below 2^64 - 1 or leaves a stream silent for ever. With more passes and more fuel for each than the bound,
    -- `runNode` does not stay in block sync: it gives up, panics, or comes to a consensus state. That
    -- state has the invariant, the last height of its chain state is the height in the database, and
    -- there was a genesis time.
    pub run_node-default :
        (fresh : Option node_keys.Key) (flags : Flags) (d : db.Db) (has_server : Bool)
        (fs : f.Files)
        → height x db store_rlp d ≡ 0
        → After
            (λ s.
              Inv env s
              × (s.chain_state.last_block_height ≡ height x db store_rlp s.block_store)
              × (flags.genesis_time_ms ≢ 0))
            (run_node env f node_keys peer_id val_keys hex_to_address
              (λ k. record { priv_key = private_key k })
              deadline
              rlp
              net
              passes
              fuel
              fresh
              flags
              (some d)
              has_server
              fs)
    run_node-default fresh flags d has_server fs new =
        run_node-Inv env f node_keys peer_id val_keys hex_to_address
          (λ k. record { priv_key = private_key k }) deadline rlp net bound passes fuel
          (λ b t.
            save_block-accepts x db store_rlp puts block_bytes commit_bytes b (x.header_commit b) t)
          (apply_block-initial_height x) small reported enough fits speaks fresh flags d has_server
          fs new
