-- ===== src/Node/Start.antt =====
-- cmd/main/node.go: what a node has checked and reached when `runNode` comes to its end.
use go_minimal_pbft.Prelude.{
  ℕ, ◌<◌, ◌≡◌, ◌≢◌, refl, sym, ap, ◌∙◌, Bool, true, not, ◌||◌, Option, none, some, List, [], ◌∷◌,
  length, map, ◌==◌, inl, inr, Bool-cases, arith,
}
use go_minimal_pbft.Prelude.Int.{ℤ}
use go_minimal_pbft.Messages.{Address, Bytes}
use go_minimal_pbft.ChainState.{ChainState}
use go_minimal_pbft.Interfaces.{Env}
use go_minimal_pbft.Consensus.Monad.{Outcome, ok, panic}
use go_minimal_pbft.Consensus.Hoare.{Ends}
use go_minimal_pbft.Consensus.State.{State}
use go_minimal_pbft.Consensus.Invariant.{Inv}
use go_minimal_pbft.Consensus.Progress.Commit.{Any}
use go_minimal_pbft.Consensus.Safety.Start.{IsStart, Made, new_consensus_state-Inv}
use go_minimal_pbft.Consensus.Safety.Carried.{
  Carries, new_consensus_state-Carries, set_priv_validator-Carries, on_start-Carries,
}
use go_minimal_pbft.Consensus.Safety.Run.{set_priv_validator-Inv, on_start-Inv}
use go_minimal_pbft.P2p.Wire.{WireRlp}
use go_minimal_pbft.BlockSync.{
  Network, BlockSync, SyncResult, finished, failed, panicked, waiting, out_of_fuel, last_height,
}
use go_minimal_pbft.BlockSync.Peers.{Reported}
use go_minimal_pbft.BlockSync.Safety.{Extends, here, more, Reaches, sync-Reaches}
use go_minimal_pbft.BlockSync.Termination.{Stalls, Accepts, Synced, sync-Synced}
use go_minimal_pbft.KeyFiles.{
  FileSystem, FilePath, KeyCodec, load_validator_key, get_or_create_node_key,
}
use go_minimal_pbft.Node.Powers.{powers_of, length-powers_of}
use go_minimal_pbft.Node.After.{
  After, After-bind, After-map, or_give_up-After, unless-After, with_key-After, with_server-After,
}
use go_minimal_pbft.Node.{
  Flags, Validator, genesis_state, synced, returned, start_consensus, check_flags, sync_blocks,
  run_node, with_pub_key, validator_of, is_blank, is_member, is_self_validator, priv_validator_of,
}

module _ (e : Env) where
  -- What two rules say of one call.
  returned-both :
      {A : Type 0} (P Q P' Q' R : State e → Type 0) (o : Outcome (State e) A)
      → Ends P Q o
      → Ends P' Q' o
      → ((s : State e) → P s → Q s → P' s → Q' s → R s)
      → After R (returned e o)
  unfolding After returned
  returned-both P Q P' Q' R (ok a s) h k f = f s h.0 h.1 k.0 k.1
  returned-both P Q P' Q' R (panic p s) h k f = tt

  -- A state with the invariant that has the chain state and the store.
  abbrev Begun : BlockSync e → State e → Type 0
  Begun s t = Inv e t × Carries e s.chain_state s.block_store t

  start_consensus-Begun :
      (validator : Option (Validator e)) (s : BlockSync e)
      → IsStart e s.chain_state
      → After (Begun s) (start_consensus e validator s)
  unfolding start_consensus
  start_consensus-Begun validator s start =
      After-bind (Begun s) (Begun s) _ _
        (returned-both (λ t. Unit) (Made e) (λ t. Unit) (Carries e s.chain_state s.block_store)
          (Begun s) _ (new_consensus_state-Inv e s.chain_state start s.block_store)
          (new_consensus_state-Carries e s.chain_state s.block_store)
          (λ t _ made _ has. (made.0, has)))
        (λ made (inv, has).
          After-bind (Begun s) (Begun s) _ _
            (returned-both (Inv e) (Any e) (Carries e s.chain_state s.block_store) (λ t. Unit)
              (Begun s) _ (set_priv_validator-Inv e (priv_validator_of e validator) made inv)
              (set_priv_validator-Carries e s.chain_state s.block_store
                (priv_validator_of e validator) made has)
              (λ t inv' _ has' _. (inv', has')))
            (λ keyed (inv', has').
              returned-both (Inv e) (Any e) (Carries e s.chain_state s.block_store) (λ t. Unit)
                (Begun s) _ (on_start-Inv e keyed inv')
                (on_start-Carries e s.chain_state s.block_store keyed has')
                (λ t inv'' _ has'' _. (inv'', has''))))

  -- `ApplyBlock` keeps the initial height.
  abbrev pub KeepsInitial : Type 0
  KeepsInitial =
      (s t : ChainState e.lib) (b : e.Block)
      → e.apply s b ≡ some t
      → t.initial_height ≡ s.initial_height

  Extends-initial :
      KeepsInitial
      → {s t : BlockSync e} → Extends e s t
      → t.chain_state.initial_height ≡ s.chain_state.initial_height
  Extends-initial keeps here = refl
  Extends-initial keeps (more b step rest) = Extends-initial keeps rest ∙ keeps _ _ b step.apply

  -- The consensus may start from this chain state, whose last height is the store's.
  abbrev IsSynced : BlockSync e → Type 0
  IsSynced t =
      IsStart e t.chain_state × (t.chain_state.last_block_height ≡ e.store_height t.block_store)

  synced-IsSynced :
      (rlp : WireRlp e.Block) (net : Network) (bound : ℕ) (s : BlockSync e) (r : SyncResult e)
      → KeepsInitial
      → bound < 18446744073709551615
      → ¬ (Stalls net)
      → 0 < s.chain_state.initial_height
      → Reaches e s r
      → Synced e rlp net bound r
      → After IsSynced (synced e r)
  unfolding After synced
  synced-IsSynced rlp net bound s (finished t) keeps small speaks first run (agrees, le, seen) = (
    (omega (arith, Extends-initial keeps run, first), omega (arith, agrees.0, le, small)),
    agrees.0,
  )
  synced-IsSynced rlp net bound s (failed t) keeps small speaks first run h = tt
  synced-IsSynced rlp net bound s (panicked t) keeps small speaks first run h = elim h [ ]
  synced-IsSynced rlp net bound s (waiting t) keeps small speaks first run h = elim (speaks h) [ ]
  synced-IsSynced rlp net bound s out_of_fuel keeps small speaks first run h = elim h [ ]

  module _ (rlp : WireRlp e.Block) (net : Network) (bound passes fuel : ℕ) (accepts : Accepts e)
      (keeps : KeepsInitial) (small : bound < 18446744073709551615)
      (reported : (n : ℕ) → Reported (last_height e rlp net n) net.peers bound)
      (enough : bound < passes) (fits : bound < fuel) (speaks : ¬ (Stalls net)) where
    sync_blocks-IsSynced :
        (flags : Flags) (validator : Option (Validator e)) (vals : List Address) (powers : List ℤ)
        (store : e.Store)
        → e.store_height store ≡ 0
        → After IsSynced (
            sync_blocks e rlp net passes fuel flags validator vals
              (record { chain_state = genesis_state e flags vals powers; block_store = store }))
    unfolding After sync_blocks genesis_state
    sync_blocks-IsSynced flags validator vals powers store new =
        let s : BlockSync e = record {
          chain_state = genesis_state e flags vals powers;
          block_store = store;
        } in
        elim (Bool-cases (is_self_validator e validator vals || flags.skip_block_sync)) [
          | inl skips ↦ rw skips ((omega arith, omega arith), sym new)
          | inr syncs ↦ rw syncs (
              synced-IsSynced rlp net bound s _ keeps small speaks (omega arith)
                (sync-Reaches e rlp net passes fuel s)
                (sync-Synced e accepts net rlp bound small reported passes fuel s
                  (omega (arith, enough)) fits (omega (arith, new))
                  (ground (arith, new), ground (arith, new))))
        ]

  module _ (f : FileSystem) (node_keys : KeyCodec) (peer_id : node_keys.Key → Option Bytes)
      (val_keys : KeyCodec) (hex_to_address : Bytes → Address)
      (new_priv_validator : val_keys.Key → e.PrivValidator) (deadline : ℤ) where
    with_pub_key-After :
        (pv : e.PrivValidator) (o : Option e.PubKey)
        → After
            (λ _. Unit)
            (with_pub_key e f node_keys peer_id val_keys hex_to_address new_priv_validator deadline
              pv o)
    unfolding After with_pub_key
    with_pub_key-After pv none = tt
    with_pub_key-After pv (some key) = tt

    validator_of-After :
        (path : FilePath) (fs : f.Files)
        → After
            (λ _. Unit)
            (validator_of e f node_keys peer_id val_keys hex_to_address new_priv_validator deadline
              path fs)
    unfolding validator_of After
    validator_of-After [] fs = tt
    validator_of-After (b ∷ path) fs =
        After-bind _ _ _ _ (with_key-After _ (load_validator_key f val_keys (b ∷ path) fs))
          (λ key _.
            with_pub_key-After (new_priv_validator key)
              (e.get_pub_key (new_priv_validator key) deadline))

    -- What the checks see to: a genesis time, a power for each validator, and that a node with a
    -- validator key is in the set.
    abbrev pub FlagsChecked : Flags → Option (Validator e) × List Address × List ℤ → Type 0
    FlagsChecked flags (validator, vals, powers) =
        (flags.genesis_time_ms ≢ 0)
        × (length powers ≡ length flags.validator_set)
        × (vals ≡ map hex_to_address flags.validator_set)
        × (is_member e validator vals ≡ true)

    pub check_flags-FlagsChecked :
        (fresh : Option node_keys.Key) (flags : Flags) (fs : f.Files)
        → After (FlagsChecked flags) (
            check_flags e f node_keys peer_id val_keys hex_to_address new_priv_validator deadline
              fresh flags fs)
    unfolding check_flags After
    check_flags-FlagsChecked fresh flags fs =
        After-bind _ (FlagsChecked flags) _ _
          (with_key-After _
            (get_or_create_node_key f node_keys peer_id fresh flags.node_key_path fs).1)
          (λ key _.
            After-bind _ (FlagsChecked flags) _ _
              (unless-After _ (not (is_blank flags.node_key_path)))
              (λ _ named.
                After-bind _ (FlagsChecked flags) _ _
                  (unless-After _ (not (flags.genesis_time_ms == 0)))
                  (λ _ timed.
                    After-bind _ (FlagsChecked flags) _ _ (validator_of-After flags.val_key_path _)
                      (λ validator _.
                        After-bind _ (FlagsChecked flags) _ _
                          (or_give_up-After _
                            (powers_of flags.val_powers (length flags.validator_set)))
                          (λ powers at.
                            After-bind _ (FlagsChecked flags) _ _
                              (unless-After _
                                (is_member e validator (map hex_to_address flags.validator_set)))
                              (λ _ member. (
                                ground (arith, timed),
                                length-powers_of flags.val_powers (length flags.validator_set)
                                    powers at,
                                refl,
                                member,
                              )))))))

    module _ (rlp : WireRlp e.Block) (net : Network) (bound passes fuel : ℕ) (accepts : Accepts e)
        (keeps : KeepsInitial) (small : bound < 18446744073709551615)
        (reported : (n : ℕ) → Reported (last_height e rlp net n) net.peers bound)
        (enough : bound < passes) (fits : bound < fuel) (speaks : ¬ (Stalls net)) where
      -- A node starts on a new database, with a store that takes the block after its last one and
      -- an executor that keeps the initial height, and no peer reports a height above a bound below
      -- 2^64 - 1 or leaves a stream silent for ever. With more passes and more fuel for each than the bound, `runNode` does not stay in
      -- block sync: it gives up, panics, or comes to a consensus state. That state has the invariant,
      -- the last height of its chain state is the height of its store, and there was a genesis time.
      pub run_node-Inv :
          (fresh : Option node_keys.Key) (flags : Flags) (store : e.Store) (has_server : Bool)
          (fs : f.Files)
          → e.store_height store ≡ 0
          → After
              (λ s.
                Inv e s
                × (s.chain_state.last_block_height ≡ e.store_height s.block_store)
                × (flags.genesis_time_ms ≢ 0))
              (run_node e f node_keys peer_id val_keys hex_to_address new_priv_validator deadline
                rlp net passes fuel fresh flags
                (some store)
                has_server
                fs)
      unfolding run_node After
      run_node-Inv fresh flags store has_server fs new =
          After-bind _ _ _ _ (check_flags-FlagsChecked fresh flags fs) (λ r checked.
            After-bind _ _ _ _ (or_give_up-After _ (some store)) (λ opened same.
              After-bind _ _ _ _ (with_server-After has_server) (λ served _.
                After-bind _ _ _ _
                  (sync_blocks-IsSynced rlp net bound passes fuel accepts keeps small reported
                    enough fits speaks flags r.0 r.1 r.2 opened
                    (ap (λ o. elim o [ none ↦ 0 | some st ↦ e.store_height st ]) (sym same) ∙ new))
                  (λ s ready.
                    After-map (Begun s) _ _ (start_consensus-Begun r.0 s ready.0)
                      (λ t (inv, (chain, stored)). (
                        inv,
                        ap (λ c. c.last_block_height) chain
                            ∙ ready.1
                            ∙ ap e.store_height (sym stored),
                        checked.0,
                      ))))))
