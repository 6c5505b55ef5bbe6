-- ===== src/BlockSync.antt =====
-- p2p/block_sync.go: a node that starts fetches the blocks it misses from the peer that reports the
-- greatest height. The network is a parameter that may answer differently on each pass of the loop.
pub mod Peers
pub mod Safety
pub mod Termination
pub mod CatchUp
use go_minimal_pbft.Prelude.{
  ℕ, zero, suc, ◌+◌, Bool, true, false, not, ◌||◌, Option, none, some, List, [], ◌∷◌, ltb, leb,
  ◌==◌, u64, if◌then◌else◌,
}
use go_minimal_pbft.Messages.{Bytes}
use go_minimal_pbft.ChainState.{ChainState}
use go_minimal_pbft.Interfaces.{Env}
use go_minimal_pbft.P2p.Wire.{WireRlp}
use go_minimal_pbft.P2p.Rpc.{Answer, answered, broken, silent, hello_rpc, full_block_rpc}

-- The peers, and what a stream to one of them on a topic gives on a pass of the loop for the bytes
-- sent: bytes that come back, an error, or silence.
pub record Network : Type 0 where
  pub peers : List Bytes
  pub hello_stream : ℕ → Bytes → Bytes → Answer Bytes
  pub full_block_stream : ℕ → Bytes → Bytes → Answer Bytes

-- `maxPeer` and `maxHeight`.
pub record Best : Type 0 where
  pub peer : Bytes
  pub height : ℕ

abbrev pub no_best : Best
no_best = record { peer = []; height = 0 }

abbrev pub better : Best → Bytes → Option ℕ → Best
better best p none = best
better best p (some h) =
    if ltb best.height h
    then record { peer = p; height = h }
    else if best.height == 0
    then record best { peer = p }
    else best

abbrev pub reported_by : Answer ℕ → Option ℕ
reported_by (answered h) = some h
reported_by _ = none

abbrev pub is_silent : {A : Type 0} → Answer A → Bool
is_silent silent = true
is_silent _ = false

module _ (e : Env) where
  pub record BlockSync : Type 0 where
    pub chain_state : ChainState e.lib
    pub block_store : e.Store

  -- What `sync` ends with: nil, an error, the panic of `SaveBlock`, or no end: since a peer stays
  -- silent, or on the fuel given.
  pub data SyncResult : Type 0 where
    finished : BlockSync → SyncResult
    failed : BlockSync → SyncResult
    panicked : BlockSync → SyncResult
    waiting : BlockSync → SyncResult
    out_of_fuel : SyncResult

  abbrev pub and_then : SyncResult → (BlockSync → SyncResult) → SyncResult
  and_then (finished s) next = next s
  and_then (failed s) next = failed s
  and_then (panicked s) next = panicked s
  and_then (waiting s) next = waiting s
  and_then out_of_fuel next = out_of_fuel

  abbrev pub saved : BlockSync → ChainState e.lib → Option e.Store → SyncResult
  saved s new_state none = panicked s
  saved s new_state (some t) = finished (record { chain_state = new_state; block_store = t })

  abbrev pub applied : BlockSync → e.Block → Option (ChainState e.lib) → SyncResult
  applied s b none = failed s
  applied s b (some new_state) =
      saved s new_state (e.save_block b (e.header_commit b) s.block_store)

  -- `VerifyCommit` as it is called for a block that was fetched.
  abbrev pub verifies : BlockSync → e.Block → Bool
  verifies s b =
      e.verify_commit s.chain_state.validators s.chain_state.chain_id (e.hash b) (e.number b)
        (e.header_commit b)

  abbrev pub fetched : BlockSync → Answer e.Block → SyncResult
  fetched s broken = failed s
  fetched s silent = waiting s
  fetched s (answered b) =
      if not (e.validate s.chain_state b)
      then failed s
      else if not (verifies s b)
      then failed s
      else applied s b (e.apply s.chain_state b)

  module _ (rlp : WireRlp e.Block) (net : Network) where
    unfoldable pub hello : ℕ → Bytes → Answer ℕ
    unfolding hello_rpc
    hello n p = hello_rpc rlp (net.hello_stream n p)

    unfoldable pub get_full_block : ℕ → Bytes → ℕ → Answer e.Block
    unfolding full_block_rpc
    get_full_block n p h = full_block_rpc rlp (net.full_block_stream n p) h

    -- The height that a peer reports, where its answer is not an error.
    unfoldable pub last_height : ℕ → Bytes → Option ℕ
    unfolding hello
    last_height n p = reported_by (hello n p)

    -- The loop over the peers, where none of them is silent.
    unfoldable pub ask : ℕ → List Bytes → Best → Best
    unfolding last_height
    ask n [] best = best
    ask n (p ∷ ps) best = ask n ps (better best p (last_height n p))

    -- Whether the loop over the peers waits for one of them for ever.
    unfoldable pub waits : ℕ → List Bytes → Bool
    unfolding hello
    waits n [] = false
    waits n (p ∷ ps) = let rest = waits n ps in is_silent (hello n p) || rest

    -- The loop over the heights up to `max`.
    unfoldable pub download : ℕ → ℕ → Bytes → ℕ → ℕ → BlockSync → SyncResult
    unfolding get_full_block
    download zero n p max h s = out_of_fuel
    download (suc fuel) n p max h s =
        if not (leb h max)
        then finished s
        else and_then (fetched s (get_full_block n p h)) (download fuel n p max (u64 (h + 1)))

    abbrev pub behind : ℕ → ℕ → Best → BlockSync → SyncResult
    unfolding download
    behind fuel n best s =
        download fuel n best.peer best.height (u64 (e.store_height s.block_store + 1)) s

    -- Pass `n` and those after it; `fuel` bounds the heights of one pass, and the first argument the
    -- passes.
    unfoldable pub sync_from : ℕ → ℕ → ℕ → Best → BlockSync → SyncResult
    unfolding ask waits download
    sync_from zero fuel n best s = out_of_fuel
    sync_from (suc passes) fuel n best s =
        let found = ask n net.peers best in
        if waits n net.peers
        then waiting s
        else if ltb found.height (e.store_height s.block_store)
        then finished s
        else if found.height == e.store_height s.block_store
        then finished s
        else and_then (behind fuel n found s) (sync_from passes fuel (suc n) found)

    unfoldable pub sync : ℕ → ℕ → BlockSync → SyncResult
    unfolding sync_from
    sync passes fuel = sync_from passes fuel 0 no_best

  abbrev pub last_chain_state : BlockSync → ChainState e.lib
  last_chain_state s = s.chain_state
