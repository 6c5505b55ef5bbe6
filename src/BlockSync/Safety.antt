-- ===== src/BlockSync/Safety.antt =====
-- p2p/block_sync.go: what `sync` can do to the chain state and the block store, whatever the peers
-- answer.
use go_minimal_pbft.Prelude.{
  ℕ, zero, suc, ◌+◌, ◌≡◌, refl, true, Option, none, some, ltb, leb, ◌==◌, u64, Bool-cases, inl, inr,
}
use go_minimal_pbft.Messages.{Bytes}
use go_minimal_pbft.ChainState.{ChainState}
use go_minimal_pbft.Interfaces.{Env}
use go_minimal_pbft.P2p.Wire.{WireRlp}
use go_minimal_pbft.P2p.Rpc.{Answer, answered, broken, silent}
use go_minimal_pbft.BlockSync.{
  Network, Best, BlockSync, SyncResult, finished, failed, panicked, waiting, out_of_fuel, and_then,
  saved, applied, verifies, fetched, get_full_block, ask, download, waits, behind, sync_from, sync,
}

module _ (e : Env) where
  -- One block more, which was valid for the chain state and has a commit of its validators, applied
  -- and saved with that commit.
  pub record Saves (s : BlockSync e) (b : e.Block) (t : BlockSync e) : Type 0 where
    pub valid : e.validate s.chain_state b ≡ true
    pub verified : verifies e s b ≡ true
    pub apply : e.apply s.chain_state b ≡ some t.chain_state
    pub save : e.save_block b (e.header_commit b) s.block_store ≡ some t.block_store

  -- The second state comes from the first by saving such blocks, one after the other.
  pub data Extends : BlockSync e → BlockSync e → Type 0 where
    here : {s : BlockSync e} → Extends s s
    more : {s t u : BlockSync e} (b : e.Block) → Saves s b t → Extends t u → Extends s u

  Extends-trans : {s t u : BlockSync e} → Extends s t → Extends t u → Extends s u
  Extends-trans here r = r
  Extends-trans (more b step rest) r = more b step (Extends-trans rest r)

  -- Where the result has a state, it extends `s`.
  abbrev pub Reaches : BlockSync e → SyncResult e → Type 0
  Reaches s (finished t) = Extends s t
  Reaches s (failed t) = Extends s t
  Reaches s (panicked t) = Extends s t
  Reaches s (waiting t) = Extends s t
  Reaches s out_of_fuel = Unit

  and_then-Reaches :
      (s : BlockSync e) (r : SyncResult e) (next : BlockSync e → SyncResult e)
      → Reaches s r
      → ((t : BlockSync e) → Reaches t (next t))
      → Reaches s (and_then e r next)
  and_then-Reaches s (finished t) next first rest = Reaches-Extends (next t) first (rest t)
    where
      Reaches-Extends :
          {s t : BlockSync e} (r : SyncResult e) → Extends s t → Reaches t r → Reaches s r
      Reaches-Extends (finished u) a b = Extends-trans a b
      Reaches-Extends (failed u) a b = Extends-trans a b
      Reaches-Extends (panicked u) a b = Extends-trans a b
      Reaches-Extends (waiting u) a b = Extends-trans a b
      Reaches-Extends out_of_fuel a b = tt
  and_then-Reaches s (failed t) next first rest = first
  and_then-Reaches s (panicked t) next first rest = first
  and_then-Reaches s (waiting t) next first rest = first
  and_then-Reaches s out_of_fuel next first rest = tt

  saved-Reaches :
      (s : BlockSync e) (b : e.Block) (c : ChainState e.lib) (o : Option e.Store)
      → e.validate s.chain_state b ≡ true
      → verifies e s b ≡ true
      → e.apply s.chain_state b ≡ some c
      → e.save_block b (e.header_commit b) s.block_store ≡ o
      → Reaches s (saved e s c o)
  saved-Reaches s b c none v w a h = here
  saved-Reaches s b c (some t) v w a h =
      more b (record { valid = v; verified = w; apply = a; save = h }) here

  applied-Reaches :
      (s : BlockSync e) (b : e.Block) (o : Option (ChainState e.lib))
      → e.validate s.chain_state b ≡ true
      → verifies e s b ≡ true
      → e.apply s.chain_state b ≡ o
      → Reaches s (applied e s b o)
  applied-Reaches s b none v w a = here
  applied-Reaches s b (some c) v w a = saved-Reaches s b c _ v w a refl

  fetched-Reaches : (s : BlockSync e) (o : Answer e.Block) → Reaches s (fetched e s o)
  fetched-Reaches s broken = here
  fetched-Reaches s silent = here
  fetched-Reaches s (answered b) = elim (Bool-cases (e.validate s.chain_state b)) [
    | inr bad ↦ rw bad here
    | inl v ↦ elim (Bool-cases (verifies e s b)) [
      | inr bad ↦ rw (v, bad) here
      | inl w ↦ rw (v, w) (applied-Reaches s b (e.apply s.chain_state b) v w refl)
    ]
  ]

  module _ (rlp : WireRlp e.Block) (net : Network) where
    download-Reaches :
        (fuel n : ℕ) (p : Bytes) (max h : ℕ) (s : BlockSync e)
        → Reaches s (download e rlp net fuel n p max h s)
    unfolding download
    download-Reaches zero n p max h s = tt
    download-Reaches (suc fuel) n p max h s = elim (Bool-cases (leb h max)) [
      | inr bad ↦ rw bad here
      | inl le ↦ rw le (
          and_then-Reaches s (fetched e s (get_full_block e rlp net n p h))
            (download e rlp net fuel n p max (u64 (h + 1))) (fetched-Reaches s _)
            (λ t. download-Reaches fuel n p max (u64 (h + 1)) t))
    ]

    sync_from-Reaches :
        (passes fuel n : ℕ) (best : Best) (s : BlockSync e)
        → Reaches s (sync_from e rlp net passes fuel n best s)
    unfolding sync_from behind
    sync_from-Reaches zero fuel n best s = tt
    sync_from-Reaches (suc passes) fuel n best s =
        let found = ask e rlp net n net.peers best in
        elim (Bool-cases (waits e rlp net n net.peers)) [
          | inl quiet ↦ rw quiet here
          | inr loud ↦ elim (Bool-cases (ltb found.height (e.store_height s.block_store))) [
            | inl lt ↦ rw (loud, lt) here
            | inr nlt ↦ elim (Bool-cases (found.height == e.store_height s.block_store)) [
              | inl eq ↦ rw (loud, nlt, eq) here
              | inr neq ↦
                  rw (loud, nlt, neq)
                    (and_then-Reaches s (behind e rlp net fuel n found s)
                      (sync_from e rlp net passes fuel (suc n) found)
                      (download-Reaches fuel n found.peer found.height _ s)
                      (λ t. sync_from-Reaches passes fuel (suc n) found t))
            ]
          ]
        ]

    -- Whatever the peers answer, and whichever stay silent: the state that `sync` ends with, with nil,
    -- an error or a panic, or that it waits in for ever, comes from the first one by saving blocks, each of which was valid for the chain state before it and
    -- had a commit that the validators of that state signed.
    pub sync-Reaches :
        (passes fuel : ℕ) (s : BlockSync e) → Reaches s (sync e rlp net passes fuel s)
    unfolding sync
    sync-Reaches passes fuel s = sync_from-Reaches passes fuel 0 _ s
