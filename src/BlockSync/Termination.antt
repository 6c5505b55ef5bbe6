-- ===== src/BlockSync/Termination.antt =====
-- p2p/block_sync.go: `sync` ends, and what the store has when it ends with nil.
use go_minimal_pbft.Prelude.{
  ℕ, zero, suc, ◌+◌, ◌-◌, ◌≤◌, ◌<◌, ◌≡◌, refl, ◌∙◌, ◌⊎◌, true, List, [], ◌∷◌, inl, inr, Option,
  none, some, ltb, leb, ◌==◌, u64, Bool-cases, arith,
}
use go_minimal_pbft.Messages.{Bytes}
use go_minimal_pbft.ChainState.{ChainState, next_height}
use go_minimal_pbft.Interfaces.{Env}
use go_minimal_pbft.P2p.Wire.{WireRlp}
use go_minimal_pbft.P2p.Rpc.{
  Answer, answered, broken, silent, hello_rpc, full_block_rpc, send_rpc-silent,
}
use go_minimal_pbft.BlockSync.Peers.{Reported, Reported-le, ask-Reported, ask-bound}
use go_minimal_pbft.BlockSync.{
  Network, Best, no_best, BlockSync, SyncResult, finished, failed, panicked, waiting, out_of_fuel,
  and_then, saved, applied, verifies, fetched, is_silent, last_height, hello, get_full_block, ask,
  waits, download, behind, sync_from, sync,
}

-- The store takes the block after its last one, and has then its height. The default store does where
-- no `Put` fails.
abbrev pub Accepts : (e : Env) → Type 0
Accepts e =
    (b : e.Block) (st : e.Store)
    → e.number b ≡ u64 (e.store_height st + 1)
    → (t : e.Store) × (e.save_block b (e.header_commit b) st ≡ some t)
      × (e.store_height t ≡ e.number b)

-- A stream to a peer stays silent.
abbrev pub Stalls : Network → Type 0
Stalls net =
    (n : ℕ) × (p : Bytes) × (d : Bytes) × ((net.hello_stream n p d ≡ silent)
      ⊎ (net.full_block_stream n p d ≡ silent))

silent_lem : {A : Type 0} (o : Answer A) → is_silent o ≡ true → o ≡ silent
silent_lem silent h = refl
silent_lem broken h = ground (arith, h)
silent_lem (answered a) h = ground (arith, h)

module _ (e : Env) where
  -- The chain state is the one after the store's last block.
  abbrev pub Agrees : BlockSync e → Type 0
  Agrees s =
      (s.chain_state.last_block_height ≡ e.store_height s.block_store)
      × (next_height e.lib s.chain_state ≡ u64 (e.store_height s.block_store + 1))

  -- What a download up to `max` ends with: the store has the height `max`, or an error, or it
  -- waits for a silent peer.
  abbrev pub Downloaded : Network → ℕ → SyncResult e → Type 0
  Downloaded net max (finished t) = Agrees t × (e.store_height t.block_store ≡ max)
  Downloaded net max (failed t) = Unit
  Downloaded net max (panicked t) = ⊥
  Downloaded net max (waiting t) = Stalls net
  Downloaded net max out_of_fuel = ⊥

  -- What `sync` ends with: an error, or nil, where the store has at most the bound and what the peers
  -- reported on a pass. It waits only for a silent peer.
  abbrev pub Synced : WireRlp e.Block → Network → ℕ → SyncResult e → Type 0
  Synced rlp net bound (finished t) =
      Agrees t
      × (e.store_height t.block_store ≤ bound)
      × ((n : ℕ) × Reported (last_height e rlp net n) net.peers (e.store_height t.block_store))
  Synced rlp net bound (failed t) = Unit
  Synced rlp net bound (panicked t) = ⊥
  Synced rlp net bound (waiting t) = Stalls net
  Synced rlp net bound out_of_fuel = ⊥

  Agrees-next :
      (c : ChainState e.lib) (t : e.Store) (n : ℕ)
      → 0 < n
      → c.last_block_height ≡ n
      → e.store_height t ≡ n
      → Agrees (record { chain_state = c; block_store = t })
  Agrees-next c t n pos_n top height =
      (ground (arith, top, height), ground (arith, pos_n, top, height))

  and_then-Downloaded :
      (net : Network) (m max : ℕ) (r : SyncResult e) (next : BlockSync e → SyncResult e)
      → Downloaded net m r
      → ((t : BlockSync e)
          → Agrees t
          → e.store_height t.block_store ≡ m
          → Downloaded net max (next t))
      → Downloaded net max (and_then e r next)
  and_then-Downloaded net m max (finished t) next (agrees, at) rest = rest t agrees at
  and_then-Downloaded net m max (failed t) next first rest = tt
  and_then-Downloaded net m max (panicked t) next first rest = elim first [ ]
  and_then-Downloaded net m max (waiting t) next first rest = first
  and_then-Downloaded net m max out_of_fuel next first rest = elim first [ ]

  module _ (accepts : Accepts e) (net : Network) where
    saved-Downloaded :
        (s : BlockSync e) (b : e.Block) (c : ChainState e.lib)
        → e.store_height s.block_store < 18446744073709551615
        → e.number b ≡ suc (e.store_height s.block_store)
        → c.last_block_height ≡ e.number b
        → Downloaded net
            (suc (e.store_height s.block_store))
            (saved e s c (e.save_block b (e.header_commit b) s.block_store))
    saved-Downloaded s b c lt at top =
        let (t, save, height) = accepts b s.block_store (omega (arith, at, lt)) in
        rw save (Agrees-next c t (e.number b) (omega (arith, at)) top height, height ∙ at)

    applied-Downloaded :
        (s : BlockSync e) (b : e.Block) (o : Option (ChainState e.lib))
        → e.store_height s.block_store < 18446744073709551615
        → e.number b ≡ suc (e.store_height s.block_store)
        → e.apply s.chain_state b ≡ o
        → Downloaded net (suc (e.store_height s.block_store)) (applied e s b o)
    applied-Downloaded s b none lt at a = tt
    applied-Downloaded s b (some c) lt at a =
        saved-Downloaded s b c lt at (e.apply-height s.chain_state c b a)

    -- A block that is valid for the chain state has the height after the store's.
    fetched-Downloaded :
        (s : BlockSync e) (o : Answer e.Block)
        → (o ≡ silent → Stalls net)
        → e.store_height s.block_store < 18446744073709551615
        → Agrees s
        → Downloaded net (suc (e.store_height s.block_store)) (fetched e s o)
    fetched-Downloaded s broken quiet lt agrees = tt
    fetched-Downloaded s silent quiet lt agrees = quiet refl
    fetched-Downloaded s (answered b) quiet lt agrees =
        elim (Bool-cases (e.validate s.chain_state b)) [
          | inr bad ↦ rw bad tt
          | inl v ↦ elim (Bool-cases (verifies e s b)) [
            | inr bad ↦ rw (v, bad) tt
            | inl w ↦
                rw (v, w)
                  (applied-Downloaded s b (e.apply s.chain_state b) lt
                    (omega (arith, e.validate-number s.chain_state b v, agrees.1, lt)) refl)
          ]
        ]

    module _ (rlp : WireRlp e.Block) where
      hello-Stalls : (n : ℕ) (p : Bytes) → hello e rlp net n p ≡ silent → Stalls net
      unfolding hello hello_rpc
      hello-Stalls n p h =
          let (d, quiet) = send_rpc-silent (net.hello_stream n p) _ _ h in (n, p, d, inl quiet)

      get_full_block-Stalls :
          (n : ℕ) (p : Bytes) (h : ℕ) → get_full_block e rlp net n p h ≡ silent → Stalls net
      unfolding get_full_block full_block_rpc
      get_full_block-Stalls n p h eq =
          let (d, quiet) = send_rpc-silent (net.full_block_stream n p) _ _ eq in
          (n, p, d, inr quiet)

      waits-Stalls : (n : ℕ) (ps : List Bytes) → waits e rlp net n ps ≡ true → Stalls net
      unfolding waits
      waits-Stalls n [] h = ground (arith, h)
      waits-Stalls n (p ∷ ps) h = elim (Bool-cases (is_silent (hello e rlp net n p))) [
        | inl quiet ↦ hello-Stalls n p (silent_lem (hello e rlp net n p) quiet)
        | inr loud ↦ waits-Stalls n ps (ground (arith, loud, h))
      ]

      download-Downloaded :
          (fuel n : ℕ) (p : Bytes) (max h : ℕ) (s : BlockSync e)
          → max < 18446744073709551615
          → h ≡ suc (e.store_height s.block_store)
          → e.store_height s.block_store ≤ max
          → max - e.store_height s.block_store < fuel
          → Agrees s
          → Downloaded net max (download e rlp net fuel n p max h s)
      unfolding download
      download-Downloaded zero n p max h s small at le enough agrees = omega (arith, enough)
      download-Downloaded (suc fuel) n p max h s small at le enough agrees =
          elim (Bool-cases (leb h max)) [
            | inr bad ↦ rw bad (agrees, ground (arith, bad, at, le))
            | inl good ↦
                let below : e.store_height s.block_store < max = ground (arith, good, at) in
                rw good (
                  and_then-Downloaded net (suc (e.store_height s.block_store)) max
                    (fetched e s (get_full_block e rlp net n p h))
                    (download e rlp net fuel n p max (u64 (h + 1)))
                    (fetched-Downloaded s _ (get_full_block-Stalls n p h)
                      (omega (arith, small, below)) agrees)
                    (λ t agrees' height.
                      download-Downloaded fuel n p max (u64 (h + 1)) t small
                        (omega (arith, height, at, small, below)) (omega (arith, height, below))
                        (omega (arith, height, enough, below)) agrees'))
          ]

      module _ (bound : ℕ) (small : bound < 18446744073709551615)
          (reported : (n : ℕ) → Reported (last_height e rlp net n) net.peers bound) where
        and_then-Synced :
            (m : ℕ) (r : SyncResult e) (next : BlockSync e → SyncResult e)
            → Downloaded net m r
            → ((t : BlockSync e)
                → Agrees t
                → e.store_height t.block_store ≡ m
                → Synced rlp net bound (next t))
            → Synced rlp net bound (and_then e r next)
        and_then-Synced m (finished t) next (agrees, at) rest = rest t agrees at
        and_then-Synced m (failed t) next first rest = tt
        and_then-Synced m (panicked t) next first rest = elim first [ ]
        and_then-Synced m (waiting t) next first rest = first
        and_then-Synced m out_of_fuel next first rest = elim first [ ]

        sync_from-Synced :
            (passes fuel n : ℕ) (best : Best) (s : BlockSync e)
            → bound - e.store_height s.block_store < passes
            → bound < fuel
            → best.height ≤ bound
            → e.store_height s.block_store ≤ bound
            → Agrees s
            → Synced rlp net bound (sync_from e rlp net passes fuel n best s)
        unfolding sync_from behind
        sync_from-Synced zero fuel n best s enough fits le inside agrees = omega (arith, enough)
        sync_from-Synced (suc passes) fuel n best s enough fits le inside agrees =
            let found = ask e rlp net n net.peers best in
            let most = ask-bound e rlp net n net.peers best bound le (reported n) in
            let all = ask-Reported e rlp net n net.peers best in
            elim (Bool-cases (waits e rlp net n net.peers)) [
              | inl quiet ↦ rw quiet (waits-Stalls n net.peers quiet)
              | inr loud ↦ elim (Bool-cases (ltb found.height (e.store_height s.block_store))) [
                | inl lt ↦
                    rw (loud, lt)
                      (
                        agrees,
                        inside,
                        (
                          n,
                          Reported-le (last_height e rlp net n) net.peers _ _ (ground (arith, lt))
                              all,
                        ),
                      )
                | inr nlt ↦ elim (Bool-cases (found.height == e.store_height s.block_store)) [
                  | inl eq ↦
                      rw (loud, nlt, eq)
                        (
                          agrees,
                          inside,
                          (
                            n,
                            Reported-le (last_height e rlp net n) net.peers _ _ (ground (arith, eq))
                                all,
                          ),
                        )
                  | inr neq ↦
                      let more : e.store_height s.block_store < found.height =
                        ground (arith, nlt, neq) in
                      rw (loud, nlt, neq)
                        (and_then-Synced found.height (behind e rlp net fuel n found s)
                          (sync_from e rlp net passes fuel (suc n) found)
                          (download-Downloaded fuel n found.peer found.height
                            (u64 (e.store_height s.block_store + 1)) s (omega (arith, most, small))
                            (omega (arith, more, most, small)) (omega (arith, more))
                            (omega (arith, most, fits)) agrees)
                          (λ t agrees' at.
                            sync_from-Synced passes fuel (suc n) found t
                              (omega (arith, at, more, enough, most)) fits most
                              (omega (arith, at, most)) agrees'))
                ]
              ]
            ]

        -- Where the store takes the block after its last one, the chain state agrees with the store, and
        -- neither the store's height nor one that a peer reports is above a bound below 2^64 - 1: with
        -- more passes than the heights that are missing up to the bound, and more fuel for each than the
        -- bound, `sync` does not panic, and it ends, with an error or with nil, unless a stream to a peer stays
        -- silent, for which it waits for ever. Where it ends with nil, the chain state agrees with the store, whose height is at most the bound and at least what
        -- any peer reported on one of the passes.
        pub sync-Synced :
            (passes fuel : ℕ) (s : BlockSync e)
            → bound - e.store_height s.block_store < passes
            → bound < fuel
            → e.store_height s.block_store ≤ bound
            → Agrees s
            → Synced rlp net bound (sync e rlp net passes fuel s)
        unfolding sync
        sync-Synced passes fuel s enough fits inside agrees =
            sync_from-Synced passes fuel 0 no_best s enough fits (omega arith) inside agrees
