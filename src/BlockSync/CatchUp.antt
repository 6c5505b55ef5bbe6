-- ===== src/BlockSync/CatchUp.antt =====
-- p2p/block_sync.go: a node whose peers serve the same valid chain comes to the end of it.
use go_minimal_pbft.Prelude.{
  ℕ, zero, suc, ◌-◌, ◌≤◌, ◌<◌, ◌≡◌, refl, sym, ap, subst, ◌∙◌, inl, inr, true, false, some, List,
  [], ◌∷◌, ltb, leb, ◌==◌, Bool-cases, arith,
}
use go_minimal_pbft.Messages.{Bytes}
use go_minimal_pbft.ChainState.{ChainState}
use go_minimal_pbft.Interfaces.{Env}
use go_minimal_pbft.P2p.Wire.{WireRlp}
use go_minimal_pbft.P2p.Rpc.{answered}
use go_minimal_pbft.BlockSync.{
  Network, Best, no_best, BlockSync, finished, and_then, fetched, reported_by, last_height, hello,
  get_full_block, waits, ask, download, behind, sync_from, sync,
}
use go_minimal_pbft.BlockSync.Peers.{Reported, ask-Reported, ask-bound}
use go_minimal_pbft.BlockSync.Termination.{Accepts}

-- A chain up to the height `top`, with the chain states after its blocks: each block is valid for
-- the state before it and has a commit of its validators.
pub record IsChain (e : Env) (chain : ℕ → e.Block) (states : ℕ → ChainState e.lib) (top : ℕ)
    : Type 0 where
  pub numbered : (h : ℕ) → e.number (chain h) ≡ h
  pub valid : (h : ℕ) → h < top → e.validate (states h) (chain (suc h)) ≡ true
  pub verified :
      (h : ℕ)
      → h < top
      → e.verify_commit
          (states h).validators
          (states h).chain_id
          (e.hash (chain (suc h)))
          (e.number (chain (suc h)))
          (e.header_commit (chain (suc h)))
        ≡ true
  pub applies : (h : ℕ) → h < top → e.apply (states h) (chain (suc h)) ≡ some (states (suc h))

-- On every pass each peer reports the height `top`, and gives the blocks of the chain up to it.
pub record Serves (e : Env) (rlp : WireRlp e.Block) (net : Network) (chain : ℕ → e.Block) (top : ℕ)
    : Type 0 where
  pub reports : (n : ℕ) (p : Bytes) → hello e rlp net n p ≡ answered top
  pub gives :
      (n : ℕ) (p : Bytes) (h : ℕ)
      → 0 < h
      → h ≤ top
      → get_full_block e rlp net n p h ≡ answered (chain h)

module _ (e : Env) (accepts : Accepts e) (rlp : WireRlp e.Block) (net : Network)
    (chain : ℕ → e.Block) (states : ℕ → ChainState e.lib) (top : ℕ)
    (is_chain : IsChain e chain states top) (serves : Serves e rlp net chain top)
    (small : top < 18446744073709551615) where
  -- The chain state after the block of height `h`, with a store.
  abbrev after_block : ℕ → e.Store → BlockSync e
  after_block h st = record { chain_state = states h; block_store = st }

  fetched-chain :
      (h : ℕ) (st : e.Store)
      → h < top
      → e.store_height st ≡ h
      → (t : e.Store) × (fetched e (after_block h st) (answered (chain (suc h)))
          ≡ finished (after_block (suc h) t))
        × (e.store_height t ≡ suc h)
  fetched-chain h st lt at =
      let number = is_chain.numbered (suc h) in
      let (t, save, height) = accepts (chain (suc h)) st (omega (arith, number, at, lt, small)) in
      (
        t,
        rw (is_chain.valid h lt, is_chain.verified h lt, is_chain.applies h lt, save) refl,
        height ∙ number,
      )

  download-chain :
      (fuel n : ℕ) (p : Bytes) (max h : ℕ) (st : e.Store)
      → max ≡ top
      → h ≤ top
      → top - h < fuel
      → e.store_height st ≡ h
      → (t : e.Store) × (download e rlp net fuel n p max (suc h) (after_block h st)
          ≡ finished (after_block top t))
        × (e.store_height t ≡ top)
  unfolding download
  download-chain zero n p max h st same le enough at =
      let bad : ⊥ = omega (arith, enough) in elim bad [ ]
  download-chain (suc fuel) n p max h st same le enough at = elim (Bool-cases (leb (suc h) max)) [
    | inr bad ↦
        let end : h ≡ top = ground (arith, bad, same, le) in (st, rw (bad, end) refl, at ∙ end)
    | inl good ↦
        let lt : h < top = ground (arith, good, same) in
        let (t, got, height) = fetched-chain h st lt at in
        let (u, rest, end) =
          download-chain fuel n p max (suc h) t same (omega (arith, lt)) (omega (arith, enough, lt))
            height in
        (
          u,
          rw (good, serves.gives n p (suc h) (omega arith) (omega (arith, lt)), got)
              (ap (λ m. download e rlp net fuel n p max m (after_block (suc h) t))
                  (omega (arith, lt, small))
                ∙ rest),
          end,
        )
  ]

  -- All peers report the height `top`.
  ask-Serves :
      (n : ℕ) (ps : List Bytes) (p : Bytes) (best : Best)
      → best.height ≤ top
      → (ask e rlp net n (p ∷ ps) best).height ≡ top
  unfolding last_height
  ask-Serves n ps p best le =
      let most : Reported (last_height e rlp net n) (p ∷ ps) top = all_report (p ∷ ps) in
      omega (
        arith,
        ask-bound e rlp net n (p ∷ ps) best top le most,
        (ask-Reported e rlp net n (p ∷ ps) best).0 top (ap reported_by (serves.reports n p)),
      )
    where
      all_report : (qs : List Bytes) → Reported (last_height e rlp net n) qs top
      all_report [] = tt
      all_report (q ∷ qs) =
          ((λ h eq. ground (arith, sym (ap reported_by (serves.reports n q)) ∙ eq)), all_report qs)

  asked_top :
      (n : ℕ) (p : Bytes) (ps : List Bytes) (best : Best)
      → net.peers ≡ p ∷ ps
      → best.height ≤ top
      → (ask e rlp net n net.peers best).height ≡ top
  asked_top n p ps best peers le =
      subst (λ qs. (ask e rlp net n qs best).height ≡ top) (sym peers) (ask-Serves n ps p best le)

  no_waits : (n : ℕ) (ps : List Bytes) → waits e rlp net n ps ≡ false
  unfolding waits
  no_waits n [] = refl
  no_waits n (p ∷ ps) = rw (serves.reports n p) (no_waits n ps)

  -- A pass at the end of the chain is the last one.
  sync_from-top :
      (passes fuel n : ℕ) (p : Bytes) (ps : List Bytes) (best : Best) (st : e.Store)
      → net.peers ≡ p ∷ ps
      → best.height ≤ top
      → e.store_height st ≡ top
      → sync_from e rlp net (suc passes) fuel n best (after_block top st)
        ≡ finished (after_block top st)
  unfolding sync_from
  sync_from-top passes fuel n p ps best st peers le at =
      let asked = asked_top n p ps best peers le in
      let found = ask e rlp net n net.peers best in
      let nlt : ltb found.height (e.store_height st) ≡ false = ground (arith, asked, at) in
      let eq : (found.height == e.store_height st) ≡ true = ground (arith, asked, at) in
      rw (no_waits n net.peers, nlt, eq) refl

  -- Where all peers, of which there is one, report the height `top` and serve the same valid chain up to
  -- it, and the store takes the block after its last one, a node with the chain's state at a lower
  -- height, or at `top`, catches up: in two passes, `sync` ends with nil, with the chain state after the
  -- last block and a store of that height.
  pub sync-catches_up :
      (passes fuel h : ℕ) (p : Bytes) (ps : List Bytes) (st : e.Store)
      → net.peers ≡ p ∷ ps
      → h ≤ top
      → e.store_height st ≡ h
      → top < fuel
      → (t : e.Store) × (sync e rlp net (suc (suc passes)) fuel (after_block h st)
          ≡ finished (after_block top t))
        × (e.store_height t ≡ top)
  unfolding sync sync_from behind
  sync-catches_up passes fuel h p ps st peers le at fits =
      let found = ask e rlp net 0 net.peers no_best in
      let asked = asked_top 0 p ps no_best peers (omega arith) in
      elim (Bool-cases (found.height == e.store_height st)) [
        | inl eq ↦
            let nlt : ltb found.height (e.store_height st) ≡ false = ground (arith, eq) in
            let end : h ≡ top = ground (arith, eq, asked, at) in
            (st, rw (no_waits 0 net.peers, nlt, eq, end) refl, at ∙ end)
        | inr neq ↦
            let nlt : ltb found.height (e.store_height st) ≡ false =
              ground (arith, neq, asked, at, le) in
            let (t, got, height) =
              download-chain fuel 0 found.peer found.height h st asked le (omega (arith, fits))
                at in
            let next = sync_from e rlp net (suc passes) fuel 1 found in
            (
              t,
              rw (no_waits 0 net.peers, nlt, neq)
                  (ap
                      (λ m.
                        and_then e
                          (download e rlp net fuel 0 found.peer found.height m (after_block h st))
                          next)
                      (omega (arith, at, le, small))
                    ∙ ap (λ r. and_then e r next) got
                    ∙ sync_from-top passes fuel 1 p ps found t peers (omega (arith, asked)) height),
              height,
            )
      ]
