-- ===== src/Consensus/Safety/Commit.antt =====
-- consensus/consensus_state.go: when a block is stored and the chain state moves on.
use go_minimal_pbft.Prelude.{
  ℕ, ◌≡◌, refl, sym, ◌∙◌, ◌⊎◌, inl, inr, true, Option, none, some, Bool-cases, Option-cases, arith,
  ap,
}
use go_minimal_pbft.Messages.{Hash}
use go_minimal_pbft.Interfaces.{Env}
use go_minimal_pbft.Consensus.Monad.{final}
use go_minimal_pbft.Consensus.State.{State}
use go_minimal_pbft.Consensus.Commit.{
  finalize_block, finalize_commit, try_finalize_commit, process_committed_block,
}

module _ (e : Env) where
  -- The proposal block has +2/3 of the precommits of the commit round and is valid.
  abbrev pub Decides : State e → Type 0
  Decides s =
      (b : e.Block) × (s.proposal_block ≡ some b)
      × (e.two_thirds_majority (e.precommits s.votes s.commit_round) ≡ some (e.hash b))
      × (e.validate s.chain_state b ≡ true)

  -- The stored blocks and the chain state are as they were, or the proposal block is decided.
  abbrev pub Keeps : State e → State e → Type 0
  Keeps s t = ((t.block_store ≡ s.block_store) × (t.chain_state ≡ s.chain_state)) ⊎ Decides s

  decided :
      (s : State e) (h : Hash) (o : Option e.Block)
      → s.proposal_block ≡ o
      → e.two_thirds_majority (e.precommits s.votes s.commit_round) ≡ some h
      → e.hash_to o h ≡ true
      → Keeps s (final (finalize_block e o s))
  unfolding finalize_block
  decided s h none same polka m = inl (refl, refl)
  decided s h (some b) same polka m = elim (Bool-cases (e.validate s.chain_state b)) [
    | inl valid ↦ rw valid (inr (b, same, polka ∙ sym (ap some (e.hash_to-hash b h m)), valid))
    | inr invalid ↦ rw invalid (inl (refl, refl))
  ]

  finalize_commit-Keeps : (height : ℕ) (s : State e) → Keeps s (final (finalize_commit e height s))
  unfolding finalize_commit
  finalize_commit-Keeps height s =
      elim (Option-cases (e.two_thirds_majority (e.precommits s.votes s.commit_round))) [
        | inl few ↦ ground (arith, few)
        | inr (h, polka) ↦ ground (arith, polka, decided s h s.proposal_block refl polka)
      ]

  -- `tryFinalizeCommit` leaves the stored blocks and the chain state as they were, unless the
  -- proposal block has +2/3 of the precommits of the commit round and the executor finds it
  -- valid.
  pub try_finalize_commit-Keeps :
      (height : ℕ) (s : State e) → Keeps s (final (try_finalize_commit e height s))
  unfolding try_finalize_commit
  try_finalize_commit-Keeps height s = ground (arith, finalize_commit-Keeps height s)

  -- `processCommitedBlock` leaves the stored blocks and the chain state as they were, unless the
  -- block is for this height, the executor finds it valid, and its commit verifies against the
  -- validators.
  pub process_committed_block-Verified :
      (b : e.Block) (s : State e)
      → ((final (process_committed_block e b s)).block_store ≡ s.block_store)
          × ((final (process_committed_block e b s)).chain_state ≡ s.chain_state)
        ⊎ ((e.number b ≡ s.height)
            × (e.validate s.chain_state b ≡ true)
            × (e.verify_commit s.chain_state.validators s.chain_state.chain_id
                  (e.hash b)
                  (e.number b)
                  (e.header_commit b)
                ≡ true))
  unfolding process_committed_block
  process_committed_block-Verified b s = ground arith
