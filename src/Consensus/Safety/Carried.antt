-- ===== src/Consensus/Safety/Carried.antt =====
-- consensus/consensus_state.go: `NewConsensusState`, `SetPrivValidator` and `OnStart` keep the chain state
-- and the store that the node is made with.
use go_minimal_pbft.Prelude.{◌≡◌, Option, none, some, ltb, Bool-cases, inl, inr, arith}
use go_minimal_pbft.ChainState.{ChainState}
use go_minimal_pbft.Interfaces.{Env}
use go_minimal_pbft.Consensus.Monad.{◌>>◌}
use go_minimal_pbft.Consensus.Hoare.{Ends}
use go_minimal_pbft.Consensus.State.{State, schedule_round0, schedule_timeout, canonical_now}
use go_minimal_pbft.Consensus.Sync.{reconstruct_last_commit, set_last_commit}
use go_minimal_pbft.Consensus.Signing.{set_priv_validator, update_priv_validator_pub_key}
use go_minimal_pbft.Consensus.Update.{last_commit_for, reset_fields, move_to, update_to_state}
use go_minimal_pbft.Consensus.Routine.{on_start}
use go_minimal_pbft.Consensus.New.{blank, new_consensus_state}

module _ (e : Env) (state : ChainState e.lib) (store : e.Store) where
  -- The node has this chain state and this store.
  abbrev pub Carries : State e → Type 0
  Carries t = (t.chain_state ≡ state) × (t.block_store ≡ store)

  abbrev with_commit : Option e.VoteSet → State e
  with_commit c = record (blank e store) { rs = record (blank e store).rs { last_commit = c } }

  reset_fields-Carries :
      (c d : Option e.VoteSet) → Ends Carries Carries (reset_fields e state c (with_commit d))
  unfolding reset_fields
  reset_fields-Carries c d = ground arith

  update-Carries :
      (d : Option e.VoteSet) → Ends (λ t. Unit) Carries (update_to_state e state (with_commit d))
  unfolding update_to_state move_to last_commit_for
  update-Carries d = ground (arith, reset_fields-Carries none d, reset_fields-Carries d d)

  rebuilt-Carries :
      (c : Option e.Commit)
      → Ends
          (λ t. Unit)
          Carries
          ((set_last_commit e state c >> update_to_state e state) (blank e store))
  rebuilt-Carries none = tt
  rebuilt-Carries (some c) =
      update-Carries (e.commit_to_vote_set state.chain_id c state.last_validators)

  pub new_consensus_state-Carries : Ends (λ t. Unit) Carries (new_consensus_state e state store)
  unfolding new_consensus_state reconstruct_last_commit
  new_consensus_state-Carries = elim (Bool-cases (ltb 0 state.last_block_height)) [
    | inl past ↦ rw past (rebuilt-Carries _)
    | inr genesis ↦ rw genesis (update-Carries none)
  ]

  pub set_priv_validator-Carries :
      (p : Option e.PrivValidator) (s : State e)
      → Carries s
      → Ends Carries (λ t. Unit) (set_priv_validator e p s)
  unfolding set_priv_validator update_priv_validator_pub_key
  set_priv_validator-Carries p s h = ground (arith, h)

  pub on_start-Carries : (s : State e) → Carries s → Ends Carries (λ t. Unit) (on_start e s)
  unfolding on_start schedule_round0 schedule_timeout canonical_now
  on_start-Carries s h = ground (arith, h)
