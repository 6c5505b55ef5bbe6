-- ===== src/Consensus/AddVote/Polka.antt =====
-- consensus/consensus_state.go, `addVote` and `defaultSetProposal`: what +2/3 of the prevotes change
-- in the lock and in the valid block.
use go_minimal_pbft.Prelude.{Bool, not, ◌&&◌, Option, none, some, ◌==◌, is_some, if◌then◌else◌}
use go_minimal_pbft.Prelude.Int.{ℤ, negsuc, ltb_ℤ, leb_ℤ, eqb_ℤ}
use go_minimal_pbft.Messages.{Hash, zero_hash}
use go_minimal_pbft.Interfaces.{Env}
use go_minimal_pbft.Consensus.Monad.{pure, ok, when, ◌>>◌}
use go_minimal_pbft.Consensus.State.{State, Action, modify_rs}

module _ (e : Env) where
  -- A polka of a later round, up to this one, for another block than the locked one.
  unfoldable pub unlocks : ℤ → Hash → State e → Bool
  unlocks vote_round block_id s =
      is_some s.locked_block
      && ltb_ℤ s.locked_round vote_round
      && leb_ℤ vote_round s.round
      && not (e.hash_to s.locked_block block_id)

  unfoldable pub unlock_on_polka : ℤ → Hash → Action e (Unit {0})
  unfolding unlocks
  unlock_on_polka vote_round block_id s =
      when (unlocks vote_round block_id s)
        (modify_rs e (λ r. record r { locked_round = negsuc 0; locked_block = none })) s

  unfoldable pub set_valid_block : Action e (Unit {0})
  set_valid_block =
      modify_rs e (λ r. record r { valid_round = r.round; valid_block = r.proposal_block })

  unfoldable pub update_valid_block : ℤ → Hash → Action e (Unit {0})
  update_valid_block vote_round block_id s =
      if not (block_id == zero_hash) && ltb_ℤ s.valid_round vote_round && eqb_ℤ vote_round s.round
      then if e.hash_to s.proposal_block block_id
        then modify_rs e
            (λ r. record r { valid_round = vote_round; valid_block = r.proposal_block }) s
        else modify_rs e (λ r. record r { proposal_block = none }) s
      else ok tt s

  unfoldable pub on_majority : ℤ → Option Hash → Action e (Unit {0})
  unfolding unlock_on_polka update_valid_block
  on_majority vote_round none = pure tt
  on_majority vote_round (some block_id) = do
    unlock_on_polka vote_round block_id
    update_valid_block vote_round block_id

  -- `prevotes` has +2/3 for a block or nil, in any round.
  unfoldable pub on_polka : ℤ → Option e.VoteSet → Action e (Unit {0})
  unfolding on_majority
  on_polka vote_round prevotes = on_majority vote_round (e.two_thirds_majority prevotes)
