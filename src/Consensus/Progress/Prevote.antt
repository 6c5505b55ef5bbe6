-- ===== src/Consensus/Progress/Prevote.antt =====
-- consensus/consensus_state.go: `defaultDoPrevote`, `enterPrevote`, `enterPrevoteWait` and the
-- invariant.
use go_minimal_pbft.Prelude.{◌≡◌, none, some, if◌then◌else◌, arith}
use go_minimal_pbft.Prelude.Int.{◌≤ℤ◌}
use go_minimal_pbft.Messages.{Hash, zero_hash, prevote_type}
use go_minimal_pbft.Interfaces.{Env}
use go_minimal_pbft.Consensus.Monad.{final}
use go_minimal_pbft.Consensus.State.{State}
use go_minimal_pbft.Consensus.Signing.{sign_add_vote}
use go_minimal_pbft.Consensus.Signing.Frame.{Signs, sign_add_vote-Signs}
use go_minimal_pbft.Consensus.Prevote.{do_prevote}

module _ (e : Env) where
  -- The height is the same, and the round is not lower.
  abbrev pub Stays : State e → State e → Type 0
  Stays s t = (t.height ≡ s.height) × (s.round ≤ℤ t.round)

  -- What a node prevotes for: its locked block, else its valid proposal block, else nil.
  unfoldable pub prevote_choice : State e → Hash
  prevote_choice s = elim s.locked_block [
    | some locked ↦ e.hash locked
    | none ↦ elim s.proposal_block [
      | none ↦ zero_hash
      | some block ↦ if e.validate s.chain_state block then e.hash block else zero_hash
    ]
  ]

  pub do_prevote_lem :
      (s : State e) → do_prevote e s ≡ sign_add_vote e prevote_type (prevote_choice s) s
  unfolding do_prevote prevote_choice
  do_prevote_lem s = ground arith

  -- `defaultDoPrevote` signs at most one prevote and changes nothing else but the clock's count:
  -- the prevote is for the locked block wherever there is one, for the proposal block where that
  -- is valid and nothing is locked, and for nil otherwise.
  pub do_prevote-Signs :
      (s : State e) → Signs e prevote_type (prevote_choice s) s (final (do_prevote e s))
  do_prevote-Signs s =
      rw (do_prevote_lem s) (sign_add_vote-Signs e prevote_type (prevote_choice s) s)
