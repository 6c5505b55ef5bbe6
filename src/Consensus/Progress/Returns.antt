-- ===== src/Consensus/Progress/Returns.antt =====
-- consensus/consensus_state.go: `enterPrevote` and panics.
use go_minimal_pbft.Prelude.{ℕ, ◌≡◌, refl, if◌then◌else◌, Bool-cases, inl, inr, arith}
use go_minimal_pbft.Prelude.Int.{ℤ}
use go_minimal_pbft.RoundStep
use go_minimal_pbft.Messages.{Hash, SignedMsgType, prevote_type}
use go_minimal_pbft.Interfaces.{Env}
use go_minimal_pbft.Consensus.Monad.{Outcome, ok, panic, final, ◌>>◌, after}
use go_minimal_pbft.Consensus.State.{
  State, is_stale, update_round_step, new_step, canonical_now, send_internal_message,
}
use go_minimal_pbft.Consensus.Signing.{vote_time, sign_vote, push_vote, sign_add_vote}
use go_minimal_pbft.Consensus.Prevote.{do_prevote, enter_prevote}
use go_minimal_pbft.Consensus.Progress.Prevote.{prevote_choice, do_prevote_lem}

module _ (e : Env) where
  abbrev Returns : Outcome (State e) (Unit {0}) → Type 0
  Returns o = o ≡ ok tt (final o)

  sign_add_vote-Returns :
      (ty : SignedMsgType) (h : Hash) (s : State e) → Returns (sign_add_vote e ty h s)
  unfolding sign_add_vote sign_vote push_vote vote_time canonical_now send_internal_message
  sign_add_vote-Returns ty h s = ground arith

  do_prevote-Returns : (s : State e) → Returns (do_prevote e s)
  do_prevote-Returns s =
      rw (do_prevote_lem e s) (sign_add_vote-Returns prevote_type (prevote_choice e s) s)

  returned :
      (o : Outcome (State e) (Unit {0})) (round : ℤ)
      → Returns o
      → (after (update_round_step e round RoundStep.prevote >> new_step e) o
          ≡ ok tt (final (after (update_round_step e round RoundStep.prevote >> new_step e) o)))
        × ((final (after (update_round_step e round RoundStep.prevote >> new_step e) o)).step
            ≡ RoundStep.prevote)
        × ((final (after (update_round_step e round RoundStep.prevote >> new_step e) o)).round
            ≡ round)
  unfolding update_round_step new_step
  returned (ok tt t) round h = (refl, refl, refl)
  returned (panic p t) round h = ground (arith, h)

  -- `enterPrevote` always returns. Where its guard lets it through, it ends in the prevote step of the
  -- round that it was called for; else the step and the round stay.
  pub enter_prevote_returns :
      (height : ℕ) (round : ℤ) (s : State e)
      → (enter_prevote e height round s ≡ ok tt (final (enter_prevote e height round s)))
        × ((final (enter_prevote e height round s)).step
            ≡ (if is_stale e height round RoundStep.prevote s then s.step else RoundStep.prevote))
        × ((final (enter_prevote e height round s)).round
            ≡ (if is_stale e height round RoundStep.prevote s then s.round else round))
  unfolding enter_prevote
  enter_prevote_returns height round s =
      elim (Bool-cases (is_stale e height round RoundStep.prevote s)) [
        | inl stale ↦ rw stale (refl, refl, refl)
        | inr fresh ↦ rw fresh (returned (do_prevote e s) round (do_prevote-Returns s))
      ]
