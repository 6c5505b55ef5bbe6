-- ===== src/Consensus/Agreement/Local.antt =====
-- consensus/consensus_state.go: every handler keeps what the node's votes rest on.
use go_minimal_pbft.Prelude.{suc, ◌≡◌, refl, sym, ◌∙◌, subst, inl, inr, arith}
use go_minimal_pbft.Messages.{Vote}
use go_minimal_pbft.ChainState.{ChainState}
use go_minimal_pbft.Interfaces.{Env}
use go_minimal_pbft.Consensus.State.{State}
use go_minimal_pbft.Consensus.Invariant.{Inv}
use go_minimal_pbft.Consensus.Progress.Kept.{Kept, votes_in, Resets}
use go_minimal_pbft.Consensus.Agreement.Tally.{Validators, Tally}
use go_minimal_pbft.Consensus.Agreement.Knows.{Cast, Knows}
use go_minimal_pbft.Consensus.Agreement.Moves.{Cast-below, Knows-change, Knows-Quiet, Knows-unlock}
use go_minimal_pbft.Consensus.Agreement.Casts.{Knows-prevoted, Knows-precommitted}

module _ (q : Validators) (V : Vote → Type 0) (e : Env) (tally : Tally q e.lib) where
  abbrev pub KnowsAt : State e → Type 0
  KnowsAt s = Knows q V e tally s.rs (votes_in s.internal_msg_queue)

  -- No vote was cast at the next height.
  none_ahead :
      (s : State e) (p : Vote)
      → Inv e s
      → Cast p (votes_in s.internal_msg_queue)
      → p.height ≡ suc s.height
      → ⊥
  none_ahead s p inv c at =
      ground (arith, Cast-below _ s.internal_msg_queue p inv.ordered c, at, inv)

  pub Knows-reset :
      (state : ChainState e.lib) (s t : State e)
      → Inv e s
      → Resets e state s t
      → KnowsAt s
      → KnowsAt t
  Knows-reset state s t inv resets k =
      subst (λ log. Knows q V e tally t.rs (votes_in log)) (sym resets.same_queue)
        record {
          recorded = λ v h.
              let bad : ⊥ =
                tally.Recorded-new state.chain_id t.height state.validators v
                  (subst (λ x. tally.Recorded x v) resets.no_votes h) in
              elim bad [ ];
          nonneg = k.nonneg;
          polkas = k.polkas;
          held = λ p d is at.
              let bad : ⊥ = none_ahead s p inv d (at ∙ resets.one_higher) in elim bad [ ];
          prevoted = k.prevoted;
        }

  -- What the votes rest on is kept by every handler that is given votes of `V`.
  abbrev pub knowing : Kept e
  knowing = record {
    Holds = KnowsAt;
    IsIn = λ v. q.Genuine v → V v;
    IsCommitIn = λ c. (v : Vote) → tally.Carries c v → q.Genuine v → V v;
    quiet = Knows-Quiet q V e tally;
    prevoted = λ s t inv lt sg k. Knows-prevoted q V e tally s t inv sg k;
    precommitted = Knows-precommitted q V e tally;
    unlocked = λ r h s polka lt le other k.
        Knows-unlock q V e tally r h s.rs _ (votes_in s.internal_msg_queue) polka lt le other refl
          refl refl k;
    added = λ v peer_id is_added err votes s got at seen k.
        Knows-change q V e tally s.rs _ (votes_in s.internal_msg_queue) refl
          (λ w h. elim (tally.Recorded-add_vote s.votes votes v w peer_id is_added err got h) [
            | inl (same, genuine) ↦
                subst (λ x. V x × (x.height ≡ s.height)) (sym same) (seen genuine, at)
            | inr old ↦ k.recorded w old
          ])
          (λ p c is here held. held) k;
    tracked = λ r votes s set k.
        Knows-change q V e tally s.rs _ (votes_in s.internal_msg_queue) refl
          (λ w h. k.recorded w (tally.Recorded-set_round s.votes votes r w set h))
          (λ p c is here held. held) k;
    reset = λ b state s t inv why applied resets k. Knows-reset state s t inv resets k;
  }
