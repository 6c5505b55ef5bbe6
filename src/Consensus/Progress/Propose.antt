-- ===== src/Consensus/Progress/Propose.antt =====
-- consensus/consensus_state.go: `enterPropose` and the invariant, with what it keeps.
use go_minimal_pbft.Prelude.{ℕ, suc, ◌<◌, ◌≡◌, false, Bool-cases, inl, inr, arith, All, ◌∷◌}
use go_minimal_pbft.Prelude.Int.{ℤ, ◌≤ℤ◌, eq_of_parts, max_int32}
use go_minimal_pbft.RoundStep
use go_minimal_pbft.Messages.{TimeoutInfo}
use go_minimal_pbft.Interfaces.{Env}
use go_minimal_pbft.Consensus.Monad.{final, ◌>>◌}
use go_minimal_pbft.Consensus.Hoare.{Ends, Ends-defer, Ends-when, Ends-map}
use go_minimal_pbft.Consensus.State.{State, is_stale, schedule_timeout, is_proposal_complete}
use go_minimal_pbft.Consensus.Prevote.{enter_prevote}
use go_minimal_pbft.Consensus.Propose.{decide_proposal, do_propose, propose_done, enter_propose}
use go_minimal_pbft.Consensus.Invariant.{Inv, Ordered, IsPast, rank_of}
use go_minimal_pbft.Consensus.Progress.Advance.{Advances-Inv, IsPast-after}
use go_minimal_pbft.Consensus.Progress.Prevote.{Stays}
use go_minimal_pbft.Consensus.Progress.Kept.{Kept, Good, Good-Quiet, votes_in}
use go_minimal_pbft.Consensus.Progress.Entered.{enter_prevote-Ends}

module _ (e : Env) where
  -- No vote was sent, and only messages were.
  pub record Proposes (bound : ℕ) (s t : State e) : Type 0 where
    pub same_rs : t.rs ≡ s.rs
    pub same_chain : t.chain_state ≡ s.chain_state
    pub same_ticks : t.tick_chan ≡ s.tick_chan
    pub same_cast : votes_in t.internal_msg_queue ≡ votes_in s.internal_msg_queue
    pub no_votes : Ordered bound s.internal_msg_queue → Ordered bound t.internal_msg_queue

  decide_proposal-Proposes :
      (bound height : ℕ) (round : ℤ) (s : State e)
      → Proposes bound s (final (decide_proposal e height round s))
  unfolding decide_proposal
  decide_proposal-Proposes bound height round s = ground arith

  do_propose-Proposes :
      (bound height : ℕ) (round : ℤ) (s : State e)
      → Proposes bound s (final (do_propose e height round s))
  unfolding do_propose
  do_propose-Proposes bound height round s =
      ground (arith, decide_proposal-Proposes bound height round s)

  abbrev pub Reaches : ℕ → ℤ → State e → State e → Type 0
  Reaches height round s t = Stays e s t × (s.height ≡ height → round ≤ℤ t.round)

  -- What the deferred function of `enterPropose` starts from.
  record Ready (height : ℕ) (round : ℤ) (s t : State e) : Type 0 where
    same_rs : t.rs ≡ s.rs
    same_chain : t.chain_state ≡ s.chain_state
    same_cast : votes_in t.internal_msg_queue ≡ votes_in s.internal_msg_queue
    ticks_past : All (IsPast height round) t.tick_chan
    queue_ordered : Ordered (suc (rank_of s.height s.round s.step)) t.internal_msg_queue

  abbrev scheduled : ℕ → ℤ → State e → State e
  scheduled height round s =
      let ti : TimeoutInfo = record {
        duration = e.propose_timeout round;
        height = height;
        round = round;
        step = RoundStep.propose;
      } in
      record s { tick_chan = ti ∷ s.tick_chan }

  module _ (height : ℕ) (round : ℤ) (s : State e) (kept : Kept e) (good : Good e kept s)
      (max : round ≤ℤ max_int32) where
    fresh_propose :
        is_stale e height round RoundStep.propose s ≡ false
        → (height ≡ s.height) × (s.round ≤ℤ round) × (s.round ≡ round → s.step < 3)
    fresh_propose f = (ground arith, ground arith, λ same. ground arith)

    module _ (hs : height ≡ s.height) (le : s.round ≤ℤ round)
        (lt : s.round ≡ round → s.step < 3) where
      body-Ready : Ready height round s (
          final (
            (schedule_timeout e (e.propose_timeout round) height round RoundStep.propose
                >> do_propose e height round)
              s))
      unfolding schedule_timeout
      body-Ready =
          let bound : ℕ = suc (rank_of s.height s.round s.step) in
          ground (
            arith,
            good.inv,
            do_propose-Proposes bound height round (scheduled height round s),
            IsPast-after e s round good.inv le,
          )

      abbrev proposed : State e → State e
      proposed t = record t {
        rs = record t.rs { round = round; step = RoundStep.propose };
        n_steps = suc t.n_steps;
      }

      done-Inv : (t : State e) → Ready height round s t → Inv e (proposed t)
      done-Inv t ready =
          Advances-Inv e s (proposed t) good.inv
            (ground (arith, good.inv, ready, eq_of_parts s.round round))

      done-Good : (t : State e) → Ready height round s t → Good e kept (proposed t)
      done-Good t ready = Good-Quiet e kept good (done-Inv t ready) (ground (arith, ready, le))

      done-Ends :
          (t : State e)
          → Ready height round s t
          → Ends (Good e kept) (Reaches height round s) (propose_done e height round t)
      unfolding propose_done
      done-Ends t ready =
          Ends-when (Good e kept) (Reaches height round s) (is_proposal_complete e (proposed t))
            (enter_prevote e height round) (proposed t)
            (λ _.
              Ends-map (Good e kept) (Stays e (proposed t)) (Reaches height round s)
                (enter_prevote e height round (proposed t))
                (enter_prevote-Ends e kept height round (proposed t) (done-Good t ready)
                  (omega arith))
                (λ u _ stays. ground (arith, ready, stays)))
            (λ _. (done-Good t ready, ground (arith, ready)))

    -- `enterPropose`, for an int32 round: where it returns, the height is the same and the round not lower, and at least the round asked
    -- for if the height was the one asked for.
    pub enter_propose-Ends :
        Ends (Good e kept) (Reaches height round s) (enter_propose e height round s)
    unfolding enter_propose
    enter_propose-Ends = elim (Bool-cases (is_stale e height round RoundStep.propose s)) [
      | inl stale ↦ rw stale (good, ground arith)
      | inr fresh ↦
          let (hs, le, lt) = fresh_propose fresh in
          rw fresh (
            Ends-defer (Good e kept) (Reaches height round s) (Ready height round s)
              (schedule_timeout e (e.propose_timeout round) height round RoundStep.propose
                >> do_propose e height round)
              (propose_done e height round) s (body-Ready hs le lt) (done-Ends hs le lt))
    ]
