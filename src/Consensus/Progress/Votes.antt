-- ===== src/Consensus/Progress/Votes.antt =====
-- consensus/consensus_state.go: what `addVote` does with an added vote, and the invariant, with what they keep.
use go_minimal_pbft.Prelude.{
  ℕ, ◌≡◌, refl, true, ◌&&◌, Option, none, some, leb, ◌==◌, Bool-cases, inl, inr, arith, ◌∙◌,
}
use go_minimal_pbft.Prelude.Int.{ℤ, pos, ◌≤ℤ◌, ltb_ℤ, leb_ℤ, eqb_ℤ, max_int32}
use go_minimal_pbft.RoundStep
use go_minimal_pbft.Messages.{
  Hash, zero_hash, SignedMsgType, prevote_type, precommit_type, proposal_type, other_type,
}
use go_minimal_pbft.Interfaces.{Env}
use go_minimal_pbft.Consensus.Monad.{Outcome, ◌>>◌, when}
use go_minimal_pbft.Consensus.Hoare.{Ends, Ends-then, Ends-map, Ends-when}
use go_minimal_pbft.Consensus.State.{State}
use go_minimal_pbft.Consensus.AddVote.Polka.{
  unlocks, unlock_on_polka, update_valid_block, on_majority, on_polka,
}
use go_minimal_pbft.Consensus.AddVote.{
  completes, enter_prevote_here, after_own_prevote, after_prevote, add_prevote, skip_ahead,
  finish_precommit, on_precommits, add_precommit, on_vote,
}
use go_minimal_pbft.Consensus.Propose.{enter_new_round}
use go_minimal_pbft.Consensus.Prevote.{enter_prevote, enter_prevote_wait}
use go_minimal_pbft.Consensus.Precommit.{enter_precommit, enter_precommit_wait}
use go_minimal_pbft.Consensus.Commit.{enter_commit}
use go_minimal_pbft.Consensus.Progress.Prevote.{Stays}
use go_minimal_pbft.Consensus.Progress.Precommit.{Paired-hash_to}
use go_minimal_pbft.Consensus.Progress.Propose.{Reaches}
use go_minimal_pbft.Consensus.Progress.NewRound.{enter_new_round-Ends}
use go_minimal_pbft.Consensus.Progress.Update.{HasNext}
use go_minimal_pbft.Consensus.Progress.Commit.{Any, enter_commit-Ends}
use go_minimal_pbft.Consensus.Progress.Kept.{Kept, Good, Quiet-Ends}
use go_minimal_pbft.Consensus.Progress.Entered.{
  enter_prevote-Ends, enter_prevote_wait-Ends, enter_precommit-Ends, enter_precommit_wait-Ends,
}

module _ (e : Env) where
  -- The same height and a round of `round` at least.
  abbrev At : ℤ → State e → State e → Type 0
  At round s t = (t.height ≡ s.height) × (round ≤ℤ t.round)

  abbrev SameTime : State e → State e → Type 0
  SameTime s t = (t.height ≡ s.height) × (t.round ≡ s.round) × (t.step ≡ s.step)

  module _ (kept : Kept e) where
    unlock_on_polka-Ends :
        (r : ℤ) (h : Hash) (s : State e)
        → e.two_thirds_majority (e.prevotes s.votes r) ≡ some h
        → Good e kept s
        → Ends (Good e kept) (SameTime s) (unlock_on_polka e r h s)
    unfolding unlock_on_polka unlocks
    unlock_on_polka-Ends r h s polka good = elim (Bool-cases (unlocks e r h s)) [
      | inl free ↦ rw free (
        record {
          inv = ground (arith, good.inv);
          keeps =
              kept.unlocked r h s polka (ground (arith, free)) (ground (arith, free))
                (ground (arith, free)) good.keeps;
        },
        (refl, refl, refl),
      )
      | inr stay ↦ rw stay (good, (refl, refl, refl))
    ]

    update_valid_block-Ends :
        (r : ℤ) (h : Hash) (s : State e)
        → Good e kept s
        → Ends (Good e kept) (SameTime s) (update_valid_block e r h s)
    unfolding update_valid_block
    update_valid_block-Ends r h s good =
        Quiet-Ends e kept (SameTime s) (update_valid_block e r h s) good
          (ground (arith, good.inv, Paired-hash_to e s.proposal_block h r s.round))

    on_majority-Ends :
        (r : ℤ) (o : Option Hash) (s : State e)
        → e.two_thirds_majority (e.prevotes s.votes r) ≡ o
        → Good e kept s
        → Ends (Good e kept) (SameTime s) (on_majority e r o s)
    unfolding on_majority
    on_majority-Ends r none s polka good = (good, (refl, refl, refl))
    on_majority-Ends r (some h) s polka good =
        Ends-then (Good e kept) (SameTime s) (SameTime s) (unlock_on_polka e r h)
          (update_valid_block e r h) s (unlock_on_polka-Ends r h s polka good)
          (λ t good' same.
            Ends-map (Good e kept) (SameTime t) (SameTime s) (update_valid_block e r h t)
              (update_valid_block-Ends r h t good') (λ u _ same'. ground (arith, same, same')))

    module _ (height : ℕ) (r : ℤ) (max : r ≤ℤ max_int32) where
      At-new_round :
          (s : State e)
          → Good e kept s
          → s.height ≡ height
          → Ends (Good e kept) (At r s) (enter_new_round e height r s)
      At-new_round s good at =
          Ends-map (Good e kept) (Reaches e height r s) (At r s) (enter_new_round e height r s)
            (enter_new_round-Ends e height r s kept good max)
            (λ t _ reached. ground (arith, at, reached))

      quiet :
          {A : Type 0} (s : State e) (Q : State e → Type 0) (o : Outcome (State e) A)
          → Ends (Good e kept) Q o
          → Ends (Good e kept) (Any e) o
      quiet s Q o h = Ends-map (Good e kept) Q (Any e) o h (λ t _ _. tt)

      after_own_prevote-Ends :
          (p : Option e.VoteSet) (s : State e)
          → Good e kept s
          → r ≤ℤ s.round
          → Ends (Good e kept) (Any e) (after_own_prevote e height r p s)
      unfolding after_own_prevote
      after_own_prevote-Ends p s good le = ground (
        arith,
        quiet s (Stays e s) (enter_precommit e height r s)
            (enter_precommit-Ends e kept height r s good le),
        quiet s (Stays e s) (enter_prevote_wait e height r s)
            (enter_prevote_wait-Ends e kept height r s good le),
        good,
      )

      own_round :
          (s : State e) → (eqb_ℤ s.round r && leb RoundStep.prevote s.step) ≡ true → r ≤ℤ s.round
      own_round s h = ground arith

      after_prevote-Ends :
          (p : Option e.VoteSet) (s : State e)
          → Good e kept s
          → s.height ≡ height
          → Ends (Good e kept) (Any e) (after_prevote e height r p s)
      unfolding after_prevote
      after_prevote-Ends p s good at =
          elim (Bool-cases (ltb_ℤ s.round r && e.has_two_thirds_any p)) [
            | inl ahead ↦
                rw ahead (quiet s (At r s) (enter_new_round e height r s) (At-new_round s good at))
            | inr behind ↦
                rw behind (elim (Bool-cases (eqb_ℤ s.round r && leb RoundStep.prevote s.step)) [
                  | inl own ↦ rw own (after_own_prevote-Ends p s good (own_round s own))
                  | inr other ↦ rw other (
                      Ends-when (Good e kept) (Any e) (completes e r s.proposal s)
                        (enter_prevote_here e height) s
                        (λ _. quiet s (Stays e s) (enter_prevote e height s.round s) (
                          enter_prevote-Ends e kept height s.round s good
                            (omega (arith, good.inv))))
                        (λ _. (good, tt)))
                ])
          ]

      add_prevote-Ends :
          (s : State e)
          → Good e kept s
          → s.height ≡ height
          → Ends (Good e kept) (Any e) (add_prevote e height r s)
      unfolding add_prevote on_polka
      add_prevote-Ends s good at =
          let p = e.prevotes s.votes r in
          Ends-then (Good e kept) (Any e) (SameTime s) (on_polka e r p) (after_prevote e height r p)
            s (on_majority-Ends r (e.two_thirds_majority p) s refl good)
            (λ t good' same. after_prevote-Ends p t good' (same.0 ∙ at))

      wait_from :
          (s t : State e)
          → Good e kept t
          → At r s t
          → Ends (Good e kept) (Any e) (enter_precommit_wait e height r t)
      wait_from s t good at =
          quiet t (Stays e t) (enter_precommit_wait e height r t)
            (enter_precommit_wait-Ends e kept height r t good at.1)

      skip_ahead-Ends : (s : State e) → Good e kept s → Ends (Good e kept) (Any e) (skip_ahead e s)
      unfolding skip_ahead
      skip_ahead-Ends s good =
          quiet s (Reaches e s.height (pos 0) s) (enter_new_round e s.height (pos 0) s)
            (enter_new_round-Ends e s.height (pos 0) s kept good (omega (arith, good.inv)))

      finish_precommit-Ends :
          (p : Option e.VoteSet) (h : Hash) (s t : State e)
          → Good e kept t
          → HasNext e t
          → At r s t
          → Ends (Good e kept) (Any e) (finish_precommit e height r p h t)
      unfolding finish_precommit
      finish_precommit-Ends p h s t good more at = elim (Bool-cases (h == zero_hash)) [
        | inl nil ↦ rw nil (wait_from s t good at)
        | inr block ↦ rw block (
            Ends-then (Good e kept) (Any e) (Any e) (enter_commit e height r)
              (when (e.skip_timeout_commit && e.has_all p) (skip_ahead e)) t
              (enter_commit-Ends e kept height r t good more)
              (λ u good' _.
                Ends-when (Good e kept) (Any e) (e.skip_timeout_commit && e.has_all p)
                  (skip_ahead e) u (λ _. skip_ahead-Ends u good') (λ _. (good', tt))))
      ]

      on_precommits-Ends :
          (p : Option e.VoteSet) (o : Option Hash) (s : State e)
          → Good e kept s
          → HasNext e s
          → s.height ≡ height
          → Ends (Good e kept) (Any e) (on_precommits e height r p o s)
      unfolding on_precommits
      on_precommits-Ends p none s good more at =
          Ends-when (Good e kept) (Any e) (leb_ℤ s.round r && e.has_two_thirds_any p)
            (enter_new_round e height r >> enter_precommit_wait e height r) s
            (λ _.
              Ends-then (Good e kept) (Any e) (At r s) (enter_new_round e height r)
                (enter_precommit_wait e height r) s (At-new_round s good at) (wait_from s))
            (λ _. (good, tt))
      on_precommits-Ends p (some h) s good more at =
          Ends-then (Good e kept) (Any e) (At r s) (enter_new_round e height r)
            (enter_precommit e height r >> finish_precommit e height r p h) s
            (At-new_round s good at)
            (λ t good' reached.
              Ends-then (Good e kept) (Any e) (Stays e t) (enter_precommit e height r)
                (finish_precommit e height r p h) t
                (enter_precommit-Ends e kept height r t good' reached.1)
                (λ u good'' stays.
                  finish_precommit-Ends p h s u good'' (ground (arith, more, reached, stays))
                    (ground (arith, reached, stays))))

      pub on_vote-Ends :
          (ty : SignedMsgType) (s : State e)
          → Good e kept s
          → HasNext e s
          → s.height ≡ height
          → Ends (Good e kept) (Any e) (on_vote e height ty r s)
      unfolding on_vote add_precommit
      on_vote-Ends prevote_type s good more at = add_prevote-Ends s good at
      on_vote-Ends precommit_type s good more at =
          on_precommits-Ends (e.precommits s.votes r) _ s good more at
      on_vote-Ends proposal_type s good more at = good
      on_vote-Ends other_type s good more at = good
