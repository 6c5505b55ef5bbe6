-- ===== src/Consensus/Progress/Events.antt =====
-- consensus/consensus_state.go: `addVote`, `tryAddVote` and the invariant, with what they keep.
use go_minimal_pbft.Prelude.{
  ◌+◌, ◌≡◌, refl, Bool, not, ◌&&◌, Option, none, some, ◌==◌, u64, Bool-cases, inl, inr, arith,
}
use go_minimal_pbft.Prelude.Int.{pos, ◌≤ℤ◌, max_int32}
use go_minimal_pbft.RoundStep
use go_minimal_pbft.Messages.{Bytes, Vote, VoteError, library_panic, is_precommit}
use go_minimal_pbft.Interfaces.{Env}
use go_minimal_pbft.Consensus.Monad.{◌>>=◌, when, or_panic, pure}
use go_minimal_pbft.Consensus.Hoare.{Ends, Ends-bind, Ends-then, Ends-map, Ends-when}
use go_minimal_pbft.Consensus.State.{State, Action}
use go_minimal_pbft.Consensus.AddVote.{
  on_vote, skip_commit_timeout, late_added, add_late_precommit, vote_added, add_vote, try_add_vote,
  pass_on,
}
use go_minimal_pbft.Consensus.Propose.{enter_new_round}
use go_minimal_pbft.Consensus.Progress.Propose.{Reaches}
use go_minimal_pbft.Consensus.Progress.NewRound.{enter_new_round-Ends}
use go_minimal_pbft.Consensus.Progress.Update.{HasNext}
use go_minimal_pbft.Consensus.Progress.Commit.{Any}
use go_minimal_pbft.Consensus.Progress.Votes.{on_vote-Ends}
use go_minimal_pbft.Consensus.Progress.Kept.{Kept, Good, Good-Quiet, with_votes}

module _ (e : Env) where
  module _ (kept : Kept e) where
    -- A library call that returns leaves the state as it was.
    pub called :
        {A B : Type 0} (o : Option A) (f : A → Action e B) (s : State e)
        → Good e kept s
        → ((a : A) → o ≡ some a → Ends (Good e kept) (Any e) (f a s))
        → Ends (Good e kept) (Any e) ((or_panic library_panic o >>= f) s)
    called none f s good k = good
    called (some a) f s good k = k a refl

    skip_commit_timeout-Ends :
        (s : State e) → Good e kept s → Ends (Good e kept) (Any e) (skip_commit_timeout e s)
    unfolding skip_commit_timeout
    skip_commit_timeout-Ends s good =
        Ends-when (Good e kept) (Any e) (e.skip_timeout_commit && e.has_all s.last_commit)
          (enter_new_round e s.height (pos 0)) s
          (λ _.
            Ends-map (Good e kept) (Reaches e s.height (pos 0) s) (Any e)
              (enter_new_round e s.height (pos 0) s)
              (enter_new_round-Ends e s.height (pos 0) s kept good (omega (arith, good.inv)))
              (λ t _ _. tt))
          (λ _. (good, tt))

    late_added-Ends :
        (x : Bool × Option VoteError × Option e.VoteSet) (s : State e)
        → Good e kept s
        → Ends (Good e kept) (Any e) (late_added e x s)
    unfolding late_added
    late_added-Ends (added, err, last) s good =
        let next : State e = record s { rs = record s.rs { last_commit = last } } in
        let good : Good e kept next =
          Good-Quiet e kept good (ground (arith, good.inv)) (ground arith) in
        Ends-then (Good e kept) (Any e) (Any e) (when added (skip_commit_timeout e))
          (pure (added, err)) next
          (Ends-when (Good e kept) (Any e) added (skip_commit_timeout e) next
            (λ _. skip_commit_timeout-Ends next good) (λ _. (good, tt)))
          (λ t good' _. (good', tt))

    add_late_precommit-Ends :
        (v : Vote) (s : State e)
        → Good e kept s
        → Ends (Good e kept) (Any e) (add_late_precommit e v s)
    unfolding add_late_precommit
    add_late_precommit-Ends v s good = elim (Bool-cases (not (s.step == RoundStep.new_height))) [
      | inl other ↦ rw other (good, tt)
      | inr here ↦ rw here (
          called (e.vote_set_add_vote s.last_commit v) (late_added e) s good
            (λ x _. late_added-Ends x s good))
    ]

    vote_added-Ends :
        (v : Vote) (x : Bool × Option VoteError × Option e.HeightVoteSet) (s : State e)
        → Good e kept s
        → HasNext e s
        → v.round ≤ℤ max_int32
        → v.height ≡ s.height
        → kept.IsIn v
        → (peer_id : Bytes) → e.add_vote s.votes v peer_id ≡ some x
        → Ends (Good e kept) (Any e) (vote_added e s.height v x s)
    unfolding vote_added
    vote_added-Ends v (added, err, votes) s good more max at seen peer_id got =
        let next : State e = with_votes e votes s in
        let good : Good e kept next = record {
          inv = ground (arith, good.inv);
          keeps = kept.added v peer_id added err votes s got at seen good.keeps;
        } in
        Ends-then (Good e kept) (Any e) (Any e) (when added (on_vote e s.height v.msg_type v.round))
          (pure (added, err)) next
          (Ends-when (Good e kept) (Any e) added (on_vote e s.height v.msg_type v.round) next
            (λ _. on_vote-Ends e kept s.height v.round max v.msg_type next good more refl)
            (λ _. (good, tt)))
          (λ t good' _. (good', tt))

    -- `addVote`, for any vote with an int32 round
    -- from any peer, at a height below 2^64 - 1.
    pub add_vote-Ends :
        (v : Vote) (peer_id : Bytes) (s : State e)
        → Good e kept s
        → HasNext e s
        → v.round ≤ℤ max_int32
        → kept.IsIn v
        → Ends (Good e kept) (Any e) (add_vote e v peer_id s)
    unfolding add_vote
    add_vote-Ends v peer_id s good more max seen =
        elim (Bool-cases (u64 (v.height + 1) == s.height && is_precommit v.msg_type)) [
          | inl late ↦ rw late (add_late_precommit-Ends v s good)
          | inr on_time ↦ rw on_time (elim (Bool-cases (not (v.height == s.height))) [
            | inl other ↦ rw other (good, tt)
            | inr here ↦ rw here (
                called (e.add_vote s.votes v peer_id) (vote_added e s.height v) s good (λ x got.
                  vote_added-Ends v x s good more max (ground (arith, here)) seen peer_id got))
          ])
        ]

    pub try_add_vote-Ends :
        (v : Vote) (peer_id : Bytes) (s : State e)
        → Good e kept s
        → HasNext e s
        → v.round ≤ℤ max_int32
        → kept.IsIn v
        → Ends (Good e kept) (Any e) (try_add_vote e v peer_id s)
    unfolding try_add_vote
    try_add_vote-Ends v peer_id s good more max seen =
        Ends-bind (Good e kept) (Any e) (Any e) (add_vote e v peer_id) (pass_on e) s
          (add_vote-Ends v peer_id s good more max seen) (λ a t good' _. (good', tt))
