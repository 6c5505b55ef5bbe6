-- ===== src/Consensus/Progress/NewRound.antt =====
-- consensus/consensus_state.go: `enterNewRound` and the invariant, with what it keeps.
use go_minimal_pbft.Prelude.{
  ℕ, zero, suc, ◌<◌, ◌≡◌, refl, false, Option, some, Option-cases, ◌⊎◌, Bool-cases, inl, inr, arith,
  subst, sym,
}
use go_minimal_pbft.Prelude.Int.{ℤ, pos, ◌≤ℤ◌, eq_of_parts, max_int32}
use go_minimal_pbft.RoundStep
use go_minimal_pbft.SafeMath.{Checked, value, overflow, safe_sub_int32, safe_add_int32}
use go_minimal_pbft.Interfaces.{Env}
use go_minimal_pbft.Consensus.Monad.{final, ◌>>◌, ◌>>=◌, checked, M, Outcome, ok, panic}
use go_minimal_pbft.Consensus.Hoare.{Ends, Ends-bind, Ends-then, Ends-map}
use go_minimal_pbft.Consensus.State.{State}
use go_minimal_pbft.Consensus.Propose.{
  validators_for, rotate_validators, reset_proposal, track_rounds, begin_round, has_started,
  enter_new_round, enter_propose,
}
use go_minimal_pbft.Consensus.Invariant.{Inv}
use go_minimal_pbft.Consensus.Progress.Kept.{Kept, Good, Good-Quiet, Quiet-Ends, with_votes}
use go_minimal_pbft.Consensus.Progress.Advance.{Advances-Inv, IsPast-after}
use go_minimal_pbft.Consensus.Progress.Propose.{Reaches, enter_propose-Ends}

checked-final :
    {S A : Type 0} (c : Checked) (f : ℤ → M S A) (s : S)
    → ((v : ℤ) → final (f v s) ≡ s)
    → final ((checked c >>= f) s) ≡ s
checked-final (value v) f s h = h v
checked-final overflow f s h = refl

Checked-cases : (c : Checked) → (c ≡ overflow) ⊎ ((v : ℤ) × (c ≡ value v))
Checked-cases (value v) = inr (v, refl)
Checked-cases overflow = inl refl

module _ (e : Env) where
  -- The rotation computes a validator set and changes nothing.
  rotate_validators-final :
      (n : ℕ) (to from : ℤ) (vals : Option e.ValidatorSet) (s : State e)
      → final (rotate_validators e n to from vals s) ≡ s
  unfolding rotate_validators
  rotate_validators-final zero to from vals s = refl
  rotate_validators-final (suc n) to from vals s =
      checked-final (safe_sub_int32 to from) _ s
        (λ times. rotate_validators-final n to from (e.increment_proposer_priority times vals) s)

  validators_for-final : (round : ℤ) (s : State e) → final (validators_for e round s) ≡ s
  unfolding rotate_validators
  validators_for-final round s = ground (
    arith,
    rotate_validators-final (e.proposer_repetition s.validators) round s.round s.validators s,
  )

  unchanged-Ends :
      {A : Type 0} (kept : Kept e) (s : State e) (o : Outcome (State e) A)
      → Good e kept s
      → final o ≡ s
      → Ends (Good e kept) (λ t. t ≡ s) o
  unchanged-Ends kept s (ok a t) good same = (subst (Good e kept) (sym same) good, same)
  unchanged-Ends kept s (panic p t) good same = subst (Good e kept) (sym same) good

  module _ (height : ℕ) (round : ℤ) (s : State e) (kept : Kept e) (good : Good e kept s)
      (max : round ≤ℤ max_int32) where
    fresh_round :
        has_started e height round s ≡ false
        → (height ≡ s.height) × (s.round ≤ℤ round) × (s.round ≡ round → s.step < 2)
    fresh_round f = (ground arith, ground arith, λ same. ground arith)

    module _ (hs : height ≡ s.height) (le : s.round ≤ℤ round)
        (lt : s.round ≡ round → s.step < 2) where
      -- The same height, and the start of the round.
      abbrev IsAtRound : State e → Type 0
      IsAtRound t = (t.height ≡ s.height) × (t.round ≡ round)

      abbrev started : Option e.ValidatorSet → State e
      started vals = record s {
        rs = record s.rs { round = round; step = RoundStep.new_round; validators = vals };
      }

      started-Inv : (vals : Option e.ValidatorSet) → Inv e (started vals)
      started-Inv vals =
          Advances-Inv e s (started vals) good.inv (
            ground (arith, good.inv, eq_of_parts s.round round, IsPast-after e s round good.inv le))

      started-Good : (vals : Option e.ValidatorSet) → Good e kept (started vals)
      started-Good vals = Good-Quiet e kept good (started-Inv vals) (ground (arith, le))

      reset_proposal-Ends :
          (t : State e)
          → Good e kept t
          → IsAtRound t
          → Ends (Good e kept) IsAtRound (reset_proposal e round t)
      unfolding reset_proposal
      reset_proposal-Ends t good' here =
          Quiet-Ends e kept IsAtRound (reset_proposal e round t) good' (ground (arith, good'.inv))

      -- More rounds are tracked in the vote set.
      tracked-Good :
          (t : State e) (next : ℤ) (votes : Option e.HeightVoteSet)
          → Good e kept t
          → e.set_round t.votes next ≡ some votes
          → Good e kept
              (record t { rs = record t.rs { votes = votes; triggered_timeout_precommit = false } })
      tracked-Good t next votes good' set = record {
        inv = ground (arith, good'.inv);
        keeps =
            kept.quiet (with_votes e votes t) _ (ground arith)
              (kept.tracked next votes t set good'.keeps);
      }

      track_rounds-Ends :
          (t : State e)
          → Good e kept t
          → IsAtRound t
          → Ends (Good e kept) IsAtRound (track_rounds e round t)
      unfolding track_rounds
      track_rounds-Ends t good' here = elim (Checked-cases (safe_add_int32 round (pos 1))) [
        | inl over ↦ rw over good'
        | inr (next, sum) ↦ rw sum (elim (Option-cases (e.set_round t.votes next)) [
          | inl failed ↦ rw failed good'
          | inr (votes, set) ↦ rw set (tracked-Good t next votes good' set, here)
        ])
      ]

      propose-Ends :
          (t : State e)
          → Good e kept t
          → IsAtRound t
          → Ends (Good e kept) (Reaches e height round s) (enter_propose e height round t)
      propose-Ends t good' here =
          Ends-map (Good e kept) (Reaches e height round t) (Reaches e height round s)
            (enter_propose e height round t) (enter_propose-Ends e height round t kept good' max)
            (λ u _ reached. ground (arith, here, reached))

      begin_round-Ends :
          (vals : Option e.ValidatorSet)
          → Ends (Good e kept) (Reaches e height round s) (begin_round e height round vals s)
      unfolding begin_round
      begin_round-Ends vals =
          Ends-then (Good e kept) (Reaches e height round s) IsAtRound (reset_proposal e round)
            (track_rounds e round >> enter_propose e height round) (started vals)
            (reset_proposal-Ends (started vals) (started-Good vals) (refl, refl))
            (λ t good' here.
              Ends-then (Good e kept) (Reaches e height round s) IsAtRound (track_rounds e round)
                (enter_propose e height round) t (track_rounds-Ends t good' here) propose-Ends)

      rotated-Ends :
          Ends
            (Good e kept)
            (Reaches e height round s)
            ((validators_for e round >>= begin_round e height round) s)
      rotated-Ends =
          Ends-bind (Good e kept) (Reaches e height round s) (λ t. t ≡ s) (validators_for e round)
            (begin_round e height round) s
            (unchanged-Ends kept s (validators_for e round s) good (validators_for-final round s))
            (λ vals t _ same.
              subst
                (λ u.
                  Ends (Good e kept) (Reaches e height round s) (begin_round e height round vals u))
                (sym same) (begin_round-Ends vals))

    -- `enterNewRound`, for an int32 round: where it returns, the height is the same and the round not lower, and at least the round
    -- asked for if the height was the one asked for.
    pub enter_new_round-Ends :
        Ends (Good e kept) (Reaches e height round s) (enter_new_round e height round s)
    unfolding enter_new_round
    enter_new_round-Ends = elim (Bool-cases (has_started e height round s)) [
      | inl stale ↦ rw stale (good, ground arith)
      | inr fresh ↦ let (hs, le, lt) = fresh_round fresh in rw fresh (rotated-Ends hs le lt)
    ]
