-- ===== src/Consensus/Progress/Commit.antt =====
-- consensus/consensus_state.go: `enterCommit`, `finalizeCommit` and the
-- invariant, with what they keep.
use go_minimal_pbft.Prelude.{
  true, subst, Option-cases, ℕ, suc, ◌≡◌, refl, not, ◌||◌, Option, none, some, leb, ◌==◌,
  Bool-cases, inl, inr, arith, sym, ◌∙◌,
}
use go_minimal_pbft.Prelude.Int.{ℤ}
use go_minimal_pbft.RoundStep
use go_minimal_pbft.Messages.{Hash}
use go_minimal_pbft.ChainState.{ChainState}
use go_minimal_pbft.Interfaces.{Env}
use go_minimal_pbft.Consensus.Monad.{final, ◌>>◌, M}
use go_minimal_pbft.Consensus.Hoare.{Ends, Ends-then, Ends-defer}
use go_minimal_pbft.Consensus.State.{State, schedule_round0}
use go_minimal_pbft.Consensus.Signing.{update_priv_validator_pub_key}
use go_minimal_pbft.Consensus.Update.{update_to_state}
use go_minimal_pbft.Consensus.Commit.{
  save_if_new, apply_and, apply_to, start_round0, commit_block, finalize_block, finalize_commit,
  try_finalize_commit, do_commit, mark_commit, enter_commit,
}
use go_minimal_pbft.Consensus.Invariant.{Ordered-mono, rank_of}
use go_minimal_pbft.Consensus.Progress.Kept.{Decides, Kept, Good, Quiet-Ends}
use go_minimal_pbft.Consensus.Progress.Update.{HasNext, Moves, update_to_state-Ends}

module _ (e : Env) where
  -- Nothing more is said of the end.
  abbrev pub Any : State e → Type 0
  Any s = Unit

  abbrev SameRound : State e → State e → Type 0
  SameRound s t = (t.rs ≡ s.rs) × (t.chain_state ≡ s.chain_state)

  abbrev SameHeight : State e → State e → Type 0
  SameHeight s t = t.height ≡ s.height

  abbrev pub SameChain : State e → State e → Type 0
  SameChain s t = (t.height ≡ s.height) × (t.chain_state ≡ s.chain_state)

  module _ (kept : Kept e) where
    abbrev Held : State e → State e → Type 0
    Held s t = Good e kept t × (t.height ≡ s.height)

    pub save_if_new-Ends :
        (b : e.Block) (c : e.Commit) (s : State e)
        → Good e kept s
        → Ends (Good e kept) (SameRound s) (save_if_new e b c s)
    unfolding save_if_new
    save_if_new-Ends b c s good =
        Quiet-Ends e kept (SameRound s) (save_if_new e b c s) good (ground (arith, good.inv))

    -- A decision rests on the round state and the chain state only.
    Decides-kept :
        (b : e.Block) (s t : State e)
        → SameRound s t
        → Decides e kept.IsCommitIn b s.rs s.chain_state
        → Decides e kept.IsCommitIn b t.rs t.chain_state
    Decides-kept b s t (rounds, chains) d =
        subst (λ r. Decides e kept.IsCommitIn b r t.chain_state) (sym rounds)
          (subst (λ c. Decides e kept.IsCommitIn b s.rs c) (sym chains) d)

    pub update_key-Ends :
        (s : State e) → Good e kept s → Ends (Good e kept) Any (update_priv_validator_pub_key e s)
    unfolding update_priv_validator_pub_key
    update_key-Ends s good =
        Quiet-Ends e kept Any (update_priv_validator_pub_key e s) good (ground (arith, good.inv))

    pub start_round0-Ends :
        (s : State e) → Good e kept s → Ends (Good e kept) Any (start_round0 e s)
    unfolding schedule_round0
    start_round0-Ends s good =
        Quiet-Ends e kept Any (start_round0 e s) good (ground (arith, good.inv))

    module _ (block : e.Block) (next : M (State e) (Unit {0}))
        (next-Ends : (t : State e) → Good e kept t → Ends (Good e kept) Any (next t)) where
      apply_to-Ends :
          (s : State e) (o : Option (ChainState e.lib))
          → Good e kept s
          → HasNext e s
          → Decides e kept.IsCommitIn block s.rs s.chain_state
          → e.apply s.chain_state block ≡ o
          → Ends (Good e kept) Any (apply_to e next o s)
      unfolding apply_to
      apply_to-Ends s none good more at applied = (good, tt)
      apply_to-Ends s (some state) good more at applied =
          Ends-then (Good e kept) Any (Moves e s) (update_to_state e state)
            (update_priv_validator_pub_key e >> next) s
            (update_to_state-Ends e state s kept good more block at applied)
            (λ t good' _.
              Ends-then (Good e kept) Any Any (update_priv_validator_pub_key e) next t
                (update_key-Ends t good') (λ u good'' _. next-Ends u good''))

      pub apply_and-Ends :
          (s : State e)
          → Good e kept s
          → HasNext e s
          → Decides e kept.IsCommitIn block s.rs s.chain_state
          → Ends (Good e kept) Any (apply_and e block next s)
      unfolding apply_and
      apply_and-Ends s good more at = apply_to-Ends s _ good more at refl

      pub save_and_apply-Ends :
          (c : e.Commit) (s : State e)
          → Good e kept s
          → HasNext e s
          → Decides e kept.IsCommitIn block s.rs s.chain_state
          → Ends (Good e kept) Any ((save_if_new e block c >> apply_and e block next) s)
      save_and_apply-Ends c s good more at =
          Ends-then (Good e kept) Any (SameRound s) (save_if_new e block c) (apply_and e block next)
            s (save_if_new-Ends block c s good)
            (λ t good' same.
              apply_and-Ends t good' (ground (arith, same, more)) (Decides-kept block s t same at))

    module _ (height : ℕ) where
      finalize_block-Ends :
          (s : State e) (b : Option e.Block) (h : Hash)
          → Good e kept s
          → HasNext e s
          → e.two_thirds_majority (e.precommits s.votes s.commit_round) ≡ some h
          → e.hash_to b h ≡ true
          → Ends (Good e kept) Any (finalize_block e b s)
      unfolding finalize_block commit_block
      finalize_block-Ends s none h good more got m = good
      finalize_block-Ends s (some b) h good more got m =
          elim (Bool-cases (e.validate s.chain_state b)) [
            | inl valid ↦ rw valid (
                save_and_apply-Ends b (start_round0 e) start_round0-Ends
                  (e.make_commit (e.precommits s.votes s.commit_round)) s good more
                  (record {
                    for_height = e.validate-number s.chain_state b valid ∙ sym good.inv.height_next;
                    has_commits = inl (h, got, m);
                  }))
            | inr invalid ↦ rw invalid good
          ]

      finalize_commit-Ends :
          (s : State e)
          → Good e kept s
          → HasNext e s
          → Ends (Good e kept) Any (finalize_commit e height s)
      unfolding finalize_commit
      finalize_commit-Ends s good more =
          elim (Option-cases (e.two_thirds_majority (e.precommits s.votes s.commit_round))) [
            | inl few ↦ ground (arith, few, good)
            | inr (h, got) ↦
                ground (arith, good, got, finalize_block-Ends s s.proposal_block h good more got)
          ]

      pub try_finalize_commit-Ends :
          (s : State e)
          → Good e kept s
          → HasNext e s
          → Ends (Good e kept) Any (try_finalize_commit e height s)
      unfolding try_finalize_commit
      try_finalize_commit-Ends s good more = ground (arith, good, finalize_commit-Ends s good more)

    do_commit-Held :
        (round : ℤ) (s : State e) → Good e kept s → Held s (final (do_commit e round s))
    unfolding do_commit
    do_commit-Held round s good = (
      record { inv = ground (arith, good.inv); keeps = kept.quiet s _ (ground arith) good.keeps },
      ground arith,
    )

    mark_commit-Ends :
        (round : ℤ) (s : State e)
        → Good e kept s
        → Ends (Good e kept) (SameHeight s) (mark_commit e round s)
    unfolding mark_commit
    mark_commit-Ends round s good = Quiet-Ends e kept (SameHeight s) (mark_commit e round s) good (
        ground (
          arith,
          good.inv,
          Ordered-mono _ (suc (rank_of s.height s.round 8)) s.internal_msg_queue
              (omega (arith, good.inv)) good.inv.ordered,
        ))

    -- `enterCommit`, with the commit, the new chain state and the next height that may follow,
    -- keeps the invariant whether it returns or panics, at a height below 2^64 - 1.
    pub enter_commit-Ends :
        (height : ℕ) (round : ℤ) (s : State e)
        → Good e kept s
        → HasNext e s
        → Ends (Good e kept) Any (enter_commit e height round s)
    unfolding enter_commit
    enter_commit-Ends height round s good more =
        elim (Bool-cases (not (s.height == height) || leb RoundStep.commit s.step)) [
          | inl stale ↦ rw stale (good, tt)
          | inr fresh ↦ rw fresh (
              Ends-defer (Good e kept) Any (Held s) (do_commit e round)
                (mark_commit e round >> try_finalize_commit e height) s
                (do_commit-Held round s good)
                (λ t held.
                  Ends-then (Good e kept) Any (SameHeight t) (mark_commit e round)
                    (try_finalize_commit e height) t (mark_commit-Ends round t held.0)
                    (λ u good' same.
                      try_finalize_commit-Ends height u good' (ground (arith, held, same, more)))))
        ]
