-- ===== src/Consensus/Agreement/Casts.antt =====
-- consensus/consensus_state.go: what a vote that is signed rests on.
use go_minimal_pbft.Prelude.{
  ◌<◌, ◌≡◌, ◌≢◌, refl, sym, ap, ◌∙◌, subst, inl, inr, true, Option, none, some, List, ◌==◌,
  Bool-cases, arith,
}
use go_minimal_pbft.Prelude.Int.{pos, ◌≤ℤ◌, ◌<ℤ◌}
use go_minimal_pbft.Messages.{Hash, SignedMsgType, prevote_type, precommit_type, Vote}
use go_minimal_pbft.Interfaces.{Env}
use go_minimal_pbft.Consensus.State.{RoundState, State}
use go_minimal_pbft.Consensus.Signing.Frame.{Signs, IsVoteOf}
use go_minimal_pbft.Consensus.Invariant.{Inv}
use go_minimal_pbft.Consensus.Progress.Prevote.{prevote_choice}
use go_minimal_pbft.Consensus.Progress.Precommit.{Precommits, LockMoves}
use go_minimal_pbft.Consensus.Progress.Kept.{votes_in}
use go_minimal_pbft.Consensus.Agreement.Tally.{Validators, Tally}
use go_minimal_pbft.Consensus.Agreement.Knows.{
  Cast, IsCommit, Polka, IsOutvoted, IsHeld, Knows, Adds, Adds-self, Knows-cast,
}
use go_minimal_pbft.Consensus.Agreement.Moves.{
  Cast-below, Knows-change, later-IsHeld, Polka-shown, outvoted, hash_differs,
}

module _ (e : Env) (s : State e) (inv : Inv e s) where
  abbrev casts : List Vote
  casts = votes_in s.internal_msg_queue

  -- Before its precommit step a node has precommitted in earlier rounds only.
  precommit_before :
      (p : Vote)
      → Cast p casts
      → p.msg_type ≡ precommit_type
      → p.height ≡ s.height
      → s.step < 6
      → p.round <ℤ s.round
  precommit_before p c ty at lt =
      ground
        (arith, Cast-below _ s.internal_msg_queue p inv.ordered c, ty, at, lt, inv.round_nonneg)

  -- No prevote of a later round was cast.
  prevote_before :
      (w : Vote)
      → Cast w casts
      → w.msg_type ≡ prevote_type
      → w.height ≡ s.height
      → s.round <ℤ w.round
      → ⊥
  prevote_before w c ty at lt = ground (
    arith,
    Cast-below _ s.internal_msg_queue w inv.ordered c,
    ty,
    at,
    lt,
    inv.round_nonneg,
    inv.step_le,
  )

module _ (q : Validators) (V : Vote → Type 0) (e : Env) (tally : Tally q e.lib) (s : State e)
    (inv : Inv e s) (k : Knows q V e tally s.rs (votes_in s.internal_msg_queue)) where
  -- A locked block is prevoted for.
  choice_locked :
      (b : Option e.Block) (h : Hash)
      → s.locked_block ≡ b
      → e.hash_to b h ≡ true
      → prevote_choice e s ≡ h
  unfolding prevote_choice
  choice_locked none h same m = ground (arith, m, e.hash_to-nil h)
  choice_locked (some b) h same m = rw same (e.hash_to-hash b h m)

  -- The lock of the code's branch holds every precommit of this height.
  moved-IsHeld :
      (mid : State e) (p : Vote)
      → s.step < 6
      → LockMoves e s.round s mid
      → mid.round ≡ s.round
      → Cast p (votes_in s.internal_msg_queue)
      → IsCommit p
      → p.height ≡ s.height
      → IsHeld q V e tally p s.rs
      → IsHeld q V e tally p mid.rs
  moved-IsHeld mid p lt moves same c is at held = elim moves [
    | inl (b, x) ↦
        later-IsHeld q V e tally p s.rs mid.rs (subst (λ r. s.round ≤ℤ r) (sym same) (omega arith))
          b x held
    | inr (h, got, way) ↦ elim held [
      | inr o ↦ inr (subst (IsOutvoted q V p) (sym same) o)
      | inl l ↦ elim way [
        | inl (inl nil) ↦ inr (
            subst (IsOutvoted q V p) (sym same)
              (other_polka h got (ground (arith, nil, is.not_nil))))
        | inl (inr differs) ↦ inr (
            subst (IsOutvoted q V p) (sym same) (
              other_polka h got (hash_differs q V e tally s.locked_block p.block_id h l.0 differs)))
        | inr (m, x) ↦ elim (Bool-cases (h == p.block_id)) [
          | inl this ↦ inl (ground (arith, this, m), ground (arith, x, before))
          | inr that ↦
              inr (subst (IsOutvoted q V p) (sym same) (other_polka h got (ground (arith, that))))
        ]
      ]
    ]
  ]
    where
      before : p.round <ℤ s.round
      before = precommit_before e s inv p c is.of_commit_type at lt

      other_polka :
          (h : Hash)
          → e.two_thirds_majority (e.prevotes s.votes s.round) ≡ some h
          → h ≢ p.block_id
          → IsOutvoted q V p s.round
      other_polka h got differs =
          outvoted q V e tally s.rs (votes_in s.internal_msg_queue) s.round h p k got at before
            (omega arith) differs

  never_prevote :
      (r : RoundState e) (v : Vote) {A : Type 0} → IsCommit v → v.msg_type ≡ prevote_type → A
  never_prevote r v is ty = let bad : ⊥ = Adds-self q V e tally v is ty in elim bad [ ]

  Adds-prevote :
      (v : Vote)
      → IsVoteOf e prevote_type (prevote_choice e s) s v
      → Adds q V e tally s.rs (votes_in s.internal_msg_queue) v
  Adds-prevote v vote = record {
    round_nonneg = subst (λ r. pos 0 ≤ℤ r) (sym vote.at_round) inv.round_nonneg;
    rests_on_polka = λ is. never_prevote s.rs v is vote.of_type;
    is_held = λ is at. never_prevote s.rs v is vote.of_type;
    follows = λ p c is ty at lt. elim (k.held p c is (sym at ∙ vote.at_height)) [
      | inl l ↦ inl (vote.for_block ∙ choice_locked s.locked_block p.block_id refl l.0)
      | inr o ↦ inr (subst (IsOutvoted q V p) (sym vote.at_round) o)
    ];
    is_last = λ w c ty at lt.
        prevote_before e s inv w c ty (at ∙ vote.at_height)
          (subst (λ r. r <ℤ w.round) vote.at_round lt);
  }

  -- A precommit for a block has +2/3 of the prevotes, and the lock.
  shown :
      (t : State e) (p : Precommits e s.round s t) (v : Vote)
      → IsVoteOf e precommit_type p.block_id p.mid v
      → IsCommit v
      → (e.two_thirds_majority (e.prevotes s.votes s.round) ≡ some v.block_id)
        × (e.hash_to p.mid.locked_block v.block_id ≡ true)
        × (p.mid.locked_round ≡ s.round)
  shown t p v vote is = elim p.justified [
    | inl nil ↦ ground (arith, is.not_nil, vote.for_block, nil)
    | inr (got, m, x) ↦ (
      got ∙ ap some (sym vote.for_block),
      subst (λ h. e.hash_to p.mid.locked_block h ≡ true) (sym vote.for_block) m,
      x,
    )
  ]

  Adds-precommit :
      (t : State e) (p : Precommits e s.round s t) (v : Vote)
      → IsVoteOf e precommit_type p.block_id p.mid v
      → Adds q V e tally p.mid.rs (votes_in s.internal_msg_queue) v
  Adds-precommit t p v vote = record {
    round_nonneg = subst (λ r. pos 0 ≤ℤ r) (sym vote.at_round) p.mid_inv.round_nonneg;
    rests_on_polka = λ is.
        subst (λ n. Polka q V n v.round v.block_id) (sym (vote.at_height ∙ p.height_same))
          (subst (λ r. Polka q V s.height r v.block_id) (sym (vote.at_round ∙ p.round_same))
            (Polka-shown q V e tally s.rs (votes_in s.internal_msg_queue) s.round v.block_id k
              (shown t p v vote is).0));
    is_held = λ is at.
        let (got, m, x) = shown t p v vote is in
        inl (m, ground (arith, x, vote.at_round, p.round_same));
    follows = λ w c is ty at lt. ground (arith, vote.of_type, ty);
    is_last = λ w c ty at lt.
        prevote_before e s inv w c ty (at ∙ vote.at_height ∙ p.height_same)
          (subst (λ r. r <ℤ w.round) (vote.at_round ∙ p.round_same) lt);
  }

  -- The branch of the code that changes the lock keeps what the node knows.
  Knows-mid :
      (t : State e)
      → s.step < 6
      → (p : Precommits e s.round s t) → Knows q V e tally p.mid.rs (votes_in s.internal_msg_queue)
  Knows-mid t lt p =
      Knows-change q V e tally s.rs p.mid.rs (votes_in s.internal_msg_queue) p.height_same
        (λ v h. k.recorded v (subst (λ x. tally.Recorded x v) p.votes_same h))
        (λ w c is at held. moved-IsHeld p.mid w lt p.lock_moves p.round_same c is at held) k

module _ (q : Validators) (V : Vote → Type 0) (e : Env) (tally : Tally q e.lib) where
  Knows-Signs :
      (ty : SignedMsgType) (h : Hash) (m t : State e)
      → Signs e ty h m t
      → Knows q V e tally m.rs (votes_in m.internal_msg_queue)
      → ((v : Vote) → IsVoteOf e ty h m v → Adds q V e tally m.rs (votes_in m.internal_msg_queue) v)
      → Knows q V e tally t.rs (votes_in t.internal_msg_queue)
  Knows-Signs ty h m t sg k adds =
      subst (λ r. Knows q V e tally r (votes_in t.internal_msg_queue)) (sym sg.same_rs)
        (elim sg.sent [
          | inl same ↦ subst (λ log. Knows q V e tally m.rs (votes_in log)) (sym same) k
          | inr (v, is, new) ↦
              subst (λ log. Knows q V e tally m.rs (votes_in log)) (sym new)
                (Knows-cast q V e tally m.rs (votes_in m.internal_msg_queue) v (adds v is) k)
        ])

  pub Knows-prevoted :
      (s t : State e)
      → Inv e s
      → Signs e prevote_type (prevote_choice e s) s t
      → Knows q V e tally s.rs (votes_in s.internal_msg_queue)
      → Knows q V e tally t.rs (votes_in t.internal_msg_queue)
  Knows-prevoted s t inv sg k =
      Knows-Signs prevote_type (prevote_choice e s) s t sg k (Adds-prevote q V e tally s inv k)

  pub Knows-precommitted :
      (s t : State e)
      → Inv e s
      → s.step < 6
      → Precommits e s.round s t
      → Knows q V e tally s.rs (votes_in s.internal_msg_queue)
      → Knows q V e tally t.rs (votes_in t.internal_msg_queue)
  Knows-precommitted s t inv lt p k =
      Knows-Signs precommit_type p.block_id p.mid t p.signs
        (subst (λ log. Knows q V e tally p.mid.rs (votes_in log)) (sym p.queue_same)
          (Knows-mid q V e tally s inv k t lt p))
        (λ v is.
          subst (λ log. Adds q V e tally p.mid.rs (votes_in log) v) (sym p.queue_same)
            (Adds-precommit q V e tally s inv k t p v is))
