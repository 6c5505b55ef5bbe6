-- ===== src/Consensus/Progress/Precommit.antt =====
-- consensus/consensus_state.go: `enterPrecommit`, `enterPrecommitWait` and the invariant, and what a
-- precommit rests on.
use go_minimal_pbft.Prelude.{
  ◌≡◌, refl, true, false, Option, none, some, ◌==◌, Bool-cases, ◌⊎◌, inl, inr, arith,
}
use go_minimal_pbft.Prelude.Int.{ℤ, negsuc, ltb_ℤ}
use go_minimal_pbft.Messages.{Hash, zero_hash, precommit_type}
use go_minimal_pbft.Interfaces.{Env}
use go_minimal_pbft.Consensus.Monad.{final}
use go_minimal_pbft.Consensus.State.{State}
use go_minimal_pbft.Consensus.Signing.{sign_add_vote}
use go_minimal_pbft.Consensus.Signing.Frame.{Signs, sign_add_vote-Signs}
use go_minimal_pbft.Consensus.Precommit.{
  lock_proposal_block, precommit_block, precommit_nil, precommit_polka, do_precommit,
}
use go_minimal_pbft.Consensus.Invariant.{Inv, Paired}

module _ (e : Env) where
  -- The lock is as it was, or this round's prevotes have +2/3 for a hash, and either the lock is
  -- released and was not for that hash, or a block with that hash is locked in this round.
  abbrev pub LockMoves : ℤ → State e → State e → Type 0
  LockMoves round s mid =
      ((mid.locked_block ≡ s.locked_block) × (mid.locked_round ≡ s.locked_round))
      ⊎ ((h : Hash) × (e.two_thirds_majority (e.prevotes s.votes round) ≡ some h)
          × (((h ≡ zero_hash) ⊎ (e.hash_to s.locked_block h ≡ false))
              ⊎ ((e.hash_to mid.locked_block h ≡ true) × (mid.locked_round ≡ round))))

  -- The body of `enterPrecommit` changed the lock at most, giving `mid`, and then signed at most
  -- one precommit: for nil, or for a block that has +2/3 of this round's prevotes, after locking
  -- that block in this round.
  pub record Precommits (round : ℤ) (s t : State e) : Type 0 where
    pub mid : State e
    pub only_lock : mid ≡ (record s {
      rs = record s.rs { locked_round = mid.locked_round; locked_block = mid.locked_block };
    })
    pub block_id : Hash
    pub signs : Signs e precommit_type block_id mid t
    pub mid_inv : Inv e mid
    pub height_same : mid.height ≡ s.height
    pub round_same : mid.round ≡ s.round
    pub step_same : mid.step ≡ s.step
    pub chain_same : mid.chain_state ≡ s.chain_state
    pub votes_same : mid.votes ≡ s.votes
    pub queue_same : mid.internal_msg_queue ≡ s.internal_msg_queue
    pub lock_moves : LockMoves round s mid
    pub justified :
        (block_id ≡ zero_hash)
        ⊎ ((e.two_thirds_majority (e.prevotes s.votes round) ≡ some block_id)
            × (e.hash_to mid.locked_block block_id ≡ true)
            × (mid.locked_round ≡ round))

  -- A block that matches a hash is there, so its lock is paired with a round.
  pub Paired-hash_to :
      (b : Option e.Block) (h : Hash) (x r : ℤ)
      → e.hash_to b h ≡ true
      → (Paired (some h) x r)
      → Paired b x r
  Paired-hash_to none h x r m p = cc (e.hash_to-nil h)
  Paired-hash_to (some b) h x r m p = p

  module _ (round : ℤ) (s : State e) (inv : Inv e s) (same : round ≡ s.round) where
    abbrev relock : ℤ → Option e.Block → State e
    relock x b = record s { rs = record s.rs { locked_round = x; locked_block = b } }

    at :
        (x : ℤ) (b : Option e.Block) (h : Hash)
        → Paired b x s.round
        → (h ≡ zero_hash)
          ⊎ ((e.two_thirds_majority (e.prevotes s.votes round) ≡ some h)
              × (e.hash_to b h ≡ true)
              × (x ≡ round))
        → LockMoves round s (relock x b)
        → Precommits round s (final (sign_add_vote e precommit_type h (relock x b)))
    at x b h p j moves = record {
      mid = relock x b;
      only_lock = refl;
      block_id = h;
      signs = sign_add_vote-Signs e precommit_type h (relock x b);
      mid_inv = ground (arith, inv, p);
      height_same = refl;
      round_same = refl;
      step_same = refl;
      chain_same = refl;
      votes_same = refl;
      queue_same = refl;
      lock_moves = moves;
      justified = j;
    }

    nil_at : Precommits round s (final (sign_add_vote e precommit_type zero_hash s))
    nil_at =
        at s.locked_round s.locked_block zero_hash inv.lock_paired (inl refl) (inl (refl, refl))

    -- A call that stops before it signs.
    stopped : Precommits round s s
    stopped = record {
      mid = s;
      only_lock = refl;
      block_id = zero_hash;
      signs = record {
        same_rs = refl;
        same_chain = refl;
        same_ticks = refl;
        same_store = refl;
        same_rest = (refl, refl, refl, refl, refl);
        sent = inl refl;
      };
      mid_inv = inv;
      height_same = refl;
      round_same = refl;
      step_same = refl;
      chain_same = refl;
      votes_same = refl;
      queue_same = refl;
      lock_moves = inl (refl, refl);
      justified = inl refl;
    }

    here : (b : Option e.Block) (h : Hash) → e.hash_to b h ≡ true → Paired b round s.round
    here b h m = Paired-hash_to b h round s.round m (ground (arith, inv))

    lock_proposal_block-Precommits :
        (h : Hash) (b : Option e.Block)
        → e.two_thirds_majority (e.prevotes s.votes round) ≡ some h
        → e.hash_to b h ≡ true
        → Precommits round s (final (lock_proposal_block e round h b s))
    unfolding lock_proposal_block
    lock_proposal_block-Precommits h none polka m = stopped
    lock_proposal_block-Precommits h (some b) polka m =
        elim (Bool-cases (e.validate s.chain_state b)) [
          | inl valid ↦ rw valid (
              at round (some b) h (here (some b) h m) (inr (polka, m, refl))
                (inr (h, polka, inr (m, refl))))
          | inr invalid ↦ rw invalid stopped
        ]

    precommit_block-Precommits :
        (h : Hash)
        → e.two_thirds_majority (e.prevotes s.votes round) ≡ some h
        → Precommits round s (final (precommit_block e round h s))
    unfolding precommit_block
    precommit_block-Precommits h polka = elim (Bool-cases (e.hash_to s.locked_block h)) [
      | inl m ↦ rw m (
          at round s.locked_block h (here s.locked_block h m) (inr (polka, m, refl))
            (inr (h, polka, inr (m, refl))))
      | inr m ↦ rw m (elim (Bool-cases (e.hash_to s.proposal_block h)) [
        | inl p ↦ rw p (lock_proposal_block-Precommits h s.proposal_block polka p)
        | inr p ↦ rw p (at (negsuc 0) none zero_hash refl (inl refl) (inr (h, polka, inl (inr m))))
      ])
    ]

    precommit_nil-Precommits :
        (h : Hash) (b : Option e.Block)
        → e.two_thirds_majority (e.prevotes s.votes round) ≡ some h
        → h ≡ zero_hash
        → Precommits round s (final (precommit_nil e b s))
    unfolding precommit_nil
    precommit_nil-Precommits h none polka nil = nil_at
    precommit_nil-Precommits h (some b) polka nil =
        at (negsuc 0) none zero_hash refl (inl refl) (inr (h, polka, inl (inl nil)))

    precommit_polka-Precommits :
        (o : Option Hash)
        → e.two_thirds_majority (e.prevotes s.votes round) ≡ o
        → Precommits round s (final (precommit_polka e round o s))
    unfolding precommit_polka
    precommit_polka-Precommits none polka = nil_at
    precommit_polka-Precommits (some h) polka =
        elim (Bool-cases (ltb_ℤ (e.pol_round s.votes) round)) [
          | inl behind ↦ rw behind stopped
          | inr ahead ↦ rw ahead (elim (Bool-cases (h == zero_hash)) [
            | inl nil ↦
                rw nil (precommit_nil-Precommits h s.locked_block polka (ground (arith, nil)))
            | inr block ↦ rw block (precommit_block-Precommits h polka)
          ])
        ]

    -- In a state with the invariant and at its round, the body of `enterPrecommit` changes the
    -- lock at most, and then signs at most one precommit and changes nothing else but the clock's
    -- count. The precommit is for nil, or for a block that has +2/3
    -- of this round's prevotes and that it has locked in this round. It releases the lock only
    -- where +2/3 of this round's prevotes are for nil or another block.
    pub do_precommit-Precommits : Precommits round s (final (do_precommit e round s))
    unfolding do_precommit
    do_precommit-Precommits = precommit_polka-Precommits _ refl
