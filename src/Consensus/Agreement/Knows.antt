-- ===== src/Consensus/Agreement/Knows.antt =====
-- consensus/consensus_state.go: what holds, between two events, of the votes that a node has recorded
-- and of those that it has signed.
use go_minimal_pbft.Prelude.{
  ℕ, ◌≡◌, ◌≢◌, sym, ap, ◌∙◌, subst, ◌⊎◌, inl, inr, true, Option, List, [], ◌∷◌, arith,
}
use go_minimal_pbft.Prelude.Int.{ℤ, pos, ◌≤ℤ◌, ◌<ℤ◌}
use go_minimal_pbft.Messages.{Hash, zero_hash, prevote_type, precommit_type, Vote}
use go_minimal_pbft.Interfaces.{Env}
use go_minimal_pbft.Consensus.State.{RoundState}
use go_minimal_pbft.Consensus.Agreement.Tally.{Validators, Tally, IsFor}

-- The vote is among those that were cast.
abbrev pub Cast : Vote → List Vote → Type 0
Cast v [] = ⊥
Cast v (w ∷ log) = (v ≡ w) ⊎ Cast v log

-- A precommit for a block.
pub record IsCommit (p : Vote) : Type 0 where
  pub of_commit_type : p.msg_type ≡ precommit_type
  pub not_nil : p.block_id ≢ zero_hash

module _ (q : Validators) (V : Vote → Type 0) where
  -- A quorum of the votes in `V` prevotes for this hash.
  abbrev pub Polka : ℕ → ℤ → Hash → Type 0
  Polka n r h = q.Quorum (λ a. (v : Vote) × V v × (v.height ≡ n) × IsFor a prevote_type r h v)

  -- A later round, up to `r`, has a polka for something else than what `p` precommits.
  pub record IsOutvoted (p : Vote) (r : ℤ) : Type 0 where
    pub round : ℤ
    pub block_id : Hash
    pub later : p.round <ℤ round
    pub not_ahead : round ≤ℤ r
    pub other : block_id ≢ p.block_id
    pub polka : Polka p.height round block_id

  pub IsOutvoted-mono : (p : Vote) (r r' : ℤ) → r ≤ℤ r' → IsOutvoted p r → IsOutvoted p r'
  IsOutvoted-mono p r r' le o = record {
    round = o.round;
    block_id = o.block_id;
    later = o.later;
    not_ahead = omega (arith, o.not_ahead, le);
    other = o.other;
    polka = o.polka;
  }

  module _ (e : Env) (tally : Tally q e.lib) where
    -- The lock holds what `p` precommits.
    abbrev pub IsLocked : Vote → Option e.Block → ℤ → Type 0
    IsLocked p b r = (e.hash_to b p.block_id ≡ true) × (p.round ≤ℤ r)

    -- What the lock or a later polka says of a precommit.
    abbrev pub IsHeld : Vote → RoundState e → Type 0
    IsHeld p r = IsLocked p r.locked_block r.locked_round ⊎ IsOutvoted p r.round

    -- The recorded votes are in `V`. A precommit for a block rests on a polka; at its height it is held
    -- by the lock until a later polka is for something else, and until then the node's later
    -- prevotes are for the same block.
    pub record Knows (r : RoundState e) (log : List Vote) : Type 0 where
      pub recorded : (v : Vote) → tally.Recorded r.votes v → V v × (v.height ≡ r.height)
      pub nonneg : (v : Vote) → Cast v log → pos 0 ≤ℤ v.round
      pub polkas : (p : Vote) → Cast p log → IsCommit p → Polka p.height p.round p.block_id
      pub held : (p : Vote) → Cast p log → IsCommit p → p.height ≡ r.height → IsHeld p r
      pub prevoted :
          (p w : Vote)
          → Cast p log
          → Cast w log
          → IsCommit p
          → w.msg_type ≡ prevote_type
          → w.height ≡ p.height
          → p.round <ℤ w.round
          → (w.block_id ≡ p.block_id) ⊎ IsOutvoted p w.round

    -- What a new vote must bring.
    pub record Adds (r : RoundState e) (log : List Vote) (v : Vote) : Type 0 where
      pub round_nonneg : pos 0 ≤ℤ v.round
      pub rests_on_polka : IsCommit v → Polka v.height v.round v.block_id
      pub is_held : IsCommit v → v.height ≡ r.height → IsHeld v r
      pub follows :
          (p : Vote)
          → Cast p log
          → IsCommit p
          → v.msg_type ≡ prevote_type
          → v.height ≡ p.height
          → p.round <ℤ v.round
          → (v.block_id ≡ p.block_id) ⊎ IsOutvoted p v.round
      pub is_last :
          (w : Vote)
          → Cast w log
          → w.msg_type ≡ prevote_type
          → w.height ≡ v.height
          → v.round <ℤ w.round
          → ⊥

    pub Adds-self : (v : Vote) → IsCommit v → v.msg_type ≡ prevote_type → ⊥
    Adds-self v is ty = ground (arith, is, ty)

    -- Casting one more vote.
    pub Knows-cast :
        (r : RoundState e) (log : List Vote) (v : Vote)
        → Adds r log v
        → Knows r log
        → Knows r (v ∷ log)
    Knows-cast r log v new k = record {
      recorded = k.recorded;
      nonneg = λ w c. elim c [
        | inl same ↦ subst (λ x. pos 0 ≤ℤ Vote.round x) (sym same) new.round_nonneg
        | inr old ↦ k.nonneg w old
      ];
      polkas = λ p c is. elim c [
        | inl same ↦
            subst (λ x. Polka x.height x.round x.block_id) (sym same)
              (new.rests_on_polka (subst IsCommit same is))
        | inr old ↦ k.polkas p old is
      ];
      held = λ p c is at. elim c [
        | inl same ↦
            subst (λ x. IsHeld x r) (sym same)
              (new.is_held (subst IsCommit same is) (ap Vote.height (sym same) ∙ at))
        | inr old ↦ k.held p old is at
      ];
      prevoted = λ p w c d is ty at lt. elim c [
        | inl same ↦ elim d [
          | inl same' ↦
              let bad : ⊥ =
                Adds-self v (subst IsCommit same is) (ap Vote.msg_type (sym same') ∙ ty) in
              elim bad [ ]
          | inr old' ↦
              let bad : ⊥ =
                new.is_last w old' ty (at ∙ ap Vote.height same)
                  (subst (λ x. x.round <ℤ w.round) same lt) in
              elim bad [ ]
        ]
        | inr old ↦ elim d [
          | inl same' ↦
              subst (λ x. (x.block_id ≡ p.block_id) ⊎ IsOutvoted p x.round) (sym same')
                (new.follows p old is (ap Vote.msg_type (sym same') ∙ ty)
                  (ap Vote.height (sym same') ∙ at) (subst (λ x. p.round <ℤ x.round) same' lt))
          | inr old' ↦ k.prevoted p w old old' is ty at lt
        ]
      ];
    }
