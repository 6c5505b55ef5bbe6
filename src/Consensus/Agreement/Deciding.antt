-- ===== src/Consensus/Agreement/Deciding.antt =====
-- consensus/consensus_state.go: a node that comes to the next height has applied a block that a quorum
-- precommits.
use go_minimal_pbft.Prelude.{ℕ, suc, ◌<◌, ◌≡◌, sym, ap, ◌∙◌, subst, ◌⊎◌, inl, inr, some, arith}
use go_minimal_pbft.Prelude.Int.{ℤ}
use go_minimal_pbft.Messages.{Hash, Vote, precommit_type}
use go_minimal_pbft.ChainState.{ChainState}
use go_minimal_pbft.Interfaces.{Env}
use go_minimal_pbft.Consensus.State.{State}
use go_minimal_pbft.Consensus.Progress.Kept.{Kept, Decides, Resets}
use go_minimal_pbft.Consensus.Agreement.Tally.{Validators, Tally, IsFor}
use go_minimal_pbft.Consensus.Agreement.Local.{KnowsAt, knowing}

module _ (q : Validators) (V : Vote → Type 0) where
  -- A quorum of the votes in `V` precommits this hash.
  abbrev pub Commits : ℕ → ℤ → Hash → Type 0
  Commits n r h = q.Quorum (λ a. (v : Vote) × V v × (v.height ≡ n) × IsFor a precommit_type r h v)

  module _ (e : Env) where
    -- A block that a quorum precommits at the height of `s`, which gives the chain state after it.
    pub record Decision (s : State e) (next : ChainState e.lib) : Type 0 where
      pub block : e.Block
      pub round : ℤ
      pub gives_state : e.apply s.chain_state block ≡ some next
      pub commits : Commits s.height round (e.hash block)

    -- The node has gone past the height of `s` by a decision.
    abbrev pub IsPassed : State e → State e → Type 0
    IsPassed s t =
        (s.height < t.height)
        × (next : ChainState e.lib) × Decision s next
        × (t.height ≡ suc s.height → t.chain_state ≡ next)

    -- It is still at that height, or has passed it.
    abbrev pub Proceeds : State e → State e → Type 0
    Proceeds s t = ((t.height ≡ s.height) × (t.chain_state ≡ s.chain_state)) ⊎ IsPassed s t

    pub still :
        (s t u : State e)
        → u.height ≡ t.height
        → u.chain_state ≡ t.chain_state
        → Proceeds s t
        → Proceeds s u
    still s t u hs cs (inl (h, c)) = inl (hs ∙ h, cs ∙ c)
    still s t u hs cs (inr (lt, next, d, to)) =
        inr (subst (λ n. s.height < n) (sym hs) lt, next, d, λ at. cs ∙ to (sym hs ∙ at))

    module _ (tally : Tally q e.lib) where
      -- What was decided has a quorum of the known votes.
      decided :
          (b : e.Block) (s : State e)
          → Decides e (knowing q V e tally).IsCommitIn b s.rs s.chain_state
          → KnowsAt q V e tally s
          → (r : ℤ) × Commits s.height r (e.hash b)
      decided b s d k = elim d.has_commits [
        | inl (h, got, m) ↦ (
          s.commit_round,
          q.Quorum-mono _ _
              (λ a (v, seen, for).
                let (known, at) = k.recorded v seen in
                (
                  v,
                  known,
                  at,
                  record {
                    by_address = for.by_address;
                    of_type = for.of_type;
                    at_round = for.at_round;
                    for_block = for.for_block ∙ sym (e.hash_to-hash b h m);
                  },
                ))
              (tally.precommits-Quorum s.votes s.commit_round h got),
        )
        | inr (verified, seen) ↦
            let (r, quorum) =
              tally.verify_commit-Quorum s.chain_state.validators s.chain_state.chain_id (e.hash b)
                (e.number b) (e.header_commit b) verified in
            (
              r,
              q.Quorum-mono _ _
                  (λ a (v, held, genuine, at, for).
                    (v, seen v held genuine, at ∙ d.for_height, for))
                  quorum,
            )
      ]

      pub passes :
          (old : State e) (b : e.Block) (state : ChainState e.lib) (s t : State e)
          → Decides e (knowing q V e tally).IsCommitIn b s.rs s.chain_state
          → e.apply s.chain_state b ≡ some state
          → Resets e state s t
          → KnowsAt q V e tally s
          → Proceeds old s
          → IsPassed old t
      passes old b state s t why applied resets k (inl (hs, cs)) =
          let (r, commits) = decided b s why k in
          (
            ground (arith, hs, resets.one_higher),
            state,
            record {
              block = b;
              round = r;
              gives_state = subst (λ c. e.apply c b ≡ some state) cs applied;
              commits = subst (λ n. Commits n r (e.hash b)) hs commits;
            },
            λ at. resets.same_state,
          )
      passes old b state s t why applied resets k (inr (lt, next, d, to)) = (
        ground (arith, lt, resets.one_higher),
        next,
        d,
        λ at. ground (arith, lt, resets.one_higher, at),
      )

      -- What the votes rest on is kept, and the height is passed by a decision only.
      abbrev pub deciding : State e → Kept e
      deciding old =
          let k = knowing q V e tally in
          record {
            Holds = λ s. KnowsAt q V e tally s × Proceeds old s;
            IsIn = k.IsIn;
            IsCommitIn = k.IsCommitIn;
            quiet = λ s t q h. (k.quiet s t q h.0, still old s t q.same_height q.same_chain h.1);
            prevoted = λ s t inv lt sg h. (
              k.prevoted s t inv lt sg h.0,
              still old s t (ap (λ r. r.height) sg.same_rs) sg.same_chain h.1,
            );
            precommitted = λ s t inv lt p h. (
              k.precommitted s t inv lt p h.0,
              still old s t (ap (λ r. r.height) p.signs.same_rs ∙ p.height_same)
                  (p.signs.same_chain ∙ p.chain_same) h.1,
            );
            unlocked = λ r h s polka lt le other g. (k.unlocked r h s polka lt le other g.0, g.1);
            added = λ v peer_id is_added err votes s got at seen g.
                (k.added v peer_id is_added err votes s got at seen g.0, g.1);
            tracked = λ r votes s set g. (k.tracked r votes s set g.0, g.1);
            reset = λ b state s t inv why applied resets g. (
              k.reset b state s t inv why applied resets g.0,
              inr (passes old b state s t why applied resets g.0 g.1),
            );
          }
