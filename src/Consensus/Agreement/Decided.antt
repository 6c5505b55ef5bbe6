-- ===== src/Consensus/Agreement/Decided.antt =====
-- consensus/consensus_state.go: what +2/3 of the precommits for a block rule out in later rounds.
use go_minimal_pbft.Prelude.{ℕ, ◌<◌, ◌≡◌, ◌≢◌, sym, ◌∙◌, subst, inl, inr, arith}
use go_minimal_pbft.Prelude.Int.{ℤ, ◌<ℤ◌}
use go_minimal_pbft.Messages.{Hash, Address, zero_hash, prevote_type, precommit_type, Vote}
use go_minimal_pbft.Interfaces.{Env}
use go_minimal_pbft.Consensus.Invariant.{key}
use go_minimal_pbft.Consensus.Agreement.Tally.{Validators, Tally, IsFor}
use go_minimal_pbft.Consensus.Agreement.Knows.{Cast, IsCommit, Polka}
use go_minimal_pbft.Consensus.Agreement.Deciding.{Commits}
use go_minimal_pbft.Consensus.Agreement.Growth.{Ordered-Falling, Falling-before}
use go_minimal_pbft.Consensus.Agreement.Network.{
  Net, NetStep, NetRun, here, then, cast_by, Possible, IsSound, NetStep-Before, NetStep-Sound,
  NetRun-Grows,
}

module _ (q : Validators) (env : Address → Env) (tally : (a : Address) → Tally q (env a).lib) where
  -- A quorum of the possible votes precommits this block in this round.
  abbrev pub Committed : Net q env → ℕ → ℤ → Hash → Type 0
  Committed net n r h = Commits q (Possible q env net) n r h

  -- The vote that an honest validator has cast, with its fields.
  pub record CastFor (net : Net q env) (a : Address) (n : ℕ) (r : ℤ) (h : Hash) (w : Vote)
      : Type 0 where
    pub is_cast : Cast w (cast_by q env net a)
    pub at_height : w.height ≡ n
    pub at_round : w.round ≡ r
    pub for_block : w.block_id ≡ h

  pub cast_of :
      (net : Net q env) (a : Address) (ty : _) (n : ℕ) (r : ℤ) (h : Hash) (v : Vote)
      → q.Honest a
      → Possible q env net v
      → v.height ≡ n
      → IsFor a ty r h v
      → (w : Vote) × CastFor net a n r h w × (w.msg_type ≡ ty)
  cast_of net a ty n r h v honest (genuine, was) at for =
      let (w, c, alike) = was (subst q.Honest (sym for.by_address) honest) in
      (
        w,
        record {
          is_cast = subst (λ x. Cast w (cast_by q env net x)) for.by_address c;
          at_height = sym alike.same_height ∙ at;
          at_round = sym alike.same_round ∙ for.at_round;
          for_block = sym alike.same_block ∙ for.for_block;
        },
        sym alike.same_type ∙ for.of_type,
      )

  -- The validators that precommitted the block prevote for nothing else in a later round.
  abbrev pub Steady : Net q env → Net q env → ℕ → ℤ → Hash → Type 0
  Steady last net n r h =
      (a : Address) (p w : Vote)
      → CastFor last a n r h p
      → p.msg_type ≡ precommit_type
      → Cast w (cast_by q env net a)
      → w.msg_type ≡ prevote_type
      → w.height ≡ n
      → r <ℤ w.round
      → w.block_id ≡ h

  module _ (last : Net q env) (n : ℕ) (r : ℤ) (h : Hash) (sound : IsSound q env tally last)
      (commits : Committed last n r h) where
    -- While they are steady, no polka of a later round is for anything else.
    pub no-Polka :
        (net : Net q env) (r' : ℤ) (g : Hash)
        → Steady last net n r h
        → r <ℤ r'
        → Polka q (Possible q env net) n r' g
        → g ≡ h
    no-Polka net r' g steady lt polka =
        let (a, honest, (v, known, at, for), (u, known', at', for')) =
          q.Quorum-meet _ _ commits polka in
        let (p, c, ty) = cast_of last a precommit_type n r h v honest known at for in
        let (w, d, ty') = cast_of net a prevote_type n r' g u honest known' at' for' in
        sym d.for_block
        ∙ steady a p w c ty d.is_cast ty' d.at_height (subst (λ x. r <ℤ x) (sym d.at_round) lt)

    -- A precommit ranks below the prevotes of later rounds.
    ranks :
        (a : Address) (p w : Vote)
        → CastFor last a n r h p
        → p.msg_type ≡ precommit_type
        → w.msg_type ≡ prevote_type
        → w.height ≡ n
        → r <ℤ w.round
        → key p < key w
    ranks a p w c ty ty' at lt =
        let low = (sound a).1.nonneg p c.is_cast in
        ground (arith, c.at_height, c.at_round, ty, ty', at, lt, low)

    module _ (block : h ≢ zero_hash) where
      Steady-turn :
          (net net' : Net q env)
          → NetStep q env tally net net'
          → NetRun q env tally net' last
          → IsSound q env tally net
          → Steady last net n r h
          → Steady last net' n r h
      Steady-turn net net' step run before steady a p w c ty d ty' at lt =
          let (inv, k) = NetStep-Before q env tally step before a in
          let grown = NetRun-Grows q env tally run (NetStep-Sound q env tally step before) a in
          let falls = Ordered-Falling _ (last a).internal_msg_queue (sound a).0.ordered in
          let there : Cast p (cast_by q env net' a) =
            Falling-before _ p w grown falls c.is_cast d (ranks a p w c ty ty' at lt) in
          let commit : IsCommit p = record {
            of_commit_type = ty;
            not_nil = λ nil. block (sym c.for_block ∙ nil);
          } in
          elim (k.prevoted p w there d commit ty' (at ∙ sym c.at_height)
            (subst (λ x. x <ℤ w.round) (sym c.at_round) lt)) [
              | inl same ↦ same ∙ c.for_block
              | inr o ↦
                  let g : o.block_id ≡ h =
                    no-Polka net o.round o.block_id steady
                      (subst (λ x. x <ℤ o.round) c.at_round o.later)
                      (subst (λ m. Polka q (Possible q env net) m o.round o.block_id) c.at_height
                        o.polka) in
                  let bad : ⊥ = o.other (g ∙ sym c.for_block) in elim bad [ ]
            ]

      pub Steady-throughout :
          {net : Net q env}
          → NetRun q env tally net last
          → IsSound q env tally net
          → Steady last net n r h
          → Steady last last n r h
      Steady-throughout here before steady = steady
      Steady-throughout (then {net} {net'} step run) before steady =
          Steady-throughout run (NetStep-Sound q env tally step before)
            (Steady-turn net net' step run before steady)
