-- ===== src/Consensus/Agreement/Safety.antt =====
-- consensus/consensus_state.go: no two nodes of the network decide on different blocks at one height.
use go_minimal_pbft.Prelude.{
  ℕ, suc, ◌≡◌, ◌≢◌, sym, ap, ◌∙◌, subst, some, Bool-cases, inl, inr, arith,
}
use go_minimal_pbft.Prelude.Int.{ℤ, ◌<ℤ◌, ltb_ℤ, eq_of_parts}
use go_minimal_pbft.Messages.{Hash, Address, zero_hash, precommit_type, Vote}
use go_minimal_pbft.ChainState.{ChainState}
use go_minimal_pbft.Interfaces.{Env}
use go_minimal_pbft.Consensus.State.{State}
use go_minimal_pbft.Consensus.Agreement.Deciding.{Decision}
use go_minimal_pbft.Consensus.Agreement.Tally.{Validators, Tally}
use go_minimal_pbft.Consensus.Agreement.Knows.{Cast, IsCommit, Polka}
use go_minimal_pbft.Consensus.Agreement.Growth.{Ordered-Falling, Falling-once}
use go_minimal_pbft.Consensus.Agreement.Network.{
  Net, NetStep, NetStep-Decision, then, NetRun, NetRun-trans, IsFresh, IsFresh-IsSound, IsSound,
  Possible, Possible-mono, NetRun-Sound, NetRun-Grows,
}
use go_minimal_pbft.Consensus.Agreement.Decided.{
  Committed, cast_of, Steady, no-Polka, Steady-throughout,
}

module _ (q : Validators) (env : Address → Env) (tally : (a : Address) → Tally q (env a).lib) where
  same_round :
      (net : Net q env) (n : ℕ) (r : ℤ) (h g : Hash)
      → IsSound q env tally net
      → Committed q env tally net n r h
      → Committed q env tally net n r g
      → h ≡ g
  same_round net n r h g sound commits commits' =
      let (a, honest, (v, known, at, for), (u, known', at', for')) =
        q.Quorum-meet _ _ commits commits' in
      let (p, c, ty) = cast_of q env tally net a precommit_type n r h v honest known at for in
      let (w, d, ty') = cast_of q env tally net a precommit_type n r g u honest known' at' for' in
      let falls = Ordered-Falling _ (net a).internal_msg_queue (sound a).0.ordered in
      let one : p ≡ w =
        Falling-once _ _ p w falls c.is_cast d.is_cast
          (grind (arith, c.at_height, d.at_height, c.at_round, d.at_round, ty, ty')) in
      sym c.for_block ∙ ap Vote.block_id one ∙ d.for_block

  later_round :
      (start net : Net q env) (n : ℕ) (r r' : ℤ) (h g : Hash)
      → IsFresh q env tally start
      → NetRun q env tally start net
      → Committed q env tally net n r h
      → Committed q env tally net n r' g
      → h ≢ zero_hash
      → g ≢ zero_hash
      → r <ℤ r'
      → h ≡ g
  later_round start net n r r' h g fresh run commits commits' block block' lt =
      let sound = NetRun-Sound q env tally run (IsFresh-IsSound q env tally start fresh) in
      let (a, honest, (v, known, at, for), _) = q.Quorum-meet _ _ commits' commits' in
      let (p, c, ty) = cast_of q env tally net a precommit_type n r' g v honest known at for in
      let commit : IsCommit p = record {
        of_commit_type = ty;
        not_nil = λ nil. block' (sym c.for_block ∙ nil);
      } in
      let polka =
        subst (λ x. Polka q (Possible q env net) n x g) c.at_round
          (subst (λ m. Polka q (Possible q env net) m p.round g) c.at_height
            (subst (λ b. Polka q (Possible q env net) p.height p.round b) c.for_block
              ((sound a).1.polkas p c.is_cast commit))) in
      let at_start : Steady q env tally net start n r h = λ b p w x ty d ty' at lt.
        let bad : ⊥ = subst (Cast w) (fresh.nothing_cast b) d in elim bad [ ] in
      let steady =
        Steady-throughout q env tally net n r h sound commits block run
          (IsFresh-IsSound q env tally start fresh) at_start in
      sym (no-Polka q env tally net n r h sound commits net r' g steady lt polka)

  -- At one height, +2/3 of the precommits for two blocks are for one block.
  block_is_one :
      (start net : Net q env) (n : ℕ) (r r' : ℤ) (h g : Hash)
      → IsFresh q env tally start
      → NetRun q env tally start net
      → Committed q env tally net n r h
      → Committed q env tally net n r' g
      → h ≢ zero_hash
      → g ≢ zero_hash
      → h ≡ g
  block_is_one start net n r r' h g fresh run c c' block block' = elim (Bool-cases (ltb_ℤ r r')) [
    | inl lt ↦ later_round start net n r r' h g fresh run c c' block block' (ground (arith, lt))
    | inr ge ↦ elim (Bool-cases (ltb_ℤ r' r)) [
      | inl lt ↦
          sym (later_round start net n r' r g h fresh run c' c block' block (ground (arith, lt)))
      | inr le ↦
          let eq : r ≡ r' = eq_of_parts r r' (ground (arith, ge, le)) in
          same_round net n r h g
            (NetRun-Sound q env tally run (IsFresh-IsSound q env tally start fresh)) c
            (subst (λ x. Committed q env tally net n x g) (sym eq) c')
    ]
  ]

  -- The chain states of two nodes came from blocks with one hash.
  pub record SameBlock (a b : Address) (s : State (env a)) (s' : ChainState (env a).lib)
      (t : State (env b)) (t' : ChainState (env b).lib) : Type 0 where
    pub block : (env a).Block
    pub other : (env b).Block
    pub gives_state : (env a).apply s.chain_state block ≡ some s'
    pub other_gives_state : (env b).apply t.chain_state other ≡ some t'
    pub same_hash : (env a).hash block ≡ (env b).hash other

  -- Decisions of two nodes at one height are for one block.
  decisions :
      (start net later : Net q env) (a b : Address) (s' : ChainState (env a).lib)
      (t' : ChainState (env b).lib)
      → IsFresh q env tally start
      → NetRun q env tally start net
      → NetRun q env tally net later
      → ((c : Address) (x : (env c).Block) → (env c).hash x ≢ zero_hash)
      → (net a).height ≡ (later b).height
      → Decision q (Possible q env net) (env a) (net a) s'
      → Decision q (Possible q env later) (env b) (later b) t'
      → SameBlock a b (net a) s' (later b) t'
  decisions start net later a b s' t' fresh run on block at d d' = record {
    block = d.block;
    other = d'.block;
    gives_state = d.gives_state;
    other_gives_state = d'.gives_state;
    same_hash =
        block_is_one start later (later b).height d.round d'.round _ _ fresh
          (NetRun-trans q env tally run on)
          (q.Quorum-mono _ _ (λ x (v, known, here, for). (v, wider v known, here ∙ at, for))
            d.commits)
          d'.commits (block a d.block) (block b d'.block);
  }
    where
      wider : (v : Vote) → Possible q env net v → Possible q env later v
      wider = Possible-mono q env tally net later (
          NetRun-Grows q env tally on
            (NetRun-Sound q env tally run (IsFresh-IsSound q env tally start fresh)))

  -- In a network whose nodes have the invariant and start with nothing signed and nothing recorded,
  -- where no block has the zero hash: if a turn takes a node from some height to the next one, and a later turn takes a node from
  -- the same height to the next one, the chain states of the two come from blocks with one hash.
  pub agreement :
      {start net net' later later' : Net q env}
      → IsFresh q env tally start
      → NetRun q env tally start net
      → (step : NetStep q env tally net net') → NetRun q env tally net' later
      → (step' : NetStep q env tally later later')
      → ((c : Address) (x : (env c).Block) → (env c).hash x ≢ zero_hash)
      → (net' step.node).height ≡ suc (net step.node).height
      → (later' step'.node).height ≡ suc (later step'.node).height
      → (net step.node).height ≡ (later step'.node).height
      → SameBlock step.node step'.node
          (net step.node)
          (net' step.node).chain_state
          (later step'.node)
          (later' step'.node).chain_state
  agreement {start} {net} {net'} {later} {later'} fresh run step on step' block up up' at =
      let sound = NetRun-Sound q env tally run (IsFresh-IsSound q env tally start fresh) in
      let sound' = NetRun-Sound q env tally (then step on) sound in
      decisions start net later step.node step'.node (net' step.node).chain_state
        (later' step'.node).chain_state fresh run (then step on) block at
        (NetStep-Decision q env tally step sound up) (NetStep-Decision q env tally step' sound' up')
