-- ===== src/Consensus/Agreement/Network.antt =====
-- consensus/consensus_state.go: the nodes of a network, each running `receiveRoutine`. A step of the
-- network is a turn of one node. Peers may send any message; a vote that carries the signature of an
-- honest validator is one that its node has cast.
use go_minimal_pbft.Prelude.{
  suc, ◌≡◌, ◌≢◌, refl, sym, subst, inl, inr, some, List, [], Bool-cases, ◌==◌, arith,
}
use go_minimal_pbft.Messages.{Address, Vote}
use go_minimal_pbft.Interfaces.{Env}
use go_minimal_pbft.Consensus.State.{State}
use go_minimal_pbft.Consensus.Routine.{Step}
use go_minimal_pbft.Consensus.Invariant.{Inv}
use go_minimal_pbft.Consensus.Progress.Kept.{votes_in, Good}
use go_minimal_pbft.Consensus.Progress.Update.{HasNext}
use go_minimal_pbft.Consensus.Progress.Turn.{step_vote, step_commit, StepBrings-of, Step-Good}
use go_minimal_pbft.Consensus.Agreement.Tally.{Validators, Tally}
use go_minimal_pbft.Consensus.Agreement.Knows.{Cast}
use go_minimal_pbft.Consensus.Agreement.Mono.{Knows-mono}
use go_minimal_pbft.Consensus.Agreement.Local.{KnowsAt}
use go_minimal_pbft.Consensus.Agreement.Deciding.{Decision, deciding}
use go_minimal_pbft.Consensus.Agreement.Growth.{Grows, same, Grows-trans, Grows-Cast, growing}

-- The fields that decide what a vote is for.
pub record SameVote (v w : Vote) : Type 0 where
  pub same_type : v.msg_type ≡ w.msg_type
  pub same_height : v.height ≡ w.height
  pub same_round : v.round ≡ w.round
  pub same_block : v.block_id ≡ w.block_id

abbrev pub WasCast : Vote → List Vote → Type 0
WasCast v log = (w : Vote) × Cast w log × SameVote v w

module _ (q : Validators) (env : Address → Env) where
  -- The state of each validator's node.
  abbrev pub Net : Type 0
  Net = (a : Address) → State (env a)

  abbrev pub cast_by : Net → Address → List Vote
  cast_by net a = votes_in (net a).internal_msg_queue

  -- A vote that can be there: its signature is right, and an honest validator has cast it.
  abbrev pub Possible : Net → Vote → Type 0
  Possible net v =
      q.Genuine v × (q.Honest v.validator_address → WasCast v (cast_by net v.validator_address))

  module _ (tally : (a : Address) → Tally q (env a).lib) where
    -- One node takes a turn.
    pub record NetStep (net net' : Net) : Type 0 where
      pub node : Address
      pub step : Step (env node) (net node) (net' node)
      pub has_next : HasNext (env node) (net node)
      pub unforged : (v : Vote) → step_vote (env node) step ≡ some v → q.Genuine v → Possible net v
      pub unforged_commits :
          (c : (env node).Commit)
          → step_commit (env node) step ≡ some c
          → (v : Vote) → (tally node).Carries c v
          → q.Genuine v
          → Possible net v
      pub others : (a : Address) → a ≢ node → net' a ≡ net a

    pub data NetRun : Net → Net → Type 0 where
      here : {net : Net} → NetRun net net
      then : {net net' net'' : Net} → NetStep net net' → NetRun net' net'' → NetRun net net''

    pub NetRun-trans : {a b c : Net} → NetRun a b → NetRun b c → NetRun a c
    NetRun-trans here g = g
    NetRun-trans (then step f) g = then step (NetRun-trans f g)

    -- Every node has the invariant, has signed nothing and has recorded no vote.
    pub record IsFresh (net : Net) : Type 0 where
      pub inv : (a : Address) → Inv (env a) (net a)
      pub nothing_cast : (a : Address) → cast_by net a ≡ []
      pub nothing_recorded : (a : Address) (v : Vote) → (tally a).Recorded (net a).votes v → ⊥

    -- Every node has the invariant, and its votes rest on possible ones.
    abbrev pub IsSound : Net → Type 0
    IsSound net =
        (a : Address) → Inv (env a) (net a) × KnowsAt q (Possible net) (env a) (tally a) (net a)

    pub IsFresh-IsSound : (net : Net) → IsFresh net → IsSound net
    IsFresh-IsSound net fresh a = (
      fresh.inv a,
      record {
        recorded = λ v h. let bad : ⊥ = fresh.nothing_recorded a v h in elim bad [ ];
        nonneg = λ v c. none_cast v c;
        polkas = λ p c is. none_cast p c;
        held = λ p c is at. none_cast p c;
        prevoted = λ p w c d is ty at lt. none_cast p c;
      },
    )
      where
        none_cast : (v : Vote) {A : Type 0} → Cast v (cast_by net a) → A
        none_cast v c = let bad : ⊥ = subst (Cast v) (fresh.nothing_cast a) c in elim bad [ ]

    -- The node of the step, or another one, which keeps its state.
    by_node :
        {net net' : Net} (step : NetStep net net') (P : (a : Address) → State (env a) → Type 0)
        → P step.node (net' step.node)
        → ((a : Address) → P a (net a))
        → (a : Address) → P a (net' a)
    by_node {net} {net'} step P at_node before a = elim (Bool-cases (a == step.node)) [
      | inl this ↦ subst (λ x. P x (net' x)) (ground (arith, this)) at_node
      | inr that ↦ subst (P a) (sym (step.others a (ground (arith, that)))) (before a)
    ]

    pub NetStep-Grows :
        {net net' : Net}
        → NetStep net net'
        → IsSound net
        → (a : Address) → Grows (cast_by net a) (cast_by net' a)
    NetStep-Grows {net} {net'} step sound =
        by_node step (λ a s. Grows (cast_by net a) (votes_in s.internal_msg_queue))
          (Step-Good (env step.node) (growing (env step.node) (cast_by net step.node)) step.step
            (record { inv = (sound step.node).0; keeps = same }) step.has_next
            (StepBrings-of (env step.node) (growing (env step.node) (cast_by net step.node))
              step.step (λ v h. tt) (λ c h. tt))).keeps
          (λ a. same)

    pub Possible-mono :
        (net net' : Net)
        → ((a : Address) → Grows (cast_by net a) (cast_by net' a))
        → (v : Vote) → Possible net v
        → Possible net' v
    Possible-mono net net' grows v (genuine, was) = (
      genuine,
      λ honest.
          let (w, c, alike) = was honest in (w, Grows-Cast w (grows v.validator_address) c, alike),
    )

    -- What a turn keeps, from votes that were possible before it.
    turned :
        {net net' : Net} (step : NetStep net net')
        → IsSound net
        → Good
            (env step.node)
            (deciding q (Possible net) (env step.node) (tally step.node) (net step.node))
            (net' step.node)
    turned {net} {net'} step sound =
        let e = env step.node in
        let kept = deciding q (Possible net) e (tally step.node) (net step.node) in
        let (inv, k) = sound step.node in
        Step-Good e kept step.step (record { inv = inv; keeps = (k, inl (refl, refl)) })
          step.has_next (StepBrings-of e kept step.step step.unforged step.unforged_commits)

    -- After a turn, the votes of every node rest on votes that were possible before it.
    pub NetStep-Before :
        {net net' : Net}
        → NetStep net net'
        → IsSound net
        → (a : Address) → Inv (env a) (net' a) × KnowsAt q (Possible net) (env a) (tally a) (net' a)
    NetStep-Before {net} {net'} step sound =
        by_node step (λ a s. Inv (env a) s × KnowsAt q (Possible net) (env a) (tally a) s)
          ((turned step sound).inv, (turned step sound).keeps.0) sound

    -- In a network where every node has the invariant and its votes rest on possible ones: a turn that
    -- takes a node to the next height gives it the chain state that the executor makes of the old one
    -- and a block that a quorum of possible votes of one round of that height precommits.
    pub NetStep-Decision :
        {net net' : Net} (step : NetStep net net')
        → IsSound net
        → (net' step.node).height ≡ suc (net step.node).height
        → Decision q (Possible net) (env step.node) (net step.node) (net' step.node).chain_state
    NetStep-Decision {net} {net'} step sound up = elim (turned step sound).keeps.1 [
      | inl (stays, _) ↦ ground (arith, stays, up)
      | inr (lt, next, d, to) ↦
          subst (Decision q (Possible net) (env step.node) (net step.node)) (sym (to up)) d
    ]

    -- A turn of one node keeps every node's invariant, and what its votes rest on.
    pub NetStep-Sound : {net net' : Net} → NetStep net net' → IsSound net → IsSound net'
    NetStep-Sound {net} {net'} step sound a =
        let (inv, k) = NetStep-Before step sound a in
        (
          inv,
          Knows-mono q (Possible net) (Possible net')
              (Possible-mono net net' (NetStep-Grows step sound)) (env a) (tally a) (net' a).rs
              (cast_by net' a) k,
        )

    -- A run of the network from a state in which every node has the invariant and its votes rest on
    -- possible ones ends in such a state: the votes that a node has recorded are possible ones, each
    -- precommit for a block that it has signed rests on +2/3 of the prevotes of its round, and the node
    -- stays locked on the block and prevotes for it in later rounds, unless +2/3 of the prevotes of a
    -- later round are for something else.
    pub NetRun-Sound : {net net' : Net} → NetRun net net' → IsSound net → IsSound net'
    NetRun-Sound here sound = sound
    NetRun-Sound (then step run) sound = NetRun-Sound run (NetStep-Sound step sound)

    pub NetRun-Grows :
        {net net' : Net}
        → NetRun net net'
        → IsSound net
        → (a : Address) → Grows (cast_by net a) (cast_by net' a)
    NetRun-Grows here sound a = same
    NetRun-Grows (then step run) sound a =
        Grows-trans (NetStep-Grows step sound a) (NetRun-Grows run (NetStep-Sound step sound) a)
