-- ===== src/Consensus/Agreement/Moves.antt =====
-- consensus/consensus_state.go: the changes of the votes and of the lock, and what the node's votes
-- rest on.
use go_minimal_pbft.Prelude.{
  ℕ, ◌<◌, ◌≡◌, ◌≢◌, sym, ◌∙◌, subst, inl, inr, true, false, Option, some, List, [], ◌∷◌, arith,
}
use go_minimal_pbft.Prelude.Int.{ℤ, ◌≤ℤ◌, ◌<ℤ◌}
use go_minimal_pbft.Messages.{Hash, Bytes, Vote}
use go_minimal_pbft.Interfaces.{Env}
use go_minimal_pbft.Consensus.State.{
  proposal_message, vote_message, sync_request, Message, MsgInfo, RoundState, State,
}
use go_minimal_pbft.Consensus.Invariant.{Ordered, key}
use go_minimal_pbft.Consensus.Progress.Kept.{votes_in, Quiet}
use go_minimal_pbft.Consensus.Agreement.Tally.{Validators, Tally}
use go_minimal_pbft.Consensus.Agreement.Knows.{
  Cast, IsCommit, Polka, IsOutvoted, IsOutvoted-mono, IsHeld, Knows,
}

module _ {B : Type 0} where
  Cast-in_front :
      (bound : ℕ) (m : Message B) (peer_id : Bytes) (log : List (MsgInfo B)) (v : Vote)
      → Ordered bound ((record { msg = m; peer_id = peer_id }) ∷ log)
      → Cast v (votes_in ((record { msg = m; peer_id = peer_id }) ∷ log))
      → ((b : ℕ) → Ordered b log → Cast v (votes_in log) → key v < b)
      → key v < bound
  Cast-in_front bound (proposal_message p) peer_id log v h c rest = rest bound h c
  Cast-in_front bound (sync_request r) peer_id log v h c rest = rest bound h c
  Cast-in_front bound (vote_message w) peer_id log v h c rest = elim c [
    | inl same ↦ subst (λ x. key x < bound) (sym same) h.0
    | inr old ↦ omega (arith, rest (key w) h.1 old, h.0)
  ]

  -- Every vote among the messages ranks below the bound.
  pub Cast-below :
      (bound : ℕ) (log : List (MsgInfo B)) (v : Vote)
      → Ordered bound log
      → Cast v (votes_in log)
      → key v < bound
  Cast-below bound [] v h c = elim c [ ]
  Cast-below bound (mi ∷ log) v h c =
      Cast-in_front bound mi.msg mi.peer_id log v h c (λ b. Cast-below b log v)

module _ (q : Validators) (V : Vote → Type 0) (e : Env) (tally : Tally q e.lib) where
  -- A change that casts nothing and stays at the height.
  pub Knows-change :
      (r r' : RoundState e) (log : List Vote)
      → r'.height ≡ r.height
      → ((v : Vote) → tally.Recorded r'.votes v → V v × (v.height ≡ r.height))
      → ((p : Vote)
          → Cast p log
          → IsCommit p
          → p.height ≡ r.height
          → IsHeld q V e tally p r
          → IsHeld q V e tally p r')
      → Knows q V e tally r log
      → Knows q V e tally r' log
  Knows-change r r' log same seen held k = record {
    recorded = λ v h. ((seen v h).0, (seen v h).1 ∙ sym same);
    nonneg = k.nonneg;
    polkas = k.polkas;
    held = λ p c is at. held p c is (at ∙ same) (k.held p c is (at ∙ same));
    prevoted = k.prevoted;
  }

  pub later-IsHeld :
      (p : Vote) (r r' : RoundState e)
      → r.round ≤ℤ r'.round
      → r'.locked_block ≡ r.locked_block
      → r'.locked_round ≡ r.locked_round
      → IsHeld q V e tally p r
      → IsHeld q V e tally p r'
  later-IsHeld p r r' le b x (inl l) = inl (rw (b, x) l)
  later-IsHeld p r r' le b x (inr o) = inr (IsOutvoted-mono q V p r.round r'.round le o)

  pub Knows-Quiet :
      (s t : State e)
      → Quiet e s t
      → Knows q V e tally s.rs (votes_in s.internal_msg_queue)
      → Knows q V e tally t.rs (votes_in t.internal_msg_queue)
  Knows-Quiet s t quiet k = subst (Knows q V e tally t.rs) (sym quiet.same_cast) (
      Knows-change s.rs t.rs (votes_in s.internal_msg_queue) quiet.same_height
        (λ v h. k.recorded v (subst (λ vs. tally.Recorded vs v) quiet.same_votes h))
        (λ p c is at held.
          later-IsHeld p s.rs t.rs quiet.round_le quiet.same_block quiet.same_round held)
        k)

  -- The polka that the prevotes of a round show.
  pub Polka-shown :
      (r : RoundState e) (log : List Vote) (round : ℤ) (h : Hash)
      → Knows q V e tally r log
      → e.two_thirds_majority (e.prevotes r.votes round) ≡ some h
      → Polka q V r.height round h
  Polka-shown r log round h k got =
      q.Quorum-mono _ _
        (λ a (v, seen, for). let (known, at) = k.recorded v seen in (v, known, at, for))
        (tally.prevotes-Quorum r.votes round h got)

  -- A later polka for something else outvotes a precommit.
  pub outvoted :
      (r : RoundState e) (log : List Vote) (round : ℤ) (h : Hash) (p : Vote)
      → Knows q V e tally r log
      → e.two_thirds_majority (e.prevotes r.votes round) ≡ some h
      → p.height ≡ r.height
      → p.round <ℤ round
      → round ≤ℤ r.round
      → h ≢ p.block_id
      → IsOutvoted q V p r.round
  outvoted r log round h p k got at lt le other = record {
    round = round;
    block_id = h;
    later = lt;
    not_ahead = le;
    other = other;
    polka = subst (λ n. Polka q V n round h) (sym at) (Polka-shown r log round h k got);
  }

  pub hash_differs :
      (b : Option e.Block) (g h : Hash) → e.hash_to b g ≡ true → e.hash_to b h ≡ false → h ≢ g
  hash_differs b g h yes_ no_ same = ground (arith, same, yes_, no_)

  pub Knows-unlock :
      (round : ℤ) (h : Hash) (r r' : RoundState e) (log : List Vote)
      → e.two_thirds_majority (e.prevotes r.votes round) ≡ some h
      → r.locked_round <ℤ round
      → round ≤ℤ r.round
      → e.hash_to r.locked_block h ≡ false
      → r'.height ≡ r.height
      → r'.votes ≡ r.votes
      → r'.round ≡ r.round
      → Knows q V e tally r log
      → Knows q V e tally r' log
  Knows-unlock round h r r' log got lt le other hs vs rs k =
      Knows-change r r' log hs (λ v g. k.recorded v (subst (λ x. tally.Recorded x v) vs g))
        (λ p c is at held. elim held [
          | inl l ↦
              let o =
                outvoted r log round h p k got at (omega (arith, l.1, lt)) le
                  (hash_differs r.locked_block p.block_id h l.0 other) in
              inr (subst (IsOutvoted q V p) (sym rs) o)
          | inr o ↦ inr (subst (IsOutvoted q V p) (sym rs) o)
        ])
        k
