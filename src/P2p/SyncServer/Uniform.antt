-- ===== src/P2p/SyncServer/Uniform.antt =====
-- consensus/consensus_state.go, `processSyncRequest`, for p2p/p2p.go: a reply is one block, or messages.
use go_minimal_pbft.Prelude.{
  ℕ, zero, suc, ◌≡◌, refl, ◌⊎◌, inl, inr, Bool, true, false, Option, none, some, List, [], ◌∷◌,
  ◌++◌, All, ltb, ◌||◌, ◌==◌, if◌then◌else◌, Bool-cases, arith,
}
use go_minimal_pbft.Prelude.Int.{to_u32}
use go_minimal_pbft.Messages.{Vote, Proposal, ConsensusSyncRequest}
use go_minimal_pbft.Interfaces.{Env}
use go_minimal_pbft.Consensus.State.{State}
use go_minimal_pbft.Consensus.Sync.{
  SyncReply, full_block, vote_reply, is_new, diff_votes, diff_with, append_diff_votes, commit_votes,
  proposal_for, past_reply, present_reply, process_sync_request,
}

module _ {B : Type 0} where
  abbrev pub IsMessage : SyncReply B → Type 0
  IsMessage (full_block b) = ⊥
  IsMessage _ = Unit

  -- One block, or messages.
  abbrev pub IsUniform : List (SyncReply B) → Type 0
  IsUniform ms = ((b : Option B) × (ms ≡ full_block b ∷ [])) ⊎ All IsMessage ms

module _ (e : Env) where
  All-append :
      (ms ns : List (SyncReply e.Block))
      → All IsMessage ms
      → All IsMessage ns
      → All IsMessage (ms ++ ns)
  All-append [] ns hm hn = hn
  All-append (m ∷ ms) ns hm hn = (hm.0, All-append ms ns hm.1 hn)

  if_vote :
      (b : Bool) (v : Vote) (ms : List (SyncReply e.Block))
      → All IsMessage ms
      → All IsMessage (if b then vote_reply v ∷ ms else ms)
  if_vote true v ms h = (tt, h)
  if_vote false v ms h = h

  diff_votes-IsMessage :
      (vs : Option e.VoteSet) (has : ℕ → Bool) (i left : ℕ)
      → All IsMessage (diff_votes e vs has i left)
  unfolding diff_votes
  diff_votes-IsMessage vs has i zero = tt
  diff_votes-IsMessage vs has i (suc left) =
      if_vote (is_new e vs has i) (e.get_by_index vs i) (diff_votes e vs has (suc i) left)
        (diff_votes-IsMessage vs has (suc i) left)

  commit_votes-IsMessage :
      (c : Option e.Commit) (i left : ℕ) → All IsMessage (commit_votes e c i left)
  unfolding commit_votes
  commit_votes-IsMessage c i zero = tt
  commit_votes-IsMessage c i (suc left) =
      if_vote (e.commit_bit c i) (e.get_vote c i) (commit_votes e c (suc i) left)
        (commit_votes-IsMessage c (suc i) left)

  diff_with-IsMessage :
      (vs : Option e.VoteSet) (o : Option (ℕ × (ℕ → Bool))) → All IsMessage (diff_with e vs o)
  unfolding diff_with
  diff_with-IsMessage vs none = tt
  diff_with-IsMessage vs (some (size, has)) = diff_votes-IsMessage vs has 0 size

  append_diff_votes-IsMessage :
      (vs : Option e.VoteSet) (bitmap : List ℕ) (ms : List (SyncReply e.Block))
      → All IsMessage ms
      → All IsMessage (append_diff_votes e vs bitmap ms)
  unfolding append_diff_votes
  append_diff_votes-IsMessage vs [] ms h = h
  append_diff_votes-IsMessage vs (w ∷ ws) ms h =
      All-append ms _ h (diff_with-IsMessage vs (e.new_bit_array (e.vote_set_size vs) (w ∷ ws)))

  proposal_for-IsMessage :
      (n : ℕ) (o : Option (Proposal e.Block)) → All IsMessage (proposal_for e n o)
  proposal_for-IsMessage n none = tt
  proposal_for-IsMessage n (some p) = ground arith

  present_reply-IsMessage :
      (csq : ConsensusSyncRequest) (s : State e) → All IsMessage (present_reply e csq s)
  unfolding present_reply
  present_reply-IsMessage csq s = append_diff_votes-IsMessage _ csq.precommits_bitmap _ (
      append_diff_votes-IsMessage _ csq.prevotes_bitmap _
        (proposal_for-IsMessage csq.has_proposal s.proposal))

  past_reply-IsUniform : (csq : ConsensusSyncRequest) (s : State e) → IsUniform (past_reply e csq s)
  unfolding past_reply
  past_reply-IsUniform csq s = elim (Bool-cases (csq.has_proposal == 0)) [
    | inl block ↦ rw block (inl (_, refl))
    | inr votes ↦ rw votes (inr (commit_votes-IsMessage _ 0 _))
  ]

  pub process_sync_request-IsUniform :
      (csq : ConsensusSyncRequest) (s : State e) → IsUniform (process_sync_request e csq s)
  unfolding process_sync_request
  process_sync_request-IsUniform csq s =
      elim (Bool-cases (ltb csq.height s.chain_state.initial_height)) [
        | inl early ↦ rw early (inr tt)
        | inr late ↦ rw late (elim (Bool-cases (ltb csq.height s.height)) [
          | inl past ↦ rw past (past_reply-IsUniform csq s)
          | inr now ↦
              rw now
                (elim (Bool-cases (ltb s.height csq.height || ltb (to_u32 s.round) csq.round)) [
                  | inl ahead ↦ rw ahead (inr tt)
                  | inr here ↦ rw here (inr (present_reply-IsMessage csq s))
                ])
        ])
      ]
