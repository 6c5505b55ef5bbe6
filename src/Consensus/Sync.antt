-- ===== src/Consensus/Sync.antt =====
-- consensus/consensus_state.go: what nodes that are behind ask for and get, `createSyncRequest` and
-- `processSyncRequest`, and what is read from the block store, `LoadCommit`, `reconstructLastCommit`
-- and `checkDoubleSigningRisk`.
pub mod Reply
use go_minimal_pbft.Prelude.{
  ℕ, zero, suc, ◌-◌, Bool, true, false, not, ◌&&◌, ◌||◌, Option, none, some, List, [], ◌∷◌, ◌++◌,
  ltb, leb, ◌==◌, is_some, if◌then◌else◌,
}
use go_minimal_pbft.Prelude.Int.{ℤ, pos, negsuc, eqb_ℤ, wrap_int32, to_u32}
use go_minimal_pbft.Messages.{
  Address, BlockIdFlag, flag_commit, flag_absent, other_flag, CommitSig, Vote, Proposal,
  ConsensusSyncRequest, Error, Panic, signature_found_in_past_blocks, library_panic, nil_pointer,
}
use go_minimal_pbft.ChainState.{ChainState}
use go_minimal_pbft.Interfaces.{Env}
use go_minimal_pbft.Consensus.Monad.{ok, modify, pure, throw, or_panic, ◌>>=◌, ◌>>◌}
use go_minimal_pbft.Consensus.State.{sync_request, State, Action, modify_rs, is_proposal_complete}

-- A message of the answer to a sync request.
pub data SyncReply (B : Type 0) : Type 0 where
  full_block : Option B → SyncReply B
  proposal_reply : Proposal B → SyncReply B
  vote_reply : Vote → SyncReply B

module _ (e : Env) where
  -- A proposal that waits for the prevotes of its `POLRound`.
  abbrev pub waits_for_polka : State e → Bool
  waits_for_polka s = elim s.proposal [
    | none ↦ false
    | some p ↦ not (eqb_ℤ p.pol_round (negsuc 0)) && not (is_proposal_complete e s)
  ]

  unfoldable pub sync_round : State e → ℤ
  sync_round s = if waits_for_polka s then s.locked_round else s.round

  unfoldable pub create_sync_request : Action e ConsensusSyncRequest
  unfolding sync_round
  create_sync_request s =
      let round = sync_round s in
      (do
        prevotes ← or_panic nil_pointer (e.vote_set_bits (e.prevotes s.votes round))
        precommits ← or_panic nil_pointer (e.vote_set_bits (e.precommits s.votes round))
        pure (record {
          height = s.height;
          round = to_u32 round;
          has_proposal = if is_some s.proposal then 1 else 0;
          prevotes_bitmap = prevotes;
          precommits_bitmap = precommits;
        }))
        s

  -- A vote that is there, at an index where the peer has none.
  abbrev pub is_new : Option e.VoteSet → (ℕ → Bool) → ℕ → Bool
  is_new vs has i = not (has i) && e.vote_set_bit vs i

  -- The loop over the indices from `i` on, with `left` of them to come.
  unfoldable pub diff_votes : Option e.VoteSet → (ℕ → Bool) → ℕ → ℕ → List (SyncReply e.Block)
  diff_votes vs has i zero = []
  diff_votes vs has i (suc left) =
      let rest = diff_votes vs has (suc i) left in
      if is_new vs has i then vote_reply (e.get_by_index vs i) ∷ rest else rest

  -- What `NewBitArrayFromUint64` returned.
  unfoldable pub diff_with : Option e.VoteSet → Option (ℕ × (ℕ → Bool)) → List (SyncReply e.Block)
  unfolding diff_votes
  diff_with vs none = []
  diff_with vs (some (size, has)) = diff_votes vs has 0 size

  unfoldable pub append_diff_votes :
      Option e.VoteSet → List ℕ → List (SyncReply e.Block) → List (SyncReply e.Block)
  unfolding diff_with
  append_diff_votes vs [] msgs = msgs
  append_diff_votes vs (w ∷ ws) msgs =
      msgs ++ diff_with vs (e.new_bit_array (e.vote_set_size vs) (w ∷ ws))

  unfoldable pub commit_votes : Option e.Commit → ℕ → ℕ → List (SyncReply e.Block)
  commit_votes commit i zero = []
  commit_votes commit i (suc left) =
      let rest = commit_votes commit (suc i) left in
      if e.commit_bit commit i then vote_reply (e.get_vote commit i) ∷ rest else rest

  -- A peer at a past height gets the block, or the precommits where it has the proposal. What
  -- `WithCommit` does on a nil block is the library's, without a panic.
  unfoldable pub past_reply : ConsensusSyncRequest → State e → List (SyncReply e.Block)
  unfolding commit_votes
  past_reply csq s =
      let commit = e.load_block_commit s.block_store csq.height in
      if csq.has_proposal == 0
      then full_block (e.with_commit (e.load_block s.block_store csq.height) commit) ∷ []
      else commit_votes commit 0 (e.commit_size commit)

  abbrev pub proposal_for : ℕ → Option (Proposal e.Block) → List (SyncReply e.Block)
  proposal_for has_proposal none = []
  proposal_for has_proposal (some p) = if has_proposal == 0 then proposal_reply p ∷ [] else []

  unfoldable pub present_reply : ConsensusSyncRequest → State e → List (SyncReply e.Block)
  unfolding append_diff_votes
  present_reply csq s =
      let round = wrap_int32 (pos csq.round) in
      append_diff_votes (e.precommits s.votes round) csq.precommits_bitmap (
        append_diff_votes (e.prevotes s.votes round) csq.prevotes_bitmap
          (proposal_for csq.has_proposal s.proposal))

  unfoldable pub process_sync_request : ConsensusSyncRequest → State e → List (SyncReply e.Block)
  unfolding past_reply present_reply
  process_sync_request csq s =
      if ltb csq.height s.chain_state.initial_height
      then []
      else if ltb csq.height s.height
      then past_reply csq s
      else if ltb s.height csq.height || ltb (to_u32 s.round) csq.round
      then []
      else present_reply csq s

  abbrev pub seen_or : ℕ → Option e.Commit → Option e.Commit → Option e.Commit
  seen_or height none other = other
  seen_or height (some c) other = if e.commit_height c == height then some c else other

  unfoldable pub load_commit : ℕ → State e → Option e.Commit
  load_commit height s =
      if height == e.store_height s.block_store
      then seen_or height (e.load_seen_commit s.block_store)
          (e.load_block_commit s.block_store height)
      else e.load_block_commit s.block_store height

  abbrev is_commit_flag : BlockIdFlag → Bool
  is_commit_flag flag_commit = true
  is_commit_flag _ = false

  unfoldable pub is_signed_by : Address → List CommitSig → Bool
  is_signed_by addr [] = false
  is_signed_by addr (c ∷ cs) =
      let rest = is_signed_by addr cs in
      if is_commit_flag c.block_id_flag && c.validator_address == addr then true else rest

  abbrev pub commit_signed_by : Address → Option e.Commit → Bool
  unfolding is_signed_by
  commit_signed_by addr none = false
  commit_signed_by addr (some c) = is_signed_by addr (e.signatures c)

  -- The loop from `i` on, with `left` heights to come.
  unfoldable pub signed_before : Address → ℕ → State e → ℕ → ℕ → Bool
  unfolding load_commit is_signed_by
  signed_before addr height s i zero = false
  signed_before addr height s i (suc left) =
      let rest = signed_before addr height s (suc i) left in
      if commit_signed_by addr (load_commit (height - i) s) then true else rest

  abbrev pub look_back : ℕ → ℕ
  look_back height =
      if ltb height e.double_sign_check_height then height else e.double_sign_check_height

  unfoldable pub check_double_signing_risk : ℕ → State e → Option Error
  unfolding signed_before
  check_double_signing_risk height s = elim s.priv_validator [
    | none ↦ none
    | some _ ↦ elim s.priv_validator_pub_key [
      | none ↦ none
      | some key ↦
          if ltb 0 e.double_sign_check_height
            && ltb 0 height
            && signed_before (e.key_address key) height s 1 (look_back height - 1)
          then some signature_found_in_past_blocks
          else none
    ]
  ]

  abbrev pub set_last_commit : ChainState e.lib → Option e.Commit → Action e (Unit {0})
  set_last_commit state none = throw library_panic
  set_last_commit state (some c) =
      modify_rs e (λ r. record r {
        last_commit = e.commit_to_vote_set state.chain_id c state.last_validators;
      })

  unfoldable pub reconstruct_last_commit : ChainState e.lib → Action e (Unit {0})
  reconstruct_last_commit state s =
      let height = state.last_block_height in
      set_last_commit state
        (seen_or height (e.load_seen_commit s.block_store)
          (e.load_block_commit s.block_store height))
        s
