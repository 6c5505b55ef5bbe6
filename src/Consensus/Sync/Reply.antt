-- ===== src/Consensus/Sync/Reply.antt =====
-- consensus/consensus_state.go: what a peer at the same height gets from `processSyncRequest`, and
-- what `checkDoubleSigningRisk` finds.
use mathlib.Core.List.{Memᴰ}
use mathlib.Core.List.Memᴰ.{append_left, append_right}
use go_minimal_pbft.Prelude.{
  ℕ, zero, suc, ◌+◌, ◌-◌, ◌<◌, ◌≤◌, ◌≡◌, ◌≢◌, refl, sym, subst, ◌⊎◌, inl, inr, Bool, true, false,
  Option, none, some, List, [], ◌∷◌, ltb, ◌==◌, if◌then◌else◌, arith, ap, ◌∙◌,
}
use go_minimal_pbft.Prelude.Int.{pos, wrap_int32, to_u32}
use go_minimal_pbft.Messages.{Address, flag_commit, CommitSig, ConsensusSyncRequest}
use go_minimal_pbft.Interfaces.{Env}
use go_minimal_pbft.Consensus.State.{State}
use go_minimal_pbft.Consensus.Sync.{
  SyncReply, vote_reply, is_new, diff_votes, append_diff_votes, present_reply, process_sync_request,
  seen_or, is_signed_by, commit_signed_by, load_commit, signed_before, look_back,
  check_double_signing_risk,
}

kept :
    {A : Type 0} {a : A} (b : Bool) (x : A) (xs : List A)
    → Memᴰ a xs
    → Memᴰ a (if b then x ∷ xs else xs)
kept true x xs m = Memᴰ.tail m
kept false x xs m = m

eq_or_less : (i j : ℕ) → i ≤ j → (i ≡ j) ⊎ (suc i ≤ j)
eq_or_less i j le = ground arith

not_less : (a b : ℕ) → b ≤ a → ltb a b ≡ false
not_less a b le = ground arith

module _ (e : Env) where
  diff_votes-first :
      (vs : Option e.VoteSet) (has : ℕ → Bool) (i left : ℕ)
      → is_new e vs has i ≡ true
      → Memᴰ (vote_reply (e.get_by_index vs i)) (diff_votes e vs has i (suc left))
  unfolding diff_votes
  diff_votes-first vs has i left new = rw new (Memᴰ.head refl)

  diff_votes-complete :
      (vs : Option e.VoteSet) (has : ℕ → Bool) (i left j : ℕ)
      → i ≤ j
      → j < i + left
      → is_new e vs has j ≡ true
      → Memᴰ (vote_reply (e.get_by_index vs j)) (diff_votes e vs has i left)
  unfolding diff_votes
  diff_votes-complete vs has i zero j le lt new = ground arith
  diff_votes-complete vs has i (suc left) j le lt new = elim (eq_or_less i j le) [
    | inl at ↦
        subst (λ k. Memᴰ (vote_reply (e.get_by_index vs j)) (diff_votes e vs has k (suc left)))
          (sym at) (diff_votes-first vs has j left new)
    | inr past ↦
        kept (is_new e vs has i) (vote_reply (e.get_by_index vs i))
          (diff_votes e vs has (suc i) left)
          (diff_votes-complete vs has (suc i) left j past (omega arith) new)
  ]

  append_diff_votes-complete :
      (vs : Option e.VoteSet) (bitmap : List ℕ) (msgs : List (SyncReply e.Block)) (size : ℕ)
      (has : ℕ → Bool) (j : ℕ)
      → bitmap ≢ []
      → e.new_bit_array (e.vote_set_size vs) bitmap ≡ some (size, has)
      → j < size
      → is_new e vs has j ≡ true
      → Memᴰ (vote_reply (e.get_by_index vs j)) (append_diff_votes e vs bitmap msgs)
  unfolding append_diff_votes
  append_diff_votes-complete vs [] msgs size has j full bits lt new = elim (full refl) [ ]
  append_diff_votes-complete vs (w ∷ ws) msgs size has j full bits lt new = rw bits (
      append_right msgs (diff_votes-complete vs has 0 size j (omega arith) (omega (arith, lt)) new))

  append_diff_votes-keeps :
      {m : SyncReply e.Block} (vs : Option e.VoteSet) (bitmap : List ℕ)
      (msgs : List (SyncReply e.Block))
      → Memᴰ m msgs
      → Memᴰ m (append_diff_votes e vs bitmap msgs)
  unfolding append_diff_votes
  append_diff_votes-keeps vs [] msgs m = m
  append_diff_votes-keeps vs (w ∷ ws) msgs m = append_left _ m

  -- A peer at the same height, which is not below the initial one, asks for a round that is not
  -- ahead, with a prevote bitmap that is not empty and that the library reads as the bits `has`.
  -- Then the answer holds every prevote of that round that the node has and the bitmap leaves
  -- out.
  pub process_sync_request-complete :
      (csq : ConsensusSyncRequest) (s : State e) (size : ℕ) (has : ℕ → Bool) (j : ℕ)
      → csq.height ≡ s.height
      → s.chain_state.initial_height ≤ s.height
      → csq.round ≤ to_u32 s.round
      → csq.prevotes_bitmap ≢ []
      → e.new_bit_array
          (e.vote_set_size (e.prevotes s.votes (wrap_int32 (pos csq.round))))
          csq.prevotes_bitmap
        ≡ some (size, has)
      → j < size
      → is_new e (e.prevotes s.votes (wrap_int32 (pos csq.round))) has j ≡ true
      → Memᴰ
          (vote_reply (e.get_by_index (e.prevotes s.votes (wrap_int32 (pos csq.round))) j))
          (process_sync_request e csq s)
  unfolding process_sync_request present_reply
  process_sync_request-complete csq s size has j at initial le full bits lt new =
      rw
        (
          not_less csq.height s.chain_state.initial_height (omega (arith, at, initial)),
          not_less csq.height s.height (omega (arith, at)),
          not_less s.height csq.height (omega (arith, at)),
          not_less (to_u32 s.round) csq.round le,
        )
        (append_diff_votes-keeps _ csq.precommits_bitmap _
          (append_diff_votes-complete _ csq.prevotes_bitmap _ size has j full bits lt new))

  signed_before-none :
      (addr : Address) (height : ℕ) (s : State e) (i left j : ℕ)
      → signed_before e addr height s i left ≡ false
      → i ≤ j
      → j < i + left
      → commit_signed_by e addr (load_commit e (height - j) s) ≡ false
  unfolding signed_before
  signed_before-none addr height s i zero j quiet le lt = ground arith
  signed_before-none addr height s i (suc left) j quiet le lt = elim (eq_or_less i j le) [
    | inl at ↦
        subst (λ k. commit_signed_by e addr (load_commit e (height - k) s) ≡ false) at
          (ground (arith, quiet))
    | inr past ↦
        signed_before-none addr height s (suc i) left j (ground (arith, quiet)) past (omega arith)
  ]

  -- The commit that a node keeps for a height: below the store's height the one of the block that
  -- follows, and at that height the seen commit if it is for it.
  pub data IsStoredCommit (s : State e) (h : ℕ) (c : e.Commit) : Type 0 where
    of_block :
        h ≢ e.store_height s.block_store
        → e.load_block_commit s.block_store h ≡ some c
        → IsStoredCommit s h c
    seen :
        h ≡ e.store_height s.block_store
        → e.load_seen_commit s.block_store ≡ some c
        → e.commit_height c ≡ h
        → IsStoredCommit s h c
    not_seen :
        h ≡ e.store_height s.block_store
        → ((d : e.Commit) → e.load_seen_commit s.block_store ≡ some d → e.commit_height d ≢ h)
        → e.load_block_commit s.block_store h ≡ some c
        → IsStoredCommit s h c

  at_top :
      (s : State e) (h : ℕ)
      → h ≡ e.store_height s.block_store
      → (h == e.store_height s.block_store) ≡ true
  at_top s h at = ground (arith, at)

  past_seen :
      (h : ℕ) (o : Option e.Commit) (c : e.Commit) {other : Option e.Commit}
      → ((d : e.Commit) → o ≡ some d → e.commit_height d ≢ h)
      → seen_or e h o other ≡ other
  past_seen h none c unlike = refl
  past_seen h (some d) c unlike = ground (arith, unlike d refl)

  IsStoredCommit-load :
      (s : State e) (h : ℕ) (c : e.Commit) → IsStoredCommit s h c → load_commit e h s ≡ some c
  unfolding load_commit
  IsStoredCommit-load s h c (of_block other load) = ground (arith, other, load)
  IsStoredCommit-load s h c (seen at load is) = ground (arith, at, load, is)
  IsStoredCommit-load s h c (not_seen at load other) =
      rw (at_top s h at) (past_seen h (e.load_seen_commit s.block_store) c load ∙ other)

  -- The signature is for a block, and of the validator with the address.
  pub record IsVoteBy (addr : Address) (sig : CommitSig) : Type 0 where
    pub for_block : sig.block_id_flag ≡ flag_commit
    pub by : sig.validator_address ≡ addr

  is_signed_by_complete :
      (addr : Address) (sig : CommitSig) (sigs : List CommitSig)
      → Memᴰ sig sigs
      → IsVoteBy addr sig
      → is_signed_by e addr sigs ≡ true
  unfolding is_signed_by
  is_signed_by_complete addr sig [] m is = elim m [ ]
  is_signed_by_complete addr sig (c ∷ cs) (Memᴰ.head same) is =
      let flag : c.block_id_flag ≡ flag_commit =
        ap (λ x. x.block_id_flag) (sym same) ∙ is.for_block in
      let by : c.validator_address ≡ addr = ap (λ x. x.validator_address) (sym same) ∙ is.by in
      rw (flag, by) (ground arith)
  is_signed_by_complete addr sig (c ∷ cs) (Memᴰ.tail m) is =
      let rest = is_signed_by_complete addr sig cs m is in ground (arith, rest)

  -- Where a node with a key looks back from a height and finds no risk: among the signatures of a
  -- commit that it keeps for a height less than `DoubleSignCheckHeight` below there is none for a
  -- block by the node.
  pub check_double_signing_risk-none :
      (height : ℕ) (s : State e) (pv : e.PrivValidator) (key : e.PubKey) (i : ℕ) (c : e.Commit)
      (sig : CommitSig)
      → s.priv_validator ≡ some pv
      → s.priv_validator_pub_key ≡ some key
      → check_double_signing_risk e height s ≡ none
      → 1 ≤ i
      → i < height
      → i < e.double_sign_check_height
      → IsStoredCommit s (height - i) c
      → Memᴰ sig (e.signatures c)
      → ¬ (IsVoteBy (e.key_address key) sig)
  unfolding check_double_signing_risk
  check_double_signing_risk-none height s pv key i c sig has_pv has_key quiet le lt lt' stored mem
        is =
      let unsigned =
        signed_before-none (e.key_address key) height s 1 (look_back e height - 1) i
          (ground (arith, has_pv, has_key, quiet, le, lt, lt')) le (ground (arith, le, lt, lt')) in
      let signed : commit_signed_by e (e.key_address key) (load_commit e (height - i) s) ≡ true =
        rw (IsStoredCommit-load s (height - i) c stored)
          (is_signed_by_complete (e.key_address key) sig (e.signatures c) mem is) in
      ground (arith, sym signed ∙ unsigned)
