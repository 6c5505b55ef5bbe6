-- ===== src/Consensus/Invariant.antt =====
-- What holds of the state between two events: the ranges of its numbers, the order of the votes
-- that it has signed, the age of its timeouts, and when a lock or a valid block is there.
use go_minimal_pbft.Prelude.{
  ℕ, suc, ◌+◌, ◌*◌, ◌≤◌, ◌<◌, ◌≡◌, Option, none, some, List, [], ◌∷◌, All, arith,
}
use go_minimal_pbft.Prelude.Int.{ℤ, pos, negsuc, pos_part, ◌≤ℤ◌, max_int32}
use go_minimal_pbft.Messages.{SignedMsgType, prevote_type, precommit_type, Vote, TimeoutInfo}
use go_minimal_pbft.ChainState.{next_height}
use go_minimal_pbft.Interfaces.{Env}
use go_minimal_pbft.Consensus.State.{proposal_message, vote_message, sync_request, MsgInfo, State}

-- A height, a round and a step as one number, in lexicographic order while the round is an int32.
abbrev pub rank_of : ℕ → ℤ → ℕ → ℕ
rank_of height round step = height * 68719476736 + pos_part round * 16 + step

-- The step in which a vote is signed.
abbrev pub step_of : SignedMsgType → ℕ
step_of prevote_type = 4
step_of precommit_type = 6
step_of _ = 0

abbrev pub key : Vote → ℕ
key v = rank_of v.height v.round (step_of v.msg_type)

-- The votes in a queue, newest first, have falling ranks below `bound`.
abbrev pub Ordered : {B : Type 0} → ℕ → List (MsgInfo B) → Type 0
Ordered bound [] = Unit
Ordered bound (mi ∷ log) = elim mi.msg [
  | vote_message v ↦ (key v < bound) × Ordered (key v) log
  | proposal_message p ↦ Ordered bound log
  | sync_request r ↦ Ordered bound log
]

-- The timeout was scheduled at this height and round or before.
abbrev pub IsPast : ℕ → ℤ → TimeoutInfo → Type 0
IsPast height round ti =
    (pos 0 ≤ℤ ti.round)
    × (ti.height * 4294967296 + pos_part ti.round ≤ height * 4294967296 + pos_part round)

-- A block and the round that it comes from are there together, and the round is not ahead.
abbrev pub Paired : {B : Type 0} → Option B → ℤ → ℤ → Type 0
Paired none of_block round = of_block ≡ negsuc 0
Paired (some b) of_block round = (pos 0 ≤ℤ of_block) × (of_block ≤ℤ round)

pub record Inv (e : Env) (s : State e) : Type 0 where
  pub round_nonneg : pos 0 ≤ℤ s.round
  pub round_max : s.round ≤ℤ max_int32
  pub step_le : s.step ≤ 8
  pub height_pos : 0 < s.height
  pub last_max : s.chain_state.last_block_height < 18446744073709551616
  pub height_next : s.height ≡ next_height e.lib s.chain_state
  pub lock_paired : Paired s.locked_block s.locked_round s.round
  pub valid_paired : Paired s.valid_block s.valid_round s.round
  pub ordered : Ordered (suc (rank_of s.height s.round s.step)) s.internal_msg_queue
  pub ticks_past : All (IsPast s.height s.round) s.tick_chan

pub Ordered-mono :
    {B : Type 0} (m n : ℕ) (log : List (MsgInfo B)) → m ≤ n → Ordered m log → Ordered n log
Ordered-mono m n [] le h = tt
Ordered-mono m n (mi ∷ log) le h = ground (arith, Ordered-mono m n log le)

pub IsPast-mono :
    (h h' : ℕ) (r r' : ℤ) (tis : List TimeoutInfo)
    → h * 4294967296 + pos_part r ≤ h' * 4294967296 + pos_part r'
    → All (IsPast h r) tis
    → All (IsPast h' r') tis
IsPast-mono h h' r r' [] le past = tt
IsPast-mono h h' r r' (ti ∷ tis) le past = ground (arith, IsPast-mono h h' r r' tis le past.1)

pub Paired-mono : {B : Type 0} (b : Option B) (x r r' : ℤ) → r ≤ℤ r' → Paired b x r → Paired b x r'
Paired-mono none x r r' le h = h
Paired-mono (some b) x r r' le h = ground arith
