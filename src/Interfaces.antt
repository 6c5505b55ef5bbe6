-- ===== src/Interfaces.antt =====
-- The interfaces that package consensus is written against: `BlockExecutor` and `BlockStore` of
-- consensus/consensus_state.go and `PrivValidator` of consensus/priv_validator_local.go, with the
-- laws that the state machine relies on, the configuration and the clock.
use go_minimal_pbft.Prelude.{ℕ, ◌≡◌, Bool, true, Option, some}
use go_minimal_pbft.Prelude.Int.{ℤ}
use go_minimal_pbft.Messages.{Address, ChainId, Vote, Proposal}
use go_minimal_pbft.Library.{Library}
use go_minimal_pbft.ChainState.{ChainState, next_height}

-- `validate` is true where `ValidateBlock` returns no error, and `apply` is `none` where
-- `ApplyBlock` returns one.
pub record BlockExecutor (x : Library) : Type 0 where
  pub validate : ChainState x → x.Block → Bool
  pub apply : ChainState x → x.Block → Option (ChainState x)
  pub make_block : ChainState x → ℕ → x.Commit → Address → Option x.Block
  pub validate-number :
      (s : ChainState x) (b : x.Block) → validate s b ≡ true → x.number b ≡ next_height x s
  pub apply-height :
      (s t : ChainState x) (b : x.Block) → apply s b ≡ some t → t.last_block_height ≡ x.number b

-- `save_block` is `none` where `SaveBlock` panics.
pub record BlockStore (x : Library) : Type 1 where
  pub Store : Type 0
  pub store_height : Store → ℕ
  pub save_block : x.Block → x.Commit → Store → Option Store
  pub load_block : Store → ℕ → Option x.Block
  pub load_block_commit : Store → ℕ → Option x.Commit
  pub load_seen_commit : Store → Option x.Commit

-- A signer gets the time left for the call and the clock's reading, and returns what it signed
-- with `true` where there is no error. It signs the vote that it is given.
pub record Signer (x : Library) : Type 1 where
  pub PrivValidator : Type 0
  pub get_pub_key : PrivValidator → ℤ → Option x.PubKey
  pub sign_vote : PrivValidator → ChainId → ℤ → ℕ → Vote → Vote × Bool
  pub sign_proposal : PrivValidator → ChainId → ℤ → Proposal x.Block → Proposal x.Block × Bool
  pub sign_vote-height :
      (p : PrivValidator) (c : ChainId) (d : ℤ) (n : ℕ) (v : Vote)
      → Vote.height (sign_vote p c d n v).0 ≡ v.height
  pub sign_vote-round :
      (p : PrivValidator) (c : ChainId) (d : ℤ) (n : ℕ) (v : Vote)
      → Vote.round (sign_vote p c d n v).0 ≡ v.round
  pub sign_vote-msg_type :
      (p : PrivValidator) (c : ChainId) (d : ℤ) (n : ℕ) (v : Vote)
      → Vote.msg_type (sign_vote p c d n v).0 ≡ v.msg_type
  pub sign_vote-block_id :
      (p : PrivValidator) (c : ChainId) (d : ℤ) (n : ℕ) (v : Vote)
      → Vote.block_id (sign_vote p c d n v).0 ≡ v.block_id

-- `params.ConsensusConfig`. A time is a number of nanoseconds, and 0 is the zero time.
pub record Config : Type 0 where
  pub propose_timeout : ℤ → ℤ
  pub prevote_timeout : ℤ → ℤ
  pub precommit_timeout : ℤ → ℤ
  pub commit_time_after : ℕ → ℕ
  pub timeout_propose : ℤ
  pub timeout_prevote : ℤ
  pub timeout_precommit : ℤ
  pub skip_timeout_commit : Bool
  pub double_sign_check_height : ℕ

pub record Env : Type 1 where
  pub lib : Library
  pub open lib use *
  pub executor : BlockExecutor lib
  pub open executor use *
  pub store : BlockStore lib
  pub open store use *
  pub signer : Signer lib
  pub open signer use *
  pub config : Config
  pub open config use *
  -- What the clock shows when it is read for the n-th time.
  pub clock : ℕ → ℕ
