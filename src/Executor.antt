-- ===== src/Executor.antt =====
-- consensus/default_block_executor.go: `validateBlock` with `MedianTime`, `updateState` and
-- `ApplyBlock`, and `MakeBlock` of consensus/chain_state.go. The implementation of `BlockExecutor`.
pub mod Laws
pub mod Median
pub mod Order
use go_minimal_pbft.Prelude.{
  ℕ, ◌+◌, ◌/◌, ◌%◌, Bool, true, false, not, ◌&&◌, ◌||◌, Option, none, some, List, [], ◌∷◌, length,
  ltb, leb, ◌==◌, u64, if◌then◌else◌,
}
use go_minimal_pbft.Prelude.Int.{ℤ, pos, negsuc, ◌+ℤ◌, ◌-ℤ◌, leb_ℤ, neg_half, wrap_int64}
use go_minimal_pbft.Messages.{Address, CommitSig}
use go_minimal_pbft.Library.{Library, Validator}
use go_minimal_pbft.ChainState.{ChainState}

pub record WeightedTime : Type 0 where
  pub time_ms : ℕ
  pub weight : ℤ

-- `totalVotingPower / 2`, which rounds towards 0.
abbrev pub half : ℤ → ℤ
half (pos n) = pos (n / 2)
half (negsuc n) = neg_half n

-- `sort.Slice` by time.
abbrev pub insert : WeightedTime → List WeightedTime → List WeightedTime
insert w [] = w ∷ []
insert w (v ∷ vs) =
    let rest = insert w vs in if ltb v.time_ms w.time_ms then v ∷ rest else w ∷ v ∷ vs

abbrev pub sort : List WeightedTime → List WeightedTime
sort [] = []
sort (w ∷ ws) = insert w (sort ws)

-- The loop over the sorted times; the result stays 0 where it ends.
unfoldable pub pick : ℤ → List WeightedTime → ℕ
pick median [] = 0
pick median (w ∷ ws) =
    let rest = pick (wrap_int64 (median -ℤ w.weight)) ws in
    if leb_ℤ median w.weight then w.time_ms else rest

-- `weightedMedian`; the nil entries, which come last and are skipped, are left out.
unfoldable pub weighted_median : List WeightedTime → ℤ → ℕ
unfolding pick
weighted_median ws total = pick (half total) (sort ws)

unfoldable pub total_power : ℤ → List WeightedTime → ℤ
total_power total [] = total
total_power total (w ∷ ws) = total_power (wrap_int64 (total +ℤ w.weight)) ws

module _ (x : Library) where
  abbrev counted : CommitSig → Option (Validator x.PubKey) → List WeightedTime → List WeightedTime
  counted sig none ws = ws
  counted sig (some v) ws = record { time_ms = sig.timestamp_ms; weight = v.voting_power } ∷ ws

  unfoldable pub weighted_times : Option x.ValidatorSet → List CommitSig → List WeightedTime
  weighted_times vals [] = []
  weighted_times vals (sig ∷ sigs) =
      let rest = weighted_times vals sigs in
      if x.absent sig
      then rest
      else counted sig (x.get_by_address vals sig.validator_address).1 rest

  unfoldable pub median_time : x.Commit → Option x.ValidatorSet → ℕ
  unfolding weighted_times weighted_median total_power
  median_time commit vals =
      let ws = weighted_times vals (x.signatures commit) in
      weighted_median ws (total_power (pos 0) ws)

  abbrev is_empty_list : {A : Type 0} → List A → Bool
  is_empty_list [] = true
  is_empty_list (a ∷ rest) = false

  abbrev right_height : ChainState x → x.Block → Bool
  right_height state block =
      not (state.last_block_height == 0 && not (x.number block == state.initial_height))
      && not (
          ltb 0 state.last_block_height
          && not (x.number block == u64 (state.last_block_height + 1)))

  -- The initial block has no signatures in its last commit; any other block's last commit verifies.
  abbrev right_last_commit : ChainState x → x.Block → Bool
  right_last_commit state block =
      if x.number block == state.initial_height
      then is_empty_list (x.signatures (x.last_commit block))
      else x.verify_commit state.last_validators state.chain_id state.last_block_id
          (u64 (x.number block + 18446744073709551615)) (x.last_commit block)

  abbrev right_epoch : ChainState x → x.Block → Bool
  right_epoch state block =
      x.number block % state.epoch == 0 || is_empty_list (x.next_validators block)

  abbrev right_time : ChainState x → x.Block → Bool
  unfolding median_time
  right_time state block =
      if ltb state.initial_height (x.number block)
      then ltb state.last_block_time (x.time_ms block)
        && x.time_ms block == median_time (x.last_commit block) state.last_validators
      else x.number block == state.initial_height && x.time_ms block == state.last_block_time

  -- `true` where `validateBlock` returns nil. It is called with an epoch that is not 0, by which the
  -- code divides.
  unfoldable pub validate_block : ChainState x → x.Block → Bool
  unfolding median_time
  validate_block state block =
      right_height state block
      && x.parent_hash block == state.last_block_id
      && right_last_commit state block
      && right_epoch state block
      && x.has_address state.validators (x.coinbase block)
      && x.time_ms block / 1000 == x.time block
      && right_time state block

  -- `updateState` as `ApplyBlock` calls it, with no new validators.
  unfoldable pub update_state : ChainState x → x.Block → ChainState x
  update_state state block = record {
    chain_id = state.chain_id;
    initial_height = state.initial_height;
    last_block_height = x.number block;
    last_block_id = x.hash block;
    last_block_time = x.time_ms block;
    validators = x.increment_proposer_priority (pos 1) state.validators;
    last_validators = state.validators;
    last_height_validators_changed = pos 0;
    epoch = state.epoch;
    app_hash = [];
  }

  unfoldable pub apply_block : ChainState x → x.Block → Option (ChainState x)
  unfolding update_state
  apply_block state block = some (update_state state block)

  abbrev timestamp_for : ChainState x → ℕ → x.Commit → ℕ
  unfolding median_time
  timestamp_for state height commit =
      if height == state.initial_height
      then state.last_block_time
      else median_time commit state.last_validators

  unfoldable pub make_block : ChainState x → ℕ → x.Commit → Address → Option x.Block
  unfolding median_time
  make_block state height commit proposer_address = some (
      x.new_block state.chain_id state.last_block_id height (timestamp_for state height commit)
        proposer_address commit)
