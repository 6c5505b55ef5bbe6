-- ===== src/Tests/Witnesses.antt =====
-- The theorems, applied to the network of one validator.
use go_minimal_pbft.Prelude.{
  ◌≤◌, List, ◌++◌, ℕ, ◌≡◌, refl, ◌⊎◌, true, false, some, [], ◌∷◌, if◌then◌else◌, arith, sym,
}
use go_minimal_pbft.Prelude.Int.{pos, negsuc, ◌+ℤ◌, ◌-ℤ◌, wrap_int32}
use go_minimal_pbft.RoundStep
use go_minimal_pbft.Messages.{
  TimeoutInfo, ConsensusSyncRequest, Proposal, prevote_type, other_flag, CommitSig,
}
use go_minimal_pbft.Consensus.Signing.{set_priv_validator}
use go_minimal_pbft.SafeMath.{
  value, overflow, safe_add_int32, safe_sub_int32, safe_convert_int32,
  safe_convert_int32_from_uint32,
}
use go_minimal_pbft.SafeMath.Exact.{
  in_int32, safe_add_int32_exact, safe_sub_int32_exact, safe_convert_int32_exact,
  safe_convert_int32_from_uint32_exact,
}
use go_minimal_pbft.Ticker.{TickerEvent, tick, fire, send, timeout_routine, new_timeout_ticker}
use go_minimal_pbft.Ticker.Order.{Rises, timeout_routine-Rises}
use go_minimal_pbft.Consensus.Monad.{final, ok}
use go_minimal_pbft.Consensus.Hoare.{Ends}
use go_minimal_pbft.Consensus.Invariant.{Inv}
use go_minimal_pbft.Consensus.Signing.Frame.{Signs}
use go_minimal_pbft.Consensus.Prevote.{do_prevote, enter_prevote}
use go_minimal_pbft.Consensus.Precommit.{do_precommit}
use go_minimal_pbft.Consensus.Commit.{try_finalize_commit, process_committed_block}
use go_minimal_pbft.Consensus.AddVote.Polka.{on_polka}
use go_minimal_pbft.Consensus.New.{new_consensus_state}
use go_minimal_pbft.Consensus.Routine.{internal_msg, dispatch}
use go_minimal_pbft.Consensus.State.{is_stale}
use go_minimal_pbft.Consensus.Progress.Returns.{enter_prevote_returns}
use go_minimal_pbft.Consensus.Progress.Prevote.{prevote_choice, do_prevote-Signs}
use go_minimal_pbft.Consensus.Progress.Precommit.{Precommits, do_precommit-Precommits}
use go_minimal_pbft.Consensus.Safety.Start.{
  Made, new_consensus_state-Inv, new_consensus_state-genesis,
}
use go_minimal_pbft.Consensus.Safety.Run.{dispatch-Inv, Runs-Inv}
use go_minimal_pbft.Consensus.Safety.Equivocation.{no_equivocation}
use go_minimal_pbft.Consensus.Safety.Commit.{
  Keeps, try_finalize_commit-Keeps, process_committed_block-Verified,
}
use go_minimal_pbft.Consensus.Safety.Lock.{LockSame, IsOutvoted, on_polka-Lock}
use go_minimal_pbft.Consensus.Sync.{vote_reply, process_sync_request}
use go_minimal_pbft.Consensus.Sync.Reply.{
  process_sync_request-complete, check_double_signing_risk-none, IsStoredCommit, of_block, IsVoteBy,
}
use mathlib.Core.List.{Memᴰ, Permᴰ}
use go_minimal_pbft.Executor.{
  WeightedTime, weighted_median, pick, half, median_time, weighted_times,
}
use go_minimal_pbft.Executor.Order.{weighted_median_any_order}
use go_minimal_pbft.Executor.Median.{median_time-between}
use go_minimal_pbft.Tests.Toy.{toy_library, toy, genesis}
use go_minimal_pbft.Consensus.Agreement.Network.{
  IsFresh-IsSound, NetRun-Sound, NetStep-Decision, IsSound, Possible,
}
use go_minimal_pbft.Consensus.Agreement.Deciding.{Decision}
use go_minimal_pbft.Consensus.Agreement.Safety.{SameBlock, agreement}
use go_minimal_pbft.Tests.Agreed.{only7, toys, toy_tally, two, made-IsFresh, hash_nonzero}
use go_minimal_pbft.Tests.TwoNodes.{run7, decides7, run8, decides8, told, followed, up7, up8, level}
use go_minimal_pbft.Tests.Script.{
  committed, made, made-Inv, prevoted, prevoted-Inv, prevoted-HasNext, prevoted_round, precommitted,
  prevote0, prevote0_vote, prevote0_sent, prevote0_Fits, prevote0_at, run_to_precommit,
  run-IsBounded, genesis-IsStart, keyed, keyed_validator, keyed_key, keyed_risk,
  precommitted_height, precommitted_initial, precommitted_bit,
}

abbrev prevote_place : ℕ
prevote_place = 1

no_equivocation_example : prevote_place ≡ prevote_place
no_equivocation_example =
    no_equivocation toy run_to_precommit prevote_place prevote_place prevote0_vote prevote0_vote
      made-Inv run-IsBounded prevote0_at prevote0_at refl refl refl

Runs-Inv_example : Inv toy precommitted
Runs-Inv_example = Runs-Inv toy run_to_precommit run-IsBounded made-Inv

dispatch-Inv_example : Inv toy (final (dispatch toy (internal_msg prevote0) prevoted))
dispatch-Inv_example =
    dispatch-Inv toy (internal_msg prevote0) prevoted prevoted-Inv prevoted-HasNext
      (prevote0_sent, prevote0_Fits)

try_finalize_commit-Keeps_example :
    Keeps toy precommitted (final (try_finalize_commit toy 1 precommitted))
try_finalize_commit-Keeps_example = try_finalize_commit-Keeps toy 1 precommitted

process_committed_block-Verified_example :
    ((final (process_committed_block toy 1 made)).block_store ≡ made.block_store)
      × ((final (process_committed_block toy 1 made)).chain_state ≡ made.chain_state)
    ⊎ ((1 ≡ made.height)
        × (toy.validate made.chain_state 1 ≡ true)
        × (toy.verify_commit made.chain_state.validators made.chain_state.chain_id 1 1 1 ≡ true))
process_committed_block-Verified_example = process_committed_block-Verified toy 1 made

on_polka-Lock_example :
    LockSame toy precommitted (final (on_polka toy (pos 0) (some 0) precommitted))
    ⊎ IsOutvoted toy (pos 0) (some 0) precommitted
on_polka-Lock_example = on_polka-Lock toy (pos 0) (some 0) precommitted

do_prevote-Signs_example :
    Signs toy prevote_type (prevote_choice toy prevoted) prevoted (final (do_prevote toy prevoted))
do_prevote-Signs_example = do_prevote-Signs toy prevoted

do_precommit-Precommits_example :
    Precommits toy (pos 0) prevoted (final (do_precommit toy (pos 0) prevoted))
do_precommit-Precommits_example =
    do_precommit-Precommits toy (pos 0) prevoted prevoted-Inv (sym prevoted_round)

abbrev proposal1 : Proposal ℕ
proposal1 = record {
  height = 1;
  round = pos 0;
  pol_round = negsuc 0;
  block = some 1;
  signature = [];
}

abbrev tick1 : TimeoutInfo
tick1 = record { duration = pos 1000; height = 1; round = pos 0; step = 3 }

abbrev tick2 : TimeoutInfo
tick2 = record { duration = pos 1000; height = 1; round = pos 0; step = 5 }

new_consensus_state-Inv_example : Ends (λ t. Unit) (Made toy) (new_consensus_state toy genesis 0)
new_consensus_state-Inv_example = new_consensus_state-Inv toy genesis genesis-IsStart 0

new_consensus_state-genesis_example :
    new_consensus_state toy genesis 0 ≡ ok tt (final (new_consensus_state toy genesis 0))
    × (final (new_consensus_state toy genesis 0)).height ≡ 1
    × (final (new_consensus_state toy genesis 0)).round ≡ pos 0
    × (final (new_consensus_state toy genesis 0)).step ≡ RoundStep.new_height
new_consensus_state-genesis_example = new_consensus_state-genesis toy genesis genesis-IsStart 0 refl

abbrev request1 : ConsensusSyncRequest
request1 = record {
  height = 1;
  round = 0;
  has_proposal = 1;
  prevotes_bitmap = 0 ∷ [];
  precommits_bitmap = [];
}

process_sync_request-complete_example :
    Memᴰ
      (vote_reply (toy.get_by_index (toy.prevotes precommitted.votes (wrap_int32 (pos 0))) 0))
      (process_sync_request toy request1 precommitted)
process_sync_request-complete_example =
    process_sync_request-complete toy request1 precommitted 1 (λ i. false) 0 precommitted_height
      precommitted_initial (omega arith) (ground arith) refl (omega arith) precommitted_bit

abbrev other_sig : CommitSig
other_sig = record {
  block_id_flag = other_flag;
  validator_address = 7;
  timestamp_ms = 2;
  signature = [];
}

keyed-IsStoredCommit : IsStoredCommit toy keyed 2 2
unfolding new_consensus_state set_priv_validator
keyed-IsStoredCommit = of_block (ground arith) refl

check_double_signing_risk-none_example : ¬ (IsVoteBy toy (toy.key_address 7) other_sig)
check_double_signing_risk-none_example =
    check_double_signing_risk-none toy 3 keyed 7 7 1 2 other_sig keyed_validator keyed_key
      keyed_risk (omega arith) (omega arith) (omega arith) keyed-IsStoredCommit (Memᴰ.head refl)

-- The second timeout is sent before the first one.
abbrev ticks : List TickerEvent
ticks = tick tick1 ∷ fire ∷ tick tick2 ∷ tick tick1 ∷ fire ∷ send 0 ∷ send 0 ∷ []

timeout_routine-Rises_example :
    (fired : List TimeoutInfo) × Rises fired
    × Permᴰ fired (
        (timeout_routine ticks new_timeout_ticker).sending
        ++ (timeout_routine ticks new_timeout_ticker).tock_chan)
timeout_routine-Rises_example = timeout_routine-Rises ticks (ground arith)

safe_add_int32_exact_example :
    safe_add_int32 (pos 2147483647) (pos 1)
    ≡ (if in_int32 (pos 2147483647 +ℤ pos 1) then value (pos 2147483647 +ℤ pos 1) else overflow)
safe_add_int32_exact_example =
    safe_add_int32_exact (pos 2147483647) (pos 1)
      (record { above = omega arith; below = omega arith })
      (record { above = omega arith; below = omega arith })

safe_sub_int32_exact_example :
    safe_sub_int32 (pos 5) (pos 1)
    ≡ (if in_int32 (pos 5 -ℤ pos 1) then value (pos 5 -ℤ pos 1) else overflow)
safe_sub_int32_exact_example =
    safe_sub_int32_exact (pos 5) (pos 1) (record { above = omega arith; below = omega arith })
      (record { above = omega arith; below = omega arith })

safe_convert_int32_exact_example :
    safe_convert_int32 (pos 2147483648)
    ≡ (if in_int32 (pos 2147483648) then value (pos 2147483648) else overflow)
safe_convert_int32_exact_example = safe_convert_int32_exact (pos 2147483648)

safe_convert_int32_from_uint32_exact_example :
    safe_convert_int32_from_uint32 7 ≡ (if in_int32 (pos 7) then value (pos 7) else overflow)
safe_convert_int32_from_uint32_exact_example = safe_convert_int32_from_uint32_exact 7 (omega arith)

median_time-between_example :
    (2 ≤ median_time toy_library 5 (some 1)) × (median_time toy_library 5 (some 1) ≤ 9)
unfolding weighted_times
median_time-between_example =
    median_time-between toy_library 2 9 5 (some 1) (ground arith) (omega arith) (omega arith)

enter_prevote_returns_example :
    (enter_prevote toy 1 (pos 0) made ≡ ok tt (final (enter_prevote toy 1 (pos 0) made)))
    × ((final (enter_prevote toy 1 (pos 0) made)).step
        ≡ (if is_stale toy 1 (pos 0) RoundStep.prevote made then made.step else RoundStep.prevote))
    × ((final (enter_prevote toy 1 (pos 0) made)).round
        ≡ (if is_stale toy 1 (pos 0) RoundStep.prevote made then made.round else pos 0))
enter_prevote_returns_example = enter_prevote_returns toy 1 (pos 0) made

agreement_example :
    SameBlock only7 toys
      (λ a. toy_tally)
      7
      8
      precommitted
      committed.chain_state
      told
      followed.chain_state
agreement_example =
    agreement only7 toys (λ a. toy_tally) made-IsFresh run7 decides7 run8 decides8 hash_nonzero up7
      up8 level

NetStep-Decision_example :
    Decision only7
      (Possible only7 toys (two precommitted made))
      toy
      precommitted
      committed.chain_state
NetStep-Decision_example =
    NetStep-Decision only7 toys (λ a. toy_tally) decides7
      (NetRun-Sound only7 toys (λ a. toy_tally) run7
        (IsFresh-IsSound only7 toys (λ a. toy_tally) (two made made) made-IsFresh))
      up7

NetRun-Sound_example : IsSound only7 toys (λ a. toy_tally) (two precommitted made)
NetRun-Sound_example =
    NetRun-Sound only7 toys (λ a. toy_tally) run7
      (IsFresh-IsSound only7 toys (λ a. toy_tally) (two made made) made-IsFresh)

abbrev late_two : WeightedTime
late_two = record { time_ms = 5; weight = pos 2 }

abbrev early : WeightedTime
early = record { time_ms = 3; weight = pos 1 }

abbrev late_one : WeightedTime
late_one = record { time_ms = 5; weight = pos 1 }

weighted_median_any_order_example :
    weighted_median (late_two ∷ early ∷ late_one ∷ []) (pos 4)
    ≡ pick (half (pos 4)) (early ∷ late_one ∷ late_two ∷ [])
weighted_median_any_order_example =
    weighted_median_any_order (late_two ∷ early ∷ late_one ∷ []) (early ∷ late_one ∷ late_two ∷ [])
      4 (Permᴰ.trans (Permᴰ.swap refl refl) (Permᴰ.cons refl (Permᴰ.swap refl refl)))
      (omega arith, (omega arith, (omega arith, tt)))
      (omega arith, (omega arith, (omega arith, tt))) (omega arith) (omega arith) (omega arith)
