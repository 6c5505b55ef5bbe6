-- ===== src/Tests/NetWitnesses.antt =====
-- The theorems on the network, the storage and the start of a node, applied to the small instances.
use go_minimal_pbft.Prelude.{
  ◌≤◌, ◌+◌, ◌==◌, List, Option, ap, inl, inr, ℕ, ◌-◌, ◌≡◌, ◌≢◌, refl, true, false, none, some, [],
  ◌∷◌, ◌⊎◌, ◌∙◌, sym, All, arith,
}
use go_minimal_pbft.Prelude.Int.{wrap_int32, pos}
use go_minimal_pbft.Messages.{Bytes, Vote, ConsensusSyncRequest}
use go_minimal_pbft.ChainState.{ChainState}
use go_minimal_pbft.Consensus.State.{State}
use go_minimal_pbft.Consensus.New.{blank}
use go_minimal_pbft.Consensus.Sync.{
  vote_reply, process_sync_request, present_reply, append_diff_votes, diff_with,
}
use go_minimal_pbft.Consensus.Invariant.{Inv}
use go_minimal_pbft.Service.{
  Call, call_start, call_stop, new_base_service, replies, run, is_running,
}
use go_minimal_pbft.Service.Refinement.{Fits, spec_replies, fresh, replies_refine, run_at_most_once}
use go_minimal_pbft.Store.{save_block, height, height_of}
use go_minimal_pbft.Store.Refinement.{Represents, save_block_atomic}
use go_minimal_pbft.PrivValidator.{PrivValidatorLocal, get_pub_key, sign_vote, verify_signature}
use go_minimal_pbft.PrivValidator.Verify.{sign_vote-verify_signature}
use go_minimal_pbft.KeyFiles.{
  key_ok, key_error, override_refused, get_or_create_node_key, run_keygen, write_validator_key,
  load_validator_key,
}
use go_minimal_pbft.KeyFiles.Reload.{get_or_create_node_key_again, run_keygen-load_validator_key}
use go_minimal_pbft.P2p.Wire.{vote_wire, ConsensusSyncResponse}
use go_minimal_pbft.P2p.Codec.{encode, encode_raw, type_byte, decode, received, decode-encode}
use go_minimal_pbft.P2p.Rpc.{
  answered, silent, or_broken, stream_to, send_rpc, on_hello, on_full_block, hello_rpc-on_hello,
  full_block_rpc-on_full_block,
}
use go_minimal_pbft.P2p.SyncServer.{
  response_of, all_data, reply_data, on_response, on_consensus_sync,
}
use go_minimal_pbft.P2p.SyncServer.Exchange.{IsValidReply, events_for, sync_exchange}
use go_minimal_pbft.BlockSync.{
  BlockSync, finished, reported_by, last_height, hello, get_full_block, sync,
}
use go_minimal_pbft.BlockSync.Peers.{Reported}
use go_minimal_pbft.BlockSync.Safety.{Reaches, sync-Reaches}
use go_minimal_pbft.BlockSync.Termination.{Stalls, Accepts, Synced, sync-Synced}
use go_minimal_pbft.BlockSync.CatchUp.{IsChain, Serves, sync-catches_up}
use go_minimal_pbft.Node.{Flags, run_node}
use go_minimal_pbft.Node.After.{After}
use go_minimal_pbft.Interfaces.{Env}
use go_minimal_pbft.Node.Default.{default_env, run_node-default}
use go_minimal_pbft.Tests.Toy.{toy_library, toy, genesis, blank_vote}
use go_minimal_pbft.Tests.ToyData.{
  Table, written, toy_database, toy_rlp, toy_files, toy_keys, toy_crypto,
}
use go_minimal_pbft.Tests.ToyNet.{toy_wire, toy_net}

abbrev calls : List Call
calls = call_start false ∷ call_start true ∷ call_start true ∷ call_stop ∷ call_start true ∷ []

replies_refine_example : Fits calls (replies calls new_base_service) (spec_replies calls fresh)
replies_refine_example = replies_refine calls

run_at_most_once_example :
    ((run calls new_base_service).starts ≤ 1)
    × ((run calls new_base_service).stops ≤ (run calls new_base_service).starts)
    × (is_running (run calls new_base_service)
        ≡ ((run calls new_base_service).starts == (run calls new_base_service).stops + 1))
run_at_most_once_example = run_at_most_once calls

abbrev empty_table : Table
empty_table key = none

empty-Represents : Represents toy_library toy_database toy_rlp [] empty_table
unfolding height height_of
empty-Represents = (refl, tt)

save_block_atomic_example :
    (u : Table) × (save_block toy_library toy_database toy_rlp 1 1 empty_table ≡ some u)
    × (Represents toy_library toy_database toy_rlp ((1, 1) ∷ []) u
        ⊎ Represents toy_library toy_database toy_rlp [] u)
save_block_atomic_example =
    save_block_atomic toy_library toy_database toy_rlp [] 1 1 empty_table refl (omega arith)
      empty-Represents

abbrev local : PrivValidatorLocal toy_crypto
local = record { priv_key = 5 }

abbrev signed_blank : Vote
signed_blank = record blank_vote { timestamp_ms = 3; signature = 5 ∷ 0 ∷ 0 ∷ 3 ∷ [] }

signs_blank : sign_vote toy_crypto local "toy" 3000000 blank_vote ≡ (signed_blank, true)
unfolding sign_vote
signs_blank = refl

sign_vote-verify_signature_example :
    (signed_blank ≡ record blank_vote { timestamp_ms = 3; signature = 5 ∷ 0 ∷ 0 ∷ 3 ∷ [] })
    × (verify_signature toy_crypto
          (get_pub_key toy_crypto local)
          (toy_crypto.vote_sign_bytes "toy" signed_blank)
          signed_blank.signature
        ≡ true)
sign_vote-verify_signature_example =
    sign_vote-verify_signature toy_crypto local "toy" 3000000 blank_vote signed_blank signs_blank

abbrev key_path : Bytes
key_path = 107 ∷ []

abbrev key_table : Table
key_table = written empty_table key_path (9 ∷ [])

abbrev peer_of : ℕ → Option Bytes
peer_of k = some (k ∷ [])

creates_key :
    get_or_create_node_key toy_files toy_keys peer_of (some 9) key_path empty_table
    ≡ (key_table, key_ok 9)
unfolding get_or_create_node_key
creates_key = refl

get_or_create_node_key_again_example :
    get_or_create_node_key toy_files toy_keys peer_of (some 8) key_path key_table
    ≡ (key_table, key_ok 9)
get_or_create_node_key_again_example =
    get_or_create_node_key_again toy_files toy_keys peer_of (some 9) (some 8) key_path empty_table
      key_table 9 (9 ∷ []) refl creates_key

generates_key : run_keygen toy_files toy_keys (some 9) key_path empty_table ≡ (key_table, key_ok tt)
unfolding run_keygen write_validator_key
generates_key = refl

run_keygen-load_validator_key_example :
    (load_validator_key toy_files toy_keys key_path key_table ≡ key_ok 9)
    × ((other : ℕ)
        → run_keygen toy_files toy_keys (some other) key_path key_table
          ≡ (key_table, key_error override_refused))
run_keygen-load_validator_key_example =
    run_keygen-load_validator_key toy_files toy_keys 9 key_path empty_table key_table generates_key

abbrev blank_bytes : Bytes
blank_bytes = 2 ∷ 1 ∷ 0 ∷ 0 ∷ 0 ∷ 0 ∷ 0 ∷ 7 ∷ 0 ∷ 0 ∷ []

encodes_blank : encode toy_wire (vote_wire blank_vote) ≡ some blank_bytes
unfolding encode encode_raw type_byte
encodes_blank = refl

decode-encode_example : decode toy_wire blank_bytes ≡ received toy_wire (vote_wire blank_vote)
decode-encode_example = decode-encode toy_wire (vote_wire blank_vote) blank_bytes encodes_blank

-- A node that has a prevote, and a peer that asks it for prevotes.
abbrev asked : State toy
asked = record (blank toy 0) {
  rs = record (blank toy 0).rs { height = 1; votes = some (blank_vote ∷ []) };
  chain_state = genesis;
}

abbrev request : ConsensusSyncRequest
request = record {
  height = 1;
  round = 0;
  has_proposal = 1;
  prevotes_bitmap = 0 ∷ [];
  precommits_bitmap = [];
}

replies_prevote : process_sync_request toy request asked ≡ vote_reply blank_vote ∷ []
unfolding process_sync_request present_reply append_diff_votes diff_with wrap_int32
replies_prevote = refl

abbrev response : ConsensusSyncResponse
response = record { is_commited = 0; message_data = blank_bytes ∷ [] }

responds : response_of toy_wire (process_sync_request toy request asked) ≡ some response
unfolding response_of all_data reply_data encode encode_raw type_byte
responds = rw replies_prevote refl

replies_valid : All (IsValidReply toy_wire) (process_sync_request toy request asked)
replies_valid = rw replies_prevote (refl, tt)

sync_exchange_example :
    (send_rpc
        (stream_to (on_consensus_sync toy toy_wire asked))
        (some (1 ∷ 0 ∷ 1 ∷ 0 ∷ []))
        toy_wire.decode_response
      ≡ answered response)
    × (on_response toy_wire (4 ∷ []) response
        ≡ events_for (4 ∷ []) (process_sync_request toy request asked))
sync_exchange_example =
    sync_exchange toy toy_wire asked request (4 ∷ []) (1 ∷ 0 ∷ 1 ∷ 0 ∷ []) (0 ∷ blank_bytes)
      response refl (omega arith) responds refl (omega arith) replies_valid

toy-Accepts : Accepts toy
toy-Accepts b st follows = (b, refl, refl)

abbrev at_genesis : BlockSync toy
at_genesis = record { chain_state = genesis; block_store = 0 }

hello_two : (n : ℕ) (p : Bytes) → hello toy toy_wire toy_net n p ≡ answered 2
unfolding hello
hello_two n p =
    hello_rpc-on_hello toy_wire 2 (0 ∷ []) (2 ∷ []) refl refl (omega arith) (omega arith)

toy-Reported : (n : ℕ) → Reported (last_height toy toy_wire toy_net n) toy_net.peers 2
unfolding last_height
toy-Reported n = ((λ h e. ground (arith, sym (ap reported_by (hello_two n (1 ∷ []))) ∙ e)), tt)

loud : {A : Type 0} (o : Option A) → ¬ (or_broken o ≡ silent)
loud none h = ground (arith, h)
loud (some a) h = ground (arith, h)

toy-speaks : ¬ (Stalls toy_net)
toy-speaks (n, p, d, inl quiet) = loud (on_hello toy_wire 2 d) quiet
toy-speaks (n, p, d, inr quiet) =
    loud (on_full_block toy_wire (λ h. some h) (λ h. some h) (λ b c. b) d) quiet

toy-Serves : Serves toy toy_wire toy_net (λ h. h) 2
unfolding get_full_block
toy-Serves = record {
  reports = hello_two;
  gives = λ n p h above le.
      full_block_rpc-on_full_block toy_wire (λ k. some k) (λ k. some k) (λ b c. b) h h (h ∷ [])
        (h ∷ []) refl refl refl (omega arith) (omega arith);
}

abbrev toy_states : ℕ → ChainState toy_library
toy_states h = record genesis { last_block_height = h; last_block_id = h }

toy-IsChain : IsChain toy (λ h. h) toy_states 2
toy-IsChain = record {
  numbered = λ h. refl;
  valid = λ h lt. ground (arith, lt);
  verified = λ h lt. refl;
  applies = λ h lt. refl;
}

sync-catches_up_example :
    (t : ℕ) × (sync toy toy_wire toy_net 2 3 at_genesis
      ≡ finished (record { chain_state = toy_states 2; block_store = t }))
    × (t ≡ 2)
sync-catches_up_example =
    sync-catches_up toy toy-Accepts toy_wire toy_net (λ h. h) toy_states 2 toy-IsChain toy-Serves
      (omega arith) 0 3 0 (1 ∷ []) [] 0 refl (omega arith) refl (omega arith)

sync-Reaches_example : Reaches toy at_genesis (sync toy toy_wire toy_net 3 3 at_genesis)
sync-Reaches_example = sync-Reaches toy toy_wire toy_net 3 3 at_genesis

sync-Synced_example : Synced toy toy_wire toy_net 2 (sync toy toy_wire toy_net 3 3 at_genesis)
sync-Synced_example =
    sync-Synced toy toy-Accepts toy_net toy_wire 2 (omega arith) toy-Reported 3 3 at_genesis
      (omega arith) (omega arith) (omega arith) (refl, refl)

abbrev flags : Flags
flags = record {
  node_key_path = key_path;
  genesis_time_ms = 1;
  val_key_path = key_path;
  validator_set = (55 ∷ []) ∷ (56 ∷ []) ∷ [];
  val_powers = 51 ∷ 44 ∷ 49 ∷ [];
  proposer_repetition = 8;
  skip_block_sync = false;
}

-- "7" is the address 7, which is the key's.
abbrev last_digit : Bytes → ℕ
last_digit [] = 0
last_digit (b ∷ bs) = b - 48

abbrev default_toy : Env
default_toy =
    default_env toy_library toy_database toy_rlp toy_crypto (λ k. k.address) toy.config toy.clock

default_hello : (n : ℕ) (p : Bytes) → hello default_toy toy_wire toy_net n p ≡ answered 2
unfolding hello
default_hello n p =
    hello_rpc-on_hello toy_wire 2 (0 ∷ []) (2 ∷ []) refl refl (omega arith) (omega arith)

default-Reported : (n : ℕ) → Reported (last_height default_toy toy_wire toy_net n) toy_net.peers 2
unfolding last_height
default-Reported n =
    ((λ h e. ground (arith, sym (ap reported_by (default_hello n (1 ∷ []))) ∙ e)), tt)

empty_height : height toy_library toy_database toy_rlp empty_table ≡ 0
unfolding height height_of
empty_height = refl

run_node-default_example :
    After
      (λ s.
        Inv default_toy s
        × (s.chain_state.last_block_height ≡ height toy_library toy_database toy_rlp s.block_store)
        × (flags.genesis_time_ms ≢ 0))
      (run_node default_toy toy_files toy_keys peer_of toy_keys last_digit
        (λ k. record { priv_key = k })
        (pos 0)
        toy_wire
        toy_net
        3
        3
        none
        flags
        (some empty_table)
        true
        (written empty_table key_path (7 ∷ [])))
run_node-default_example =
    run_node-default toy_library toy_database toy_rlp toy_crypto (λ k. k.address) toy.config
      toy.clock toy_files toy_keys peer_of toy_keys (λ k. k) last_digit (pos 0) toy_wire toy_net 2 3
      3 (omega arith) (λ d k v. (written d k v, refl)) (λ b. (b ∷ [], refl)) (λ m. (m ∷ [], refl))
      default-Reported (omega arith) (omega arith) toy-speaks none flags empty_table true
      (written empty_table key_path (7 ∷ [])) empty_height
