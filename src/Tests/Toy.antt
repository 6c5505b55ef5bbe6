-- ===== src/Tests/Toy.antt =====
-- A small instance of what the model takes as parameters: a block is its number, its hash is the
-- next one, a vote set is the hash of the only validator's vote, and the votes of a height are their list.
use go_minimal_pbft.Prelude.{
  ◌∷◌, List, if◌then◌else◌, ℕ, suc, ◌+◌, ◌*◌, ◌≡◌, refl, Bool, true, false, Option, none, some, [],
  ◌==◌, is_some, if◌then◌else◌, ◌&&◌, arith,
}
use go_minimal_pbft.Prelude.Int.{ℤ, pos, negsuc, eqb_ℤ}
use go_minimal_pbft.Messages.{
  CommitSig, other_flag, Hash, SignedMsgType, prevote_type, is_prevote, is_precommit, Vote,
  VoteError,
}
use go_minimal_pbft.Library.{Library}
use go_minimal_pbft.ChainState.{ChainState, next_height}
use go_minimal_pbft.Interfaces.{BlockExecutor, BlockStore, Signer, Env}

abbrev matches : Option ℕ → Hash → Bool
matches none h = false
matches (some b) h = suc b == h

pub matches-hash : (b : ℕ) (h : Hash) → matches (some b) h ≡ true → suc b ≡ h
matches-hash b h m = ground (arith, m)

abbrev pub blank_vote : Vote
blank_vote = record {
  msg_type = prevote_type;
  height = 0;
  round = pos 0;
  timestamp_ms = 0;
  block_id = 0;
  validator_address = 7;
  validator_index = pos 0;
  signature = [];
}

-- The votes of a height, newest first: the newest one of the only validator counts.
abbrev pub newest_for : (SignedMsgType → Bool) → ℤ → List Vote → Option Hash
newest_for is r [] = none
newest_for is r (v ∷ vs) =
    if is v.msg_type && eqb_ℤ v.round r && v.validator_address == 7
    then some v.block_id
    else newest_for is r vs

abbrev count_vote :
    Option (List Vote) → Vote → Option (Bool × Option VoteError × Option (List Vote))
count_vote none v = none
count_vote (some votes) v = some (true, none, some (v ∷ votes))

abbrev pub prevotes_of : Option (List Vote) → ℤ → Option Hash
prevotes_of none r = none
prevotes_of (some votes) r = newest_for is_prevote r votes

abbrev newest_prevote_round : List Vote → ℤ
newest_prevote_round [] = negsuc 0
newest_prevote_round (v ∷ vs) = if is_prevote v.msg_type then v.round else newest_prevote_round vs

abbrev polka_round : Option (List Vote) → ℤ
polka_round none = negsuc 0
polka_round (some votes) = newest_prevote_round votes

abbrev pub precommits_of : Option (List Vote) → ℤ → Option Hash
precommits_of none r = none
precommits_of (some votes) r = newest_for is_precommit r votes

abbrev or_zero : Option ℕ → ℕ
or_zero none = 0
or_zero (some n) = n

-- A vote set of one vote, as a bit.
abbrev one_bit : Option Hash → ℕ → Bool
one_bit vs i = is_some vs

-- The initial block has no last commit.
abbrev signatures_of : ℕ → List CommitSig
signatures_of c =
    if c == 1
    then []
    else record {
      block_id_flag = other_flag;
      validator_address = 7;
      timestamp_ms = c;
      signature = [];
    }
      ∷ []

abbrev pub toy_library : Library
toy_library = record {
  Block = ℕ;
  Commit = ℕ;
  VoteSet = Hash;
  HeightVoteSet = List Vote;
  ValidatorSet = ℕ;
  PubKey = ℕ;
  hash = suc;
  hash_to = matches;
  number = λ b. b;
  time = λ b. 0;
  time_ms = λ b. b;
  parent_hash = λ b. 0;
  coinbase = λ b. 7;
  next_validators = λ b. [];
  last_commit = λ b. b;
  header_commit = λ b. b;
  block_commit = λ b. b;
  with_commit = λ b c. b;
  new_block = λ c h n t a l. n;
  commit_height = λ c. c;
  signatures = signatures_of;
  absent = λ c. false;
  new_commit = λ h r b sigs. h;
  get_vote = λ c i. blank_vote;
  commit_bit = λ c i. true;
  commit_size = λ c. 1;
  two_thirds_majority = λ vs. vs;
  has_two_thirds_majority = is_some;
  has_two_thirds_any = is_some;
  has_all = is_some;
  make_commit = or_zero;
  vote_set_add_vote = λ vs v. some (true, none, some v.block_id);
  vote_set_size = λ vs. 1;
  vote_set_bit = one_bit;
  vote_set_bits = λ vs. some [];
  get_by_index = λ vs i. blank_vote;
  commit_to_vote_set = λ c n vals. some n;
  new_height_vote_set = λ c h vals. [];
  prevotes = prevotes_of;
  precommits = precommits_of;
  pol_round = polka_round;
  set_round = λ votes r. some votes;
  add_vote = λ votes v peer. count_vote votes v;
  new_validator_set = λ addrs powers repetition. 1;
  empty_validator_set = 0;
  proposer_repetition = λ vals. 1;
  increment_proposer_priority = λ n vals. vals;
  get_proposer = λ vals. some (record { address = 7; pub_key = 7; voting_power = pos 1 });
  has_address = λ vals a. a == 7;
  get_by_address =
      λ vals a. (pos 0, some (record { address = 7; pub_key = 7; voting_power = pos 1 }));
  verify_commit = λ vals c h n commit. true;
  key_address = λ k. k;
  verify_signature = λ k m s. true;
  proposal_sign_bytes = λ c p. [];
  new_proposal =
      λ h r p b. record { height = h; round = r; pol_round = p; block = some b; signature = [] };
  new_bit_array = λ size words. some (size, λ i. false);
  hash_to-nil = λ h. refl;
  hash_to-hash = matches-hash;
  new_proposal-height = λ h r p b. refl;
}

abbrev valid_number : ChainState toy_library → ℕ → Bool
valid_number s b = b == next_height toy_library s

pub valid_number_lem :
    (s : ChainState toy_library) (b : ℕ) → valid_number s b ≡ true → b ≡ next_height toy_library s
valid_number_lem s b h = ground (arith, h)

abbrev apply_number : ChainState toy_library → ℕ → Option (ChainState toy_library)
apply_number s b = some (record s { last_block_height = b; last_block_id = b })

pub apply_number-height :
    (s t : ChainState toy_library) (b : ℕ) → apply_number s b ≡ some t → t.last_block_height ≡ b
apply_number-height s t b h = ground (arith, h)

abbrev toy_executor : BlockExecutor toy_library
toy_executor = record {
  validate = valid_number;
  apply = apply_number;
  make_block = λ s h c a. some h;
  validate-number = valid_number_lem;
  apply-height = apply_number-height;
}

abbrev toy_store : BlockStore toy_library
toy_store = record {
  Store = ℕ;
  store_height = λ st. st;
  save_block = λ b c st. some b;
  load_block = λ st h. some h;
  load_block_commit = λ st h. some h;
  load_seen_commit = λ st. some st;
}

abbrev toy_signer : Signer toy_library
toy_signer = record {
  PrivValidator = ℕ;
  get_pub_key = λ p d. some p;
  sign_vote = λ p c d n v. (v, true);
  sign_proposal = λ p c d q. (q, true);
  sign_vote-height = λ p c d n v. refl;
  sign_vote-round = λ p c d n v. refl;
  sign_vote-msg_type = λ p c d n v. refl;
  sign_vote-block_id = λ p c d n v. refl;
}

abbrev pub toy : Env
toy = record {
  lib = toy_library;
  executor = toy_executor;
  store = toy_store;
  signer = toy_signer;
  config = record {
    propose_timeout = λ r. pos 3000;
    prevote_timeout = λ r. pos 1000;
    precommit_timeout = λ r. pos 1000;
    commit_time_after = λ n. n + 1000;
    timeout_propose = pos 3000;
    timeout_prevote = pos 1000;
    timeout_precommit = pos 1000;
    skip_timeout_commit = false;
    double_sign_check_height = 10;
  };
  clock = λ n. n * 1000000;
}

abbrev pub genesis : ChainState toy_library
genesis = record {
  chain_id = "toy";
  initial_height = 1;
  last_block_height = 0;
  last_block_id = 0;
  last_block_time = 1;
  validators = some 1;
  last_validators = some 0;
  last_height_validators_changed = pos 1;
  epoch = 100;
  app_hash = [];
}
