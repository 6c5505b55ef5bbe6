-- ===== src/PrivValidator.antt =====
-- consensus/priv_validator_local.go and consensus/pubkey.go: the key of a node that is a validator,
-- and the check of a signature. The implementation of `PrivValidator`. What go-ethereum's crypto and
-- core/types do is a parameter.
pub mod Verify
use go_minimal_pbft.Prelude.{
  ℕ, zero, suc, ◌+◌, ◌*◌, ◌/◌, ◌≡◌, refl, Bool, true, false, not, Option, none, some, List, [], ◌∷◌,
  ◌==◌, is_some, if◌then◌else◌,
}
use go_minimal_pbft.Prelude.Int.{ℤ}
use go_minimal_pbft.Messages.{Address, Bytes, ChainId, Vote, Proposal}
use go_minimal_pbft.Library.{Library}
use go_minimal_pbft.Interfaces.{Signer}

-- The number that bytes spell, the first one the most significant.
abbrev pub spelled : ℕ → Bytes → ℕ
spelled n [] = n
spelled n (b ∷ bs) = spelled (n * 256 + b) bs

abbrev pub drop : ℕ → Bytes → Bytes
drop zero bs = bs
drop (suc n) [] = []
drop (suc n) (b ∷ bs) = drop n bs

-- `pubKeyToAddress` of the bytes after the first one, which it skips: the last 20 of the digest's 32
-- bytes.
unfoldable pub pub_key_to_address : (Bytes → Bytes) → Bytes → Address
pub_key_to_address keccak256 rest = spelled 0 (drop 12 (keccak256 rest))

-- go-ethereum's crypto: `Keccak256`, `Sign`, which is none where it returns an error, `Ecrecover` and
-- `FromECDSAPub` without its first byte, which is always 4; and the bytes to sign of core/types, which
-- leave the signature out. `Ecrecover` gives back the key that signed, and `PubkeyToAddress` is the
-- hash of the key's bytes.
pub record Crypto (B : Type 0) : Type 1 where
  pub PrivateKey : Type 0
  pub keccak256 : Bytes → Bytes
  pub sign : Bytes → PrivateKey → Option Bytes
  pub ecrecover : Bytes → Bytes → Option Bytes
  pub public_bytes : PrivateKey → Bytes
  pub key_address : PrivateKey → Address
  pub vote_sign_bytes : ChainId → Vote → Bytes
  pub proposal_sign_bytes : ChainId → Proposal B → Bytes
  pub ecrecover-sign :
      (h s : Bytes) (k : PrivateKey) → sign h k ≡ some s → ecrecover h s ≡ some (4 ∷ public_bytes k)
  pub key_address-public_bytes :
      (k : PrivateKey) → key_address k ≡ pub_key_to_address keccak256 (public_bytes k)
  pub vote_sign_bytes-signature :
      (c : ChainId) (v : Vote) (s : Bytes)
      → vote_sign_bytes c (record v { signature = s }) ≡ vote_sign_bytes c v
  pub proposal_sign_bytes-signature :
      (c : ChainId) (p : Proposal B) (s : Bytes)
      → proposal_sign_bytes c (record p { signature = s }) ≡ proposal_sign_bytes c p

-- A nil slice where `Sign` returns an error.
abbrev pub signature_of : Option Bytes → Bytes
signature_of none = []
signature_of (some s) = s

pub record EcdsaPubKey : Type 0 where
  pub address : Address

module _ {B : Type 0} (c : Crypto B) where
  pub record PrivValidatorLocal : Type 0 where
    pub priv_key : c.PrivateKey

  unfoldable pub get_pub_key : PrivValidatorLocal → EcdsaPubKey
  get_pub_key pv = record { address = c.key_address pv.priv_key }

  abbrev pub stamped : ℕ → Vote → Vote
  stamped now vote = record vote { timestamp_ms = now / 1000000 }

  -- The vote as it is left, and whether there is no error; `now` is what the clock shows.
  unfoldable pub sign_vote : PrivValidatorLocal → ChainId → ℕ → Vote → Vote × Bool
  sign_vote pv chain_id now vote =
      let s = c.sign (c.keccak256 (c.vote_sign_bytes chain_id (stamped now vote))) pv.priv_key in
      (record (stamped now vote) { signature = signature_of s }, is_some s)

  unfoldable pub sign_proposal : PrivValidatorLocal → ChainId → Proposal B → Proposal B × Bool
  sign_proposal pv chain_id proposal =
      let s = c.sign (c.keccak256 (c.proposal_sign_bytes chain_id proposal)) pv.priv_key in
      (record proposal { signature = signature_of s }, is_some s)

  abbrev pub recovered : EcdsaPubKey → Option Bytes → Bool
  unfolding pub_key_to_address
  recovered key none = false
  recovered key (some []) = false
  recovered key (some (b ∷ rest)) =
      if not (b == 4) then false else pub_key_to_address c.keccak256 rest == key.address

  unfoldable pub verify_signature : EcdsaPubKey → Bytes → Bytes → Bool
  unfolding pub_key_to_address
  verify_signature key msg sig = recovered key (c.ecrecover (c.keccak256 msg) sig)

  -- It is the vote that was given.
  pub sign_vote-height :
      (pv : PrivValidatorLocal) (chain_id : ChainId) (now : ℕ) (vote : Vote)
      → Vote.height (sign_vote pv chain_id now vote).0 ≡ vote.height
  unfolding sign_vote
  sign_vote-height pv chain_id now vote = refl

  pub sign_vote-round :
      (pv : PrivValidatorLocal) (chain_id : ChainId) (now : ℕ) (vote : Vote)
      → Vote.round (sign_vote pv chain_id now vote).0 ≡ vote.round
  unfolding sign_vote
  sign_vote-round pv chain_id now vote = refl

  pub sign_vote-msg_type :
      (pv : PrivValidatorLocal) (chain_id : ChainId) (now : ℕ) (vote : Vote)
      → Vote.msg_type (sign_vote pv chain_id now vote).0 ≡ vote.msg_type
  unfolding sign_vote
  sign_vote-msg_type pv chain_id now vote = refl

  pub sign_vote-block_id :
      (pv : PrivValidatorLocal) (chain_id : ChainId) (now : ℕ) (vote : Vote)
      → Vote.block_id (sign_vote pv chain_id now vote).0 ≡ vote.block_id
  unfolding sign_vote
  sign_vote-block_id pv chain_id now vote = refl

-- The signer that the consensus state takes, with `to_key` for the key as an interface value.
abbrev pub local_signer :
    (x : Library) (c : Crypto x.Block) (to_key : EcdsaPubKey → x.PubKey) → Signer x
local_signer x c to_key = record {
  PrivValidator = PrivValidatorLocal c;
  get_pub_key = λ pv deadline. some (to_key (get_pub_key c pv));
  sign_vote = λ pv chain_id deadline now vote. sign_vote c pv chain_id now vote;
  sign_proposal = λ pv chain_id deadline proposal. sign_proposal c pv chain_id proposal;
  sign_vote-height = λ pv chain_id deadline now vote. sign_vote-height c pv chain_id now vote;
  sign_vote-round = λ pv chain_id deadline now vote. sign_vote-round c pv chain_id now vote;
  sign_vote-msg_type = λ pv chain_id deadline now vote. sign_vote-msg_type c pv chain_id now vote;
  sign_vote-block_id = λ pv chain_id deadline now vote. sign_vote-block_id c pv chain_id now vote;
}
