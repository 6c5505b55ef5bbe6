-- ===== src/PrivValidator/Verify.antt =====
-- consensus/priv_validator_local.go and consensus/pubkey.go: what a key signs, its public key
-- verifies.
use go_minimal_pbft.Prelude.{
  ℕ, ◌/◌, ◌≡◌, refl, subst, ap, ◌∙◌, true, Option, none, some, [], ◌∷◌, is_some, inl, inr,
  Option-cases, arith,
}
use go_minimal_pbft.Messages.{Bytes, ChainId, Vote, Proposal}
use go_minimal_pbft.PrivValidator.{
  Crypto, EcdsaPubKey, PrivValidatorLocal, pub_key_to_address, get_pub_key, sign_vote,
  sign_proposal, signature_of, stamped, recovered, verify_signature,
}

module _ {B : Type 0} (c : Crypto B) where
  recovered-key :
      (pv : PrivValidatorLocal c) (o : Option Bytes)
      → o ≡ some (4 ∷ c.public_bytes pv.priv_key)
      → recovered c (get_pub_key c pv) o ≡ true
  unfolding get_pub_key pub_key_to_address
  recovered-key pv o is = rw (is, c.key_address-public_bytes pv.priv_key) (ground arith)

  -- The signature on the digest of the bytes verifies on the bytes.
  verify-signed :
      (pv : PrivValidatorLocal c) (signed bytes : Bytes)
      → bytes ≡ signed
      → is_some (c.sign (c.keccak256 signed) pv.priv_key) ≡ true
      → verify_signature c
          (get_pub_key c pv)
          bytes
          (signature_of (c.sign (c.keccak256 signed) pv.priv_key))
        ≡ true
  unfolding verify_signature
  verify-signed pv signed bytes same ok =
      elim (Option-cases (c.sign (c.keccak256 signed) pv.priv_key)) [
        | inl e ↦ ground (arith, ok, e)
        | inr (s, e) ↦
            rw (same, e)
              (recovered-key pv _ (c.ecrecover-sign (c.keccak256 signed) s pv.priv_key e))
      ]

  -- A vote that `SignVote` signs without an error is the vote that it was given, but for the time in
  -- milliseconds and the signature, and the signature verifies with the validator's public key on the
  -- bytes to sign of the vote as it is then.
  pub sign_vote-verify_signature :
      (pv : PrivValidatorLocal c) (chain_id : ChainId) (now : ℕ) (vote signed : Vote)
      → sign_vote c pv chain_id now vote ≡ (signed, true)
      → (signed ≡ record vote { timestamp_ms = now / 1000000; signature = signed.signature })
        × (verify_signature c
              (get_pub_key c pv)
              (c.vote_sign_bytes chain_id signed)
              signed.signature
            ≡ true)
  unfolding sign_vote
  sign_vote-verify_signature pv chain_id now vote signed e =
      subst
        (λ r.
          (r.0 ≡ record vote { timestamp_ms = now / 1000000; signature = r.0.signature })
          × (verify_signature c (get_pub_key c pv) (c.vote_sign_bytes chain_id r.0) r.0.signature
              ≡ true))
        e
        (
          refl,
          verify-signed pv (c.vote_sign_bytes chain_id (stamped c now vote)) _
              (c.vote_sign_bytes-signature chain_id (stamped c now vote) _) (ap (λ r. r.1) e),
        )

  -- A proposal that `SignProposal` signs without an error is the proposal that it was given, but for
  -- the signature, which verifies with the validator's public key on the proposal's bytes to sign.
  pub sign_proposal-verify_signature :
      (pv : PrivValidatorLocal c) (chain_id : ChainId) (proposal signed : Proposal B)
      → sign_proposal c pv chain_id proposal ≡ (signed, true)
      → (signed ≡ record proposal { signature = signed.signature })
        × (verify_signature c
              (get_pub_key c pv)
              (c.proposal_sign_bytes chain_id signed)
              signed.signature
            ≡ true)
  unfolding sign_proposal
  sign_proposal-verify_signature pv chain_id proposal signed e =
      subst
        (λ r.
          (r.0 ≡ record proposal { signature = r.0.signature })
          × (verify_signature c (get_pub_key c pv) (c.proposal_sign_bytes chain_id r.0)
                r.0.signature
              ≡ true))
        e
        (
          refl,
          verify-signed pv (c.proposal_sign_bytes chain_id proposal) _
              (c.proposal_sign_bytes-signature chain_id proposal _) (ap (λ r. r.1) e),
        )

  -- A signature that verifies with a public key was made with a key of its address: `Ecrecover` gives
  -- the 4 and bytes whose digest spells the address.
  pub verify_signature-recovers :
      (key : EcdsaPubKey) (msg sig : Bytes)
      → verify_signature c key msg sig ≡ true
      → (rest : Bytes) × (c.ecrecover (c.keccak256 msg) sig ≡ some (4 ∷ rest))
        × (pub_key_to_address c.keccak256 rest ≡ key.address)
  unfolding verify_signature recovered
  verify_signature-recovers key msg sig e = by_result (c.ecrecover (c.keccak256 msg) sig) refl e
    where
      by_result :
          (o : Option Bytes)
          → c.ecrecover (c.keccak256 msg) sig ≡ o
          → recovered c key o ≡ true
          → (rest : Bytes) × (c.ecrecover (c.keccak256 msg) sig ≡ some (4 ∷ rest))
            × (pub_key_to_address c.keccak256 rest ≡ key.address)
      by_result none at ok = ground (arith, ok)
      by_result (some []) at ok = ground (arith, ok)
      by_result (some (b ∷ rest)) at ok =
          let four : b ≡ 4 = ground (arith, ok) in
          (rest, at ∙ ap (λ n. some (n ∷ rest)) four, ground (arith, ok, four))
