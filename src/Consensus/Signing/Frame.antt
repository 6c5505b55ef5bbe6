-- ===== src/Consensus/Signing/Frame.antt =====
-- consensus/consensus_state.go: what `signAddVote` and `sendInternalMessage` change.
use go_minimal_pbft.Prelude.{◌≡◌, ◌⊎◌, inl, inr, ap, Option, none, some, [], ◌∷◌, arith}
use go_minimal_pbft.Messages.{Hash, SignedMsgType, Vote}
use go_minimal_pbft.Interfaces.{Env}
use go_minimal_pbft.Consensus.Monad.{Outcome, ok, panic, final, and_then}
use go_minimal_pbft.Consensus.State.{vote_message, State}
use go_minimal_pbft.Consensus.Signing.{sign_vote, push_vote, sign_add_vote}

module _ (e : Env) where
  -- The vote carries the state's height and round, and the type and hash that were asked for.
  pub record IsVoteOf (msg_type : SignedMsgType) (h : Hash) (s : State e) (v : Vote) : Type 0 where
    pub at_height : v.height ≡ s.height
    pub at_round : v.round ≡ s.round
    pub of_type : v.msg_type ≡ msg_type
    pub for_block : v.block_id ≡ h

  -- The signer, what was sent to the peers and the count of steps are as they were.
  abbrev pub AsBefore : State e → State e → Type 0
  AsBefore s t =
      (t.priv_validator ≡ s.priv_validator)
      × (t.priv_validator_pub_key ≡ s.priv_validator_pub_key)
      × (t.priv_validator_type ≡ s.priv_validator_type)
      × (t.n_steps ≡ s.n_steps)
      × (t.peer_out_msg_queue ≡ s.peer_out_msg_queue)

  -- From `s` to `t` at most one vote was sent, and nothing else changed but the clock's count.
  pub record Signs (msg_type : SignedMsgType) (h : Hash) (s t : State e) : Type 0 where
    pub same_rs : t.rs ≡ s.rs
    pub same_chain : t.chain_state ≡ s.chain_state
    pub same_ticks : t.tick_chan ≡ s.tick_chan
    pub same_store : t.block_store ≡ s.block_store
    pub same_rest : AsBefore s t
    pub sent :
        (t.internal_msg_queue ≡ s.internal_msg_queue)
        ⊎ ((v : Vote) × IsVoteOf msg_type h s v
            × (t.internal_msg_queue
                ≡ (record { msg = vote_message v; peer_id = [] }) ∷ s.internal_msg_queue))

  -- All but the clock's count is as it was.
  abbrev Same : State e → State e → Type 0
  Same s t =
      (t.rs ≡ s.rs)
      × (t.chain_state ≡ s.chain_state)
      × (t.tick_chan ≡ s.tick_chan)
      × (t.block_store ≡ s.block_store)
      × AsBefore s t
      × (t.internal_msg_queue ≡ s.internal_msg_queue)

  abbrev AsAsked : SignedMsgType → Hash → State e → Outcome (State e) (Option Vote) → Type 0
  AsAsked ty h s (ok none t) = Same s t
  AsAsked ty h s (ok (some v) t) = Same s t × IsVoteOf ty h s v
  AsAsked ty h s (panic p t) = Same s t

  sign_vote-AsAsked :
      (ty : SignedMsgType) (h : Hash) (s : State e) → AsAsked ty h s (sign_vote e ty h s)
  unfolding sign_vote
  sign_vote-AsAsked ty h s =
      grind
        (arith, e.sign_vote-height, e.sign_vote-round, e.sign_vote-msg_type, e.sign_vote-block_id)

  push_vote-Signs :
      (ty : SignedMsgType) (h : Hash) (s : State e) (o : Outcome (State e) (Option Vote))
      → AsAsked ty h s o
      → Signs ty h s (final (and_then o (push_vote e)))
  unfolding push_vote
  push_vote-Signs ty h s (ok none t) (r, c, k, b, f, q) = record {
    same_rs = r;
    same_chain = c;
    same_ticks = k;
    same_store = b;
    same_rest = f;
    sent = inl q;
  }
  push_vote-Signs ty h s (ok (some v) t) ((r, c, k, b, f, q), a) = record {
    same_rs = r;
    same_chain = c;
    same_ticks = k;
    same_store = b;
    same_rest = f;
    sent = inr (v, a, ap (λ l. record { msg = vote_message v; peer_id = [] } ∷ l) q);
  }
  push_vote-Signs ty h s (panic p t) (r, c, k, b, f, q) = record {
    same_rs = r;
    same_chain = c;
    same_ticks = k;
    same_store = b;
    same_rest = f;
    sent = inl q;
  }

  pub sign_add_vote-Signs :
      (ty : SignedMsgType) (h : Hash) (s : State e) → Signs ty h s (final (sign_add_vote e ty h s))
  unfolding sign_add_vote
  sign_add_vote-Signs ty h s =
      ground (arith, push_vote-Signs ty h s (sign_vote e ty h s) (sign_vote-AsAsked ty h s))
