-- ===== src/Consensus/Agreement/Growth.antt =====
-- consensus/consensus_state.go: the votes that a node has cast, newest first, only grow, and their ranks
-- fall.
use go_minimal_pbft.Prelude.{ℕ, ◌<◌, ◌≡◌, sym, ◌∙◌, subst, inl, inr, List, [], ◌∷◌, arith}
use go_minimal_pbft.Messages.{Bytes, Hash, SignedMsgType, Vote}
use go_minimal_pbft.Interfaces.{Env}
use go_minimal_pbft.Consensus.State.{
  proposal_message, vote_message, sync_request, Message, MsgInfo, State,
}
use go_minimal_pbft.Consensus.Signing.Frame.{Signs}
use go_minimal_pbft.Consensus.Invariant.{Ordered, key}
use go_minimal_pbft.Consensus.Progress.Kept.{Kept, votes_in}
use go_minimal_pbft.Consensus.Agreement.Knows.{Cast}

-- The second list has votes in front of the first one.
pub data Grows (old : List Vote) : List Vote → Type 0 where
  same : Grows old old
  more : {new : List Vote} (v : Vote) → Grows old new → Grows old (v ∷ new)

pub Grows-trans : {a b c : List Vote} → Grows a b → Grows b c → Grows a c
Grows-trans g same = g
Grows-trans g (more v h) = more v (Grows-trans g h)

pub Grows-Cast : {old new : List Vote} (v : Vote) → Grows old new → Cast v old → Cast v new
Grows-Cast v same c = c
Grows-Cast v (more w g) c = inr (Grows-Cast v g c)

-- Each vote ranks below those in front of it.
abbrev pub Falling : ℕ → List Vote → Type 0
Falling bound [] = Unit
Falling bound (v ∷ log) = (key v < bound) × Falling (key v) log

module _ {B : Type 0} where
  Falling-in_front :
      (bound : ℕ) (m : Message B) (peer_id : Bytes) (log : List (MsgInfo B))
      → Ordered bound ((record { msg = m; peer_id = peer_id }) ∷ log)
      → ((b : ℕ) → Ordered b log → Falling b (votes_in log))
      → Falling bound (votes_in ((record { msg = m; peer_id = peer_id }) ∷ log))
  Falling-in_front bound (proposal_message p) peer_id log h rest = rest bound h
  Falling-in_front bound (sync_request r) peer_id log h rest = rest bound h
  Falling-in_front bound (vote_message v) peer_id log h rest = (h.0, rest (key v) h.1)

  pub Ordered-Falling :
      (bound : ℕ) (log : List (MsgInfo B)) → Ordered bound log → Falling bound (votes_in log)
  Ordered-Falling bound [] h = tt
  Ordered-Falling bound (mi ∷ log) h =
      Falling-in_front bound mi.msg mi.peer_id log h (λ b. Ordered-Falling b log)

Falling-below :
    (bound : ℕ) (log : List Vote) (v : Vote) → Falling bound log → Cast v log → key v < bound
Falling-below bound [] v f c = elim c [ ]
Falling-below bound (w ∷ log) v f (inl at) = subst (λ x. key x < bound) (sym at) f.0
Falling-below bound (w ∷ log) v f (inr c) =
    let lt = Falling-below (key w) log v f.1 c in omega (arith, lt, f.0)

-- Votes of one rank are one vote.
pub Falling-once :
    (bound : ℕ) (log : List Vote) (v w : Vote)
    → Falling bound log
    → Cast v log
    → Cast w log
    → key v ≡ key w
    → v ≡ w
Falling-once bound [] v w f c d at = elim c [ ]
Falling-once bound (x ∷ log) v w f (inl c) (inl d) at = c ∙ sym d
Falling-once bound (x ∷ log) v w f (inl c) (inr d) at =
    let lt : key w < key v =
      subst (λ y. key w < key y) (sym c) (Falling-below (key x) log w f.1 d) in
    ground (arith, lt, at)
Falling-once bound (x ∷ log) v w f (inr c) (inl d) at =
    let lt : key v < key w =
      subst (λ y. key v < key y) (sym d) (Falling-below (key x) log v f.1 c) in
    ground (arith, lt, at)
Falling-once bound (x ∷ log) v w f (inr c) (inr d) at = Falling-once (key x) log v w f.1 c d at

-- A vote that ranks below one that was there already was there too.
pub Falling-before :
    {old new : List Vote} (bound : ℕ) (v w : Vote)
    → Grows old new
    → Falling bound new
    → Cast v new
    → Cast w old
    → key v < key w
    → Cast v old
Falling-before bound v w same f c d lt = c
Falling-before bound v w (more x g) f (inl c) d lt =
    let below : key w < key v =
      subst (λ y. key w < key y) (sym c) (Falling-below (key x) _ w f.1 (Grows-Cast w g d)) in
    let bad : ⊥ = omega (arith, below, lt) in elim bad [ ]
Falling-before bound v w (more x g) f (inr c) d lt = Falling-before (key x) v w g f.1 c d lt

module _ (e : Env) (old : List Vote) where
  abbrev pub Extends : State e → Type 0
  Extends s = Grows old (votes_in s.internal_msg_queue)

  pub Signs-Extends :
      (ty : SignedMsgType) (h : Hash) (s t : State e) → Signs e ty h s t → Extends s → Extends t
  Signs-Extends ty h s t sg g = elim sg.sent [
    | inl kept ↦ subst (λ log. Grows old (votes_in log)) (sym kept) g
    | inr (v, is, new) ↦ subst (λ log. Grows old (votes_in log)) (sym new) (more v g)
  ]

  -- What was cast stays cast.
  abbrev pub growing : Kept e
  growing = record {
    Holds = Extends;
    IsIn = λ v. Unit;
    IsCommitIn = λ c. Unit;
    quiet = λ s t q g. subst (Grows old) (sym q.same_cast) g;
    prevoted = λ s t inv lt sg g. Signs-Extends _ _ s t sg g;
    precommitted = λ s t inv lt p g.
        Signs-Extends _ _ p.mid t p.signs
          (subst (λ log. Grows old (votes_in log)) (sym p.queue_same) g);
    unlocked = λ r h s polka lt le other g. g;
    added = λ v peer_id is_added err votes s got at seen g. g;
    tracked = λ r votes s set g. g;
    reset = λ b state s t inv why applied resets g.
        subst (λ log. Grows old (votes_in log)) (sym resets.same_queue) g;
  }
