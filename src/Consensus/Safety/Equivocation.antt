-- ===== src/Consensus/Safety/Equivocation.antt =====
-- consensus/consensus_state.go: the votes that a node sends itself in a run.
use go_minimal_pbft.Prelude.{
  ℕ, zero, suc, ◌<◌, ◌≡◌, refl, ap, Option, none, some, List, [], ◌∷◌, get_elem?, subst, arith,
}
use go_minimal_pbft.Messages.{Vote, Bytes}
use go_minimal_pbft.Interfaces.{Env}
use go_minimal_pbft.Consensus.State.{
  Message, proposal_message, vote_message, sync_request, MsgInfo, State,
}
use go_minimal_pbft.Consensus.Routine.{Runs}
use go_minimal_pbft.Consensus.Progress.Kept.{vote_of}
use go_minimal_pbft.Consensus.Invariant.{Inv, Ordered, Ordered-mono, key}
use go_minimal_pbft.Consensus.Safety.Run.{IsBounded, Runs-Inv}

module _ {B : Type 0} where
  -- The vote at a place of the queue.
  abbrev pub vote_in : Option (MsgInfo B) → Option Vote
  vote_in none = none
  vote_in (some mi) = vote_of mi.msg

  abbrev pub vote_at : List (MsgInfo B) → ℕ → Option Vote
  vote_at log i = vote_in (get_elem? log i)

  -- What the order says of a message in front of `log`.
  abbrev Precedes : ℕ → Message B → List (MsgInfo B) → Type 0
  Precedes bound (vote_message v) log = (key v < bound) × Ordered (key v) log
  Precedes bound _ log = Ordered bound log

  Ordered-message :
      (bound : ℕ) (m : Message B) (peer_id : Bytes) (log : List (MsgInfo B))
      → Ordered bound ((record { msg = m; peer_id = peer_id }) ∷ log)
      → Precedes bound m log
  Ordered-message bound (vote_message v) peer_id log h = h
  Ordered-message bound (proposal_message p) peer_id log h = h
  Ordered-message bound (sync_request r) peer_id log h = h

  first :
      (bound : ℕ) (mi : MsgInfo B) (log : List (MsgInfo B))
      → Ordered bound (mi ∷ log)
      → Precedes bound mi.msg log
  first bound mi log h = Ordered-message bound mi.msg mi.peer_id log h

  weaken :
      (bound : ℕ) (m : Message B) (log : List (MsgInfo B))
      → Precedes bound m log
      → Ordered bound log
  weaken bound (vote_message v) log h = Ordered-mono (key v) bound log (omega (arith, h)) h.1
  weaken bound (proposal_message p) log h = h
  weaken bound (sync_request r) log h = h

  head_below :
      (bound : ℕ) (m : Message B) (log : List (MsgInfo B)) (v : Vote)
      → Precedes bound m log
      → vote_of m ≡ some v
      → (key v < bound) × Ordered (key v) log
  head_below bound (vote_message w) log v h at =
      subst (λ u. (key u < bound) × Ordered (key u) log)
        (ap (λ o. elim o [ none ↦ w | some x ↦ x ]) at) h
  head_below bound (proposal_message p) log v h at = ground (arith, at)
  head_below bound (sync_request r) log v h at = ground (arith, at)

  -- All that is sent lies below the bound.
  below :
      (bound : ℕ) (log : List (MsgInfo B)) (i : ℕ) (v : Vote)
      → Ordered bound log
      → vote_at log i ≡ some v
      → key v < bound
  below bound [] i v h at = ground (arith, at)
  below bound (mi ∷ log) zero v h at = (head_below bound mi.msg log v (first bound mi log h) at).0
  below bound (mi ∷ log) (suc i) v h at =
      below bound log i v (weaken bound mi.msg log (first bound mi log h)) at

  -- Two places that hold votes with one rank are one place.
  once :
      (bound : ℕ) (log : List (MsgInfo B)) (i j : ℕ) (v w : Vote)
      → Ordered bound log
      → vote_at log i ≡ some v
      → vote_at log j ≡ some w
      → key v ≡ key w
      → i ≡ j
  once bound [] i j v w h at at' same = ground (arith, at)
  once bound (mi ∷ log) zero zero v w h at at' same = refl
  once bound (mi ∷ log) zero (suc j) v w h at at' same =
      let lt =
        below (key v) log j w (head_below bound mi.msg log v (first bound mi log h) at).1 at' in
      ground (arith, lt, same)
  once bound (mi ∷ log) (suc i) zero v w h at at' same =
      let lt =
        below (key w) log i v (head_below bound mi.msg log w (first bound mi log h) at').1 at in
      ground (arith, lt, same)
  once bound (mi ∷ log) (suc i) (suc j) v w h at at' same =
      ap suc (once bound log i j v w (weaken bound mi.msg log (first bound mi log h)) at at' same)

module _ (e : Env) where
  -- In a run of the routine from a state with the invariant, in which the height stays below 2^64
  -- - 1, two votes that the node signed for one height, round and type are one vote: they stand
  -- at the same place of the list of all that it sent itself.
  pub no_equivocation :
      {s t : State e} (run : Runs e s t) (i j : ℕ) (v w : Vote)
      → Inv e s
      → IsBounded e run
      → vote_at t.internal_msg_queue i ≡ some v
      → vote_at t.internal_msg_queue j ≡ some w
      → v.height ≡ w.height
      → v.round ≡ w.round
      → v.msg_type ≡ w.msg_type
      → i ≡ j
  no_equivocation {s} {t} run i j v w inv bounded at at' height round type =
      once _ t.internal_msg_queue i j v w (Runs-Inv e run bounded inv).ordered at at'
        (grind (arith, height, round, type))
