-- ===== src/Consensus/Safety/Run.antt =====
-- consensus/consensus_state.go: `receiveRoutine`, the invariant and its runs.
use go_minimal_pbft.Prelude.{Option}
use go_minimal_pbft.Interfaces.{Env}
use go_minimal_pbft.Consensus.Monad.{Outcome, ok, panic, final}
use go_minimal_pbft.Consensus.Hoare.{Ends, Ends-final}
use go_minimal_pbft.Consensus.State.{State}
use go_minimal_pbft.Consensus.Signing.{set_priv_validator}
use go_minimal_pbft.Consensus.Routine.{Event, dispatch, Arrives, Step, on_start, Runs, here, then}
use go_minimal_pbft.Consensus.Invariant.{Inv}
use go_minimal_pbft.Consensus.Progress.Kept.{Kept, Good}
use go_minimal_pbft.Consensus.Progress.Update.{HasNext}
use go_minimal_pbft.Consensus.Progress.Commit.{Any}
use go_minimal_pbft.Consensus.Progress.Turn.{
  Brings-of, StepBrings-of, dispatch-Ends, set_priv_validator-Ends, on_start-Ends, Step-Good,
}

module _ (e : Env) where
  -- Nothing but the invariant.
  abbrev pub always : Kept e
  always = record {
    Holds = λ s. Unit;
    IsIn = λ v. Unit;
    IsCommitIn = λ c. Unit;
    quiet = λ s t q h. tt;
    prevoted = λ s t inv lt sg h. tt;
    precommitted = λ s t inv lt p h. tt;
    unlocked = λ r h s polka lt le other holds. tt;
    added = λ v peer_id is_added err votes s got at seen h. tt;
    tracked = λ r votes s set h. tt;
    reset = λ b state s t inv why applied resets h. tt;
  }

  alone : {s : State e} → Inv e s → Good e always s
  alone inv = record { inv = inv; keeps = tt }

  -- In a state with the invariant, at a height below 2^64 - 1, whatever event arrives: the
  -- invariant holds when its handler returns, and also where it panics.
  pub dispatch-Inv :
      (ev : Event e.Block) (s : State e)
      → Inv e s
      → HasNext e s
      → Arrives e ev s
      → Inv e (final (dispatch e ev s))
  dispatch-Inv ev s inv more got =
      (Ends-final (Good e always) (Any e) (dispatch e ev s) (
        dispatch-Ends e always ev s (alone inv) more got
          (Brings-of e always ev (λ v h. tt) (λ c h. tt)))).inv

  without_keeps :
      {A : Type 0} (o : Outcome (State e) A)
      → Ends (Good e always) (Any e) o
      → Ends (Inv e) (Any e) o
  without_keeps (ok a t) h = (h.0.inv, tt)
  without_keeps (panic p t) h = h.inv

  pub set_priv_validator-Inv :
      (p : Option e.PrivValidator) (s : State e)
      → Inv e s
      → Ends (Inv e) (Any e) (set_priv_validator e p s)
  set_priv_validator-Inv p s inv =
      without_keeps (set_priv_validator e p s) (set_priv_validator-Ends e always p s (alone inv))

  pub on_start-Inv : (s : State e) → Inv e s → Ends (Inv e) (Any e) (on_start e s)
  on_start-Inv s inv = without_keeps (on_start e s) (on_start-Ends e always s (alone inv))

  pub Step-Inv : {s t : State e} → Step e s t → Inv e s → HasNext e s → Inv e t
  Step-Inv step inv more =
      (Step-Good e always step (alone inv) more
        (StepBrings-of e always step (λ v h. tt) (λ c h. tt))).inv

  -- The height counter has not come to its last value before any step.
  abbrev pub IsBounded : {s t : State e} → Runs e s t → Type 0
  IsBounded here = Unit
  IsBounded (then {s} step run) = HasNext e s × IsBounded run

  -- From a state with the invariant, a run of the routine in which the height stays below 2^64 -
  -- 1 ends in a state with the invariant.
  pub Runs-Inv : {s t : State e} (run : Runs e s t) → IsBounded run → Inv e s → Inv e t
  Runs-Inv here bounded inv = inv
  Runs-Inv (then step run) bounded inv = Runs-Inv run bounded.1 (Step-Inv step inv bounded.0)
