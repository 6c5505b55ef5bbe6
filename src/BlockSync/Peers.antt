-- ===== src/BlockSync/Peers.antt =====
-- p2p/block_sync.go: the loop over the peers.
use go_minimal_pbft.Prelude.{
  ℕ, ◌≤◌, ◌≡◌, refl, Option, none, some, List, [], ◌∷◌, All, All-map, arith,
}
use go_minimal_pbft.Messages.{Bytes}
use go_minimal_pbft.Interfaces.{Env}
use go_minimal_pbft.P2p.Wire.{WireRlp}
use go_minimal_pbft.BlockSync.{Network, Best, better, last_height, ask}

-- No peer reports more than `bound`.
abbrev pub Reported : (Bytes → Option ℕ) → List Bytes → ℕ → Type 0
Reported hello ps bound = All (λ p. (h : ℕ) → hello p ≡ some h → h ≤ bound) ps

pub Reported-le :
    (hello : Bytes → Option ℕ) (ps : List Bytes) (m n : ℕ)
    → m ≤ n
    → Reported hello ps m
    → Reported hello ps n
Reported-le hello ps m n le =
    All-map (λ p. (h : ℕ) → hello p ≡ some h → h ≤ m) (λ p most h eq. omega (arith, most h eq, le))
      ps

better-height : (best : Best) (p : Bytes) (o : Option ℕ) → best.height ≤ (better best p o).height
better-height best p none = omega arith
better-height best p (some h) = ground arith

better-Reported :
    (best : Best) (p : Bytes) (o : Option ℕ) (h : ℕ) → o ≡ some h → h ≤ (better best p o).height
better-Reported best p none h eq = ground (arith, eq)
better-Reported best p (some k) h eq = ground (arith, eq)

better-bound :
    (best : Best) (p : Bytes) (o : Option ℕ) (bound : ℕ)
    → best.height ≤ bound
    → ((h : ℕ) → o ≡ some h → h ≤ bound)
    → (better best p o).height ≤ bound
better-bound best p none bound le most = le
better-bound best p (some k) bound le most = ground (arith, le, most k refl)

module _ (e : Env) (rlp : WireRlp e.Block) (net : Network) where
  pub ask-height :
      (n : ℕ) (ps : List Bytes) (best : Best) → best.height ≤ (ask e rlp net n ps best).height
  unfolding ask
  ask-height n [] best = omega arith
  ask-height n (p ∷ ps) best = omega (
    arith,
    better-height best p (last_height e rlp net n p),
    ask-height n ps (better best p (last_height e rlp net n p)),
  )

  pub ask-Reported :
      (n : ℕ) (ps : List Bytes) (best : Best)
      → Reported (last_height e rlp net n) ps (ask e rlp net n ps best).height
  unfolding ask
  ask-Reported n [] best = tt
  ask-Reported n (p ∷ ps) best =
      let next = better best p (last_height e rlp net n p) in
      (
        λ h eq.
            omega (
              arith,
              better-Reported best p (last_height e rlp net n p) h eq,
              ask-height n ps next,
            ),
        ask-Reported n ps next,
      )

  pub ask-bound :
      (n : ℕ) (ps : List Bytes) (best : Best) (bound : ℕ)
      → best.height ≤ bound
      → Reported (last_height e rlp net n) ps bound
      → (ask e rlp net n ps best).height ≤ bound
  unfolding ask
  ask-bound n [] best bound le most = le
  ask-bound n (p ∷ ps) best bound le (most, rest) =
      ask-bound n ps (better best p (last_height e rlp net n p)) bound
        (better-bound best p (last_height e rlp net n p) bound le most) rest
