-- ===== src/Consensus/Agreement/Mono.antt =====
-- consensus/consensus_state.go: what rests on some votes rests on more of them.
use go_minimal_pbft.Prelude.{ℕ, ◌⊎◌, inl, inr, List}
use go_minimal_pbft.Prelude.Int.{ℤ}
use go_minimal_pbft.Messages.{Hash, Vote}
use go_minimal_pbft.Interfaces.{Env}
use go_minimal_pbft.Consensus.State.{RoundState}
use go_minimal_pbft.Consensus.Agreement.Tally.{Validators, Tally}
use go_minimal_pbft.Consensus.Agreement.Knows.{Polka, IsOutvoted, Knows}

module _ (q : Validators) (V W : Vote → Type 0) (sub : (v : Vote) → V v → W v) where
  pub Polka-mono : (n : ℕ) (r : ℤ) (h : Hash) → Polka q V n r h → Polka q W n r h
  Polka-mono n r h = q.Quorum-mono _ _ (λ a (v, known, at, for). (v, sub v known, at, for))

  IsOutvoted-sub : (p : Vote) (r : ℤ) → IsOutvoted q V p r → IsOutvoted q W p r
  IsOutvoted-sub p r o = record {
    round = o.round;
    block_id = o.block_id;
    later = o.later;
    not_ahead = o.not_ahead;
    other = o.other;
    polka = Polka-mono p.height o.round o.block_id o.polka;
  }

  or_outvoted : {A : Type 0} (p : Vote) (r : ℤ) → A ⊎ IsOutvoted q V p r → A ⊎ IsOutvoted q W p r
  or_outvoted p r (inl a) = inl a
  or_outvoted p r (inr o) = inr (IsOutvoted-sub p r o)

  pub Knows-mono :
      (e : Env) (tally : Tally q e.lib) (r : RoundState e) (log : List Vote)
      → Knows q V e tally r log
      → Knows q W e tally r log
  Knows-mono e tally r log k = record {
    recorded = λ v h. let (known, at) = k.recorded v h in (sub v known, at);
    nonneg = k.nonneg;
    polkas = λ p c is. Polka-mono p.height p.round p.block_id (k.polkas p c is);
    held = λ p c is at. or_outvoted p r.round (k.held p c is at);
    prevoted = λ p w c d is ty at lt. or_outvoted p w.round (k.prevoted p w c d is ty at lt);
  }
