-- ===== src/Consensus/Safety/Lock.antt =====
-- consensus/consensus_state.go: when a vote that comes in releases the lock.
use go_minimal_pbft.Prelude.{◌≡◌, refl, ◌⊎◌, inl, inr, false, Option, none, some, Bool-cases, arith}
use go_minimal_pbft.Prelude.Int.{ℤ, ◌<ℤ◌, ◌≤ℤ◌}
use go_minimal_pbft.Messages.{Hash}
use go_minimal_pbft.Interfaces.{Env}
use go_minimal_pbft.Consensus.Monad.{final}
use go_minimal_pbft.Consensus.State.{State}
use go_minimal_pbft.Consensus.AddVote.Polka.{
  unlocks, unlock_on_polka, update_valid_block, on_majority, on_polka,
}

module _ (e : Env) where
  -- The locked block and its round are the same.
  abbrev pub LockSame : State e → State e → Type 0
  LockSame s t = (t.locked_block ≡ s.locked_block) × (t.locked_round ≡ s.locked_round)

  -- +2/3 of the prevotes of a round after the lock's are for another block or nil.
  abbrev pub IsOutvoted : ℤ → Option e.VoteSet → State e → Type 0
  IsOutvoted round prevotes s =
      (h : Hash) × (e.two_thirds_majority prevotes ≡ some h)
      × (s.locked_round <ℤ round)
      × (round ≤ℤ s.round)
      × (e.hash_to s.locked_block h ≡ false)

  on_majority-Lock :
      (round : ℤ) (p : Option e.VoteSet) (o : Option Hash) (s : State e)
      → e.two_thirds_majority p ≡ o
      → LockSame s (final (on_majority e round o s)) ⊎ IsOutvoted round p s
  unfolding on_majority unlock_on_polka update_valid_block unlocks
  on_majority-Lock round p none s got = inl (refl, refl)
  on_majority-Lock round p (some h) s got = elim (Bool-cases (unlocks e round h s)) [
    | inl free ↦ inr (h, got, ground (arith, free), ground (arith, free), ground (arith, free))
    | inr stay ↦ inl (ground (arith, stay))
  ]

  -- What a prevote changes before the node enters a step keeps the locked block and its round,
  -- unless +2/3 of the prevotes of its round, which is later than the lock's and not ahead of the
  -- current one, are for another block or nil.
  pub on_polka-Lock :
      (round : ℤ) (prevotes : Option e.VoteSet) (s : State e)
      → LockSame s (final (on_polka e round prevotes s)) ⊎ IsOutvoted round prevotes s
  unfolding on_polka
  on_polka-Lock round prevotes s =
      on_majority-Lock round prevotes (e.two_thirds_majority prevotes) s refl
