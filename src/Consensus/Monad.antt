-- ===== src/Consensus/Monad.antt =====
-- Functions on a mutable state that may panic. The state comes back after a panic too, since what
-- was written stays written, and since deferred functions run then.
use go_minimal_pbft.Prelude.{Bool, Option, none, some, if◌then◌else◌}
use go_minimal_pbft.Messages.{Panic, int32_overflow}
use go_minimal_pbft.Prelude.Int.{ℤ}
use go_minimal_pbft.SafeMath.{Checked, value, overflow}

pub data Outcome (S A : Type 0) : Type 0 where
  ok : A → S → Outcome S A
  panic : Panic → S → Outcome S A

abbrev pub M : Type 0 → Type 0 → Type 0
M S A = S → Outcome S A

-- The state in which a call ends, in either way.
abbrev pub final : {S A : Type 0} → Outcome S A → S
final (ok a t) = t
final (panic p t) = t

module _ {S : Type 0} where
  abbrev pub pure : {A : Type 0} → A → M S A
  pure a s = ok a s

  abbrev pub get : M S S
  get s = ok s s

  abbrev pub modify : (S → S) → M S (Unit {0})
  modify f s = ok tt (f s)

  abbrev pub throw : {A : Type 0} → Panic → M S A
  throw p s = panic p s

  abbrev pub or_panic : {A : Type 0} → Panic → Option A → M S A
  or_panic p none = throw p
  or_panic p (some a) = pure a

  abbrev pub checked : Checked → M S ℤ
  checked (value a) = pure a
  checked overflow = throw int32_overflow

abbrev pub and_then : {S A B : Type 0} → Outcome S A → (A → M S B) → Outcome S B
and_then (ok a t) f = f a t
and_then (panic p t) f = panic p t

infixl 5 ◌>>=◌ ◌>>◌
abbrev pub ◌>>=◌ : {S A B : Type 0} → M S A → (A → M S B) → M S B
◌>>=◌ m f s = and_then (m s) f

abbrev pub ◌>>◌ : {S B : Type 0} → M S (Unit {0}) → M S B → M S B
◌>>◌ m k s = and_then (m s) (λ _. k)

-- `defer d` in front of the body `m`: `d` runs however `m` ends, and a panic goes on after it.
abbrev pub after : {S A : Type 0} → M S (Unit {0}) → Outcome S A → Outcome S A
after d (ok a t) = elim (d t) [ ok _ u ↦ ok a u | panic p u ↦ panic p u ]
after d (panic p t) = elim (d t) [ ok _ u ↦ panic p u | panic q u ↦ panic q u ]

abbrev pub defer : {S A : Type 0} → M S A → M S (Unit {0}) → M S A
defer m d s = after d (m s)

abbrev pub when : {S : Type 0} → Bool → M S (Unit {0}) → M S (Unit {0})
when b m s = if b then m s else ok tt s
