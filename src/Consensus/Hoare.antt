-- ===== src/Consensus/Hoare.antt =====
-- Rules for what holds when a call ends: `P` in either way, and `Q` where it does not panic.
use go_minimal_pbft.Prelude.{Bool, true, false, ◌≡◌, refl}
use go_minimal_pbft.Messages.{Panic}
use go_minimal_pbft.Consensus.Monad.{
  Outcome, ok, panic, M, final, and_then, after, defer, when, ◌>>=◌, ◌>>◌,
}

abbrev pub Ends : {S A : Type 0} → (S → Type 0) → (S → Type 0) → Outcome S A → Type 0
Ends P Q (ok a t) = P t × Q t
Ends P Q (panic p t) = P t

module _ {S : Type 0} (P Q : S → Type 0) where
  pub Ends-final : {A : Type 0} (o : Outcome S A) → Ends P Q o → P (final o)
  Ends-final (ok a t) h = h.0
  Ends-final (panic p t) h = h

  pub Ends-map :
      {A : Type 0} (R : S → Type 0) (o : Outcome S A)
      → Ends P Q o
      → ((t : S) → P t → Q t → R t)
      → Ends P R o
  Ends-map R (ok a t) h f = (h.0, f t h.0 h.1)
  Ends-map R (panic p t) h f = h

  pub Ends-bind :
      {A B : Type 0} (R : S → Type 0) (m : M S A) (f : A → M S B) (s : S)
      → Ends P R (m s)
      → ((a : A) (t : S) → P t → R t → Ends P Q (f a t))
      → Ends P Q ((m >>= f) s)
  Ends-bind {A} {B} R m f s h k = go (m s) h
    where
      go : (o : Outcome S A) → Ends P R o → Ends P Q (and_then o f)
      go (ok a t) g = k a t g.0 g.1
      go (panic p t) g = g

  pub Ends-then :
      {B : Type 0} (R : S → Type 0) (m : M S (Unit {0})) (n : M S B) (s : S)
      → Ends P R (m s)
      → ((t : S) → P t → R t → Ends P Q (n t))
      → Ends P Q ((m >> n) s)
  Ends-then {B} R m n s h k = go (m s) h
    where
      go : (o : Outcome S (Unit {0})) → Ends P R o → Ends P Q (and_then o (λ _. n))
      go (ok a t) g = k t g.0 g.1
      go (panic p t) g = g

  -- The body may leave `P` broken, where the deferred function mends it.
  pub Ends-defer :
      {A : Type 0} (W : S → Type 0) (m : M S A) (d : M S (Unit {0})) (s : S)
      → W (final (m s))
      → ((t : S) → W t → Ends P Q (d t))
      → Ends P Q (defer m d s)
  Ends-defer {A} W m d s h k = go (m s) h
    where
      run :
          (a : A) (o : Outcome S (Unit {0}))
          → Ends P Q o
          → Ends P Q (elim o [ ok _ u ↦ ok a u | panic p u ↦ panic p u ])
      run a (ok _ u) g = g
      run a (panic p u) g = g

      rerun :
          (p : Panic) (o : Outcome S (Unit {0}))
          → Ends P Q o
          → Ends {A = A} P Q (elim o [ ok _ u ↦ panic p u | panic q u ↦ panic q u ])
      rerun p (ok _ u) g = g.0
      rerun p (panic q u) g = g

      go : (o : Outcome S A) → W (final o) → Ends P Q (after d o)
      go (ok a t) g = run a (d t) (k t g)
      go (panic p t) g = rerun p (d t) (k t g)

  pub Ends-when :
      (b : Bool) (m : M S (Unit {0})) (s : S)
      → (b ≡ true → Ends P Q (m s))
      → (b ≡ false → P s × Q s)
      → Ends P Q (when b m s)
  Ends-when true m s h k = h refl
  Ends-when false m s h k = k refl
