-- ===== src/Node/After.antt =====
-- cmd/main/node.go: what holds of the value that a step of `runNode` goes on with.
use go_minimal_pbft.Prelude.{◌≡◌, refl, Bool, true, false, Option, none, some}
use go_minimal_pbft.KeyFiles.{KeyResult, key_ok, key_error, key_panic}
use go_minimal_pbft.Node.{
  StartError, Startup, goes_on, gives_up, crashes, still_syncing, ◌>>=◌, or_give_up, with_server,
  unless, with_key,
}

-- `P` holds of the value that is gone on with, and block sync ends.
unfoldable pub After : {A : Type 0} → (A → Type 0) → Startup A → Type 0
After P (goes_on a) = P a
After P (gives_up err) = Unit
After P crashes = Unit
After P still_syncing = ⊥

pub After-bind :
    {A B : Type 0} (P : A → Type 0) (Q : B → Type 0) (m : Startup A) (next : A → Startup B)
    → After P m
    → ((a : A) → P a → After Q (next a))
    → After Q (m >>= next)
unfolding After ◌>>=◌
After-bind P Q (goes_on a) next first rest = rest a first
After-bind P Q (gives_up err) next first rest = tt
After-bind P Q crashes next first rest = tt
After-bind P Q still_syncing next first rest = elim first [ ]

pub After-map :
    {A : Type 0} (P Q : A → Type 0) (m : Startup A) → After P m → ((a : A) → P a → Q a) → After Q m
unfolding After
After-map P Q (goes_on a) h f = f a h
After-map P Q (gives_up err) h f = tt
After-map P Q crashes h f = tt
After-map P Q still_syncing h f = h

pub or_give_up-After :
    {A : Type 0} (err : StartError) (o : Option A) → After (λ a. o ≡ some a) (or_give_up err o)
unfolding After or_give_up
or_give_up-After err none = tt
or_give_up-After err (some a) = refl

pub unless-After : (err : StartError) (good : Bool) → After (λ _. good ≡ true) (unless err good)
unfolding After unless
unless-After err true = refl
unless-After err false = tt

pub with_key-After :
    {A : Type 0} (err : StartError) (r : KeyResult A) → After (λ a. r ≡ key_ok a) (with_key err r)
unfolding After with_key
with_key-After err (key_ok a) = refl
with_key-After err (key_error _) = tt
with_key-After err key_panic = tt

pub with_server-After :
    (has_server : Bool) → After (λ _. has_server ≡ true) (with_server has_server)
unfolding After with_server
with_server-After true = refl
with_server-After false = tt
