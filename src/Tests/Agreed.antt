-- ===== src/Tests/Agreed.antt =====
-- A network of one validator, whose node precommits the first block.
use go_minimal_pbft.Prelude.{
  ℕ, ◌≡◌, ◌≢◌, refl, sym, ap, subst, ◌⊎◌, inl, inr, true, Bool, ◌&&◌, ◌==◌, Option, none, some,
  List, [], ◌∷◌, Bool-cases, if◌then◌else◌, arith,
}
use go_minimal_pbft.Prelude.Int.{ℤ, pos, eqb_ℤ, eq_of_parts}
use go_minimal_pbft.Messages.{
  Hash, zero_hash, Address, Bytes, SignedMsgType, prevote_type, precommit_type, proposal_type,
  other_type, is_prevote, is_precommit, Vote, VoteError,
}
use go_minimal_pbft.Interfaces.{Env}
use go_minimal_pbft.Consensus.Agreement.Tally.{Validators, Tally, IsFor}
use go_minimal_pbft.Consensus.Agreement.Knows.{Cast}
use go_minimal_pbft.Consensus.State.{State}
use go_minimal_pbft.Consensus.Invariant.{Inv}
use go_minimal_pbft.Consensus.New.{new_consensus_state}
use go_minimal_pbft.Consensus.Routine.{Step}
use go_minimal_pbft.Consensus.Progress.Kept.{votes_in}
use go_minimal_pbft.Consensus.Progress.Update.{HasNext}
use go_minimal_pbft.Consensus.Progress.Turn.{step_vote, step_commit}
use go_minimal_pbft.Consensus.Agreement.Network.{Net, NetStep, IsFresh, Possible, WasCast, cast_by}
use go_minimal_pbft.Tests.Script.{made, made-Inv}
use go_minimal_pbft.Tests.Toy.{toy_library, toy, newest_for, prevotes_of, precommits_of}

-- Validator 7 is the only one, and honest.
abbrev pub only7 : Validators
only7 = record {
  Honest = λ a. a ≡ 7;
  Genuine = λ v. v.validator_address ≡ 7;
  Quorum = λ P. P 7;
  Quorum-mono = λ P Q f h. f 7 h;
  Quorum-meet = λ P Q h k. (7, refl, h, k);
}

abbrev Counted : Option (List Vote) → Vote → Type 0
Counted none v = ⊥
Counted (some votes) v = Cast v votes × (v.validator_address ≡ 7)

newest_for-Cast :
    (is : SignedMsgType → Bool) (ty : SignedMsgType) (r : ℤ) (votes : List Vote) (h : Hash)
    → ((t : SignedMsgType) → is t ≡ true → t ≡ ty)
    → newest_for is r votes ≡ some h
    → (v : Vote) × (Cast v votes × (v.validator_address ≡ 7)) × IsFor 7 ty r h v
newest_for-Cast is ty r [] h only got = ground (arith, got)
newest_for-Cast is ty r (v ∷ votes) h only got =
    elim (Bool-cases (is v.msg_type && eqb_ℤ v.round r && v.validator_address == 7)) [
      | inl this ↦
          let addr : v.validator_address ≡ 7 = ground (arith, this) in
          (
            v,
            (inl refl, addr),
            record {
              by_address = addr;
              of_type = only v.msg_type (ground (arith, this));
              at_round = eq_of_parts v.round r (ground (arith, this));
              for_block = ground (arith, got, this);
            },
          )
      | inr other ↦
          let (w, counted, for) =
            newest_for-Cast is ty r votes h only (ground (arith, got, other)) in
          (w, (inr counted.0, counted.1), for)
    ]

only_prevote : (t : SignedMsgType) → is_prevote t ≡ true → t ≡ prevote_type
only_prevote prevote_type h = refl
only_prevote precommit_type h = ground (arith, h)
only_prevote proposal_type h = ground (arith, h)
only_prevote other_type h = ground (arith, h)

only_precommit : (t : SignedMsgType) → is_precommit t ≡ true → t ≡ precommit_type
only_precommit prevote_type h = ground (arith, h)
only_precommit precommit_type h = refl
only_precommit proposal_type h = ground (arith, h)
only_precommit other_type h = ground (arith, h)

newest_for-from :
    (is : SignedMsgType → Bool) (ty : SignedMsgType) (r : ℤ) (votes : List Vote) (h : Hash)
    → ((t : SignedMsgType) → is t ≡ true → t ≡ ty)
    → newest_for is r votes ≡ some h
    → (v : Vote) × Counted (some votes) v × IsFor 7 ty r h v
newest_for-from is ty r votes h only got = newest_for-Cast is ty r votes h only got

pub prevotes-Counted :
    (s : Option (List Vote)) (r : ℤ) (h : Hash)
    → prevotes_of s r ≡ some h
    → (v : Vote) × Counted s v × IsFor 7 prevote_type r h v
prevotes-Counted none r h got = ground (arith, got)
prevotes-Counted (some votes) r h got =
    newest_for-from is_prevote prevote_type r votes h only_prevote got

pub precommits-Counted :
    (s : Option (List Vote)) (r : ℤ) (h : Hash)
    → precommits_of s r ≡ some h
    → (v : Vote) × Counted s v × IsFor 7 precommit_type r h v
precommits-Counted none r h got = ground (arith, got)
precommits-Counted (some votes) r h got =
    newest_for-from is_precommit precommit_type r votes h only_precommit got

pub none-Counted : (v : Vote) → Counted (some []) v → ⊥
none-Counted v h = h.0

pub reset-Counted :
    (s t : Option (List Vote)) (v : Vote) → some s ≡ some t → Counted t v → Counted s v
reset-Counted s t v same h =
    subst (λ x. Counted x v) (ap (λ o. elim o [ none ↦ s | some x ↦ x ]) (sym same)) h

pub add-Counted :
    (s t : Option (List Vote)) (u v : Vote) (peer_id : Bytes) (added : Bool)
    (err : Option VoteError)
    → toy.add_vote s u peer_id ≡ some (added, err, t)
    → Counted t v
    → ((v ≡ u) × (u.validator_address ≡ 7)) ⊎ Counted s v
add-Counted none t u v peer_id added err got h = ground (arith, got)
add-Counted (some votes) t u v peer_id added err got h =
    let (c, at) =
      subst (λ x. Counted x v) (sym (ap (λ o. elim o [ none ↦ t | some x ↦ x.2 ]) got)) h in
    elim c [
      | inl same ↦ inl (same, subst (λ x. x.validator_address ≡ 7) same at)
      | inr old ↦ inr (old, at)
    ]

abbrev pub seven : ℕ → ℤ → Hash → Vote
seven n r h = record {
  msg_type = precommit_type;
  height = n;
  round = r;
  timestamp_ms = 0;
  block_id = h;
  validator_address = 7;
  validator_index = pos 0;
  signature = [];
}

abbrev pub toy_tally : Tally only7 toy_library
toy_tally = record {
  Recorded = Counted;
  Recorded-new = λ c n vals v h. none-Counted v h;
  Recorded-set_round = λ s t r v same h. reset-Counted s t v same h;
  Recorded-add_vote = add-Counted;
  prevotes-Quorum = prevotes-Counted;
  precommits-Quorum = precommits-Counted;
  Carries = λ c v. Unit;
  verify_commit-Quorum = λ vals c h n commit ok. (
    pos 0,
    (
      seven n (pos 0) h,
      tt,
      refl,
      refl,
      record { by_address = refl; of_type = refl; at_round = refl; for_block = refl },
    ),
  );
}

pub hash_nonzero : (a : Address) (b : ℕ) → toy.hash b ≢ zero_hash
hash_nonzero a b h = ground (arith, h)

abbrev pub toys : Address → Env
toys a = toy

-- The nodes of addresses 7 and 8 are in these states, and any other in the one that it was made in.
abbrev pub two : State toy → State toy → Net only7 toys
two s t a = if a == 7 then s else if a == 8 then t else made

pub not_seven : (s s' t : State toy) (a : Address) → a ≢ 7 → two s' t a ≡ two s t a
not_seven s s' t a other = elim (Bool-cases (a == 7)) [
  | inl here ↦ ground (arith, here, other)
  | inr there ↦ rw there refl
]

pub not_eight : (s t t' : State toy) (a : Address) → a ≢ 8 → two s t' a ≡ two s t a
not_eight s t t' a other = elim (Bool-cases (a == 8)) [
  | inl here ↦ ground (arith, here, other)
  | inr there ↦ rw there refl
]

both_made : (a : Address) → two made made a ≡ made
both_made a = elim (Bool-cases (a == 7)) [
  | inl here ↦ rw here refl
  | inr there ↦
      rw there (elim (Bool-cases (a == 8)) [ inl here ↦ rw here refl | inr there ↦ rw there refl ])
]

none_recorded : (v : Vote) → Counted made.votes v → ⊥
unfolding new_consensus_state
none_recorded v h = h.0

nothing_sent : votes_in made.internal_msg_queue ≡ []
unfolding new_consensus_state
nothing_sent = refl

pub made-IsFresh : IsFresh only7 toys (λ a. toy_tally) (two made made)
made-IsFresh = record {
  inv = λ a. subst (Inv toy) (sym (both_made a)) made-Inv;
  nothing_cast =
      λ a. subst (λ s. votes_in s.internal_msg_queue ≡ []) (sym (both_made a)) nothing_sent;
  nothing_recorded =
      λ a. subst (λ s. (v : Vote) → Counted s.votes v → ⊥) (sym (both_made a)) none_recorded;
}

-- A vote of validator 7 that its node has cast is possible.
pub Cast-Possible :
    (s t : State toy) (v : Vote)
    → v.validator_address ≡ 7
    → Cast v (votes_in s.internal_msg_queue)
    → Possible only7 toys (two s t) v
Cast-Possible s t v genuine cast = (
  genuine,
  λ honest.
      subst (λ a. WasCast v (cast_by only7 toys (two s t) a)) (sym genuine)
        (
          v,
          cast,
          record { same_type = refl; same_height = refl; same_round = refl; same_block = refl },
        ),
)

-- The votes that a turn brings are those of validator 7's node, and it brings no commit.
abbrev pub IsPlain : State toy → {s t : State toy} → Step toy s t → Type 0
IsPlain seventh step =
    ((v : Vote) → step_vote toy step ≡ some v → Cast v (votes_in seventh.internal_msg_queue))
    × (step_commit toy step ≡ none)

pub absurd_commit : {A B : Type 0} {o : Option B} (c : B) → o ≡ some c → o ≡ none → A
absurd_commit c h n = ground (arith, h, n)

abbrev pub turn7 :
    (s s' t : State toy) (step : Step toy s s')
    → HasNext toy s
    → IsPlain s step
    → NetStep only7 toys (λ a. toy_tally) (two s t) (two s' t)
turn7 s s' t step more (votes, no_commit) = record {
  node = 7;
  step = step;
  has_next = more;
  unforged = λ v h genuine. Cast-Possible s t v genuine (votes v h);
  unforged_commits = λ c h v held genuine. absurd_commit c h no_commit;
  others = not_seven s s' t;
}

abbrev pub turn8 :
    (s t t' : State toy) (step : Step toy t t')
    → HasNext toy t
    → IsPlain s step
    → NetStep only7 toys (λ a. toy_tally) (two s t) (two s t')
turn8 s t t' step more (votes, no_commit) = record {
  node = 8;
  step = step;
  has_next = more;
  unforged = λ v h genuine. Cast-Possible s t v genuine (votes v h);
  unforged_commits = λ c h v held genuine. absurd_commit c h no_commit;
  others = not_eight s t t';
}
