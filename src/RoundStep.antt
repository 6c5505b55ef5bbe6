-- ===== src/RoundStep.antt =====
-- `RoundStepType` of consensus/round_state.go: the steps of a round are numbers, which the state
-- machine compares.
use go_minimal_pbft.Prelude.{ℕ, Bool, ◌&&◌, leb}

abbrev pub new_height : ℕ
new_height = 1

abbrev pub new_round : ℕ
new_round = 2

abbrev pub propose : ℕ
propose = 3

abbrev pub prevote : ℕ
prevote = 4

abbrev pub prevote_wait : ℕ
prevote_wait = 5

abbrev pub precommit : ℕ
precommit = 6

abbrev pub precommit_wait : ℕ
precommit_wait = 7

abbrev pub commit : ℕ
commit = 8

unfoldable pub is_valid : ℕ → Bool
is_valid rs = leb 1 rs && leb rs 8
