-- ===== src/Executor/Median.antt =====
-- What `MedianTime` (consensus/default_block_executor.go) lies between.
use go_minimal_pbft.Prelude.{
  ℕ, suc, ◌+◌, ◌-◌, ◌/◌, ◌<◌, ◌≤◌, ◌≡◌, refl, ◌∙◌, inl, inr, false, Option, List, [], ◌∷◌, length,
  All, ltb, Bool-cases, arith, ap,
}
use go_minimal_pbft.Prelude.Int.{ℤ, pos, pos_part, ◌≤ℤ◌, ◌+ℤ◌, ◌-ℤ◌, leb_ℤ, wrap_int64}
use go_minimal_pbft.Library.{Library}
use go_minimal_pbft.Executor.{
  WeightedTime, insert, sort, pick, weighted_median, total_power, weighted_times, median_time,
}

-- The sum of the weights.
abbrev pub weight_of : List WeightedTime → ℕ
weight_of [] = 0
weight_of (w ∷ ws) = pos_part w.weight + weight_of ws

-- A time between `lo` and `hi`, with a weight that is not negative.
abbrev pub IsWithin : ℕ → ℕ → WeightedTime → Type 0
IsWithin lo hi w = (pos 0 ≤ℤ w.weight) × (lo ≤ w.time_ms) × (w.time_ms ≤ hi)

insert-weight_of :
    (w : WeightedTime) (ws : List WeightedTime)
    → weight_of (insert w ws) ≡ pos_part w.weight + weight_of ws
insert-weight_of w [] = refl
insert-weight_of w (v ∷ vs) = ground (arith, insert-weight_of w vs)

insert-length : (w : WeightedTime) (ws : List WeightedTime) → length (insert w ws) ≡ suc (length ws)
insert-length w [] = refl
insert-length w (v ∷ vs) = ground (arith, insert-length w vs)

module _ (lo hi : ℕ) where
  insert-All :
      (w : WeightedTime) (ws : List WeightedTime)
      → IsWithin lo hi w
      → All (IsWithin lo hi) ws
      → All (IsWithin lo hi) (insert w ws)
  insert-All w [] h hs = (h, tt)
  insert-All w (v ∷ vs) h hs = elim (Bool-cases (ltb v.time_ms w.time_ms)) [
    | inl later ↦ rw later (hs.0, insert-All w vs h hs.1)
    | inr here ↦ rw here (h, hs)
  ]

  sort-All : (ws : List WeightedTime) → All (IsWithin lo hi) ws → All (IsWithin lo hi) (sort ws)
  sort-All [] hs = tt
  sort-All (w ∷ ws) hs = insert-All w (sort ws) hs.0 (sort-All ws hs.1)

  pub next_median :
      (m : ℕ) (w : ℤ)
      → m < 9223372036854775808
      → pos 0 ≤ℤ w
      → leb_ℤ (pos m) w ≡ false
      → wrap_int64 (pos m -ℤ w) ≡ pos (m - pos_part w)
  unfolding wrap_int64 ◌-ℤ◌
  next_median m w lt nonneg past = ground (arith, lt, nonneg, past)

  pick-between :
      (ws : List WeightedTime) (m : ℕ)
      → m ≤ weight_of ws
      → m < 9223372036854775808
      → 0 < m + length ws
      → All (IsWithin lo hi) ws
      → (lo ≤ pick (pos m) ws) × (pick (pos m) ws ≤ hi)
  unfolding pick
  pick-between [] m le lt some_left hs = ground arith
  pick-between (w ∷ ws) m le lt some_left hs = elim (Bool-cases (leb_ℤ (pos m) w.weight)) [
    | inl here ↦ rw here (hs.0.1, hs.0.2)
    | inr past ↦
        rw (past, next_median m w.weight lt hs.0.0 past)
          (pick-between ws (m - pos_part w.weight) (ground (arith, le, past, hs))
            (omega (arith, lt)) (ground (arith, past, hs)) hs.1)
  ]

sort-weight_of : (ws : List WeightedTime) → weight_of (sort ws) ≡ weight_of ws
sort-weight_of [] = refl
sort-weight_of (w ∷ ws) =
    insert-weight_of w (sort ws) ∙ ap (λ n. pos_part w.weight + n) (sort-weight_of ws)

sort-length : (ws : List WeightedTime) → length (sort ws) ≡ length ws
sort-length [] = refl
sort-length (w ∷ ws) = insert-length w (sort ws) ∙ ap suc (sort-length ws)

added_power :
    (n : ℕ) (w : ℤ)
    → pos 0 ≤ℤ w
    → n + pos_part w < 9223372036854775808
    → wrap_int64 (pos n +ℤ w) ≡ pos (n + pos_part w)
unfolding wrap_int64 ◌+ℤ◌
added_power n w nonneg lt = ground (arith, nonneg, lt)

total_power-weight_of :
    (lo hi n : ℕ) (ws : List WeightedTime)
    → All (IsWithin lo hi) ws
    → n + weight_of ws < 9223372036854775808
    → total_power (pos n) ws ≡ pos (n + weight_of ws)
unfolding total_power
total_power-weight_of lo hi n [] hs lt = ap pos (omega arith)
total_power-weight_of lo hi n (w ∷ ws) hs lt =
    rw (added_power n w.weight hs.0.0 (omega (arith, lt))) (
      total_power-weight_of lo hi (n + pos_part w.weight) ws hs.1 (omega (arith, lt))
      ∙ ap pos (omega arith))

module _ (x : Library) where
  -- Where every counted vote of the commit has a time from `lo` to `hi` and a power that is not
  -- negative, there is such a vote, and the powers add up to an int64: the median time is from `lo` to
  -- `hi` too.
  pub median_time-between :
      (lo hi : ℕ) (commit : x.Commit) (vals : Option x.ValidatorSet)
      → All (IsWithin lo hi) (weighted_times x vals (x.signatures commit))
      → 0 < length (weighted_times x vals (x.signatures commit))
      → weight_of (weighted_times x vals (x.signatures commit)) < 9223372036854775808
      → (lo ≤ median_time x commit vals) × (median_time x commit vals ≤ hi)
  unfolding median_time weighted_median
  median_time-between lo hi commit vals hs full lt =
      let ws = weighted_times x vals (x.signatures commit) in
      rw (total_power-weight_of lo hi 0 ws hs (omega (arith, lt))) (
        pick-between lo hi (sort ws) ((0 + weight_of ws) / 2) (omega (arith, sort-weight_of ws))
          (omega (arith, lt)) (omega (arith, full, sort-length ws)) (sort-All lo hi ws hs))
