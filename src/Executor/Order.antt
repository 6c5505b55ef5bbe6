-- ===== src/Executor/Order.antt =====
-- consensus/default_block_executor.go: `sort.Slice` leaves the order of equal times open, and
-- `weightedMedian` does not depend on it.
use go_minimal_pbft.Prelude.{
  ℕ, ◌+◌, ◌-◌, ◌/◌, ◌<◌, ◌≤◌, ◌≡◌, refl, sym, ◌∙◌, inl, inr, List, [], ◌∷◌, All, ltb, leb,
  if◌then◌else◌, Bool-cases, arith, subst,
}
use go_minimal_pbft.Prelude.Int.{pos, pos_part, ◌≤ℤ◌, leb_ℤ}
use mathlib.Core.List.{Permᴰ}
use mathlib.Core.List.Permᴰ
use go_minimal_pbft.Executor.{WeightedTime, insert, sort, pick, weighted_median, half}
use go_minimal_pbft.Executor.Median.{weight_of, next_median}

-- The weight of the entries up to a time.
abbrev pub weight_upto : ℕ → List WeightedTime → ℕ
weight_upto t [] = 0
weight_upto t (w ∷ ws) =
    let rest = weight_upto t ws in if leb w.time_ms t then pos_part w.weight + rest else rest

-- No entry weighs less than nothing.
abbrev pub IsWeight : WeightedTime → Type 0
IsWeight w = pos 0 ≤ℤ w.weight

-- The times do not fall.
abbrev pub IsSorted : ℕ → List WeightedTime → Type 0
IsSorted lo [] = Unit
IsSorted lo (w ∷ ws) = (lo ≤ w.time_ms) × IsSorted w.time_ms ws

-- The entries are the same, and so is what they weigh.
Perm-weight_upto :
    {ws vs : List WeightedTime} (t : ℕ) → Permᴰ ws vs → weight_upto t ws ≡ weight_upto t vs
Perm-weight_upto t Permᴰ.nil = refl
Perm-weight_upto t (Permᴰ.cons {a} {b} {l₁} {l₂} same p) =
    subst (λ x. weight_upto t (a ∷ l₁) ≡ weight_upto t (x ∷ l₂)) same
      (ground (arith, Perm-weight_upto t p))
Perm-weight_upto t (Permᴰ.swap {a} {b} {a'} {b'} {l} e f) =
    subst (λ x. weight_upto t (a ∷ b ∷ l) ≡ weight_upto t (x ∷ b' ∷ l)) f
      (subst (λ x. weight_upto t (a ∷ b ∷ l) ≡ weight_upto t (b ∷ x ∷ l)) e (ground arith))
Perm-weight_upto t (Permᴰ.trans p r) = Perm-weight_upto t p ∙ Perm-weight_upto t r

Perm-weight_of : {ws vs : List WeightedTime} → Permᴰ ws vs → weight_of ws ≡ weight_of vs
Perm-weight_of Permᴰ.nil = refl
Perm-weight_of (Permᴰ.cons {a} {b} {l₁} {l₂} same p) =
    subst (λ x. weight_of (a ∷ l₁) ≡ weight_of (x ∷ l₂)) same (omega (arith, Perm-weight_of p))
Perm-weight_of (Permᴰ.swap {a} {b} {a'} {b'} {l} e f) =
    subst (λ x. weight_of (a ∷ b ∷ l) ≡ weight_of (x ∷ b' ∷ l)) f
      (subst (λ x. weight_of (a ∷ b ∷ l) ≡ weight_of (b ∷ x ∷ l)) e (omega arith))
Perm-weight_of (Permᴰ.trans p r) = Perm-weight_of p ∙ Perm-weight_of r

Perm-All : {ws vs : List WeightedTime} → Permᴰ ws vs → All IsWeight ws → All IsWeight vs
Perm-All Permᴰ.nil hs = hs
Perm-All (Permᴰ.cons same p) hs = (subst IsWeight same hs.0, Perm-All p hs.1)
Perm-All (Permᴰ.swap e f) hs = (subst IsWeight f hs.1.0, (subst IsWeight e hs.0, hs.1.1))
Perm-All (Permᴰ.trans p r) hs = Perm-All r (Perm-All p hs)

insert-Perm : (w : WeightedTime) (ws : List WeightedTime) → Permᴰ (w ∷ ws) (insert w ws)
insert-Perm w [] = Permᴰ.refl (w ∷ [])
insert-Perm w (v ∷ vs) = elim (Bool-cases (ltb v.time_ms w.time_ms)) [
  | inl later ↦ rw later (Permᴰ.trans (Permᴰ.swap refl refl) (Permᴰ.cons refl (insert-Perm w vs)))
  | inr here ↦ rw here (Permᴰ.refl (w ∷ v ∷ vs))
]

sort-Perm : (ws : List WeightedTime) → Permᴰ ws (sort ws)
sort-Perm [] = Permᴰ.nil
sort-Perm (w ∷ ws) = Permᴰ.trans (Permᴰ.cons refl (sort-Perm ws)) (insert-Perm w (sort ws))

insert-IsSorted :
    (lo : ℕ) (w : WeightedTime) (ws : List WeightedTime)
    → lo ≤ w.time_ms
    → IsSorted lo ws
    → IsSorted lo (insert w ws)
insert-IsSorted lo w [] le h = (le, tt)
insert-IsSorted lo w (v ∷ vs) le h = elim (Bool-cases (ltb v.time_ms w.time_ms)) [
  | inl later ↦ rw later (h.0, insert-IsSorted v.time_ms w vs (ground (arith, later)) h.1)
  | inr here ↦ rw here (le, (ground (arith, here), h.1))
]

pub sort-IsSorted : (ws : List WeightedTime) → IsSorted 0 (sort ws)
sort-IsSorted [] = tt
sort-IsSorted (w ∷ ws) = insert-IsSorted 0 w (sort ws) (omega arith) (sort-IsSorted ws)

nothing_before :
    (t lo : ℕ) (ws : List WeightedTime) → IsSorted lo ws → t < lo → weight_upto t ws ≡ 0
nothing_before t lo [] h lt = refl
nothing_before t lo (w ∷ ws) h lt = ground (arith, h, lt, nothing_before t w.time_ms ws h.1)

-- Where the median is not 0 and the weights reach it, the pick is the least time up to which they do.
pick-least :
    (lo : ℕ) (ws : List WeightedTime) (m t : ℕ)
    → IsSorted lo ws
    → All IsWeight ws
    → 0 < m
    → m < 9223372036854775808
    → m ≤ weight_of ws
    → (m ≤ weight_upto (pick (pos m) ws) ws) × (m ≤ weight_upto t ws → pick (pos m) ws ≤ t)
unfolding pick
pick-least lo [] m t sorted hs full lt le = ground (arith, full, le)
pick-least lo (w ∷ ws) m t sorted hs full lt le = elim (Bool-cases (leb_ℤ (pos m) w.weight)) [
  | inl here ↦ rw here (
    ground (arith, here, hs),
    λ reached. ground (arith, full, reached, nothing_before t w.time_ms ws sorted.1),
  )
  | inr past ↦
      let rest = m - pos_part w.weight in
      let at = pick (pos rest) ws in
      let more : 0 < rest = ground (arith, past, hs) in
      let (reach, least) =
        pick-least w.time_ms ws rest t sorted.1 hs.1 more (omega (arith, lt))
          (ground (arith, le, past, hs)) in
      let picked : pick (pos m) (w ∷ ws) ≡ at =
        rw (past, next_median 0 0 m w.weight lt hs.0 past) refl in
      subst (λ x. (m ≤ weight_upto x (w ∷ ws)) × (m ≤ weight_upto t (w ∷ ws) → x ≤ t)) (sym picked)
        (
          ground (arith, reach, more, nothing_before at w.time_ms ws sorted.1),
          λ reached. least (ground (arith, reached)),
        )
]

-- Two sorted orders of the same entries have one pick.
pick_any_order :
    (ws vs : List WeightedTime) (m : ℕ)
    → Permᴰ ws vs
    → IsSorted 0 ws
    → IsSorted 0 vs
    → All IsWeight ws
    → 0 < m
    → m < 9223372036854775808
    → m ≤ weight_of ws
    → pick (pos m) ws ≡ pick (pos m) vs
pick_any_order ws vs m p sorted sorted' hs full lt le =
    let a = pick (pos m) ws in
    let b = pick (pos m) vs in
    let (reach, least) = pick-least 0 ws m b sorted hs full lt le in
    let (reach', least') =
      pick-least 0 vs m a sorted' (Perm-All p hs) full lt (omega (arith, le, Perm-weight_of p)) in
    let down : a ≤ b = least (omega (arith, reach', Perm-weight_upto b p)) in
    let up : b ≤ a = least' (omega (arith, reach, Perm-weight_upto a p)) in omega (arith, down, up)

-- `weightedMedian` of entries whose weights are not negative and add up to at least the total power,
-- an int64 above 1, is the result of its loop over any order of the entries in which the times do
-- not fall: what `sort.Slice` does with equal times does not matter.
pub weighted_median_any_order :
    (ws vs : List WeightedTime) (total : ℕ)
    → Permᴰ ws vs
    → IsSorted 0 vs
    → All IsWeight ws
    → 1 < total
    → total < 9223372036854775808
    → total ≤ weight_of ws
    → weighted_median ws (pos total) ≡ pick (half (pos total)) vs
unfolding weighted_median
weighted_median_any_order ws vs total p sorted hs more lt le =
    pick_any_order (sort ws) vs (total / 2) (Permᴰ.trans (Permᴰ.symm (sort-Perm ws)) p)
      (sort-IsSorted ws) sorted (Perm-All (sort-Perm ws) hs) (omega (arith, more))
      (omega (arith, lt)) (omega (arith, le, Perm-weight_of (sort-Perm ws)))
