-- ===== src/Node/Powers.antt =====
-- cmd/main/node.go: how `runNode` reads `--valPowers`, with `strings.Split` at commas and
-- `strconv.Atoi`. A string is the list of its bytes.
use go_minimal_pbft.Prelude.{
  ℕ, zero, suc, ◌+◌, ◌-◌, ◌*◌, ◌≡◌, refl, sym, ap, ◌∙◌, Bool, true, false, not, ◌&&◌, Option, none,
  some, List, [], ◌∷◌, length, ltb, leb, ◌==◌, if◌then◌else◌, arith,
}
use go_minimal_pbft.Prelude.Int.{ℤ, pos, negsuc}
use go_minimal_pbft.Messages.{Bytes}

abbrev pub onto_first : ℕ → List Bytes → List Bytes
onto_first b [] = (b ∷ []) ∷ []
onto_first b (s ∷ ss) = (b ∷ s) ∷ ss

-- `strings.Split(s, ",")`.
abbrev pub split : Bytes → List Bytes
split [] = [] ∷ []
split (b ∷ bs) = let rest = split bs in if b == 44 then [] ∷ rest else onto_first b rest

abbrev pub is_digit : ℕ → Bool
is_digit b = leb 48 b && leb b 57

-- The value of the digits, after those of `n`.
abbrev pub digits : ℕ → Bytes → Option ℕ
digits n [] = some n
digits n (b ∷ bs) = let rest = digits (n * 10 + (b - 48)) bs in if is_digit b then rest else none

abbrev pub magnitude : Bytes → Option ℕ
magnitude [] = none
magnitude (b ∷ bs) = digits 0 (b ∷ bs)

abbrev pub as_positive : Option ℕ → Option ℤ
as_positive none = none
as_positive (some n) = if ltb n 9223372036854775808 then some (pos n) else none

abbrev pub negated : ℕ → ℤ
negated zero = pos 0
negated (suc n) = negsuc n

abbrev pub as_negative : Option ℕ → Option ℤ
as_negative none = none
as_negative (some n) = if leb n 9223372036854775808 then some (negated n) else none

-- `strconv.Atoi`, none where it returns an error.
abbrev pub atoi : Bytes → Option ℤ
atoi [] = none
atoi (b ∷ bs) =
    if b == 45
    then as_negative (magnitude bs)
    else if b == 43
    then as_positive (magnitude bs)
    else as_positive (magnitude (b ∷ bs))

abbrev pub cons_power : Option ℤ → Option (List ℤ) → Option (List ℤ)
cons_power none ps = none
cons_power (some p) none = none
cons_power (some p) (some ps) = some (p ∷ ps)

abbrev pub all_powers : List Bytes → Option (List ℤ)
all_powers [] = some []
all_powers (s ∷ ss) = let rest = all_powers ss in cons_power (atoi s) rest

abbrev pub ones : ℕ → List ℤ
ones zero = []
ones (suc n) = pos 1 ∷ ones n

-- The powers of `count` validators, or none where `runNode` gives up.
unfoldable pub powers_of : Bytes → ℕ → Option (List ℤ)
powers_of [] count = some (ones count)
powers_of (b ∷ bs) count =
    let ss = split (b ∷ bs) in if not (length ss == count) then none else all_powers ss

length-ones : (n : ℕ) → length (ones n) ≡ n
length-ones zero = refl
length-ones (suc n) = ap suc (length-ones n)

abbrev length_of : Option (List ℤ) → ℕ
length_of none = 0
length_of (some ps) = length ps

length-cons_power :
    (o : Option ℤ) (r : Option (List ℤ)) (ps : List ℤ) (n : ℕ)
    → ((qs : List ℤ) → r ≡ some qs → length qs ≡ n)
    → cons_power o r ≡ some ps
    → length ps ≡ suc n
length-cons_power none r ps n rest e = ground (arith, e)
length-cons_power (some p) none ps n rest e = ground (arith, e)
length-cons_power (some p) (some qs) ps n rest e = sym (ap length_of e) ∙ ap suc (rest qs refl)

length-all_powers :
    (ss : List Bytes) (ps : List ℤ) → all_powers ss ≡ some ps → length ps ≡ length ss
length-all_powers [] ps e = sym (ap length_of e)
length-all_powers (s ∷ ss) ps e =
    length-cons_power (atoi s) (all_powers ss) ps (length ss) (length-all_powers ss) e

guarded :
    (c : Bool) (o : Option (List ℤ)) (ps : List ℤ)
    → (if not c then none else o) ≡ some ps
    → (c ≡ true) × (o ≡ some ps)
guarded true o ps e = (refl, e)
guarded false o ps e = ground (arith, e)

-- There are as many powers as validators.
pub length-powers_of :
    (s : Bytes) (count : ℕ) (ps : List ℤ) → powers_of s count ≡ some ps → length ps ≡ count
unfolding powers_of
length-powers_of [] count ps e = sym (ap length_of e) ∙ length-ones count
length-powers_of (b ∷ bs) count ps e =
    let (good, all) =
      guarded (length (split (b ∷ bs)) == count) (all_powers (split (b ∷ bs))) ps e in
    length-all_powers (split (b ∷ bs)) ps all ∙ ground (arith, good)
