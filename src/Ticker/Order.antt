-- ===== src/Ticker/Order.antt =====
-- consensus/timeout_ticker.go: the order of the timeouts that the ticker fires.
use mathlib.Core.List.{Permᴰ}
use mathlib.Core.List.Permᴰ
use go_minimal_pbft.Prelude.{
  ℕ, zero, suc, Option, none, some, ◌++◌, ◌<◌, ◌≡◌, refl, ◌⊎◌, inl, inr, Bool, true, false, List,
  [], ◌∷◌, Bool-cases, arith, subst,
}
use go_minimal_pbft.Prelude.Int.{pos, ◌≤ℤ◌, pos_part}
use go_minimal_pbft.Messages.{TimeoutInfo}
use go_minimal_pbft.Ticker.{
  TimeoutTicker, new_timeout_ticker, is_old, on_tick, on_fire, onto, take_at, tocked, on_tock,
  TickerEvent, tick, fire, send, timeout_routine,
}

-- `a` comes before `b`: by its height, then its round, then its step.
abbrev pub IsBefore : TimeoutInfo → TimeoutInfo → Type 0
IsBefore a b =
    (a.height < b.height)
    ⊎ ((a.height ≡ b.height)
        × ((pos_part a.round < pos_part b.round)
            ⊎ ((pos_part a.round ≡ pos_part b.round) × (a.step < b.step))))

-- Newest first, each timeout comes after those before it.
abbrev pub Rises : List TimeoutInfo → Type 0
Rises [] = Unit
Rises (a ∷ []) = Unit
Rises (a ∷ b ∷ tis) = IsBefore b a × Rises (b ∷ tis)

-- What the state machine schedules: a round that is not negative, and a step.
abbrev pub IsTick : TimeoutInfo → Type 0
IsTick a = (pos 0 ≤ℤ a.round) × (0 < a.step)

abbrev pub AllTicks : List TickerEvent → Type 0
AllTicks [] = Unit
AllTicks (tick a ∷ evs) = IsTick a × AllTicks evs
AllTicks (fire ∷ evs) = AllTicks evs
AllTicks (send i ∷ evs) = AllTicks evs

-- What fired last is the current timeout, and the timer is off then, or a timeout before it.
abbrev Front : TimeoutInfo → Bool → List TimeoutInfo → Type 0
Front ti armed [] = (pos 0 ≤ℤ ti.round) × (armed ≡ true → 0 < ti.step)
Front ti true (a ∷ tis) = (pos 0 ≤ℤ ti.round) × (0 < ti.step) × IsBefore a ti
Front ti false (a ∷ tis) = (pos 0 ≤ℤ ti.round) × (0 < ti.step) × (a ≡ ti)

-- The timeouts that fired, in the order in which they did, are those that were sent or will be.
record Good (t : TimeoutTicker) : Type 0 where
  fired : List TimeoutInfo
  front : Front t.ti t.armed fired
  rises : Rises fired
  perm : Permᴰ fired (t.sending ++ t.tock_chan)

new-Front :
    (a ti : TimeoutInfo) (armed : Bool) (tis : List TimeoutInfo)
    → IsTick a
    → is_old a ti ≡ false
    → Front ti armed tis
    → Front a true tis
unfolding is_old
new-Front a ti armed [] h fresh f = (h.0, λ _. h.1)
new-Front a ti true (b ∷ tis) h fresh f = ground (arith, h, fresh, f)
new-Front a ti false (b ∷ tis) h fresh f = ground (arith, h, fresh, f)

on_tick-Good : (a : TimeoutInfo) (t : TimeoutTicker) → IsTick a → Good t → Good (on_tick a t)
unfolding on_tick
on_tick-Good a t h g = elim (Bool-cases (is_old a t.ti)) [
  | inl old ↦ rw old g
  | inr fresh ↦ rw fresh (record {
    fired = g.fired;
    front = new-Front a t.ti t.armed g.fired h fresh g.front;
    rises = g.rises;
    perm = g.perm;
  })
]

fire-Front :
    (ti : TimeoutInfo) (tis : List TimeoutInfo)
    → Front ti true tis
    → Rises tis
    → Front ti false (ti ∷ tis) × Rises (ti ∷ tis)
fire-Front ti [] f r = ((f.0, f.1 refl, refl), tt)
fire-Front ti (a ∷ tis) (nonneg, step, before) r = ((nonneg, step, refl), (before, r))

on_fire-Good : (t : TimeoutTicker) → Good t → Good (on_fire t)
unfolding on_fire
on_fire-Good t g = elim (Bool-cases t.armed) [
  | inl on ↦ simp on (
      let (front, rises) =
        fire-Front t.ti g.fired (subst (λ b. Front t.ti b g.fired) on g.front) g.rises in
      record {
        fired = t.ti ∷ g.fired;
        front = front;
        rises = rises;
        perm = Permᴰ.cons refl g.perm;
      })
  | inr off ↦ simp off g
]

abbrev Taken : List TimeoutInfo → Option (TimeoutInfo × List TimeoutInfo) → Type 0
Taken tis none = Unit
Taken tis (some (a, rest)) = Permᴰ tis (a ∷ rest)

onto-Taken :
    (ti : TimeoutInfo) (tis : List TimeoutInfo) (o : Option (TimeoutInfo × List TimeoutInfo))
    → Taken tis o
    → Taken (ti ∷ tis) (onto ti o)
onto-Taken ti tis none p = tt
onto-Taken ti tis (some (a, rest)) p = Permᴰ.trans (Permᴰ.cons refl p) (Permᴰ.swap refl refl)

take_at-Taken : (i : ℕ) (tis : List TimeoutInfo) → Taken tis (take_at i tis)
unfolding take_at
take_at-Taken i [] = tt
take_at-Taken zero (ti ∷ tis) = Permᴰ.refl (ti ∷ tis)
take_at-Taken (suc i) (ti ∷ tis) = onto-Taken ti tis (take_at i tis) (take_at-Taken i tis)

tocked-Good :
    (t : TimeoutTicker) (o : Option (TimeoutInfo × List TimeoutInfo))
    → Taken t.sending o
    → Good t
    → Good (tocked t o)
tocked-Good t none p g = g
tocked-Good t (some (a, rest)) p g = record {
  fired = g.fired;
  front = g.front;
  rises = g.rises;
  perm = Permᴰ.trans g.perm (
      Permᴰ.trans (Permᴰ.append_right t.tock_chan p)
        (Permᴰ.symm (Permᴰ.middle a rest t.tock_chan)));
}

on_tock-Good : (i : ℕ) (t : TimeoutTicker) → Good t → Good (on_tock i t)
unfolding on_tock
on_tock-Good i t g = tocked-Good t (take_at i t.sending) (take_at-Taken i t.sending) g

run-Good :
    (evs : List TickerEvent) (t : TimeoutTicker)
    → AllTicks evs
    → Good t
    → Good (timeout_routine evs t)
unfolding timeout_routine
run-Good [] t h g = g
run-Good (tick a ∷ evs) t h g = run-Good evs (on_tick a t) h.1 (on_tick-Good a t h.0 g)
run-Good (fire ∷ evs) t h g = run-Good evs (on_fire t) h (on_fire-Good t g)
run-Good (send i ∷ evs) t h g = run-Good evs (on_tock i t) h (on_tock-Good i t g)

-- Whatever ticks come in, each with a round that is not negative and a step above 0, whenever the timer
-- fires, and in whichever order the goroutines send: the timeouts that were sent, with those that wait
-- to be, are in some order a list that rises strictly by height, round and step. So none is sent twice.
pub timeout_routine-Rises :
    (evs : List TickerEvent)
    → AllTicks evs
    → (fired : List TimeoutInfo) × Rises fired
      × Permᴰ fired (
          (timeout_routine evs new_timeout_ticker).sending
          ++ (timeout_routine evs new_timeout_ticker).tock_chan)
timeout_routine-Rises evs h =
    let g =
      run-Good evs new_timeout_ticker h
        (record { fired = []; front = ground arith; rises = tt; perm = Permᴰ.nil }) in
    (g.fired, g.rises, g.perm)
