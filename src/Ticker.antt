-- ===== src/Ticker.antt =====
-- consensus/timeout_ticker.go: `timeoutRoutine`, which keeps one timer and the timeout that it is
-- for. The timer is the run time's: armed by `Reset`, and no longer after it fired or was stopped.
pub mod Order
use go_minimal_pbft.Prelude.{
  ℕ, zero, suc, Bool, true, false, ◌&&◌, ◌||◌, ltb, leb, ◌==◌, Option, none, some, List, [], ◌∷◌,
  if◌then◌else◌,
}
use go_minimal_pbft.Prelude.Int.{pos, ltb_ℤ, eqb_ℤ}
use go_minimal_pbft.Messages.{TimeoutInfo}

-- A timeout that fired has a goroutine that sends it: `sending` are those that have not sent yet, newest
-- first, and `tock_chan` holds all that was sent, newest first.
pub record TimeoutTicker : Type 0 where
  pub ti : TimeoutInfo
  pub armed : Bool
  pub sending : List TimeoutInfo
  pub tock_chan : List TimeoutInfo

abbrev pub new_timeout_ticker : TimeoutTicker
new_timeout_ticker = record {
  ti = record { duration = pos 0; height = 0; round = pos 0; step = 0 };
  armed = false;
  sending = [];
  tock_chan = [];
}

-- A tick for an old height, round or step.
unfoldable pub is_old : TimeoutInfo → TimeoutInfo → Bool
is_old newti ti =
    if ltb newti.height ti.height
    then true
    else if newti.height == ti.height
    then if ltb_ℤ newti.round ti.round
      then true
      else eqb_ℤ newti.round ti.round && ltb 0 ti.step && leb newti.step ti.step
    else false

unfoldable pub on_tick : TimeoutInfo → TimeoutTicker → TimeoutTicker
unfolding is_old
on_tick newti t = if is_old newti t.ti then t else record t { ti = newti; armed = true }

-- The timer fires only while it is armed.
unfoldable pub on_fire : TimeoutTicker → TimeoutTicker
on_fire t = if t.armed then record t { armed = false; sending = t.ti ∷ t.sending } else t

abbrev pub onto :
    TimeoutInfo → Option (TimeoutInfo × List TimeoutInfo) → Option (TimeoutInfo × List TimeoutInfo)
onto ti none = none
onto ti (some (taken, rest)) = some (taken, ti ∷ rest)

-- The timeout at a place of the list, and the others.
unfoldable pub take_at : ℕ → List TimeoutInfo → Option (TimeoutInfo × List TimeoutInfo)
take_at i [] = none
take_at zero (ti ∷ tis) = some (ti, tis)
take_at (suc i) (ti ∷ tis) = onto ti (take_at i tis)

abbrev pub tocked : TimeoutTicker → Option (TimeoutInfo × List TimeoutInfo) → TimeoutTicker
tocked t none = t
tocked t (some (toi, rest)) = record t { sending = rest; tock_chan = toi ∷ t.tock_chan }

-- The goroutine at a place of the list sends its timeout: they run in any order.
unfoldable pub on_tock : ℕ → TimeoutTicker → TimeoutTicker
unfolding take_at
on_tock i t = tocked t (take_at i t.sending)

pub data TickerEvent : Type 0 where
  tick : TimeoutInfo → TickerEvent
  fire : TickerEvent
  send : ℕ → TickerEvent

unfoldable pub timeout_routine : List TickerEvent → TimeoutTicker → TimeoutTicker
unfolding on_tick on_fire on_tock
timeout_routine [] t = t
timeout_routine (tick newti ∷ evs) t = timeout_routine evs (on_tick newti t)
timeout_routine (fire ∷ evs) t = timeout_routine evs (on_fire t)
timeout_routine (send i ∷ evs) t = timeout_routine evs (on_tock i t)
