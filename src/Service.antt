-- ===== src/Service.antt =====
-- consensus/service.go: `BaseService`, which the consensus state and the ticker embed. The callers see
-- to it that `Start` and `Stop` are not called at once (the type's comment), so each call is one step;
-- the goroutine that `Start` leaves behind is a step of its own.
pub mod Refinement
use go_minimal_pbft.Prelude.{
  ℕ, suc, ◌+◌, Bool, true, false, not, ◌&&◌, ◌||◌, Option, none, some, List, [], ◌∷◌, ltb, ◌==◌,
  if◌then◌else◌,
}

pub data ServiceError : Type 0 where
  already_started already_stopped not_started : ServiceError
  on_start_failed : ServiceError

-- What a call of `Start` or `Stop` ends with: the returned error or nil, or the panic of closing a
-- closed channel.
pub data Reply : Type 0 where
  returned : Option ServiceError → Reply
  closed_twice : Reply

-- The flags, whether `quit` is closed, and how often `OnStart` returned nil and `OnStop` was called.
-- `watchers` counts the goroutines that wait for `quit` or for the end of the context.
pub record BaseService : Type 0 where
  pub started : ℕ
  pub stopped : ℕ
  pub quit : Bool
  pub starts : ℕ
  pub stops : ℕ
  pub watchers : ℕ

unfoldable pub new_base_service : BaseService
new_base_service = record {
  started = 0;
  stopped = 0;
  quit = false;
  starts = 0;
  stops = 0;
  watchers = 0;
}

-- `sound` tells whether `OnStart` returns nil.
unfoldable pub start : Bool → BaseService → Reply × BaseService
start sound s =
    if s.started == 0
    then if s.stopped == 1
      then (returned (some already_stopped), record s { started = 0 })
      else if sound
      then (
        returned none,
        record s { started = 1; starts = suc s.starts; watchers = suc s.watchers },
      )
      else (returned (some on_start_failed), record s { started = 0 })
    else (returned (some already_started), s)

-- `OnStop`, then `close(quit)`.
unfoldable pub shut_down : BaseService → Reply × BaseService
shut_down s =
    let t : BaseService = record s { stopped = 1; stops = suc s.stops } in
    if s.quit then (closed_twice, t) else (returned none, record t { quit = true })

unfoldable pub stop : BaseService → Reply × BaseService
unfolding shut_down
stop s =
    if s.stopped == 0
    then if s.started == 0
      then (returned (some not_started), record s { stopped = 0 })
      else shut_down s
    else (returned (some already_stopped), s)

unfoldable pub is_running : BaseService → Bool
is_running s = s.started == 1 && s.stopped == 0

-- The goroutine of `Start`, when its context ends before `quit` is closed, or after.
unfoldable pub on_done : BaseService → BaseService
unfolding stop is_running
on_done s = if ltb 0 s.watchers && not s.quit && is_running s then (stop s).1 else s

pub data Call : Type 0 where
  call_start : Bool → Call
  call_stop : Call
  context_done : Call

-- What each call of a sequence returns; the goroutine returns nothing.
unfoldable pub replies : List Call → BaseService → List Reply
unfolding start stop on_done
replies [] s = []
replies (call_start sound ∷ calls) s = (start sound s).0 ∷ replies calls (start sound s).1
replies (call_stop ∷ calls) s = (stop s).0 ∷ replies calls (stop s).1
replies (context_done ∷ calls) s = replies calls (on_done s)

unfoldable pub run : List Call → BaseService → BaseService
unfolding start stop on_done
run [] s = s
run (call_start sound ∷ calls) s = run calls (start sound s).1
run (call_stop ∷ calls) s = run calls (stop s).1
run (context_done ∷ calls) s = run calls (on_done s)
