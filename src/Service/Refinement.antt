-- ===== src/Service/Refinement.antt =====
-- consensus/service.go against a specification with three phases.
use go_minimal_pbft.Prelude.{
  ◌+◌, ◌≤◌, ◌≡◌, refl, Bool, true, false, Option, none, some, List, [], ◌∷◌, arith, ◌==◌,
}
use go_minimal_pbft.Service.{
  ServiceError, already_started, already_stopped, not_started, on_start_failed, Reply, returned,
  BaseService, new_base_service, start, shut_down, stop, is_running, on_done, Call, call_start,
  call_stop, context_done, replies, run,
}

pub data Phase : Type 0 where
  fresh running finished : Phase

-- `ErrAlreadyStarted` is for a service that is running, and `ErrAlreadyStopped` for one that was
-- stopped (the comments on the errors).
abbrev pub spec_start : Bool → Phase → Option ServiceError × Phase
spec_start true fresh = (none, running)
spec_start false fresh = (some on_start_failed, fresh)
spec_start sound running = (some already_started, running)
spec_start sound finished = (some already_stopped, finished)

abbrev pub spec_stop : Phase → Option ServiceError × Phase
spec_stop fresh = (some not_started, fresh)
spec_stop running = (none, finished)
spec_stop finished = (some already_stopped, finished)

abbrev pub spec_done : Phase → Phase
spec_done running = finished
spec_done phase = phase

-- What the comments promise a caller: a service starts once and stops once, and no call panics.
abbrev pub spec_replies : List Call → Phase → List Reply
spec_replies [] p = []
spec_replies (call_start sound ∷ calls) p =
    returned (spec_start sound p).0 ∷ spec_replies calls (spec_start sound p).1
spec_replies (call_stop ∷ calls) p = returned (spec_stop p).0 ∷ spec_replies calls (spec_stop p).1
spec_replies (context_done ∷ calls) p = spec_replies calls (spec_done p)

-- The state of the service in each phase.
abbrev in_phase : Phase → BaseService
in_phase fresh = new_base_service
in_phase running = record {
  started = 1;
  stopped = 0;
  quit = false;
  starts = 1;
  stops = 0;
  watchers = 1;
}
in_phase finished = record {
  started = 1;
  stopped = 1;
  quit = true;
  starts = 1;
  stops = 1;
  watchers = 1;
}

-- What `Start` returns where the comments promise `promised`: that, but for `ErrAlreadyStarted` where
-- they promise `ErrAlreadyStopped`, since a stopped service keeps its flag `started`.
abbrev pub told : Option ServiceError → Option ServiceError
told (some already_stopped) = some already_started
told promised = promised

-- The replies to the calls are those that are promised, in the same order, up to `told` for `Start`.
abbrev pub Fits : List Call → List Reply → List Reply → Type 0
Fits [] replies promised = (replies ≡ []) × (promised ≡ [])
Fits (call_start sound ∷ calls) (returned err ∷ replies) (returned kept ∷ promised) =
    (err ≡ told kept) × Fits calls replies promised
Fits (call_stop ∷ calls) (returned err ∷ replies) (returned kept ∷ promised) =
    (err ≡ kept) × Fits calls replies promised
Fits (context_done ∷ calls) replies promised = Fits calls replies promised
Fits (_ ∷ calls) replies promised = ⊥

start-in_phase :
    (sound : Bool) (p : Phase)
    → start sound (in_phase p)
      ≡ (returned (told (spec_start sound p).0), in_phase (spec_start sound p).1)
unfolding start new_base_service
start-in_phase true fresh = refl
start-in_phase false fresh = refl
start-in_phase true running = refl
start-in_phase false running = refl
start-in_phase true finished = refl
start-in_phase false finished = refl

stop-in_phase :
    (p : Phase) → stop (in_phase p) ≡ (returned (spec_stop p).0, in_phase (spec_stop p).1)
unfolding stop shut_down new_base_service
stop-in_phase fresh = refl
stop-in_phase running = refl
stop-in_phase finished = refl

on_done-in_phase : (p : Phase) → on_done (in_phase p) ≡ in_phase (spec_done p)
unfolding on_done stop shut_down is_running new_base_service
on_done-in_phase fresh = refl
on_done-in_phase running = refl
on_done-in_phase finished = refl

replies-in_phase :
    (calls : List Call) (p : Phase) → Fits calls (replies calls (in_phase p)) (spec_replies calls p)
unfolding replies
replies-in_phase [] p = (refl, refl)
replies-in_phase (call_start sound ∷ calls) p =
    rw (start-in_phase sound p) (refl, replies-in_phase calls (spec_start sound p).1)
replies-in_phase (call_stop ∷ calls) p =
    rw (stop-in_phase p) (refl, replies-in_phase calls (spec_stop p).1)
replies-in_phase (context_done ∷ calls) p =
    rw (on_done-in_phase p) (replies-in_phase calls (spec_done p))

-- Whatever calls of `Start` and `Stop` come in, with any results of `OnStart`, and whenever the context
-- ends: each call on a new service returns what the comments of the source promise for its phase, which
-- is fresh, running or finished, except that `Start` on a finished service returns `ErrAlreadyStarted`
-- in place of `ErrAlreadyStopped`. None panics.
pub replies_refine :
    (calls : List Call) → Fits calls (replies calls new_base_service) (spec_replies calls fresh)
replies_refine calls = replies-in_phase calls fresh

ended_in : (calls : List Call) (p : Phase) → (q : Phase) × (run calls (in_phase p) ≡ in_phase q)
unfolding run
ended_in [] p = (p, refl)
ended_in (call_start sound ∷ calls) p =
    rw (start-in_phase sound p) (ended_in calls (spec_start sound p).1)
ended_in (call_stop ∷ calls) p = rw (stop-in_phase p) (ended_in calls (spec_stop p).1)
ended_in (context_done ∷ calls) p = rw (on_done-in_phase p) (ended_in calls (spec_done p))

-- After any calls on a new service, `OnStart` returned nil once at most, and `OnStop` was called no more
-- often than that; the service is running exactly where the one happened and the other did not.
pub run_at_most_once :
    (calls : List Call)
    → ((run calls new_base_service).starts ≤ 1)
      × ((run calls new_base_service).stops ≤ (run calls new_base_service).starts)
      × (is_running (run calls new_base_service)
          ≡ ((run calls new_base_service).starts == (run calls new_base_service).stops + 1))
unfolding is_running new_base_service
run_at_most_once calls = bounded (ended_in calls fresh).0 (ended_in calls fresh).1
  where
    bounded :
        (q : Phase)
        → run calls new_base_service ≡ in_phase q
        → ((run calls new_base_service).starts ≤ 1)
          × ((run calls new_base_service).stops ≤ (run calls new_base_service).starts)
          × (is_running (run calls new_base_service)
              ≡ ((run calls new_base_service).starts == (run calls new_base_service).stops + 1))
    bounded fresh e = rw e (omega arith, omega arith, refl)
    bounded running e = rw e (omega arith, omega arith, refl)
    bounded finished e = rw e (omega arith, omega arith, refl)
