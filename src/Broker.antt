-- ===== src/Broker.antt =====
-- The accept loop of cmd/kaged/main.go with the goroutines that it starts, and the shutdown of
-- `main`: what each does between two places where another can come in is one event.
pub mod Start
pub mod Pool
pub mod Quiet
pub mod Remaining
pub mod Progress
pub mod Shutdown
pub mod Leftover
use kage.Prelude.{ℕ, zero, suc, Bool, List, [], ◌∷◌, Option, none, some, ◌≡◌, ltb, if◌then◌else◌}

-- Where the loop stands: at Accept, behind the send to `sem` but before `wg.Add`, or at its end.
pub data Phase : Type 0 where
  accepting : Phase
  acquired : Phase
  stopped : Phase

-- Where `main` stands: at the receive from `ctx.Done()`; at the select, the listener closed and
-- `wg.Wait` called in its goroutine; there with `shutdownDone` closed; or at its end, all connections
-- drained or the timeout exceeded.
pub data MainPhase : Type 0 where
  serving : MainPhase
  waiting : MainPhase
  drained : MainPhase
  clean : MainPhase
  forced : MainPhase

-- `sem` is how many slots of the channel are taken, `wg` the counter of the wait group. `handling`
-- counts the connections in `Handle` of the handler, `leaving` those that have given their slot
-- back but have not called `wg.Done` yet.
pub record State : Type 0 where
  pub phase : Phase
  pub main : MainPhase
  pub sem : ℕ
  pub wg : ℕ
  pub handling : ℕ
  pub leaving : ℕ

unfoldable pub initial : State
initial = record { phase = accepting; main = serving; sem = 0; wg = 0; handling = 0; leaving = 0 }

-- A connection comes in; Accept fails; the goroutine of an accepted connection is started; `Handle`
-- returns and the slot is given back; `wg.Done` is called. SIGTERM or SIGINT comes, and `main` closes
-- the listener and has the wait begin; `wg.Wait` returns and `shutdownDone` is closed; the select
-- takes that, or the timeout.
pub data Event : Type 0 where
  connect : Event
  fail : Event
  start : Event
  release : Event
  done : Event
  signal : Event
  wait_done : Event
  stop : Event
  timeout : Event

-- A connection without a slot is closed, and the loop goes on.
unfoldable pub connected : ℕ → State → Phase → Option State
connected pool s accepting =
    some (if ltb s.sem pool then record s { phase = acquired; sem = suc s.sem } else s)
connected pool s acquired = none
connected pool s stopped = none

-- Once the listener is closed, Accept returns an error. A connection that Accept has returned before
-- counts as one that has had its slot by then: the signal can as well come after what the goroutines
-- do meanwhile.
unfoldable pub accepted : ℕ → State → MainPhase → Option State
accepted pool s serving = connected pool s s.phase
accepted pool s waiting = none
accepted pool s drained = none
accepted pool s clean = none
accepted pool s forced = none

-- Any error of Accept ends the loop, that of a closed listener among them.
unfoldable pub failed : State → Phase → Option State
failed s accepting = some (record s { phase = stopped })
failed s acquired = none
failed s stopped = none

unfoldable pub started : State → Phase → Option State
started s accepting = none
started s acquired = some (record s { phase = accepting; wg = suc s.wg; handling = suc s.handling })
started s stopped = none

-- The receive from `sem` never waits, as the invariant shows.
unfoldable pub released : State → ℕ → ℕ → Option State
released s (suc sem) (suc handling) =
    some (record s { sem = sem; handling = handling; leaving = suc s.leaving })
released s zero handling = none
released s (suc sem) zero = none

unfoldable pub finished : State → ℕ → ℕ → Option State
finished s (suc wg) (suc leaving) = some (record s { wg = wg; leaving = leaving })
finished s zero leaving = none
finished s (suc wg) zero = none

unfoldable pub signalled : State → MainPhase → Option State
signalled s serving = some (record s { main = waiting })
signalled s waiting = none
signalled s drained = none
signalled s clean = none
signalled s forced = none

-- `wg.Wait` returns when the counter is 0.
unfoldable pub waited : State → MainPhase → ℕ → Option State
waited s waiting zero = some (record s { main = drained })
waited s waiting (suc wg) = none
waited s serving wg = none
waited s drained wg = none
waited s clean wg = none
waited s forced wg = none

unfoldable pub ended : State → MainPhase → Option State
ended s drained = some (record s { main = clean })
ended s serving = none
ended s waiting = none
ended s clean = none
ended s forced = none

-- When the two cases of the select are ready, it takes either.
unfoldable pub timed_out : State → MainPhase → Option State
timed_out s waiting = some (record s { main = forced })
timed_out s drained = some (record s { main = forced })
timed_out s serving = none
timed_out s clean = none
timed_out s forced = none

-- What the goroutines can do while `main` has not returned.
unfoldable pub act : ℕ → Event → State → Option State
act pool connect s = accepted pool s s.main
act pool fail s = failed s s.phase
act pool start s = started s s.phase
act pool release s = released s s.sem s.handling
act pool done s = finished s s.wg s.leaving
act pool signal s = signalled s s.main
act pool wait_done s = waited s s.main s.wg
act pool stop s = ended s s.main
act pool timeout s = timed_out s s.main

-- The process ends with `main`, so nothing happens behind that; `none` where the event cannot
-- happen.
unfoldable pub step_in : ℕ → Event → State → MainPhase → Option State
step_in pool e s serving = act pool e s
step_in pool e s waiting = act pool e s
step_in pool e s drained = act pool e s
step_in pool e s clean = none
step_in pool e s forced = none

unfoldable pub step : ℕ → Event → State → Option State
step pool e s = step_in pool e s s.main

-- A run of events, `none` if one of them cannot happen in its turn.
unfoldable pub run_from : ℕ → List Event → Option State → Option State
run_from pool [] s = s
run_from pool (e ∷ es) none = none
run_from pool (e ∷ es) (some s) = run_from pool es (step pool e s)

unfoldable pub run : ℕ → List Event → State → Option State
run pool es s = run_from pool es (some s)

-- The states that the process can come to.
pub data Reachable (pool : ℕ) : State → Type 0 where
  at_start : Reachable pool initial
  by_step :
      (e : Event) (s s' : State) → Reachable pool s → step pool e s ≡ some s' → Reachable pool s'
