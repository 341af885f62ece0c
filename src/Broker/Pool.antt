-- ===== src/Broker/Pool.antt =====
-- What holds of the worker pool at any time.
use kage.Prelude.{
  ℕ, zero, suc, ◌+◌, ◌≤◌, ◌≡◌, refl, inl, inr, Bool-cases, Option, none, some, arith, ltb,
}
use kage.Broker.{
  Phase, accepting, acquired, stopped, MainPhase, serving, waiting, drained, clean, forced, State,
  initial, Event, connect, fail, start, release, done, signal, wait_done, stop, timeout, connected,
  accepted, failed, started, released, finished, signalled, waited, ended, timed_out, act, step_in,
  step, Reachable, at_start, by_step,
}

-- The slot that the accept loop itself holds.
abbrev pub held_by_loop : Phase → ℕ
held_by_loop accepting = 0
held_by_loop acquired = 1
held_by_loop stopped = 0

-- A slot for each connection that is handled and for one that is about to be, and a count in the
-- wait group for each goroutine.
pub record IsBalanced (pool : ℕ) (s : State) : Type 0 where
  pub slots : s.sem ≡ s.handling + held_by_loop s.phase
  pub counted : s.wg ≡ s.handling + s.leaving
  pub limited : s.sem ≤ pool

-- A next state, if there is one, is balanced.
abbrev Next : ℕ → Option State → Type 0
Next pool none = Unit {0}
Next pool (some s) = IsBalanced pool s

connected-IsBalanced :
    (pool : ℕ) (s : State) (p : Phase)
    → s.phase ≡ p
    → IsBalanced pool s
    → Next pool (connected pool s p)
unfolding connected
connected-IsBalanced pool s accepting e b = elim (Bool-cases (ltb s.sem pool)) [
  | inl room ↦ simp room (
      let x : s.sem ≡ s.handling + 0 = rw e at (b.slots) in
      record { slots = omega (arith, x); counted = b.counted; limited = ground arith })
  | inr full ↦ simp full b
]
connected-IsBalanced pool s acquired e b = tt
connected-IsBalanced pool s stopped e b = tt

failed-IsBalanced :
    (pool : ℕ) (s : State) (p : Phase) → s.phase ≡ p → IsBalanced pool s → Next pool (failed s p)
unfolding failed
failed-IsBalanced pool s accepting e b =
    let x : s.sem ≡ s.handling + 0 = rw e at (b.slots) in
    record { slots = x; counted = b.counted; limited = b.limited }
failed-IsBalanced pool s acquired e b = tt
failed-IsBalanced pool s stopped e b = tt

started-IsBalanced :
    (pool : ℕ) (s : State) (p : Phase) → s.phase ≡ p → IsBalanced pool s → Next pool (started s p)
unfolding started
started-IsBalanced pool s accepting e b = tt
started-IsBalanced pool s acquired e b =
    let x : s.sem ≡ s.handling + 1 = rw e at (b.slots) in
    record { slots = omega (arith, x); counted = omega (arith, b.counted); limited = b.limited }
started-IsBalanced pool s stopped e b = tt

released-IsBalanced :
    (pool : ℕ) (s : State) (sem handling : ℕ)
    → s.sem ≡ sem
    → s.handling ≡ handling
    → IsBalanced pool s
    → Next pool (released s sem handling)
unfolding released
released-IsBalanced pool s zero handling e f b = tt
released-IsBalanced pool s (suc sem) zero e f b = tt
released-IsBalanced pool s (suc sem) (suc handling) e f b = record {
  slots = omega (arith, b.slots);
  counted = omega (arith, b.counted);
  limited = omega (arith, b.limited);
}

finished-IsBalanced :
    (pool : ℕ) (s : State) (wg leaving : ℕ)
    → s.wg ≡ wg
    → s.leaving ≡ leaving
    → IsBalanced pool s
    → Next pool (finished s wg leaving)
unfolding finished
finished-IsBalanced pool s zero leaving e f b = tt
finished-IsBalanced pool s (suc wg) zero e f b = tt
finished-IsBalanced pool s (suc wg) (suc leaving) e f b = record {
  slots = b.slots;
  counted = omega (arith, b.counted);
  limited = b.limited;
}

accepted-IsBalanced :
    (pool : ℕ) (s : State) (m : MainPhase) → IsBalanced pool s → Next pool (accepted pool s m)
unfolding accepted
accepted-IsBalanced pool s serving b = connected-IsBalanced pool s s.phase refl b
accepted-IsBalanced pool s waiting b = tt
accepted-IsBalanced pool s drained b = tt
accepted-IsBalanced pool s clean b = tt
accepted-IsBalanced pool s forced b = tt

-- The shutdown changes none of the counts.
main-IsBalanced :
    (pool : ℕ) (s : State) (m : MainPhase)
    → IsBalanced pool s
    → IsBalanced pool (record s { main = m })
main-IsBalanced pool s m b = record { slots = b.slots; counted = b.counted; limited = b.limited }

signalled-IsBalanced :
    (pool : ℕ) (s : State) (m : MainPhase) → IsBalanced pool s → Next pool (signalled s m)
unfolding signalled
signalled-IsBalanced pool s serving b = main-IsBalanced pool s waiting b
signalled-IsBalanced pool s waiting b = tt
signalled-IsBalanced pool s drained b = tt
signalled-IsBalanced pool s clean b = tt
signalled-IsBalanced pool s forced b = tt

waited-IsBalanced :
    (pool : ℕ) (s : State) (m : MainPhase) (wg : ℕ) → IsBalanced pool s → Next pool (waited s m wg)
unfolding waited
waited-IsBalanced pool s waiting zero b = main-IsBalanced pool s drained b
waited-IsBalanced pool s waiting (suc wg) b = tt
waited-IsBalanced pool s serving wg b = tt
waited-IsBalanced pool s drained wg b = tt
waited-IsBalanced pool s clean wg b = tt
waited-IsBalanced pool s forced wg b = tt

ended-IsBalanced :
    (pool : ℕ) (s : State) (m : MainPhase) → IsBalanced pool s → Next pool (ended s m)
unfolding ended
ended-IsBalanced pool s drained b = main-IsBalanced pool s clean b
ended-IsBalanced pool s serving b = tt
ended-IsBalanced pool s waiting b = tt
ended-IsBalanced pool s clean b = tt
ended-IsBalanced pool s forced b = tt

timed_out-IsBalanced :
    (pool : ℕ) (s : State) (m : MainPhase) → IsBalanced pool s → Next pool (timed_out s m)
unfolding timed_out
timed_out-IsBalanced pool s waiting b = main-IsBalanced pool s forced b
timed_out-IsBalanced pool s drained b = main-IsBalanced pool s forced b
timed_out-IsBalanced pool s serving b = tt
timed_out-IsBalanced pool s clean b = tt
timed_out-IsBalanced pool s forced b = tt

act-IsBalanced : (pool : ℕ) (e : Event) (s : State) → IsBalanced pool s → Next pool (act pool e s)
unfolding act
act-IsBalanced pool connect s b = accepted-IsBalanced pool s s.main b
act-IsBalanced pool fail s b = failed-IsBalanced pool s s.phase refl b
act-IsBalanced pool start s b = started-IsBalanced pool s s.phase refl b
act-IsBalanced pool release s b = released-IsBalanced pool s s.sem s.handling refl refl b
act-IsBalanced pool done s b = finished-IsBalanced pool s s.wg s.leaving refl refl b
act-IsBalanced pool signal s b = signalled-IsBalanced pool s s.main b
act-IsBalanced pool wait_done s b = waited-IsBalanced pool s s.main s.wg b
act-IsBalanced pool stop s b = ended-IsBalanced pool s s.main b
act-IsBalanced pool timeout s b = timed_out-IsBalanced pool s s.main b

step_in-IsBalanced :
    (pool : ℕ) (e : Event) (s : State) (m : MainPhase)
    → IsBalanced pool s
    → Next pool (step_in pool e s m)
unfolding step_in
step_in-IsBalanced pool e s serving b = act-IsBalanced pool e s b
step_in-IsBalanced pool e s waiting b = act-IsBalanced pool e s b
step_in-IsBalanced pool e s drained b = act-IsBalanced pool e s b
step_in-IsBalanced pool e s clean b = tt
step_in-IsBalanced pool e s forced b = tt

step-IsBalanced : (pool : ℕ) (e : Event) (s : State) → IsBalanced pool s → Next pool (step pool e s)
unfolding step
step-IsBalanced pool e s b = step_in-IsBalanced pool e s s.main b

-- In every state that the process can come to, each connection that is handled, and one that has
-- been accepted and is about to be, has a slot of the pool, of which no more are taken than the pool
-- has, and the wait group counts the goroutines that have not ended.
pub Reachable-IsBalanced : (pool : ℕ) (s : State) → Reachable pool s → IsBalanced pool s
unfolding initial
Reachable-IsBalanced pool s at_start = record {
  slots = omega arith;
  counted = omega arith;
  limited = omega arith;
}
Reachable-IsBalanced pool s' (by_step e s s'' r h) =
    let x : Next pool (some s') =
      rw h at (step-IsBalanced pool e s (Reachable-IsBalanced pool s r)) in
    x
