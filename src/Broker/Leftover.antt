-- ===== src/Broker/Leftover.antt =====
-- What a clean shutdown may leave behind.
use kage.Prelude.{
  ℕ, zero, suc, ◌+◌, ◌≤◌, ◌≡◌, refl, inl, inr, Bool-cases, ltb, Option, none, some, arith,
}
use kage.Broker.{
  Phase, accepting, acquired, stopped, MainPhase, serving, waiting, drained, clean, forced, State,
  initial, Event, connect, fail, start, release, done, signal, wait_done, stop, timeout, connected,
  accepted, failed, started, released, finished, signalled, waited, ended, timed_out, act, step_in,
  step, Reachable, at_start, by_step,
}
use kage.Broker.Pool.{IsBalanced, held_by_loop, Reachable-IsBalanced}
use kage.Broker.Quiet.{
  left, Quieter, failed-Quieter, started-Quieter, released-Quieter, finished-Quieter,
}

-- The bound on what is left, from where the wait has ended without a timeout.
abbrev pub AtMostOne : MainPhase → ℕ → Type 0
AtMostOne serving n = Unit {0}
AtMostOne waiting n = Unit {0}
AtMostOne drained n = n ≤ 1
AtMostOne clean n = n ≤ 1
AtMostOne forced n = Unit {0}

AtMostOne-le : (m : MainPhase) (a b : ℕ) → a ≤ b → AtMostOne m b → AtMostOne m a
AtMostOne-le serving a b h x = tt
AtMostOne-le waiting a b h x = tt
AtMostOne-le drained a b h x = omega (arith, x)
AtMostOne-le clean a b h x = omega (arith, x)
AtMostOne-le forced a b h x = tt

held-le : (p : Phase) → held_by_loop p ≤ 1
held-le accepting = omega arith
held-le acquired = omega arith
held-le stopped = omega arith

abbrev Few : Option State → Type 0
Few none = Unit {0}
Few (some s) = AtMostOne s.main (left s)

Quieter-Few : (s : State) (o : Option State) → AtMostOne s.main (left s) → Quieter s o → Few o
Quieter-Few s none x q = tt
Quieter-Few s (some s') x q =
    rw q.same_main (AtMostOne-le s.main (left s') (left s) q.no_more_left x)

connected-Few : (pool : ℕ) (s : State) (p : Phase) → s.main ≡ serving → Few (connected pool s p)
unfolding connected
connected-Few pool s accepting h = elim (Bool-cases (ltb s.sem pool)) [
  | inl room ↦ rw (room, h) tt
  | inr full ↦ rw (full, h) tt
]
connected-Few pool s acquired h = tt
connected-Few pool s stopped h = tt

accepted-Few : (pool : ℕ) (s : State) (m : MainPhase) → s.main ≡ m → Few (accepted pool s m)
unfolding accepted
accepted-Few pool s serving h = connected-Few pool s s.phase h
accepted-Few pool s waiting h = tt
accepted-Few pool s drained h = tt
accepted-Few pool s clean h = tt
accepted-Few pool s forced h = tt

signalled-Few : (s : State) (m : MainPhase) → Few (signalled s m)
unfolding signalled
signalled-Few s serving = tt
signalled-Few s waiting = tt
signalled-Few s drained = tt
signalled-Few s clean = tt
signalled-Few s forced = tt

-- When the wait ends, only the accept loop can still hold a connection.
waited-Few :
    (s : State) (m : MainPhase) (wg : ℕ)
    → s.wg ≡ wg
    → s.wg ≡ s.handling + s.leaving
    → Few (waited s m wg)
unfolding waited
waited-Few s waiting zero h b = omega (arith, h, b, held-le s.phase)
waited-Few s waiting (suc wg) h b = tt
waited-Few s serving wg h b = tt
waited-Few s drained wg h b = tt
waited-Few s clean wg h b = tt
waited-Few s forced wg h b = tt

ended-Few : (s : State) (m : MainPhase) → AtMostOne m (left s) → Few (ended s m)
unfolding ended
ended-Few s drained x = x
ended-Few s serving x = tt
ended-Few s waiting x = tt
ended-Few s clean x = tt
ended-Few s forced x = tt

timed_out-Few : (s : State) (m : MainPhase) → Few (timed_out s m)
unfolding timed_out
timed_out-Few s waiting = tt
timed_out-Few s drained = tt
timed_out-Few s serving = tt
timed_out-Few s clean = tt
timed_out-Few s forced = tt

act-Few :
    (pool : ℕ) (e : Event) (s : State)
    → IsBalanced pool s
    → AtMostOne s.main (left s)
    → Few (act pool e s)
unfolding act
act-Few pool connect s b x = accepted-Few pool s s.main refl
act-Few pool fail s b x = Quieter-Few s (failed s s.phase) x (failed-Quieter s s.phase refl)
act-Few pool start s b x = Quieter-Few s (started s s.phase) x (started-Quieter s s.phase refl)
act-Few pool release s b x =
    Quieter-Few s (released s s.sem s.handling) x (released-Quieter s s.sem s.handling refl)
act-Few pool done s b x =
    Quieter-Few s (finished s s.wg s.leaving) x (finished-Quieter s s.wg s.leaving refl)
act-Few pool signal s b x = signalled-Few s s.main
act-Few pool wait_done s b x = waited-Few s s.main s.wg refl b.counted
act-Few pool stop s b x = ended-Few s s.main x
act-Few pool timeout s b x = timed_out-Few s s.main

step_in-Few :
    (pool : ℕ) (e : Event) (s : State) (m : MainPhase)
    → IsBalanced pool s
    → AtMostOne s.main (left s)
    → Few (step_in pool e s m)
unfolding step_in
step_in-Few pool e s serving b x = act-Few pool e s b x
step_in-Few pool e s waiting b x = act-Few pool e s b x
step_in-Few pool e s drained b x = act-Few pool e s b x
step_in-Few pool e s clean b x = tt
step_in-Few pool e s forced b x = tt

-- When the wait for the connections has ended without a timeout, at most one is left: one that the
-- accept loop had accepted, with a slot, when the listener was closed.
pub Reachable-AtMostOne : (pool : ℕ) (s : State) → Reachable pool s → AtMostOne s.main (left s)
unfolding initial step
Reachable-AtMostOne pool s at_start = tt
Reachable-AtMostOne pool s' (by_step e s s'' r h) =
    let x : Few (some s') = rw h at (
      step_in-Few pool e s s.main (Reachable-IsBalanced pool s r) (Reachable-AtMostOne pool s r)) in
    x
