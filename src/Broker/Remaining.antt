-- ===== src/Broker/Remaining.antt =====
-- The connections that the shutdown leaves: those that the accept loop held at the signal.
use kage.Prelude.{ℕ, zero, suc, ◌+◌, ◌≤◌, ◌≡◌, ◌≢◌, refl, Option, none, some, arith}
use kage.Broker.{
  MainPhase, serving, waiting, drained, clean, forced, State, Event, connect, fail, start, release,
  done, signal, wait_done, stop, timeout, accepted, failed, started, released, finished, signalled,
  waited, ended, act, step_in, step,
}
use kage.Broker.Pool.{IsBalanced, held_by_loop}
use kage.Broker.Quiet.{
  left, IsQuieter, Quieter, failed-Quieter, started-Quieter, released-Quieter, finished-Quieter,
}

-- Once the wait has ended, at most `n` connections are left; before, the loop holds at most `n`.
abbrev pub Remaining : ℕ → MainPhase → State → Type 0
Remaining n serving s = Unit {0}
Remaining n waiting s = held_by_loop s.phase ≤ n
Remaining n drained s = left s ≤ n
Remaining n clean s = left s ≤ n
Remaining n forced s = Unit {0}

Remaining-le :
    (n : ℕ) (m : MainPhase) (s s' : State) → IsQuieter s s' → Remaining n m s → Remaining n m s'
Remaining-le n serving s s' q x = tt
Remaining-le n waiting s s' q x = omega (arith, q.less_held, x)
Remaining-le n drained s s' q x = omega (arith, q.no_more_left, x)
Remaining-le n clean s s' q x = omega (arith, q.no_more_left, x)
Remaining-le n forced s s' q x = tt

abbrev Remains : ℕ → Option State → Type 0
Remains n none = Unit {0}
Remains n (some s) = Remaining n s.main s

Quieter-Remains :
    (n : ℕ) (s : State) (o : Option State) → Remaining n s.main s → Quieter s o → Remains n o
Quieter-Remains n s none x q = tt
Quieter-Remains n s (some s') x q = simp q.same_main (Remaining-le n s.main s s' q x)

module _ (n : ℕ) (s : State) where
  accepted-Remains : (pool : ℕ) (m : MainPhase) → m ≢ serving → Remains n (accepted pool s m)
  unfolding accepted
  accepted-Remains pool serving c = absurd (c refl)
  accepted-Remains pool waiting c = tt
  accepted-Remains pool drained c = tt
  accepted-Remains pool clean c = tt
  accepted-Remains pool forced c = tt

  signalled-Remains : (m : MainPhase) → m ≢ serving → Remains n (signalled s m)
  unfolding signalled
  signalled-Remains serving c = absurd (c refl)
  signalled-Remains waiting c = tt
  signalled-Remains drained c = tt
  signalled-Remains clean c = tt
  signalled-Remains forced c = tt

  -- When the counter is 0, all that is left is what the loop holds.
  waited-Remains :
      (m : MainPhase) (wg : ℕ)
      → s.wg ≡ wg
      → s.wg ≡ s.handling + s.leaving
      → Remaining n m s
      → Remains n (waited s m wg)
  unfolding waited
  waited-Remains waiting zero h b x = omega (arith, h, b, x)
  waited-Remains waiting (suc wg) h b x = tt
  waited-Remains serving wg h b x = tt
  waited-Remains drained wg h b x = tt
  waited-Remains clean wg h b x = tt
  waited-Remains forced wg h b x = tt

  ended-Remains : (m : MainPhase) → Remaining n m s → Remains n (ended s m)
  unfolding ended
  ended-Remains drained x = x
  ended-Remains serving x = tt
  ended-Remains waiting x = tt
  ended-Remains clean x = tt
  ended-Remains forced x = tt

  act-Remains :
      (pool : ℕ) (e : Event)
      → IsBalanced pool s
      → s.main ≢ serving
      → e ≢ timeout
      → Remaining n s.main s
      → Remains n (act pool e s)
  unfolding act
  act-Remains pool connect b c k x = accepted-Remains pool s.main c
  act-Remains pool fail b c k x =
      Quieter-Remains n s (failed s s.phase) x (failed-Quieter s s.phase refl)
  act-Remains pool start b c k x =
      Quieter-Remains n s (started s s.phase) x (started-Quieter s s.phase refl)
  act-Remains pool release b c k x =
      Quieter-Remains n s (released s s.sem s.handling) x (released-Quieter s s.sem s.handling refl)
  act-Remains pool done b c k x =
      Quieter-Remains n s (finished s s.wg s.leaving) x (finished-Quieter s s.wg s.leaving refl)
  act-Remains pool signal b c k x = signalled-Remains s.main c
  act-Remains pool wait_done b c k x = waited-Remains s.main s.wg refl b.counted x
  act-Remains pool stop b c k x = ended-Remains s.main x
  act-Remains pool timeout b c k x = absurd (k refl)

  step_in-Remains :
      (pool : ℕ) (e : Event) (m : MainPhase)
      → IsBalanced pool s
      → s.main ≢ serving
      → e ≢ timeout
      → Remaining n s.main s
      → Remains n (step_in pool e s m)
  unfolding step_in
  step_in-Remains pool e serving b c k x = act-Remains pool e b c k x
  step_in-Remains pool e waiting b c k x = act-Remains pool e b c k x
  step_in-Remains pool e drained b c k x = act-Remains pool e b c k x
  step_in-Remains pool e clean b c k x = tt
  step_in-Remains pool e forced b c k x = tt

  pub step-Remaining :
      (pool : ℕ) (e : Event) (s' : State)
      → IsBalanced pool s
      → s.main ≢ serving
      → e ≢ timeout
      → step pool e s ≡ some s'
      → Remaining n s.main s
      → Remaining n s'.main s'
  unfolding step
  step-Remaining pool e s' b c k h x =
      let y : Remains n (some s') = rw h at (step_in-Remains pool e s.main b c k x) in y
