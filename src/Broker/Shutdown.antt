-- ===== src/Broker/Shutdown.antt =====
-- The shutdown comes to an end.
use kage.Prelude.{
  ℕ, zero, suc, ◌+◌, ◌≤◌, ◌<◌, ◌≡◌, ◌≢◌, ◌⊎◌, refl, sym, ap, ◌∙◌, inl, inr, Option, none, some,
  Option-cases, List, [], ◌∷◌, arith, All, length,
}
use kage.Broker.{
  MainPhase, serving, waiting, drained, clean, forced, State, Event, connect, fail, start, release,
  done, signal, wait_done, stop, timeout, accepted, failed, started, released, finished, signalled,
  waited, ended, act, step_in, step, run_from, run, Reachable, by_step,
}
use kage.Broker.Pool.{Reachable-IsBalanced, held_by_loop}
use kage.Broker.Progress.{IsClosing, CanGoOn, closing-CanGoOn}
use kage.Broker.Remaining.{Remaining, step-Remaining}
use kage.Broker.Quiet.{
  quiet_work, Quieter, failed-Quieter, started-Quieter, released-Quieter, finished-Quieter,
}

-- The steps that are left to `main`.
abbrev pub main_work : MainPhase → ℕ
main_work serving = 3
main_work waiting = 2
main_work drained = 1
main_work clean = 0
main_work forced = 0

abbrev pub work : State → ℕ
work s = quiet_work s + main_work s.main

IsClosing-serving : (m : MainPhase) → IsClosing m → m ≢ serving
IsClosing-serving serving c e = c
IsClosing-serving waiting c e = absurd (cc)
IsClosing-serving drained c e = absurd (cc)
IsClosing-serving clean c e = absurd (cc)
IsClosing-serving forced c e = c

-- A next state, if there is one, has less to do and is closing, too.
abbrev pub Closer : State → Option State → Type 0
Closer s none = Unit {0}
Closer s (some s') = (work s' < work s) × IsClosing s'.main

Quieter-Closer : (s : State) (o : Option State) → IsClosing s.main → Quieter s o → Closer s o
Quieter-Closer s none c q = tt
Quieter-Closer s (some s') c q =
    let less = q.less_work in rw q.same_main (omega (arith, less, ap main_work q.same_main), c)

module _ (s : State) where
  accepted-Closer : (pool : ℕ) (m : MainPhase) → IsClosing m → Closer s (accepted pool s m)
  unfolding accepted
  accepted-Closer pool serving c = absurd c
  accepted-Closer pool waiting c = tt
  accepted-Closer pool drained c = tt
  accepted-Closer pool clean c = tt
  accepted-Closer pool forced c = tt

  signalled-Closer : (m : MainPhase) → IsClosing m → Closer s (signalled s m)
  unfolding signalled
  signalled-Closer serving c = absurd c
  signalled-Closer waiting c = tt
  signalled-Closer drained c = tt
  signalled-Closer clean c = tt
  signalled-Closer forced c = tt

  waited-Closer : (m : MainPhase) (wg : ℕ) → s.main ≡ m → Closer s (waited s m wg)
  unfolding waited
  waited-Closer waiting zero h = (rw h (omega arith), tt)
  waited-Closer waiting (suc wg) h = tt
  waited-Closer serving wg h = tt
  waited-Closer drained wg h = tt
  waited-Closer clean wg h = tt
  waited-Closer forced wg h = tt

  ended-Closer : (m : MainPhase) → s.main ≡ m → Closer s (ended s m)
  unfolding ended
  ended-Closer drained h = (rw h (omega arith), tt)
  ended-Closer serving h = tt
  ended-Closer waiting h = tt
  ended-Closer clean h = tt
  ended-Closer forced h = tt

  act-Closer : (pool : ℕ) (e : Event) → IsClosing s.main → e ≢ timeout → Closer s (act pool e s)
  unfolding act
  act-Closer pool connect c n = accepted-Closer pool s.main c
  act-Closer pool fail c n = Quieter-Closer s (failed s s.phase) c (failed-Quieter s s.phase refl)
  act-Closer pool start c n =
      Quieter-Closer s (started s s.phase) c (started-Quieter s s.phase refl)
  act-Closer pool release c n =
      Quieter-Closer s (released s s.sem s.handling) c (released-Quieter s s.sem s.handling refl)
  act-Closer pool done c n =
      Quieter-Closer s (finished s s.wg s.leaving) c (finished-Quieter s s.wg s.leaving refl)
  act-Closer pool signal c n = signalled-Closer s.main c
  act-Closer pool wait_done c n = waited-Closer s.main s.wg refl
  act-Closer pool stop c n = ended-Closer s.main refl
  act-Closer pool timeout c n = absurd (n refl)

  step_in-Closer :
      (pool : ℕ) (e : Event) (m : MainPhase)
      → IsClosing s.main
      → e ≢ timeout
      → Closer s (step_in pool e s m)
  unfolding step_in
  step_in-Closer pool e serving c n = act-Closer pool e c n
  step_in-Closer pool e waiting c n = act-Closer pool e c n
  step_in-Closer pool e drained c n = act-Closer pool e c n
  step_in-Closer pool e clean c n = tt
  step_in-Closer pool e forced c n = tt

step-Closer :
    (pool : ℕ) (e : Event) (s s' : State)
    → IsClosing s.main
    → e ≢ timeout
    → step pool e s ≡ some s'
    → (work s' < work s) × IsClosing s'.main
unfolding step
step-Closer pool e s s' c n h =
    let x : Closer s (some s') = rw h at (step_in-Closer s pool e s.main c n) in x

-- What a run without a timeout comes to.
pub record IsDraining (pool : ℕ) (s : State) (events : List Event) (s' : State) : Type 0 where
  pub bounded : length events + work s' ≤ work s
  pub goes_on : (s'.main ≡ clean) ⊎ CanGoOn pool s'

run_from-none : (pool : ℕ) (es : List Event) → run_from pool es none ≡ none
unfolding run_from
run_from-none pool [] = refl
run_from-none pool (e ∷ es) = refl

run_from-IsDraining :
    (pool : ℕ) (s s' : State) (es : List Event)
    → Reachable pool s
    → IsClosing s.main
    → All (λ e. e ≢ timeout) es
    → run_from pool es (some s) ≡ some s'
    → IsDraining pool s es s'
unfolding run_from
run_from-IsDraining pool s s' [] r c n h =
    let same : s ≡ s' = ground arith in
    let x : IsDraining pool s [] s = record {
      bounded = omega arith;
      goes_on =
          closing-CanGoOn pool s.main s.phase s.sem s.wg s.handling s.leaving c
            (Reachable-IsBalanced pool s r);
    } in
    rw (sym same) x
run_from-IsDraining pool s s' (e ∷ es) r c n h = elim (Option-cases (step pool e s)) [
  | inl never ↦
      let h' : run_from pool es none ≡ some s' = rw never at h in
      absurd (let x = sym (run_from-none pool es) ∙ h' in cc)
  | inr (t, next_is) ↦
      let h' : run_from pool es (some t) ≡ some s' = rw next_is at h in
      let (less, c') = step-Closer pool e s t c n.0 next_is in
      let rest = run_from-IsDraining pool t s' es (by_step e s t r next_is) c' n.1 h' in
      record { bounded = omega (arith, less, rest.bounded); goes_on = rest.goes_on }
]

-- What holds at the start of a run stays: the loop holds no more connections than at the start,
-- and no more than those are left when the wait has ended.
run_from-Remaining :
    (n pool : ℕ) (s s' : State) (es : List Event)
    → Reachable pool s
    → IsClosing s.main
    → All (λ e. e ≢ timeout) es
    → run_from pool es (some s) ≡ some s'
    → Remaining n s.main s
    → Remaining n s'.main s'
unfolding run_from
run_from-Remaining n pool s s' [] r c k h x = let same : s ≡ s' = ground arith in rw (sym same) x
run_from-Remaining n pool s s' (e ∷ es) r c k h x = elim (Option-cases (step pool e s)) [
  | inl never ↦
      let h' : run_from pool es none ≡ some s' = rw never at h in
      absurd (let x = sym (run_from-none pool es) ∙ h' in cc)
  | inr (t, next_is) ↦
      let h' : run_from pool es (some t) ≡ some s' = rw next_is at h in
      let (_, c') = step-Closer pool e s t c k.0 next_is in
      let b = Reachable-IsBalanced pool s r in
      run_from-Remaining n pool t s' es (by_step e s t r next_is) c' k.1 h'
        (step-Remaining n s pool e t b (IsClosing-serving s.main c) k.0 next_is x)
]

-- Once the listener of a process is closed, every run in which the timeout does not come is finite,
-- at most as long as `work` says, and never stuck: as long as `main` has not come to its clean end,
-- a goroutine or `main` can go on. When the wait for the connections has ended, and at the clean
-- end, no more of them are left than the accept loop held when the listener was closed: none, or
-- the one that had its slot but not yet its goroutine. This is so whatever order the goroutines run
-- in, if `Handle` returns for each connection.
pub shutdown_drains :
    (pool : ℕ) (s s' : State) (events : List Event)
    → Reachable pool s
    → s.main ≡ waiting
    → All (λ e. e ≢ timeout) events
    → run pool events s ≡ some s'
    → IsDraining pool s events s' × Remaining (held_by_loop s.phase) s'.main s'
unfolding run
shutdown_drains pool s s' events r w n h = (
  run_from-IsDraining pool s s' events r (rw w tt) n h,
  run_from-Remaining (held_by_loop s.phase) pool s s' events r (rw w tt) n h (rw w (omega arith)),
)
