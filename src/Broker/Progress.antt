-- ===== src/Broker/Progress.antt =====
-- While the process shuts down, something can happen other than the timeout.
use kage.Prelude.{ℕ, zero, suc, ◌≡◌, ◌≢◌, ◌⊎◌, refl, inl, inr, some, arith}
use kage.Broker.{
  Phase, accepting, acquired, stopped, MainPhase, serving, waiting, drained, clean, forced, State,
  Event, fail, start, release, done, wait_done, stop, timeout, failed, started, released, finished,
  waited, ended, act, step_in, step,
}
use kage.Broker.Pool.{IsBalanced}

-- The listener is closed, and the timeout has not been taken.
abbrev pub IsClosing : MainPhase → Type 0
IsClosing serving = ⊥
IsClosing waiting = Unit {0}
IsClosing drained = Unit {0}
IsClosing clean = Unit {0}
IsClosing forced = ⊥

-- Something other than the timeout can happen.
abbrev pub CanGoOn : ℕ → State → Type 0
CanGoOn pool s = (e : Event) × (s' : State) × (e ≢ timeout) × (step pool e s ≡ some s')

abbrev state : Phase → MainPhase → ℕ → ℕ → ℕ → ℕ → State
state p m sem wg handling leaving = record {
  phase = p;
  main = m;
  sem = sem;
  wg = wg;
  handling = handling;
  leaving = leaving;
}

-- While connections are to be handled, some goroutine can go on, and then the wait can end.
waiting-CanGoOn :
    (pool : ℕ) (p : Phase) (sem wg handling leaving : ℕ)
    → IsBalanced pool (state p waiting sem wg handling leaving)
    → CanGoOn pool (state p waiting sem wg handling leaving)
unfolding step step_in act failed started released finished waited
waiting-CanGoOn pool accepting sem wg handling leaving b = (fail, _, λ e. cc, refl)
waiting-CanGoOn pool acquired sem wg handling leaving b = (start, _, λ e. cc, refl)
waiting-CanGoOn pool stopped (suc sem) wg (suc handling) leaving b = (release, _, λ e. cc, refl)
waiting-CanGoOn pool stopped zero wg (suc handling) leaving b =
    let slots = b.slots in absurd (omega arith)
waiting-CanGoOn pool stopped sem (suc wg) zero (suc leaving) b = (done, _, λ e. cc, refl)
waiting-CanGoOn pool stopped sem (suc wg) zero zero b =
    let counted = b.counted in absurd (omega arith)
waiting-CanGoOn pool stopped sem zero zero leaving b = (wait_done, _, λ e. cc, refl)

-- A state that is closing goes on, but for its end.
pub closing-CanGoOn :
    (pool : ℕ) (m : MainPhase) (p : Phase) (sem wg handling leaving : ℕ)
    → IsClosing m
    → IsBalanced pool (state p m sem wg handling leaving)
    → (m ≡ clean) ⊎ CanGoOn pool (state p m sem wg handling leaving)
unfolding step step_in act ended
closing-CanGoOn pool serving p sem wg handling leaving c b = absurd c
closing-CanGoOn pool waiting p sem wg handling leaving c b =
    inr (waiting-CanGoOn pool p sem wg handling leaving b)
closing-CanGoOn pool drained p sem wg handling leaving c b = inr (stop, _, λ e. cc, refl)
closing-CanGoOn pool clean p sem wg handling leaving c b = inl refl
closing-CanGoOn pool forced p sem wg handling leaving c b = absurd c
