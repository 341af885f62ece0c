-- ===== src/Broker/Quiet.antt =====
-- What the goroutines of the broker do when no connection comes in.
use kage.Prelude.{ℕ, zero, suc, ◌+◌, ◌*◌, ◌≤◌, ◌<◌, ◌≡◌, refl, Option, none, some, arith}
use kage.Broker.{Phase, accepting, acquired, stopped, State, failed, started, released, finished}
use kage.Broker.Pool.{held_by_loop}

-- The events that the accept loop can still bring when Accept only fails.
abbrev pub loop_work : Phase → ℕ
loop_work accepting = 1
loop_work acquired = 4
loop_work stopped = 0

-- No more events than that are to come from the goroutines.
abbrev pub quiet_work : State → ℕ
quiet_work s = loop_work s.phase + (2 * s.handling + s.leaving)

-- The connections that have been given a slot and have not been counted off.
abbrev pub left : State → ℕ
left s = s.handling + s.leaving + held_by_loop s.phase

-- A step of a goroutine.
pub record IsQuieter (s s' : State) : Type 0 where
  pub same_main : s'.main ≡ s.main
  pub less_work : quiet_work s' < quiet_work s
  pub no_more_left : left s' ≤ left s
  pub less_held : held_by_loop s'.phase ≤ held_by_loop s.phase

-- A next state, if there is one, is that much quieter.
abbrev pub Quieter : State → Option State → Type 0
Quieter s none = Unit {0}
Quieter s (some s') = IsQuieter s s'

pub failed-Quieter : (s : State) (p : Phase) → s.phase ≡ p → Quieter s (failed s p)
unfolding failed
failed-Quieter s accepting e = record {
  same_main = refl;
  less_work = rw e (omega arith);
  no_more_left = rw e (omega arith);
  less_held = rw e (omega arith);
}
failed-Quieter s acquired e = tt
failed-Quieter s stopped e = tt

pub started-Quieter : (s : State) (p : Phase) → s.phase ≡ p → Quieter s (started s p)
unfolding started
started-Quieter s accepting e = tt
started-Quieter s acquired e = record {
  same_main = refl;
  less_work = rw e (omega arith);
  no_more_left = rw e (omega arith);
  less_held = rw e (omega arith);
}
started-Quieter s stopped e = tt

pub released-Quieter :
    (s : State) (sem handling : ℕ) → s.handling ≡ handling → Quieter s (released s sem handling)
unfolding released
released-Quieter s zero handling e = tt
released-Quieter s (suc sem) zero e = tt
released-Quieter s (suc sem) (suc handling) e = record {
  same_main = refl;
  less_work = omega (arith, e);
  no_more_left = omega (arith, e);
  less_held = omega arith;
}

pub finished-Quieter :
    (s : State) (wg leaving : ℕ) → s.leaving ≡ leaving → Quieter s (finished s wg leaving)
unfolding finished
finished-Quieter s zero leaving e = tt
finished-Quieter s (suc wg) zero e = tt
finished-Quieter s (suc wg) (suc leaving) e = record {
  same_main = refl;
  less_work = omega (arith, e);
  no_more_left = omega (arith, e);
  less_held = omega arith;
}
