-- ===== src/Tests/BrokerTests.antt =====
-- Runs of the start and of the shutdown of cmd/kaged/main.go on concrete data.
use kage.Prelude.{ℕ, ◌≡◌, refl, none, [], ◌∷◌, Option, Bytes}
use kage.Outcome.{ok}
use kage.Broker.{
  State, initial, acquired, stopped, serving, waiting, drained, clean, connect, fail, start,
  release, done, signal, wait_done, stop, connected, accepted, failed, started, released, finished,
  signalled, waited, ended, act, step_in, step, run_from, run, Reachable, at_start, by_step,
}
use kage.Broker.Start.{
  Process, addr, metrics_addr, new_handler, with_offsets, with_listener, with_store, with_directory,
  with_config, start_up,
}
use kage.Broker.Start.Started.{IsStarted, start_up-IsStarted}
use kage.Config.{defaults, validate, in_bounds}
use kage.Config.Load.{load, apply_file, apply_env}
use kage.Decimal.{format_int32, digits, digits_of}
use kage.Protocol.Messages.Constants.{consumer_offsets_topic}
use kage.Server.Hydrate.{hydrate, hydrate_obtained}
use kage.Server.OffsetCache.{empty_cache}
use kage.Storage.Bufio.{call, next, new_writer}
use kage.Storage.BrokerStore.{
  partition_key, find_store, put_store, add_store, open_created, obtain, get_or_create_partition,
  load_stores, open_broker_store,
}
use kage.Storage.Index.{open_index, load_entries}
use kage.Storage.Segment.{open_segment}
use kage.Storage.Segment.Success.{fresh}
use kage.Storage.Store
use kage.Storage.Store.{open_partition_store}
use kage.Broker.Leftover.{AtMostOne, Reachable-AtMostOne}
use kage.Broker.Quiet.{left}
use kage.Broker.Pool.{held_by_loop}
use kage.Broker.Remaining.{Remaining}
use kage.Broker.Shutdown.{IsDraining, shutdown_drains}

abbrev state_at_signal : State
state_at_signal = record {
  phase = acquired;
  main = waiting;
  sem = 1;
  wg = 0;
  handling = 0;
  leaving = 0;
}

abbrev with_slot : State
with_slot = record { phase = acquired; main = serving; sem = 1; wg = 0; handling = 0; leaving = 0 }

-- The signal comes while a connection has its slot but no goroutine.
at_signal-Reachable : Reachable 2 state_at_signal
unfolding step step_in act accepted initial connected signalled
at_signal-Reachable =
    by_step signal with_slot state_at_signal (by_step connect initial with_slot at_start refl) refl

abbrev last_state : State
last_state = record { phase = stopped; main = clean; sem = 0; wg = 0; handling = 0; leaving = 0 }

shutdown_drains_example :
    IsDraining 2 state_at_signal (start ∷ release ∷ fail ∷ done ∷ wait_done ∷ stop ∷ []) last_state
    × Remaining (held_by_loop acquired) clean last_state
unfolding run run_from step step_in act failed started released finished waited ended
shutdown_drains_example =
    shutdown_drains 2 state_at_signal last_state
      (start ∷ release ∷ fail ∷ done ∷ wait_done ∷ stop ∷ []) at_signal-Reachable refl
      ((λ e. cc), ((λ e. cc), ((λ e. cc), ((λ e. cc), ((λ e. cc), ((λ e. cc), tt)))))) refl

-- The wait ends before that goroutine is started, and one connection is left.
abbrev one_left : State
one_left = record { phase = acquired; main = drained; sem = 1; wg = 0; handling = 0; leaving = 0 }

one_left-Reachable : Reachable 2 one_left
unfolding step step_in act waited
one_left-Reachable = by_step wait_done state_at_signal one_left at_signal-Reachable refl

Reachable-AtMostOne_example : AtMostOne drained (left one_left)
Reachable-AtMostOne_example = Reachable-AtMostOne 2 one_left one_left-Reachable

abbrev no_duration : Bytes → Option ℕ
no_duration _ = none

-- A process without a configuration file, over an empty log directory.
abbrev process : Process
process = record {
  cfg = defaults;
  handler = record {
    store = record {
      stores =
          (
            partition_key consumer_offsets_topic 0,
            record {
              dir_name = partition_key consumer_offsets_topic 0;
              dir = λ _. record { log = []; index = [] };
              cfg = record { max_size = 0x4000_0000; retention = 604_800_000_000_000 };
              active = fresh 0 0x4000_0000;
              next_base = 0;
            },
          )
          ∷ [];
      disk = λ _ _. record { log = []; index = [] };
      cfg = record { max_size = 0x4000_0000; retention = 604_800_000_000_000 };
    };
    offset_cache = empty_cache;
    host = b'h' ∷ [];
  };
  address = addr defaults;
  metrics_address = metrics_addr 9092;
}

process_starts :
    (start_up no_duration none [] (b'h' ∷ []) (λ _ _. record { log = []; index = [] }) [] []).0
    ≡ ok process
unfolding start_up with_config with_directory with_store with_listener with_offsets new_handler load
    apply_file apply_env validate defaults open_broker_store load_stores hydrate hydrate_obtained
    get_or_create_partition obtain open_created add_store put_store find_store open_partition_store
    open_segment open_index load_entries call next new_writer Store.size addr metrics_addr
    partition_key format_int32 digits digits_of in_bounds
process_starts = refl

start_up-IsStarted_example : IsStarted process
start_up-IsStarted_example =
    start_up-IsStarted no_duration none [] (b'h' ∷ []) (λ _ _. record { log = []; index = [] }) []
      [] process process_starts
