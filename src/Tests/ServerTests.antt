-- ===== src/Tests/ServerTests.antt =====
-- Runs of the handlers of internal/server/handler.go on concrete data.
use kage.Prelude.{◌+◌, some, ◌≡◌, ◌≢◌, refl, none, [], ◌∷◌, ◌++◌, arith, Bytes}
use kage.Outcome.{err}
use kage.Binary.{uint32, uint64}
use kage.Protocol.Messages.Fetch.{FetchPartitionData, FetchTopicData}
use kage.Server.Dispatch.{out_of_fuel, handle}
use kage.Server.Dispatch.Termination.{handle_terminates}
use kage.Server.Fetch.{fetch_topics}
use kage.Server.Fetch.Budget.{held_topics, Spends, fetch_topics-budget}
use kage.Server.OffsetCache.{empty_cache}
use kage.Server.Patch.{patch_batches}
use kage.Server.Patch.Batches.{
  IsWhole, last_offset_delta, rebased, rebased_all, join, patch_batches-join, rebased-next,
}
use kage.Server.Run.{Handler}
use kage.Storage.BrokerStore.{BrokerStore, partition_key, parse_dir_name, get_or_create_partition}
use kage.Storage.BrokerStore.Names.{parse_dir_name-partition_key, partition_key_clash}
use kage.Storage.BrokerStore.Stores.{Obtained, get_or_create_partition-Obtained}

-- A batch of 28 bytes, with a last offset delta of 2.
abbrev batch : Bytes
batch =
    0 ∷ 0 ∷ 0 ∷ 0 ∷ 0 ∷ 0 ∷ 0 ∷ 0 ∷ 0 ∷ 0 ∷ 0 ∷ 16 ∷ 0 ∷ 0 ∷ 0 ∷ 0 ∷ 2 ∷ 0 ∷ 0 ∷ 0 ∷ 0 ∷ 0 ∷ 0 ∷ 0
    ∷ 0 ∷ 0 ∷ 2 ∷ 0 ∷ []

batch-IsWhole : IsWhole batch
unfolding uint32
batch-IsWhole = record { long_enough = omega arith; exact = refl }

abbrev part : FetchPartitionData
part = record { fetch_offset = 0; partition = 3; partition_max_bytes = 1000 }

abbrev broker : BrokerStore
broker = record {
  stores = [];
  disk = λ _ _. record { log = []; index = [] };
  cfg = record { max_size = 100; retention = 0 };
}

abbrev handler : Handler
handler = record { store = broker; offset_cache = empty_cache; host = b'h' ∷ [] }

abbrev topic : FetchTopicData
topic = record { topic_name = b't' ∷ []; partitions = part ∷ part ∷ [] }

fetch_topics-budget_example : Spends held_topics 20 (fetch_topics 20 (topic ∷ []) [] handler)
fetch_topics-budget_example = fetch_topics-budget (topic ∷ []) 20 (omega arith) [] handler

-- An ApiVersions request without a client id, and the first bytes of another.
abbrev stream : Bytes
stream = 0 ∷ 0 ∷ 0 ∷ 10 ∷ 0 ∷ 18 ∷ 0 ∷ 0 ∷ 0 ∷ 0 ∷ 0 ∷ 7 ∷ 0 ∷ 0 ∷ 0 ∷ 0 ∷ []

handle_terminates_example : handle stream [] handler ≢ err out_of_fuel
handle_terminates_example = handle_terminates stream [] handler

patch_batches-join_example :
    patch_batches 7 (join (batch ∷ batch ∷ []) ++ (1 ∷ []))
    ≡ join (rebased_all 7 (batch ∷ batch ∷ [])) ++ (1 ∷ [])
patch_batches-join_example =
    patch_batches-join 7 (batch ∷ batch ∷ []) (1 ∷ []) (batch-IsWhole, (batch-IsWhole, tt))
      (λ h. absurd (omega arith))

rebased-next_example : uint64 (rebased 7 batch) + last_offset_delta batch + 1 ≡ 39
unfolding uint32
rebased-next_example = rebased-next 7 batch (omega arith) (omega arith) (omega arith)

parse_dir_name-partition_key_example :
    parse_dir_name (partition_key (b't' ∷ b'-' ∷ []) 12)
    ≡ some (record { topic = b't' ∷ b'-' ∷ []; partition = 12 })
parse_dir_name-partition_key_example =
    parse_dir_name-partition_key (b't' ∷ b'-' ∷ []) 12 (λ e. cc) ((λ e. cc), ((λ e. cc), tt))
      (omega arith)

partition_key_clash_example :
    partition_key (b't' ∷ []) 0xffff_ffff ≡ partition_key (b't' ∷ b'-' ∷ []) 1
partition_key_clash_example = partition_key_clash (b't' ∷ []) 1 (omega arith) (omega arith)

get_or_create_partition-Obtained_example :
    let a = get_or_create_partition (none ∷ []) broker (b't' ∷ []) 3 in
    Obtained (partition_key (b't' ∷ []) 3) broker a.0 a.1
get_or_create_partition-Obtained_example =
    get_or_create_partition-Obtained (none ∷ []) broker (b't' ∷ []) 3
