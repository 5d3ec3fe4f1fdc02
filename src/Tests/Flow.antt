-- ===== src/Tests/Flow.antt =====
-- Runs of the history writer, of the merged history and of the request's checks, and their theorems
-- at them.
use homeserver_rust.Prelude.{
  ℕ, ◌-◌, ◌^◌, ◌≡◌, refl, true, false, List, [], ◌∷◌, ◌++◌, none, some, arith,
}
use homeserver_rust.Prelude.Int.{pos, negsuc, ◌-ℤ◌, to_i64, to_u64, wrap_i64, tdiv, scale}
use homeserver_rust.Prelude.Result.{err}
use homeserver_rust.History.Db.{World, pure, raise, or_raise, statement, touch, transaction, ◌>>=◌}
use homeserver_rust.History.Db.Post.{Post}
use homeserver_rust.History.Codec.{encode, encode_blobs, parse_snapshot_row, parse_aggregated_row}
use homeserver_rust.History.Raw.{
  save_one, save_each, save_info, save_snapshots, get_raw_snapshots_by_time_range, in_range,
}
use homeserver_rust.History.Raw.Saves.{stored, Appended, save_snapshots-Post}
use homeserver_rust.History.AggStore.{
  get_aggregated_snapshots_by_time_range, agg_in_range, save_aggregated_snapshot,
}
use homeserver_rust.History.AggStore.Saves.{Added, save_aggregated_snapshot-Post}
use homeserver_rust.Models.{AggregatedSnapshot, cpu_with_usage, ram_with_used, system_default}
use homeserver_rust.History.Merge.{
  bucket_insert, bucket_of, fill_buckets, downsample_snapshots, sort_by_timestamp,
  insert_by_timestamp, aggregated_to_snapshot, raw_part, agg_part, get_history,
}
use homeserver_rust.History.Merge.Latest.{IsThinned, downsample_snapshots-IsThinned}
use homeserver_rust.History.Merge.Order.{IsMerged, get_history-IsMerged}
use homeserver_rust.Worker.HistoryWriter.{
  HistoryWriterConfig, WriterEvent, received, ticked, strip, flush_buffer, turn, turns, run,
  flushed,
}
use homeserver_rust.Worker.HistoryWriter.Keeps.{sent, holdings, Drained, run-holdings}
use homeserver_rust.Worker.HistoryWriter.Counts.{Counted, run-Counted}
use homeserver_rust.Routes.Http.{
  HistoryQuery, HistoryRequest, HistoryError, parse_resolution, resolution_of, saturating_sub,
  checked_sub, check_span, check_query,
}
use homeserver_rust.Routes.Http.Bounded.{IsBounded, check_query-IsBounded}
use homeserver_rust.Tests.Setup.{nat_float, test_env, test_env-IsExactEnv, host, sample, sort}

program : Unit {0}
unfolding encode encode_blobs parse_snapshot_row parse_aggregated_row save_one save_each save_info
    save_snapshots get_raw_snapshots_by_time_range in_range get_aggregated_snapshots_by_time_range
    agg_in_range bucket_insert bucket_of fill_buckets downsample_snapshots sort_by_timestamp
    insert_by_timestamp aggregated_to_snapshot raw_part agg_part get_history strip flush_buffer turn
    turns run flushed pure raise or_raise statement touch transaction ◌>>=◌ ◌-ℤ◌ to_i64 to_u64
    wrap_i64 tdiv scale nat_float test_env sort parse_resolution resolution_of saturating_sub
    checked_sub check_span check_query
program = tt

abbrev config : HistoryWriterConfig
config = record {
  flush_rate = 2;
  flush_interval_secs = 60;
  persist_gpu = true;
  persist_smart = false;
}

-- The fourth statement to come fails.
abbrev world : World ℕ
world = record {
  db = record { raw = []; agg = []; info = none };
  faults = false ∷ false ∷ false ∷ true ∷ [];
}

abbrev events : List (WriterEvent ℕ)
events =
    received (sample 1_000 5) ∷ ticked ∷ received (sample 2_000 6) ∷ received (sample 61_000 7) ∷ []

-- The first flush fails, the second writes two snapshots, the last the third.
written :
    (turns config host
      (record { buffer = []; snapshots_saved_total = 0; world = world })
      (received (sample 1_000 5) ∷ ticked ∷ [])).buffer
    ≡ sample 1_000 5 ∷ []
unfolding program
written = refl

written_all :
    stored (run config host 0 world events).1.world.db
    ≡ sample 1_000 5 ∷ sample 2_000 6 ∷ sample 61_000 7 ∷ []
unfolding program
written_all = refl

run-holdings_example :
    (holdings (run config host 0 world events).1 ≡ [] ++ sent config events)
    × Drained (run config host 0 world events)
unfolding strip
run-holdings_example =
    run-holdings test_env-IsExactEnv config host 0 world events
      (omega arith, (omega arith, (omega arith, tt)))

-- Three rows are added to the 40 that were counted before.
run-Counted_example :
    Counted
      (record { buffer = []; snapshots_saved_total = 40; world = world })
      (run config host 40 world events).1
unfolding strip
run-Counted_example =
    run-Counted test_env-IsExactEnv config host 40 world events
      (omega arith, (omega arith, (omega arith, tt)))

save_snapshots-Post_example :
    Post
      (λ db. db ≡ world.db)
      (Appended world.db (sample 1_000 5 ∷ []))
      (save_snapshots (sample 1_000 5 ∷ []) host world)
save_snapshots-Post_example =
    save_snapshots-Post test_env-IsExactEnv (sample 1_000 5 ∷ []) host world (omega arith, tt)

abbrev minute : AggregatedSnapshot ℕ
minute = record {
  created_at = pos 60_000;
  resolution_seconds = 60;
  cpu_load_avg = 5;
  cpu_load_min = 4;
  cpu_load_max = 7;
  memory_used_avg = pos 9;
  memory_used_min = pos 8;
  memory_used_max = pos 10;
  cpu = cpu_with_usage 7;
  ram = ram_with_used 8;
  containers = [];
  storage = record { partitions = []; disks = [] };
  network = record { interfaces = [] };
  system = system_default;
  gpus = [];
  smart = [];
}

save_aggregated_snapshot-Post_example :
    Post (λ db. db ≡ world.db) (λ _. Added world.db minute) (save_aggregated_snapshot minute world)
save_aggregated_snapshot-Post_example =
    save_aggregated_snapshot-Post test_env-IsExactEnv minute world

thinned :
    downsample_snapshots (sample 1_000 5 ∷ sample 61_000 7 ∷ sample 2_000 6 ∷ []) 60_000
    ≡ sample 2_000 6 ∷ sample 61_000 7 ∷ []
unfolding program
thinned = refl

downsample_snapshots-IsThinned_example :
    IsThinned 60_000
      (sample 1_000 5 ∷ sample 61_000 7 ∷ sample 2_000 6 ∷ [])
      (downsample_snapshots (sample 1_000 5 ∷ sample 61_000 7 ∷ sample 2_000 6 ∷ []) 60_000)
downsample_snapshots-IsThinned_example =
    downsample_snapshots-IsThinned (sample 1_000 5 ∷ sample 61_000 7 ∷ sample 2_000 6 ∷ []) 60_000
      (omega arith)

-- The database after the events.
abbrev full : World ℕ
full = record { db = (run config host 0 world events).1.world.db; faults = [] }

get_history-IsMerged_example :
    IsMerged (pos 0) (pos 100_000) 60 (pos 500) full (sample 2_000 6 ∷ sample 61_000 7 ∷ [])
unfolding program
get_history-IsMerged_example =
    get_history-IsMerged (pos 0) (pos 100_000) 60 (pos 500) full
      (sample 2_000 6 ∷ sample 61_000 7 ∷ []) refl

abbrev query : HistoryQuery
query = record { from = some (pos 0); to = none; resolution = some " 1M " }

abbrev request : HistoryRequest
request = record {
  from_ts = pos 0;
  to_ts = pos 100_000;
  resolution_secs = 60;
  raw_cutoff_ts = negsuc 172_699_999;
}

check_query-IsBounded_example : IsBounded request
unfolding program
check_query-IsBounded_example = check_query-IsBounded 48 (some 100_000) query request refl

overflow :
    check_query 48
      (some 100_000)
      (record { from = some (negsuc 0); to = some (pos (2 ^ 63 - 1)); resolution = none })
    ≡ err HistoryError.overflow
unfolding program
overflow = refl
