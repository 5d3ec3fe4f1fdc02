-- ===== src/Tests/Store.antt =====
-- Runs of the history store and of the aggregation pass, and their theorems at them.
use homeserver_rust.Prelude.{
  ℕ, suc, ◌≡◌, ◌≢◌, refl, ◌⊎◌, inl, true, false, [], ◌∷◌, none, some, arith,
}
use homeserver_rust.Prelude.Int.{pos, to_i64, wrap_i64, ◌-ℤ◌}
use homeserver_rust.Prelude.Result.{err}
use homeserver_rust.History.Db.{Blobs, RawRow, AggRow, Db, World, DbError}
use homeserver_rust.History.Merge.{agg_resolution_of, get_history}
use homeserver_rust.History.Merge.Gap.{keep_visible, get_history-blind}
use homeserver_rust.AggregationWorker.{
  AggregationWorkerConfig, ms_per_minute, ms_per_5_minutes, buckets, hours_before, roll_raw_bucket,
  roll_minute_bucket, roll, run_one_tick,
}
use homeserver_rust.AggregationWorker.NoLoss.{IsKept}
use homeserver_rust.AggregationWorker.NoLoss.Pass.{IsExpired, run_one_tick-keeps}
use homeserver_rust.AggregationWorker.Skips.{run_one_tick-idle}
use homeserver_rust.AggregationWorker.Ends.Rounds.{loops_end}
use homeserver_rust.Tests.Setup.{nat_float, test_env, test_env-IsOrdering}

abbrev blobs : Blobs
blobs = record {
  container_data = 1 ∷ [];
  storage_data = 1 ∷ [];
  network_data = 1 ∷ [];
  system_data = 2 ∷ [];
  cpu_data = some (1 ∷ []);
  ram_data = none;
  gpu_data = some [];
  smart_data = none;
}

abbrev pub raw_at : ℕ → RawRow ℕ
raw_at t = record { created_at = pos t; cpu_load = 5; memory_used = pos 9; blobs = blobs }

abbrev pub agg_at : ℕ → ℕ → AggRow ℕ
agg_at t resolution = record {
  created_at = pos t;
  resolution_seconds = resolution;
  cpu_load_avg = 5;
  cpu_load_min = 5;
  cpu_load_max = 5;
  memory_used_avg = pos 9;
  memory_used_min = pos 9;
  memory_used_max = pos 9;
  blobs = blobs;
}

abbrev pub db : Db ℕ
db = record {
  raw = raw_at 1_000 ∷ raw_at 2_000 ∷ raw_at 7_300_000 ∷ [];
  agg = agg_at 60_000 60 ∷ agg_at 0 300 ∷ [];
  info = none;
}

-- The third statement fails.
abbrev pub world : World ℕ
world = record { db = db; faults = false ∷ false ∷ true ∷ [] }

abbrev pub config : AggregationWorkerConfig
config = record {
  aggregation_interval_secs = 3_600;
  raw_retention_hours = 1;
  minute_retention_hours = 2;
  retention_days = 1;
  vacuum_schedule = none;
  vacuum_interval_secs = 86_400;
}

run_one_tick-keeps_example :
    IsKept
      (raw_at 1_000)
      (run_one_tick config 86_400_000 (some 8_000_000) (some 8_000_000) world).1.db
    ⊎ IsExpired 86_400_000 (some 8_000_000) (raw_at 1_000)
run_one_tick-keeps_example =
    run_one_tick-keeps test_env-IsOrdering 86_400_000 (some 8_000_000) (raw_at 1_000) config
      (some 8_000_000) world (inl refl)

run_one_tick-idle_example :
    (run_one_tick config 86_400_000 (some 3_000_000) (some 3_000_000) world).1.db ≡ db
unfolding hours_before to_i64 wrap_i64 ◌-ℤ◌
run_one_tick-idle_example =
    run_one_tick-idle config 86_400_000 3_000_000 (some 3_000_000) world (refl, (refl, (refl, tt)))

loops_end_example :
    ((roll roll_raw_bucket ms_per_minute
        (suc (buckets ms_per_minute (pos 0) (pos 4_400_000)))
        (pos 0)
        (pos 4_400_000)
        0
        world).0
      ≢ err DbError.out_of_fuel)
    × ((roll roll_minute_bucket ms_per_5_minutes
          (suc (buckets ms_per_5_minutes (pos 0) (pos 4_400_000)))
          (pos 0)
          (pos 4_400_000)
          0
          world).0
        ≢ err DbError.out_of_fuel)
loops_end_example = loops_end (pos 0) (pos 4_400_000) world (omega arith) (omega arith)

get_history-blind_example :
    (get_history (pos 0) (pos 8_000_000) 60 (pos 4_400_000) world).0
    ≡ (get_history
        (pos 0)
        (pos 8_000_000)
        60
        (pos 4_400_000)
        (keep_visible (pos 4_400_000) (agg_resolution_of 60) world)).0
get_history-blind_example = get_history-blind (pos 0) (pos 8_000_000) 60 (pos 4_400_000) world
