-- ===== src/AggregationWorker/Ends/Rounds.antt =====
-- Both loops of `run_one_tick` end within the fuel that the pass gives them.
use homeserver_rust.Prelude.{
  ℕ, suc, ◌+◌, ◌<◌, ◌^◌, ◌≢◌, Bool, true, false, List, [], ◌∷◌, Option, none, some, arith,
}
use homeserver_rust.Prelude.Int.{ℤ, pos_part}
use homeserver_rust.Prelude.Result.{err}
use homeserver_rust.Float.{Float}
use homeserver_rust.Models.{
  ContainerStats, StorageStats, NetworkStats, SystemStatsDynamic, CpuStats, RamStats, GpuStats,
  SmartHealth, AggregatedSnapshot,
}
use homeserver_rust.History.Db.{
  Codec, Env, Db, DbError, World, pure, or_raise, run_statement, statement, ◌>>=◌,
}
use homeserver_rust.History.Codec.{encode, encode_blobs}
use homeserver_rust.History.Raw.{get_raw_snapshots_by_time_range, delete_raw_range}
use homeserver_rust.History.AggStore.{
  save_aggregated_snapshot, get_aggregated_snapshots_by_time_range, delete_aggregated_range,
}
use homeserver_rust.AggregationWorker.{
  ms_per_minute, ms_per_5_minutes, buckets, save_if_some, roll_raw_bucket, roll_minute_bucket, roll,
}
use homeserver_rust.AggregationWorker.Ends.{
  HasRoom, NotOut, NotOut-bind, NotOut-pure, fuel_enough, roll-NotOut,
}

module _ {F A : Type 0} where
  run-NotOut :
      (s : Db F → A × Db F) (db : Db F) (faults : List Bool) → NotOut (run_statement s db faults)
  run-NotOut s db [] h = cc
  run-NotOut s db (false ∷ more) h = cc
  run-NotOut s db (true ∷ more) h = cc

  statement-NotOut : (s : Db F → A × Db F) (w : World F) → NotOut (statement s w)
  unfolding statement
  statement-NotOut s w = run-NotOut s w.db w.faults

  encode-NotOut : (version : ℕ) (c : Codec A) (a : A) (w : World F) → NotOut (encode version c a w)
  unfolding encode or_raise pure ◌>>=◌
  encode-NotOut version c a w h = ground arith

module _ {F : Type 0} ⦃f : Float F⦄ ⦃env : Env F⦄ where
  encode_blobs-NotOut :
      (a : List (ContainerStats F)) (b : StorageStats F) (c : NetworkStats F)
      (d : SystemStatsDynamic F) (e : CpuStats F) (g : RamStats F) (h : List (GpuStats F))
      (i : List SmartHealth) (w : World F)
      → NotOut (encode_blobs a b c d e g h i w)
  unfolding encode_blobs
  encode_blobs-NotOut a b c d e g h i w =
      NotOut-bind _
        (λ _ w.
          NotOut-bind _
            (λ _ w.
              NotOut-bind _
                (λ _ w.
                  NotOut-bind _
                    (λ _ w.
                      NotOut-bind _
                        (λ _ w.
                          NotOut-bind _
                            (λ _ w.
                              NotOut-bind _
                                (λ _ w.
                                  NotOut-bind _ (λ _ w. NotOut-pure _ w) _ w
                                    (encode-NotOut _ _ i w))
                                _ w (encode-NotOut _ _ h w))
                            _ w (encode-NotOut _ _ g w))
                        _ w (encode-NotOut _ _ e w))
                    _ w (encode-NotOut _ _ d w))
                _ w (encode-NotOut _ _ c w))
            _ w (encode-NotOut _ _ b w))
        _ w (encode-NotOut _ _ a w)

  save-NotOut :
      (o : Option (AggregatedSnapshot F)) (count : ℕ) (w : World F)
      → NotOut (save_if_some o count w)
  unfolding save_if_some save_aggregated_snapshot
  save-NotOut none count w = NotOut-pure count w
  save-NotOut (some agg) count w =
      NotOut-bind _ (λ _ w. NotOut-pure _ w) _ w
        (NotOut-bind _ (λ _ w. statement-NotOut _ w) _ w (encode_blobs-NotOut _ _ _ _ _ _ _ _ w))

  raw_round : (b end : ℤ) (count : ℕ) (w : World F) → NotOut (roll_raw_bucket b end count w)
  unfolding roll_raw_bucket get_raw_snapshots_by_time_range delete_raw_range
  raw_round b end count w =
      NotOut-bind _
        (λ snapshots w.
          NotOut-bind _ (λ _ w. NotOut-bind _ (λ _ w. NotOut-pure _ w) _ w (statement-NotOut _ w)) _
            w (save-NotOut _ count w))
        _ w (NotOut-bind _ (λ _ w. NotOut-pure _ w) _ w (statement-NotOut _ w))

  minute_round : (b end : ℤ) (count : ℕ) (w : World F) → NotOut (roll_minute_bucket b end count w)
  unfolding roll_minute_bucket get_aggregated_snapshots_by_time_range delete_aggregated_range
  minute_round b end count w =
      NotOut-bind _
        (λ snapshots w.
          NotOut-bind _ (λ _ w. NotOut-bind _ (λ _ w. NotOut-pure _ w) _ w (statement-NotOut _ w)) _
            w (save-NotOut _ count w))
        _ w (NotOut-bind _ (λ _ w. NotOut-pure _ w) _ w (statement-NotOut _ w))

  -- If no bucket up to the cutoff overflows an `i64`, both loops of a pass end of themselves, with
  -- a count or with the error of a statement, whichever statements fail.
  pub loops_end :
      (start cutoff : ℤ) (w : World F)
      → HasRoom ms_per_5_minutes start
      → pos_part cutoff + ms_per_5_minutes < 2 ^ 63
      → ((roll roll_raw_bucket ms_per_minute
            (suc (buckets ms_per_minute start cutoff))
            start
            cutoff
            0
            w).0
          ≢ err DbError.out_of_fuel)
        × ((roll roll_minute_bucket ms_per_5_minutes
              (suc (buckets ms_per_5_minutes start cutoff))
              start
              cutoff
              0
              w).0
            ≢ err DbError.out_of_fuel)
  loops_end start cutoff w room limit = (
    roll-NotOut ms_per_minute _ raw_round _ start cutoff 0 w (omega arith) (omega arith)
        (omega arith) (fuel_enough ms_per_minute start cutoff (omega arith)),
    roll-NotOut ms_per_5_minutes _ minute_round _ start cutoff 0 w (omega arith) room limit
        (fuel_enough ms_per_5_minutes start cutoff (omega arith)),
  )
