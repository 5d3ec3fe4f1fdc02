-- ===== src/Worker/HistoryWriter.antt =====
-- src/worker/history_writer.rs: the task that gathers snapshots and writes them to the database.
-- `select!` takes whichever branch is ready, so the loop sees the events in any order.
pub mod Keeps
pub mod Counts
use homeserver_rust.Prelude.{
  ℕ, ◌+◌, ◌*◌, ◌%◌, ◌^◌, max, Bool, List, [], ◌∷◌, ◌++◌, length, is_empty, leb, if◌then◌else◌,
}
use homeserver_rust.Prelude.Result.{Result, ok, err}
use homeserver_rust.Float.{Float}
use homeserver_rust.Models.{FullSystemSnapshot, SystemInfo}
use homeserver_rust.History.Db.{Env, World, DbError}
use homeserver_rust.History.Raw.{save_snapshots}

-- `flush_interval_secs` only says how often a tick comes.
pub record HistoryWriterConfig : Type 0 where
  pub flush_rate : ℕ
  pub flush_interval_secs : ℕ
  pub persist_gpu : Bool
  pub persist_smart : Bool

-- `(flush_rate as usize * 2).max(32)`, on 64 bits
unfoldable pub writer_channel_capacity : ℕ → ℕ
writer_channel_capacity flush_rate = max ((flush_rate * 2) % 2 ^ 64) 32

-- The buffer, the counter that the task shares, and the database.
pub record Writer (F : Type 0) : Type 0 where
  pub buffer : List (FullSystemSnapshot F)
  pub snapshots_saved_total : ℕ
  pub world : World F

pub data WriterEvent (F : Type 0) : Type 0 where
  -- `write_rx.recv()` gives a snapshot
  received : FullSystemSnapshot F → WriterEvent F
  -- `flush_tick.tick()`
  ticked : WriterEvent F

module _ {F : Type 0} where
  -- The two `clear()`s.
  unfoldable pub strip : HistoryWriterConfig → FullSystemSnapshot F → FullSystemSnapshot F
  strip config snapshot = record snapshot {
    gpus = if config.persist_gpu then snapshot.gpus else [];
    smart = if config.persist_smart then snapshot.smart else [];
  }

  -- What follows `save_snapshots(…).await?`: after an error the buffer stays.
  unfoldable pub flushed :
      Writer F → Result DbError (Unit {0}) × World F → Result DbError (Unit {0}) × Writer F
  flushed wr (ok u, w) = (
    ok tt,
    record {
      buffer = [];
      snapshots_saved_total = (wr.snapshots_saved_total + length wr.buffer) % 2 ^ 64;
      world = w;
    },
  )
  flushed wr (err e, w) = (err e, record wr { world = w })

module _ {F : Type 0} ⦃f : Float F⦄ ⦃env : Env F⦄ (config : HistoryWriterConfig)
    (system_info : SystemInfo) where
  unfoldable pub flush_buffer : Writer F → Result DbError (Unit {0}) × Writer F
  unfolding flushed
  flush_buffer wr =
      if is_empty wr.buffer
      then (ok tt, wr)
      else flushed wr (save_snapshots wr.buffer system_info wr.world)

  -- One turn of the loop; an error of the flush is only logged.
  unfoldable pub turn : Writer F → WriterEvent F → Writer F
  unfolding flush_buffer strip
  turn wr (received snapshot) =
      let next = record wr { buffer = wr.buffer ++ strip config snapshot ∷ [] } in
      if leb config.flush_rate (length next.buffer) then (flush_buffer next).1 else next
  turn wr ticked = (flush_buffer wr).1

  unfoldable pub turns : Writer F → List (WriterEvent F) → Writer F
  unfolding turn
  turns wr [] = wr
  turns wr (e ∷ events) = turns (turn wr e) events

  -- The task: it starts with an empty buffer, and flushes once more when the channel closes.
  unfoldable pub run : ℕ → World F → List (WriterEvent F) → Result DbError (Unit {0}) × Writer F
  unfolding turns flush_buffer
  run saved_total w events =
      flush_buffer
        (turns (record { buffer = []; snapshots_saved_total = saved_total; world = w }) events)
