-- ===== src/Worker/Pipeline.antt =====
-- The loop of src/worker/mod.rs and the task of src/worker/history_writer.rs together: the bounded
-- channel between them, the shutdown, and the others who write to the database.
pub mod Batches
pub mod Conserves
pub mod Shutdown
use homeserver_rust.Prelude.{
  ℕ, zero, suc, ◌<◌, ◌≡◌, Bool, true, false, List, [], ◌∷◌, ◌++◌, Option, none, some, length, drop,
}
use homeserver_rust.Float.{Float}
use homeserver_rust.Models.{FullSystemSnapshot, SystemInfo}
use homeserver_rust.Alerting.Engine.{AlertEngine}
use homeserver_rust.History.Db.{Env, Db, World}
use homeserver_rust.History.Raw.Saves.{stored}
use homeserver_rust.Worker.HistoryWriter.{
  HistoryWriterConfig, Writer, received, ticked, flush_buffer, turn, writer_channel_capacity,
}
use homeserver_rust.Worker.Sampler.{WorkerConfig, Tick, Sampler, sample}

-- `pending` is what `write_tx.send` waits to put into the channel. The last two fields are history:
-- what has been sampled, and what the writer has committed, in their order.
pub record Pipeline (F : Type 0) : Type 0 where
  pub sampler : Sampler F
  pub running : Bool
  pub pending : Option (FullSystemSnapshot F)
  pub queue : List (FullSystemSnapshot F)
  pub writer : Writer F
  pub finished : Bool
  pub samples : List (FullSystemSnapshot F)
  pub committed : List (FullSystemSnapshot F)

module _ {F : Type 0} ⦃f : Float F⦄ ⦃env : Env F⦄ where
  -- What stands in the table behind the rows that were there.
  unfoldable pub appended : Db F → Db F → List (FullSystemSnapshot F)
  appended before after = drop (length (stored before)) (stored after)

  -- The writer has done something.
  unfoldable pub wrote : Pipeline F → Writer F → Pipeline F
  unfolding appended
  wrote p wr = record p {
    writer = wr;
    committed = p.committed ++ appended p.writer.world.db wr.world.db;
  }

  unfoldable pub launch : AlertEngine F → ℕ → World F → Pipeline F
  launch engine saved_total w = record {
    sampler = record { alert_engine = engine; last_no_receivers_warn = none };
    running = true;
    pending = none;
    queue = [];
    writer = record { buffer = []; snapshots_saved_total = saved_total; world = w };
    finished = false;
    samples = [];
    committed = [];
  }

  unfoldable pub sampled : WorkerConfig → Pipeline F → Tick F → Pipeline F
  unfolding sample
  sampled config p t =
      let (sampler, sent) = sample config p.sampler t in
      record p {
        sampler = sampler;
        pending = some sent.snapshot;
        samples = p.samples ++ sent.snapshot ∷ [];
      }

module _ {F : Type 0} ⦃f : Float F⦄ ⦃env : Env F⦄ (config : WorkerConfig)
    (writing : HistoryWriterConfig) (info : SystemInfo) where
  -- What can happen next. A tick is awaited only when nothing is pending, and so is the shutdown;
  -- the writer ends when the channel is closed and empty, whatever its last flush gives.
  pub data Step : Pipeline F → Pipeline F → Type 0 where
    sampling :
        {p : Pipeline F}
        → (t : Tick F) → p.running ≡ true
        → p.pending ≡ none
        → Step p (sampled config p t)
    sending :
        {p : Pipeline F}
        → (s : FullSystemSnapshot F) → p.pending ≡ some s
        → length p.queue < writer_channel_capacity writing.flush_rate
        → Step p (record p { pending = none; queue = p.queue ++ s ∷ [] })
    stopping :
        {p : Pipeline F}
        → p.running ≡ true
        → p.pending ≡ none
        → Step p (record p { running = false })
    receiving :
        {p : Pipeline F}
        → (s : FullSystemSnapshot F) → (rest : List (FullSystemSnapshot F)) → p.finished ≡ false
        → p.queue ≡ s ∷ rest
        → Step p (record (wrote p (turn writing info p.writer (received s))) { queue = rest })
    flushing :
        {p : Pipeline F} → p.finished ≡ false → Step p (wrote p (turn writing info p.writer ticked))
    finishing :
        {p : Pipeline F}
        → p.finished ≡ false
        → p.running ≡ false
        → p.queue ≡ []
        → Step p (record (wrote p (flush_buffer writing info p.writer).1) { finished = true })
    -- A roll-up, a request or a prune: the database is whatever they make it.
    others :
        {p : Pipeline F}
        → (w : World F) → Step p (record p { writer = record p.writer { world = w } })

  pub data Reach : Pipeline F → Type 0 where
    start :
        (engine : AlertEngine F)
        → (saved_total : ℕ) → (w : World F) → Reach (launch engine saved_total w)
    next : {p q : Pipeline F} → Reach p → Step p q → Reach q

  -- A number of steps one after the other.
  pub data Steps : ℕ → Pipeline F → Pipeline F → Type 0 where
    stay : {p : Pipeline F} → Steps zero p p
    then_step : {n : ℕ} {p q r : Pipeline F} → Step p q → Steps n q r → Steps (suc n) p r
