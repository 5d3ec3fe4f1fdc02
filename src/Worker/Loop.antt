-- ===== src/Worker/Loop.antt =====
-- The whole loop of src/worker/mod.rs as a turn for each branch of its `select!`, and the tasks that
-- refresh the SMART readings, which it spawns and does not wait for.
pub mod Gated
use homeserver_rust.Prelude.{
  ℕ, zero, suc, ◌+◌, ◌-◌, ◌%◌, ◌^◌, Bool, true, false, List, [], ◌∷◌, ◌++◌, Option, none, some,
  if◌then◌else◌,
}
use homeserver_rust.Prelude.Result.{Result, ok, err}
use homeserver_rust.Float.{Float}
use homeserver_rust.Models.{FullSystemSnapshot}
use homeserver_rust.Alerting.Engine.{AlertEvent, AlertEngine}
use homeserver_rust.History.Db.{World, DbError}
use homeserver_rust.History.Raw.{prune_old_data}
use homeserver_rust.Smart.{Smartctl, SmartRepo, current, refresh}
use homeserver_rust.Smart
use homeserver_rust.Smart.Parse.{Json}
use homeserver_rust.Worker.Sampler.{WorkerConfig, Tick, Sampler, Sent, sample}

-- `refreshing` counts the spawned refreshes that have not ended. The last two fields are history:
-- the snapshots sampled and the events handed to the notifier, in their order.
pub record WorkerLoop (F : Type 0) : Type 0 where
  pub running : Bool
  pub sampler : Sampler F
  pub smart_repo : SmartRepo
  pub refreshing : ℕ
  pub snapshots_pruned_total : ℕ
  pub world : World F
  pub samples : List (FullSystemSnapshot F)
  pub notified : List (AlertEvent F)

pub data LoopEvent (F : Type 0) : Type 0 where
  -- The branches. `stats_log_tick` only logs. The readings of SMART in a tick are the cache's.
  ticked : Tick F → LoopEvent F
  shutdown stats_logged smart_ticked : LoopEvent F
  prune_ticked : Option ℕ → LoopEvent F
  -- A spawned refresh ends, with these answers of `smartctl`.
  refresh_ended : Smartctl → LoopEvent F

module _ {F : Type 0} where
  unfoldable pub enter : AlertEngine F → World F → WorkerLoop F
  unfolding Smart.new
  enter engine w = record {
    running = true;
    sampler = record { alert_engine = engine; last_no_receivers_warn = none };
    smart_repo = Smart.new;
    refreshing = 0;
    snapshots_pruned_total = 0;
    world = w;
    samples = [];
    notified = [];
  }

  -- An error of the prune is only logged; the counter is a `u64`.
  unfoldable pub count_pruned : WorkerLoop F → Result DbError (Unit {0}) × World F → WorkerLoop F
  count_pruned l (ok u, w) = record l {
    world = w;
    snapshots_pruned_total = (l.snapshots_pruned_total + 1) % 2 ^ 64;
  }
  count_pruned l (err e, w) = record l { world = w }

module _ {F V : Type 0} (json : Json V) where
  -- A refresh ends; there is none to end where none was spawned.
  unfoldable pub end_refresh : ℕ → WorkerLoop F → Smartctl → WorkerLoop F
  unfolding refresh
  end_refresh zero l smartctl = l
  end_refresh (suc n) l smartctl = record l {
    smart_repo = refresh json smartctl l.smart_repo;
    refreshing = n;
  }

module _ {F : Type 0} ⦃f : Float F⦄ (config : WorkerConfig) where
  -- The branch of `tick.tick()`, up to `write_tx.send`.
  unfoldable pub sample_turn : WorkerLoop F → Tick F → WorkerLoop F
  unfolding sample current
  sample_turn l t =
      let (sampler, sent) = sample config l.sampler (record t { smart = current l.smart_repo }) in
      record l {
        sampler = sampler;
        samples = l.samples ++ sent.snapshot ∷ [];
        notified = l.notified ++ sent.events;
      }

module _ {F V : Type 0} ⦃f : Float F⦄ (json : Json V) (config : WorkerConfig)
    (retention_ms : ℕ) where
  -- A turn of the loop while it runs.
  unfoldable pub loop_turn : WorkerLoop F → LoopEvent F → WorkerLoop F
  unfolding sample_turn end_refresh count_pruned prune_old_data
  loop_turn l (ticked t) = sample_turn config l t
  loop_turn l shutdown = record l { running = false }
  loop_turn l stats_logged = l
  loop_turn l smart_ticked =
      if config.collect_smart then record l { refreshing = suc l.refreshing } else l
  loop_turn l (prune_ticked now) = count_pruned l (prune_old_data retention_ms now l.world)
  loop_turn l (refresh_ended smartctl) = end_refresh json l.refreshing l smartctl

  -- After the shutdown the branches are over, but a spawned refresh may still end.
  unfoldable pub event_turn : Bool → WorkerLoop F → LoopEvent F → WorkerLoop F
  unfolding loop_turn end_refresh
  event_turn true l event = loop_turn l event
  event_turn false l (refresh_ended smartctl) = end_refresh json l.refreshing l smartctl
  event_turn false l (ticked t) = l
  event_turn false l shutdown = l
  event_turn false l stats_logged = l
  event_turn false l smart_ticked = l
  event_turn false l (prune_ticked now) = l

  -- The loop after these events, the newest first.
  unfoldable pub loop_after : AlertEngine F → World F → List (LoopEvent F) → WorkerLoop F
  unfolding event_turn enter
  loop_after engine w [] = enter engine w
  loop_after engine w (event ∷ past) =
      let l = loop_after engine w past in event_turn l.running l event
