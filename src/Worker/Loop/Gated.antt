-- ===== src/Worker/Loop/Gated.antt =====
-- What the settings `collect_gpu` and `collect_smart` mean for the snapshots of src/worker/mod.rs.
use homeserver_rust.Prelude.{
  ℕ, zero, suc, ◌≡◌, refl, sym, subst, Bool, true, false, List, [], ◌∷◌, Option, none, some, All,
  All-append, if◌then◌else◌, arith,
}
use homeserver_rust.Prelude.Result.{Result, ok, err}
use homeserver_rust.Float.{Float}
use homeserver_rust.Models.{FullSystemSnapshot}
use homeserver_rust.Alerting.Engine.{AlertEngine}
use homeserver_rust.History.Db.{World, DbError}
use homeserver_rust.History.Raw.{prune_old_data}
use homeserver_rust.Smart.{Smartctl, SmartRepo, current, scan, refresh_from, refresh}
use homeserver_rust.Smart
use homeserver_rust.Smart.Parse.{Json, parse_scan_devices}
use homeserver_rust.Smart.Health.{IsSound}
use homeserver_rust.Smart.Refreshed.{read_devices-AreReadings, readings-AllSound}
use homeserver_rust.Worker.Sampler.{WorkerConfig, Tick, assemble, sample}
use homeserver_rust.Worker.Loop.{
  WorkerLoop, LoopEvent, ticked, shutdown, stats_logged, smart_ticked, prune_ticked, refresh_ended,
  enter, count_pruned, end_refresh, sample_turn, loop_turn, event_turn, loop_after,
}

abbrev pub IsEmptyUnless : {A : Type 0} → Bool → List A → Type 0
IsEmptyUnless true xs = Unit
IsEmptyUnless false xs = xs ≡ []

-- None is under way unless they are asked for.
abbrev pub IsIdleUnless : Bool → ℕ → Type 0
IsIdleUnless true n = Unit
IsIdleUnless false n = n ≡ 0

module _ {F : Type 0} (config : WorkerConfig) where
  -- A part that is not to be collected is empty, and every wear level is a percentage.
  pub record IsGatedSnapshot (s : FullSystemSnapshot F) : Type 0 where
    pub gpus : IsEmptyUnless config.collect_gpu s.gpus
    pub smart : IsEmptyUnless config.collect_smart s.smart
    pub sound : All IsSound s.smart

  pub record IsGated (l : WorkerLoop F) : Type 0 where
    pub sampled : All IsGatedSnapshot l.samples
    pub idle : IsIdleUnless config.collect_smart l.refreshing
    pub cache : IsEmptyUnless config.collect_smart (current l.smart_repo)
    pub sound : All IsSound (current l.smart_repo)

if-IsEmptyUnless : {A : Type 0} (b : Bool) (xs : List A) → IsEmptyUnless b (if b then xs else [])
if-IsEmptyUnless true xs = tt
if-IsEmptyUnless false xs = refl

unless-suc :
    {A : Type 0} (b : Bool) (n : ℕ) (xs : List A) → IsIdleUnless b (suc n) → IsEmptyUnless b xs
unless-suc true n xs h = tt
unless-suc false n xs h = absurd (omega (arith, h))

idle-suc : (b : Bool) (n : ℕ) → IsIdleUnless b (suc n) → IsIdleUnless b n
idle-suc true n h = tt
idle-suc false n h = absurd (omega (arith, h))

initially-IsIdle : (b : Bool) → IsIdleUnless b 0
initially-IsIdle true = tt
initially-IsIdle false = refl

initially-IsEmpty : {A : Type 0} (b : Bool) (xs : List A) → xs ≡ [] → IsEmptyUnless b xs
initially-IsEmpty true xs h = tt
initially-IsEmpty false xs h = h

module _ {V : Type 0} (json : Json V) where
  refresh_from-AllSound :
      (smartctl : Smartctl) (repo : SmartRepo) (printed : Option _)
      → All IsSound (current repo)
      → All IsSound (current (refresh_from json smartctl repo printed))
  unfolding refresh_from current
  refresh_from-AllSound smartctl repo none h = h
  refresh_from-AllSound smartctl repo (some out) h =
      readings-AllSound json smartctl _
        (read_devices-AreReadings json smartctl (parse_scan_devices json out)).read

module _ {F V : Type 0} ⦃f : Float F⦄ (json : Json V) (config : WorkerConfig)
    (retention_ms : ℕ) where
  end_refresh-IsGated :
      (n : ℕ) (l : WorkerLoop F) (smartctl : Smartctl)
      → IsIdleUnless config.collect_smart n
      → IsGated config l
      → IsGated config (end_refresh json n l smartctl)
  unfolding end_refresh refresh
  end_refresh-IsGated zero l smartctl h g = g
  end_refresh-IsGated (suc n) l smartctl h g = record {
    sampled = g.sampled;
    idle = idle-suc config.collect_smart n h;
    cache = unless-suc config.collect_smart n _ h;
    sound = refresh_from-AllSound json smartctl l.smart_repo (scan smartctl) g.sound;
  }

  sample_turn-IsGated :
      (l : WorkerLoop F) (t : Tick F) → IsGated config l → IsGated config (sample_turn config l t)
  unfolding sample_turn sample assemble
  sample_turn-IsGated l t g = record {
    sampled = All-append _ l.samples _ g.sampled (
      record { gpus = if-IsEmptyUnless config.collect_gpu _; smart = g.cache; sound = g.sound },
      tt,
    );
    idle = g.idle;
    cache = g.cache;
    sound = g.sound;
  }

  count_pruned-IsGated :
      (l : WorkerLoop F) (r : Result DbError (Unit {0}) × World F)
      → IsGated config l
      → IsGated config (count_pruned l r)
  unfolding count_pruned
  count_pruned-IsGated l (ok u, w) g = record {
    sampled = g.sampled;
    idle = g.idle;
    cache = g.cache;
    sound = g.sound;
  }
  count_pruned-IsGated l (err e, w) g = record {
    sampled = g.sampled;
    idle = g.idle;
    cache = g.cache;
    sound = g.sound;
  }

  smart_turn-IsGated :
      (b : Bool) (l : WorkerLoop F)
      → config.collect_smart ≡ b
      → IsGated config l
      → IsGated config (if b then record l { refreshing = suc l.refreshing } else l)
  smart_turn-IsGated true l h g = record {
    sampled = g.sampled;
    idle = subst (λ b. IsIdleUnless b (suc l.refreshing)) (sym h) tt;
    cache = g.cache;
    sound = g.sound;
  }
  smart_turn-IsGated false l h g = g

  loop_turn-IsGated :
      (l : WorkerLoop F) (event : LoopEvent F)
      → IsGated config l
      → IsGated config (loop_turn json config retention_ms l event)
  unfolding loop_turn
  loop_turn-IsGated l (ticked t) g = sample_turn-IsGated l t g
  loop_turn-IsGated l shutdown g = record {
    sampled = g.sampled;
    idle = g.idle;
    cache = g.cache;
    sound = g.sound;
  }
  loop_turn-IsGated l stats_logged g = g
  loop_turn-IsGated l smart_ticked g = smart_turn-IsGated config.collect_smart l refl g
  loop_turn-IsGated l (prune_ticked now) g =
      count_pruned-IsGated l (prune_old_data retention_ms now l.world) g
  loop_turn-IsGated l (refresh_ended smartctl) g =
      end_refresh-IsGated l.refreshing l smartctl g.idle g

  event_turn-IsGated :
      (running : Bool) (l : WorkerLoop F) (event : LoopEvent F)
      → IsGated config l
      → IsGated config (event_turn json config retention_ms running l event)
  unfolding event_turn
  event_turn-IsGated true l event g = loop_turn-IsGated l event g
  event_turn-IsGated false l (refresh_ended smartctl) g =
      end_refresh-IsGated l.refreshing l smartctl g.idle g
  event_turn-IsGated false l (ticked t) g = g
  event_turn-IsGated false l shutdown g = g
  event_turn-IsGated false l stats_logged g = g
  event_turn-IsGated false l smart_ticked g = g
  event_turn-IsGated false l (prune_ticked now) g = g

  -- After any events of the loop, in any order and with any answers of the collectors, of
  -- `smartctl` and of the database: no sampled snapshot has graphics cards unless `collect_gpu` is
  -- set, none has SMART readings unless `collect_smart` is set, every wear level in a snapshot is a
  -- percentage, and without `collect_smart` no refresh is ever under way.
  pub loop_after-IsGated :
      (engine : AlertEngine F) (w : World F) (events : List (LoopEvent F))
      → IsGated config (loop_after json config retention_ms engine w events)
  unfolding loop_after enter current Smart.new
  loop_after-IsGated engine w [] = record {
    sampled = tt;
    idle = initially-IsIdle config.collect_smart;
    cache = initially-IsEmpty config.collect_smart _ refl;
    sound = tt;
  }
  loop_after-IsGated engine w (event ∷ past) =
      event_turn-IsGated _ _ event (loop_after-IsGated engine w past)
