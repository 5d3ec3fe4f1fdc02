-- ===== src/Alerting/Metrics.antt =====
-- src/alerting/metrics.rs: the metrics that a rule can name, and the comparison.
use homeserver_rust.Prelude.{
  Bool, false, String, List, [], ◌∷◌, map, Option, none, some, ltb, ◌=s=◌, if◌then◌else◌,
}
use homeserver_rust.Float.{Float}
use homeserver_rust.Models.{FullSystemSnapshot}

module _ {F : Type 0} ⦃f : Float F⦄ where
  unfoldable pub fold_max : Option F → F → Option F
  fold_max none v = some v
  fold_max (some m) v = some (f.max m v)

  -- `.fold(None, fold_max)`
  unfoldable pub max_of : Option F → List F → Option F
  max_of acc [] = acc
  max_of acc (v ∷ vs) = max_of (fold_max acc v) vs

  swap_usage_percent : FullSystemSnapshot F → Option F
  swap_usage_percent s =
      if ltb 0 s.ram.swap_total
      then some (f.mul (f.div (f.of_ℕ s.ram.swap_used) (f.of_ℕ s.ram.swap_total)) (f.of_ℕ 100))
      else none

  unfoldable pub extract_metric : String → FullSystemSnapshot F → Option F
  unfolding swap_usage_percent max_of fold_max
  extract_metric metric s =
      if metric =s= "cpu_usage"
      then some s.cpu.usage_percent
      else if metric =s= "mem_usage_percent"
      then some s.ram.usage_percent
      else if metric =s= "swap_usage_percent"
      then swap_usage_percent s
      else if metric =s= "load_avg_1"
      then some s.system.load_avg_1
      else if metric =s= "cpu_temperature"
      then some s.cpu.temperature
      else if metric =s= "disk_usage_percent"
      then max_of none (map (λ p. p.usage_percent) s.storage.partitions)
      else if metric =s= "gpu_temperature"
      then max_of none (map (λ g. g.temperature_c) s.gpus)
      else if metric =s= "gpu_utilization"
      then max_of none (map (λ g. g.utilization_percent) s.gpus)
      else none

  unfoldable pub compare : F → String → F → Bool
  compare value op threshold =
      if op =s= ">"
      then f.lt threshold value
      else if op =s= ">="
      then f.le threshold value
      else if op =s= "<"
      then f.lt value threshold
      else if op =s= "<="
      then f.le value threshold
      else false
