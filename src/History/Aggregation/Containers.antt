-- ===== src/History/Aggregation/Containers.antt =====
-- src/history_repo/aggregation.rs: containers are grouped by id and each group becomes one.
use Prim.Native.String.{compare}
use text.Mathlib.Text.{is_le}
use homeserver_rust.Prelude.{String, List, [], ◌∷◌, ◌++◌, map, last, ◌=s=◌, if◌then◌else◌}
use homeserver_rust.Float.{Float}
use homeserver_rust.Models.{ContainerStats}
use homeserver_rust.History.Db.{Env}
use homeserver_rust.History.Aggregation.Means.{mean_f64, mean_u64, sum_u64}

module _ {F : Type 0} where
  -- `by_id.entry(c.id.clone()).or_default().push(c)`, on the entries in the order of their creation.
  unfoldable pub push_by_id :
      ContainerStats F
      → List (String × List (ContainerStats F))
      → List (String × List (ContainerStats F))
  push_by_id c [] = (c.id, c ∷ []) ∷ []
  push_by_id c ((id, refs) ∷ rest) =
      if id =s= c.id then (id, refs ++ c ∷ []) ∷ rest else (id, refs) ∷ push_by_id c rest

  unfoldable pub push_all :
      List (ContainerStats F)
      → List (String × List (ContainerStats F))
      → List (String × List (ContainerStats F))
  unfolding push_by_id
  push_all [] by_id = by_id
  push_all (c ∷ cs) by_id = push_all cs (push_by_id c by_id)

  -- The two nested loops, over the container lists of the rows.
  unfoldable pub group_by_id :
      List (List (ContainerStats F))
      → List (String × List (ContainerStats F))
      → List (String × List (ContainerStats F))
  unfolding push_all
  group_by_id [] by_id = by_id
  group_by_id (cs ∷ rest) by_id = group_by_id rest (push_all cs by_id)

  -- `sort_by(|a, b| a.name.cmp(&b.name))`, a stable sort.
  unfoldable pub insert_by_name :
      ContainerStats F → List (ContainerStats F) → List (ContainerStats F)
  insert_by_name c [] = c ∷ []
  insert_by_name c (d ∷ rest) =
      if is_le (compare c.name d.name) then c ∷ d ∷ rest else d ∷ insert_by_name c rest

  unfoldable pub sort_by_name : List (ContainerStats F) → List (ContainerStats F)
  unfolding insert_by_name
  sort_by_name [] = []
  sort_by_name (c ∷ rest) = insert_by_name c (sort_by_name rest)

module _ {F : Type 0} ⦃f : Float F⦄ where
  -- Averages of the gauges, wrapping sums of the counters, the rest from the last entry.
  unfoldable pub aggregate_one_container :
      ContainerStats F → List (ContainerStats F) → ContainerStats F
  unfolding mean_f64 mean_u64 sum_u64
  aggregate_one_container first rest =
      let refs = first ∷ rest in
      let end = last first rest in
      record {
        id = first.id;
        name = first.name;
        cpu_percent = mean_f64 (map (λ c. c.cpu_percent) refs);
        memory_usage_bytes = mean_u64 (map (λ c. c.memory_usage_bytes) refs);
        memory_limit_bytes = mean_u64 (map (λ c. c.memory_limit_bytes) refs);
        state = end.state;
        network_rx_bytes = sum_u64 0 (map (λ c. c.network_rx_bytes) refs);
        network_tx_bytes = sum_u64 0 (map (λ c. c.network_tx_bytes) refs);
        network_rx_packets = sum_u64 0 (map (λ c. c.network_rx_packets) refs);
        network_tx_packets = sum_u64 0 (map (λ c. c.network_tx_packets) refs);
        network_rx_errors = end.network_rx_errors;
        network_tx_errors = end.network_tx_errors;
        network_rx_dropped = end.network_rx_dropped;
        network_tx_dropped = end.network_tx_dropped;
        block_read_bytes = sum_u64 0 (map (λ c. c.block_read_bytes) refs);
        block_write_bytes = sum_u64 0 (map (λ c. c.block_write_bytes) refs);
        block_read_ops = end.block_read_ops;
        block_write_ops = end.block_write_ops;
        pids = end.pids;
        pids_limit = end.pids_limit;
        cpu_throttled = end.cpu_throttled;
        cpu_throttled_periods = sum_u64 0 (map (λ c. c.cpu_throttled_periods) refs);
        cpu_throttled_time_ns = sum_u64 0 (map (λ c. c.cpu_throttled_time_ns) refs);
        cpu_kernel_percent = mean_f64 (map (λ c. c.cpu_kernel_percent) refs);
        cpu_user_percent = mean_f64 (map (λ c. c.cpu_user_percent) refs);
        online_cpus = end.online_cpus;
        memory_max_usage_bytes = end.memory_max_usage_bytes;
      }

  -- `for (_id, refs) in by_id`; an empty group is passed over.
  unfoldable pub aggregate_groups :
      List (String × List (ContainerStats F)) → List (ContainerStats F)
  unfolding aggregate_one_container
  aggregate_groups [] = []
  aggregate_groups ((id, []) ∷ rest) = aggregate_groups rest
  aggregate_groups ((id, first ∷ refs) ∷ rest) =
      aggregate_one_container first refs ∷ aggregate_groups rest

module _ {F : Type 0} ⦃f : Float F⦄ ⦃env : Env F⦄ where
  -- `aggregate_containers` and `aggregate_containers_from_aggregated`, on the rows' lists.
  unfoldable pub aggregate_containers : List (List (ContainerStats F)) → List (ContainerStats F)
  unfolding group_by_id aggregate_groups sort_by_name
  aggregate_containers rows = sort_by_name (aggregate_groups (env.hash_order (group_by_id rows [])))
