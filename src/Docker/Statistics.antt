-- ===== src/Docker/Statistics.antt =====
-- src/docker_repo/stats.rs: one answer of Docker becomes the statistics of a container; and
-- `ContainerState::from_docker` of src/models/container.rs.
pub mod Order
use homeserver_rust.Prelude.{
  ℕ, ◌+◌, ◌%◌, ◌^◌, Bool, true, false, ◌&&◌, List, [], ◌∷◌, Option, none, some, String, ltb,
  unwrap_or, if◌then◌else◌,
}
use homeserver_rust.Prelude.Int.{ℤ, pos, ◌-ℤ◌, ltb_ℤ, to_i64, wrap_i64}
use homeserver_rust.Prelude.Options.{◌>>=◌}
use homeserver_rust.Text.{eq_ignore_ascii_case}
use homeserver_rust.Float.{Float}
use homeserver_rust.Models.{ContainerStats, ContainerState}

-- What the source reads of bollard's `ContainerStatsResponse`; every field may be missing. A map of
-- interfaces is its values, in the order in which the map gives them.
pub record CpuUsage : Type 0 where
  pub total_usage : Option ℕ
  pub usage_in_kernelmode : Option ℕ
  pub usage_in_usermode : Option ℕ

pub record Throttling : Type 0 where
  pub throttled_periods : Option ℕ
  pub throttled_time : Option ℕ

pub record CpuAnswer : Type 0 where
  pub cpu_usage : Option CpuUsage
  pub system_cpu_usage : Option ℕ
  pub online_cpus : Option ℕ
  pub throttling_data : Option Throttling

pub record MemoryAnswer : Type 0 where
  pub usage : Option ℕ
  pub limit : Option ℕ
  pub max_usage : Option ℕ

pub record NetworkAnswer : Type 0 where
  pub rx_bytes : Option ℕ
  pub tx_bytes : Option ℕ
  pub rx_packets : Option ℕ
  pub tx_packets : Option ℕ
  pub rx_errors : Option ℕ
  pub tx_errors : Option ℕ
  pub rx_dropped : Option ℕ
  pub tx_dropped : Option ℕ

pub record BlkioEntry : Type 0 where
  pub op : Option String
  pub value : Option ℕ

pub record BlkioAnswer : Type 0 where
  pub io_service_bytes_recursive : Option (List BlkioEntry)
  pub io_serviced_recursive : Option (List BlkioEntry)

pub record PidsAnswer : Type 0 where
  pub current : Option ℕ
  pub limit : Option ℕ

pub record StatsAnswer : Type 0 where
  pub cpu_stats : Option CpuAnswer
  pub precpu_stats : Option CpuAnswer
  pub memory_stats : Option MemoryAnswer
  pub networks : Option (List NetworkAnswer)
  pub blkio_stats : Option BlkioAnswer
  pub pids_stats : Option PidsAnswer

-- The eight sums over the interfaces.
pub record NetworkTotals : Type 0 where
  pub rx_bytes : ℕ
  pub tx_bytes : ℕ
  pub rx_packets : ℕ
  pub tx_packets : ℕ
  pub rx_errors : ℕ
  pub tx_errors : ℕ
  pub rx_dropped : ℕ
  pub tx_dropped : ℕ

abbrev pub no_networks : NetworkTotals
no_networks = record {
  rx_bytes = 0;
  tx_bytes = 0;
  rx_packets = 0;
  tx_packets = 0;
  rx_errors = 0;
  tx_errors = 0;
  rx_dropped = 0;
  tx_dropped = 0;
}

-- `x += v.unwrap_or(0)` on `u64`, which wraps in a release build.
unfoldable pub plus : ℕ → Option ℕ → ℕ
plus x v = (x + unwrap_or v 0) % 2 ^ 64

unfoldable pub add_network : NetworkTotals → NetworkAnswer → NetworkTotals
unfolding plus
add_network t v = record {
  rx_bytes = plus t.rx_bytes v.rx_bytes;
  tx_bytes = plus t.tx_bytes v.tx_bytes;
  rx_packets = plus t.rx_packets v.rx_packets;
  tx_packets = plus t.tx_packets v.tx_packets;
  rx_errors = plus t.rx_errors v.rx_errors;
  tx_errors = plus t.tx_errors v.tx_errors;
  rx_dropped = plus t.rx_dropped v.rx_dropped;
  tx_dropped = plus t.tx_dropped v.tx_dropped;
}

unfoldable pub network_totals : NetworkTotals → List NetworkAnswer → NetworkTotals
unfolding add_network
network_totals t [] = t
network_totals t (v ∷ rest) = network_totals (add_network t v) rest

abbrev pub is_op : String → BlkioEntry → Bool
is_op word e = elim e.op [ none ↦ false | some op ↦ eq_ignore_ascii_case op word ]

-- What was read and what was written.
unfoldable pub block_totals : ℕ × ℕ → List BlkioEntry → ℕ × ℕ
unfolding plus eq_ignore_ascii_case
block_totals t [] = t
block_totals (read, write) (e ∷ rest) =
    block_totals
      (if is_op "read" e
        then (plus read e.value, write)
        else if is_op "write" e
        then (read, plus write e.value)
        else (read, write))
      rest

abbrev pub block_of : (BlkioAnswer → Option (List BlkioEntry)) → Option BlkioAnswer → ℕ × ℕ
block_of field none = (0, 0)
block_of field (some b) = elim (field b) [ none ↦ (0, 0) | some es ↦ block_totals (0, 0) es ]

abbrev pub networks_of : Option (List NetworkAnswer) → NetworkTotals
networks_of none = no_networks
networks_of (some vs) = network_totals no_networks vs

-- `o.as_ref().and_then(field).unwrap_or(0)`
abbrev pub field_or_0 : {A : Type 0} → (A → Option ℕ) → Option A → ℕ
field_or_0 field none = 0
field_or_0 field (some a) = unwrap_or (field a) 0

-- `now.unwrap_or(0) as i64 - before.unwrap_or(0) as i64`
unfoldable pub delta_i64 : Option ℕ → Option ℕ → ℤ
unfolding to_i64 wrap_i64 ◌-ℤ◌
delta_i64 now before = wrap_i64 (to_i64 (unwrap_or now 0) -ℤ to_i64 (unwrap_or before 0))

module _ {F : Type 0} ⦃f : Float F⦄ where
  unfoldable pub percent_of : ℤ → ℤ → F → F
  percent_of delta system_delta online =
      if ltb_ℤ (pos 0) system_delta && f.lt (f.of_ℕ 0) online
      then f.mul (f.mul (f.div (f.of_ℤ delta) (f.of_ℤ system_delta)) online) (f.of_ℕ 100)
      else f.of_ℕ 0

  -- What is built once the four parts that it needs are there.
  unfoldable pub statistics :
      StatsAnswer → String → String → CpuAnswer → CpuAnswer → CpuUsage → CpuUsage → ContainerStats F
  unfolding delta_i64 percent_of network_totals block_totals
  statistics s id name cpu precpu usage preusage =
      let system_delta = delta_i64 cpu.system_cpu_usage precpu.system_cpu_usage in
      let online = f.of_ℕ (unwrap_or cpu.online_cpus 1) in
      let nets = networks_of s.networks in
      let bytes = block_of (λ b. b.io_service_bytes_recursive) s.blkio_stats in
      let ops = block_of (λ b. b.io_serviced_recursive) s.blkio_stats in
      let periods = field_or_0 (λ t. t.throttled_periods) cpu.throttling_data in
      record {
        id = id;
        name = name;
        cpu_percent =
            percent_of (delta_i64 usage.total_usage preusage.total_usage) system_delta online;
        cpu_kernel_percent =
            percent_of (delta_i64 usage.usage_in_kernelmode preusage.usage_in_kernelmode)
              system_delta online;
        cpu_user_percent =
            percent_of (delta_i64 usage.usage_in_usermode preusage.usage_in_usermode) system_delta
              online;
        online_cpus = unwrap_or cpu.online_cpus 1;
        memory_usage_bytes = field_or_0 (λ m. m.usage) s.memory_stats;
        memory_limit_bytes = field_or_0 (λ m. m.limit) s.memory_stats;
        state = ContainerState.running;
        network_rx_bytes = nets.rx_bytes;
        network_tx_bytes = nets.tx_bytes;
        network_rx_packets = nets.rx_packets;
        network_tx_packets = nets.tx_packets;
        network_rx_errors = nets.rx_errors;
        network_tx_errors = nets.tx_errors;
        network_rx_dropped = nets.rx_dropped;
        network_tx_dropped = nets.tx_dropped;
        block_read_bytes = bytes.0;
        block_write_bytes = bytes.1;
        block_read_ops = ops.0;
        block_write_ops = ops.1;
        pids = field_or_0 (λ p. p.current) s.pids_stats;
        pids_limit = field_or_0 (λ p. p.limit) s.pids_stats;
        cpu_throttled = ltb 0 periods;
        cpu_throttled_periods = periods;
        cpu_throttled_time_ns = field_or_0 (λ t. t.throttled_time) cpu.throttling_data;
        memory_max_usage_bytes = field_or_0 (λ m. m.max_usage) s.memory_stats;
      }

  unfoldable pub process_statistics : StatsAnswer → String → String → Option (ContainerStats F)
  unfolding statistics
  process_statistics s id name = do
    cpu ← s.cpu_stats
    precpu ← s.precpu_stats
    usage ← cpu.cpu_usage
    preusage ← precpu.cpu_usage
    some (statistics s id name cpu precpu usage preusage)

-- No letter but those of ASCII becomes a letter of these words in lower case.
unfoldable pub from_docker : String → ContainerState
unfolding eq_ignore_ascii_case
from_docker s =
    if eq_ignore_ascii_case s "running"
    then ContainerState.running
    else if eq_ignore_ascii_case s "exited"
    then ContainerState.exited
    else if eq_ignore_ascii_case s "paused"
    then ContainerState.paused
    else if eq_ignore_ascii_case s "restarting"
    then ContainerState.restarting
    else ContainerState.unknown
