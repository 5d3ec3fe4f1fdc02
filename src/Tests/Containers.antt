-- ===== src/Tests/Containers.antt =====
-- Statistics of containers, and refreshes of the streams that follow them.
use mathlib.Core.List.Perm
use homeserver_rust.Prelude.{
  ℕ, ◌≡◌, ◌⊎◌, true, refl, not, ◌&&◌, List, [], ◌∷◌, none, some, String, All, map, if◌then◌else◌,
}
use homeserver_rust.Prelude.Entries.{contains_text, keys, lookup, insert_entry, remove_entry}
use homeserver_rust.Models.{ContainerState}
use homeserver_rust.Docker.Statistics.{
  NetworkAnswer, CpuAnswer, StatsAnswer, process_statistics, statistics, plus, add_network,
  network_totals, from_docker,
}
use homeserver_rust.Docker.Statistics.Order.{process_statistics-Perm}
use homeserver_rust.Docker.Streams.{
  ContainerSummary, DockerRepo, running_ids, to_add, to_remove, id_to_name, start_monitoring,
  insert_handles, remove_handles, refresh_start, refresh_swap, refresh, connect,
}
use homeserver_rust.Docker.Streams.Steps.{Distinct, Reach, start, next, refreshing, swapping}
use homeserver_rust.Docker.Streams.Watches.{Reach-IsWatched}
use homeserver_rust.Docker.Streams.Kept.{IsWatched, handles_of}
use homeserver_rust.Docker.Streams.Follows.{refresh-follows}
use homeserver_rust.Text.{eq_ignore_ascii_case}
use homeserver_rust.Tests.Setup.{nat_float}

program : Unit {0}
unfolding from_docker eq_ignore_ascii_case process_statistics statistics plus add_network
    network_totals refresh_start to_add to_remove id_to_name start_monitoring refresh_swap
    insert_handles remove_handles refresh lookup insert_entry remove_entry
program = tt

state_read : from_docker "Running" ≡ ContainerState.running
unfolding program
state_read = refl

abbrev network : ℕ → NetworkAnswer
network n = record {
  rx_bytes = some n;
  tx_bytes = none;
  rx_packets = none;
  tx_packets = none;
  rx_errors = none;
  tx_errors = none;
  rx_dropped = none;
  tx_dropped = none;
}

abbrev cpu : CpuAnswer
cpu = record {
  cpu_usage =
      some (record { total_usage = some 9; usage_in_kernelmode = none; usage_in_usermode = none });
  system_cpu_usage = none;
  online_cpus = none;
  throttling_data = none;
}

abbrev answer : StatsAnswer
answer = record {
  cpu_stats = some cpu;
  precpu_stats = some cpu;
  memory_stats = none;
  networks = none;
  blkio_stats = none;
  pids_stats = none;
}

process_statistics-Perm_example :
    process_statistics {F = ℕ}
      (record answer { networks = some (network 3 ∷ network 4 ∷ []) })
      "c1"
      "web"
    ≡ process_statistics {F = ℕ}
        (record answer { networks = some (network 4 ∷ network 3 ∷ []) })
        "c1"
        "web"
process_statistics-Perm_example =
    process_statistics-Perm answer (network 3 ∷ network 4 ∷ []) (network 4 ∷ network 3 ∷ []) "c1"
      "web" (Perm.swap (network 4) (network 3) [])

abbrev container : String → ContainerSummary
container id = record { id = some id; names = some ("/web" ∷ []) }

abbrev two_running : List ContainerSummary
two_running = container "c1" ∷ container "c2" ∷ []

abbrev started : DockerRepo ℕ
started = refresh_start two_running connect

abbrev names_of : DockerRepo ℕ → List String
names_of d = map (λ t. t.name) d.tasks

names_trimmed : names_of started ≡ "web" ∷ "web" ∷ []
unfolding program
names_trimmed = refl

abbrev swapped_once : DockerRepo ℕ
swapped_once = refresh_swap (("c1", 0) ∷ ("c2", 1) ∷ []) [] started

reached_swapped : Reach swapped_once
unfolding program
reached_swapped =
    next (next start (refreshing two_running refl (refl, (refl, tt))))
      (swapping (("c1", 0) ∷ ("c2", 1) ∷ []) [] refl)

Reach-IsWatched_example :
    (Distinct (map (λ t. t.id) swapped_once.tasks)
      × All
          (IsWatched swapped_once.active_streams (handles_of swapped_once.phase))
          swapped_once.tasks)
    ⊎ (swapped_once.overtaken ≡ true)
Reach-IsWatched_example = Reach-IsWatched swapped_once reached_swapped

-- The second container stops.
refresh-follows_example :
    (contains_text (keys (refresh (container "c1" ∷ []) swapped_once).active_streams) "c2"
      ≡ contains_text (running_ids (container "c1" ∷ [])) "c2")
    × (lookup (refresh (container "c1" ∷ []) swapped_once).live_stats "c2" ≡ (
        if contains_text (keys swapped_once.active_streams) "c2"
          && not (contains_text (running_ids (container "c1" ∷ [])) "c2")
        then none
        else lookup swapped_once.live_stats "c2"))
refresh-follows_example = refresh-follows (container "c1" ∷ []) swapped_once "c2"
