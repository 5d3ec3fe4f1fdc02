-- ===== src/Docker/Streams/Steps.antt =====
-- src/docker_repo/mod.rs: the steps of a refresh and of the tasks, in any order.
use homeserver_rust.Prelude.{ℕ, ◌≡◌, false, List, [], ◌∷◌, some, String, Any}
use homeserver_rust.Prelude.Entries.{contains_text}
use homeserver_rust.Float.{Float}
use homeserver_rust.Models.{ContainerStats}
use homeserver_rust.Docker.Statistics.{StatsAnswer, process_statistics}
use homeserver_rust.Docker.Streams.{
  ContainerSummary, Task, idle, spawned, swapped, DockerRepo, running_ids, refresh_start,
  refresh_swap, refresh_forget, task_update, task_end, task_halt, late_end, connect,
}

-- No text stands twice.
abbrev pub Distinct : List String → Type 0
Distinct [] = Unit
Distinct (x ∷ xs) = (contains_text xs x ≡ false) × Distinct xs

module _ {F : Type 0} ⦃f : Float F⦄ where
  -- One refresh at a time, since the loop awaits it; Docker lists a container once.
  pub data Step : DockerRepo F → DockerRepo F → Type 0 where
    refreshing :
        {d : DockerRepo F}
        → (cs : List ContainerSummary) → d.phase ≡ idle
        → Distinct (running_ids cs)
        → Step d (refresh_start cs d)
    swapping :
        {d : DockerRepo F}
        → (handles : List (String × ℕ)) → (gone : List String) → d.phase ≡ spawned handles gone
        → Step d (refresh_swap handles gone d)
    forgetting :
        {d : DockerRepo F}
        → (gone : List String) → d.phase ≡ swapped gone
        → Step d (refresh_forget gone d)
    updating :
        {d : DockerRepo F}
        → (t : Task) → (s : StatsAnswer) → (stats : ContainerStats F) → Any (λ u. u ≡ t) d.tasks
        → process_statistics s t.id t.name ≡ some stats
        → Step d (task_update t stats d)
    ending : {d : DockerRepo F} → (t : Task) → Any (λ u. u ≡ t) d.tasks → Step d (task_end t d)
    -- A task that was aborted runs on to its next yield.
    lingering :
        {d : DockerRepo F}
        → (t : Task) → (s : StatsAnswer) → (stats : ContainerStats F) → Any (λ u. u ≡ t) d.aborting
        → process_statistics s t.id t.name ≡ some stats
        → Step d (task_update t stats d)
    late_ending :
        {d : DockerRepo F} → (t : Task) → Any (λ u. u ≡ t) d.aborting → Step d (late_end t d)
    halting : {d : DockerRepo F} → (t : Task) → Any (λ u. u ≡ t) d.aborting → Step d (task_halt t d)

  pub data Reach : DockerRepo F → Type 0 where
    start : Reach connect
    next : {d e : DockerRepo F} → Reach d → Step d e → Reach e
