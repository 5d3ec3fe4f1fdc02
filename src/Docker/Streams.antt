-- ===== src/Docker/Streams.antt =====
-- src/docker_repo/mod.rs: one task for each running container follows its statistics; a refresh
-- starts and aborts tasks. Between the steps of a refresh the tasks go on.
pub mod Steps
pub mod Handles
pub mod Kept
pub mod Watches
pub mod Follows
use Prim.Native.Char.{Char, code}
use Prim.Native.String
use homeserver_rust.Prelude.{
  ℕ, suc, ◌+◌, ◌≡◌, Bool, true, false, not, ◌||◌, List, [], ◌∷◌, ◌++◌, Option, none, some, String,
  map, filter, length, ◌==◌, unwrap_or, is_empty, if◌then◌else◌,
}
use homeserver_rust.Prelude.Entries.{
  contains_text, keys, values, lookup, insert_entry, remove_entry,
}
use homeserver_rust.Float.{Float}
use homeserver_rust.Models.{ContainerStats}
use homeserver_rust.Docker.Statistics.{StatsAnswer, process_statistics}

-- What the source reads of bollard's `ContainerSummary`.
pub record ContainerSummary : Type 0 where
  pub id : Option String
  pub names : Option (List String)

-- A task that runs, with the handle by which it is aborted.
pub record Task : Type 0 where
  pub handle : ℕ
  pub id : String
  pub name : String

-- How far a refresh has come: it has started tasks whose handles it still holds, or it has stored
-- them and aborted others.
pub data Phase : Type 0 where
  idle : Phase
  spawned : List (String × ℕ) → List String → Phase
  swapped : List String → Phase

-- `tasks` run, and `aborting` are those whose abort has not taken effect yet, as it does at a task's
-- next yield. `overtaken` only records whether one of those has taken away an entry of `active_streams`,
-- which is then of a later task of its container.
pub record DockerRepo (F : Type 0) : Type 0 where
  pub live_stats : List (String × ContainerStats F)
  pub active_streams : List (String × ℕ)
  pub tasks : List Task
  pub next_handle : ℕ
  pub phase : Phase
  pub aborting : List Task
  pub overtaken : Bool

abbrev pub trim_slashes : String → String
trim_slashes Prim.Native.String.[] = ""
trim_slashes (Prim.Native.String.◌∷◌ c s) =
    let rest = trim_slashes s in if code c == 0x2f then rest else Prim.Native.String.◌∷◌ c s

abbrev pub id_of : ContainerSummary → String
id_of c = unwrap_or c.id ""

abbrev pub first_name : ContainerSummary → Option String
first_name c = elim c.names [ none ↦ none | some ns ↦ elim ns [ [] ↦ none | n ∷ rest ↦ some n ] ]

abbrev pub name_of : ContainerSummary → String
name_of c = trim_slashes (unwrap_or (first_name c) (id_of c))

-- `id_to_name`; a later container replaces an earlier one with its id.
unfoldable pub id_to_name : List (String × String) → List ContainerSummary → List (String × String)
id_to_name names [] = names
id_to_name names (c ∷ rest) = id_to_name (insert_entry (id_of c) (name_of c) names) rest

abbrev pub running_ids : List ContainerSummary → List String
running_ids cs = map id_of cs

unfoldable pub to_add : List ContainerSummary → List String → List (String × String)
unfolding id_to_name
to_add cs current_keys =
    map (λ id. (id, unwrap_or (lookup (id_to_name [] cs) id) id))
      (filter (λ id. not (contains_text current_keys id)) (running_ids cs))

unfoldable pub to_remove : List ContainerSummary → List String → List String
to_remove cs current_keys = filter (λ id. not (contains_text (running_ids cs) id)) current_keys

-- `start_monitoring`, for each container to add.
unfoldable pub start_monitoring : ℕ → List (String × String) → List Task
start_monitoring handle [] = []
start_monitoring handle ((id, name) ∷ rest) =
    record { handle = handle; id = id; name = name } ∷ start_monitoring (suc handle) rest

abbrev pub new_handles : List Task → List (String × ℕ)
new_handles started = map (λ t. (t.id, t.handle)) started

unfoldable pub insert_handles : List (String × ℕ) → List (String × ℕ) → List (String × ℕ)
insert_handles [] streams = streams
insert_handles ((id, handle) ∷ rest) streams = insert_handles rest (insert_entry id handle streams)

abbrev pub push_some : Option ℕ → List ℕ → List ℕ
push_some none hs = hs
push_some (some h) hs = h ∷ hs

-- The handles that stay, and those that are aborted.
unfoldable pub remove_handles : List String → List (String × ℕ) → List (String × ℕ) × List ℕ
remove_handles [] streams = (streams, [])
remove_handles (id ∷ rest) streams =
    let (left, aborted) = remove_handles rest (remove_entry id streams) in
    (left, push_some (lookup streams id) aborted)

abbrev pub contains_ℕ : List ℕ → ℕ → Bool
contains_ℕ [] n = false
contains_ℕ (m ∷ ms) n = (m == n) || contains_ℕ ms n

module _ {F : Type 0} where
  -- From the read of `active_streams` to the last `start_monitoring`: nothing is awaited between.
  unfoldable pub refresh_start : List ContainerSummary → DockerRepo F → DockerRepo F
  unfolding to_add to_remove start_monitoring
  refresh_start cs d =
      let current_keys = keys d.active_streams in
      let started = start_monitoring d.next_handle (to_add cs current_keys) in
      record d {
        tasks = d.tasks ++ started;
        next_handle = d.next_handle + length started;
        phase = spawned (new_handles started) (to_remove cs current_keys);
      }

  -- Under the write lock of `active_streams`. `handle.abort()` only asks a task to stop.
  unfoldable pub refresh_swap : List (String × ℕ) → List String → DockerRepo F → DockerRepo F
  unfolding insert_handles remove_handles
  refresh_swap handles gone d =
      let (left, aborted) = remove_handles gone (insert_handles handles d.active_streams) in
      record d {
        active_streams = left;
        tasks = filter (λ t. not (contains_ℕ aborted t.handle)) d.tasks;
        aborting = d.aborting ++ filter (λ t. contains_ℕ aborted t.handle) d.tasks;
        phase = swapped gone;
      }

  unfoldable pub remove_stats :
      List String → List (String × ContainerStats F) → List (String × ContainerStats F)
  remove_stats [] live = live
  remove_stats (id ∷ rest) live = remove_stats rest (remove_entry id live)

  -- Under the write lock of `live_stats`.
  unfoldable pub refresh_forget : List String → DockerRepo F → DockerRepo F
  unfolding remove_stats
  refresh_forget gone d = record d { live_stats = remove_stats gone d.live_stats; phase = idle }

  unfoldable pub get_cached_stats : DockerRepo F → List (ContainerStats F)
  get_cached_stats d = values d.live_stats

  -- The part of a refresh behind the list, when no task comes in between.
  unfoldable pub refresh : List ContainerSummary → DockerRepo F → DockerRepo F
  unfolding refresh_start refresh_swap refresh_forget
  refresh cs d =
      let current_keys = keys d.active_streams in
      let started = start_monitoring d.next_handle (to_add cs current_keys) in
      let gone = to_remove cs current_keys in
      refresh_forget gone (refresh_swap (new_handles started) gone (refresh_start cs d))

  -- `none` is a list that failed.
  unfoldable pub list_running_and_refresh_stats :
      Option (List ContainerSummary) → DockerRepo F → List (ContainerStats F) × DockerRepo F
  unfolding refresh get_cached_stats
  list_running_and_refresh_stats none d = (get_cached_stats d, d)
  list_running_and_refresh_stats (some cs) d =
      let after = refresh cs d in (get_cached_stats after, after)

  unfoldable pub task_update : Task → ContainerStats F → DockerRepo F → DockerRepo F
  task_update t stats d = record d { live_stats = insert_entry t.id stats d.live_stats }

  -- The stream has ended or failed: the task takes its entry away.
  unfoldable pub task_end : Task → DockerRepo F → DockerRepo F
  task_end t d = record d {
    active_streams = remove_entry t.id d.active_streams;
    tasks = filter (λ u. not (t.handle == u.handle)) d.tasks;
  }

  -- The abort takes effect.
  unfoldable pub task_halt : Task → DockerRepo F → DockerRepo F
  task_halt t d = record d { aborting = filter (λ u. not (t.handle == u.handle)) d.aborting }

  -- An aborted task comes to its end before that, and takes away what now stands under its id.
  unfoldable pub late_end : Task → DockerRepo F → DockerRepo F
  late_end t d = record d {
    active_streams = remove_entry t.id d.active_streams;
    aborting = filter (λ u. not (t.handle == u.handle)) d.aborting;
    overtaken = contains_text (keys d.active_streams) t.id || d.overtaken;
  }

-- `DockerRepo::connect`
abbrev pub connect : {F : Type 0} → DockerRepo F
connect = record {
  live_stats = [];
  active_streams = [];
  tasks = [];
  next_handle = 0;
  phase = idle;
  aborting = [];
  overtaken = false;
}
