-- ===== src/Docker/Streams/Watches.antt =====
-- src/docker_repo/mod.rs: whatever the order of its steps, no container has two tasks, and a refresh
-- can abort each task that runs.
use mathlib.Core.Option.{none-ne-some}
use mathlib.Core.List.{map-append}
use homeserver_rust.Prelude.{
  ℕ, ◌≡◌, ◌⊎◌, inl, inr, sym, ◌∙◌, subst, true, false, not, List, [], String, map, filter, arith,
  Bool-cases, All, All-append,
}
use homeserver_rust.Prelude.Entries.{contains_text, keys, lookup}
use homeserver_rust.Docker.Streams.Handles.{
  lookup-absent, insert_handles-other, insert_handles-found, remove_handles-other,
  remove_handles-aborts, IsListed, new_handles-IsListed, keys-start_monitoring, contains-filter,
  Distinct-filter, keys-to_add, All-weaken_tasks, Distinct-filter_tasks, All-filter_tasks,
  Distinct-append, listed-contains, ids-new_handles,
}
use homeserver_rust.Float.{Float}
use homeserver_rust.Docker.Streams.{
  ContainerSummary, Task, idle, spawned, DockerRepo, running_ids, to_add, to_remove,
  start_monitoring, new_handles, insert_handles, remove_handles, contains_ℕ, refresh_start,
  refresh_swap, refresh_forget, task_update, task_end, task_halt, late_end,
}
use homeserver_rust.Docker.Streams.Steps.{
  Distinct, Step, refreshing, swapping, forgetting, updating, ending, lingering, late_ending,
  halting, Reach, start, next,
}
use homeserver_rust.Docker.Streams.Kept.{
  handles_of, IsWatched, IsKept, connect-IsKept, task_end-IsKept, late_end-IsKept,
}

module _ {F : Type 0} where
  refresh_swap-IsKept :
      (handles : List (String × ℕ)) (gone : List String) (d : DockerRepo F)
      → d.phase ≡ spawned handles gone
      → IsKept d
      → IsKept (refresh_swap handles gone d)
  unfolding refresh_swap
  refresh_swap-IsKept handles gone d at k = record {
    one_each = Distinct-filter_tasks (λ t. not (contains_ℕ aborted t.handle)) d.tasks k.one_each;
    watched =
        All-filter_tasks (λ t. not (contains_ℕ aborted t.handle)) _ _ stored d.tasks k.watched;
    distinct = tt;
    unlisted = λ j h. ground (arith, h);
    staying = λ j h. ground (arith, h);
  }
    where
      aborted : List ℕ
      aborted = (remove_handles gone (insert_handles handles d.active_streams)).1

      inserted :
          (t : Task)
          → IsWatched d.active_streams (handles_of d.phase) t
          → IsListed (insert_handles handles d.active_streams) t
      inserted t (inl a) = elim (Bool-cases (contains_text (keys handles) t.id)) [
        | inl new ↦ absurd (none-ne-some _ (sym (k.unlisted t.id (rw at new)) ∙ a))
        | inr old ↦ insert_handles-other t.id handles d.active_streams old ∙ a
      ]
      inserted t (inr b) =
          insert_handles-found t.id t.handle handles d.active_streams (rw at at k.distinct)
            (rw at at b)

      stored :
          (t : Task)
          → not (contains_ℕ aborted t.handle) ≡ true
          → IsWatched d.active_streams (handles_of d.phase) t
          → IsWatched (remove_handles gone (insert_handles handles d.active_streams)).0 [] t
      stored t alive w = elim (Bool-cases (contains_text gone t.id)) [
        | inl removed ↦ absurd (
            ground (
              arith,
              alive,
              remove_handles-aborts t.id t.handle gone (insert_handles handles d.active_streams)
                  removed (inserted t w),
            ))
        | inr kept ↦ inl (
            remove_handles-other t.id gone (insert_handles handles d.active_streams) kept
            ∙ inserted t w)
      ]

  unhanded :
      (d : DockerRepo F)
      → d.phase ≡ idle
      → (t : Task) → IsWatched d.active_streams (handles_of d.phase) t
      → IsListed d.active_streams t
  unfolding lookup
  unhanded d at t (inl a) = a
  unhanded d at t (inr b) = absurd (none-ne-some _ (rw at at b))

  refresh_start-IsKept :
      (cs : List ContainerSummary) (d : DockerRepo F)
      → d.phase ≡ idle
      → Distinct (running_ids cs)
      → IsKept d
      → IsKept (refresh_start cs d)
  unfolding refresh_start to_remove
  refresh_start-IsKept cs d at once k = record {
    one_each = rw (map-append (λ t. t.id) d.tasks started) (
        Distinct-append (map (λ t. t.id) d.tasks) (map (λ t. t.id) started) k.one_each
          (subst Distinct (ids-new_handles started) apart) disjoint);
    watched =
        All-append _ d.tasks started (All-weaken_tasks _ _ (λ t a. inl a) d.tasks listed)
          (All-weaken_tasks _ _ (λ t b. inr b) started (new_handles-IsListed started apart));
    distinct = apart;
    unlisted = λ j h. lookup-absent j d.active_streams (ground (arith, wanted j h));
    staying = stays;
  }
    where
      started : List Task
      started = start_monitoring d.next_handle (to_add cs (keys d.active_streams))

      new_keys :
          keys (new_handles started)
          ≡ filter (λ id. not (contains_text (keys d.active_streams) id)) (running_ids cs)
      new_keys =
          keys-start_monitoring d.next_handle (to_add cs (keys d.active_streams))
          ∙ keys-to_add cs (keys d.active_streams)

      apart : Distinct (keys (new_handles started))
      apart = rw new_keys (Distinct-filter _ (running_ids cs) once)

      wanted :
          (j : String)
          → contains_text (keys (new_handles started)) j ≡ true
          → (contains_text (running_ids cs) j ≡ true)
            × (not (contains_text (keys d.active_streams) j) ≡ true)
      wanted j h =
          contains-filter (λ id. not (contains_text (keys d.active_streams) id)) (running_ids cs) j
            (rw new_keys at h)

      listed : All (IsListed d.active_streams) d.tasks
      listed = All-weaken_tasks _ _ (unhanded d at) d.tasks k.watched

      disjoint :
          (j : String)
          → contains_text (map (λ t. t.id) d.tasks) j ≡ true
          → contains_text (map (λ t. t.id) started) j ≡ false
      disjoint j h = elim (Bool-cases (contains_text (map (λ t. t.id) started) j)) [
        | inl new ↦ absurd (
            ground (
              arith,
              listed-contains d.active_streams d.tasks j listed h,
              (wanted j (rw (ids-new_handles started) new)).1,
            ))
        | inr old ↦ old
      ]

      removing :
          (j : String)
          → contains_text (to_remove cs (keys d.active_streams)) j ≡ true
          → not (contains_text (running_ids cs) j) ≡ true
      removing j h =
          (contains-filter (λ id. not (contains_text (running_ids cs) id)) (keys d.active_streams) j
            h).1

      stays :
          (j : String)
          → contains_text (keys (new_handles started)) j ≡ true
          → contains_text (to_remove cs (keys d.active_streams)) j ≡ false
      stays j h = elim (Bool-cases (contains_text (to_remove cs (keys d.active_streams)) j)) [
        | inl removed ↦ absurd (ground (arith, (wanted j h).0, removing j removed))
        | inr kept ↦ kept
      ]

module _ {F : Type 0} ⦃f : Float F⦄ where
  step-IsKept : {d e : DockerRepo F} → Step d e → IsKept d → IsKept e ⊎ (e.overtaken ≡ true)
  unfolding refresh_forget task_update task_halt
  step-IsKept {d} (refreshing cs rest once) k = inl (refresh_start-IsKept cs d rest once k)
  step-IsKept {d} (swapping handles gone now) k = inl (refresh_swap-IsKept handles gone d now k)
  step-IsKept {d} (forgetting gone now) k = inl (record {
    one_each = k.one_each;
    watched = rw now at k.watched;
    distinct = tt;
    unlisted = λ j h. ground (arith, h);
    staying = λ j h. ground (arith, h);
  })
  step-IsKept {d} (updating t s stats here read) k = inl (record {
    one_each = k.one_each;
    watched = k.watched;
    distinct = k.distinct;
    unlisted = k.unlisted;
    staying = k.staying;
  })
  step-IsKept {d} (ending t here) k = inl (task_end-IsKept t d here k)
  step-IsKept {d} (lingering t s stats here read) k = inl (record {
    one_each = k.one_each;
    watched = k.watched;
    distinct = k.distinct;
    unlisted = k.unlisted;
    staying = k.staying;
  })
  step-IsKept {d} (late_ending t here) k = late_end-IsKept t d k
  step-IsKept {d} (halting t here) k = inl (record {
    one_each = k.one_each;
    watched = k.watched;
    distinct = k.distinct;
    unlisted = k.unlisted;
    staying = k.staying;
  })

  -- What has happened stays so.
  step-overtaken : {d e : DockerRepo F} → Step d e → d.overtaken ≡ true → e.overtaken ≡ true
  unfolding refresh_start refresh_swap refresh_forget task_update task_end task_halt late_end
  step-overtaken {d} (refreshing cs rest once) h = h
  step-overtaken {d} (swapping handles gone now) h = h
  step-overtaken {d} (forgetting gone now) h = h
  step-overtaken {d} (updating t s stats here read) h = h
  step-overtaken {d} (ending t here) h = h
  step-overtaken {d} (lingering t s stats here read) h = h
  step-overtaken {d} (late_ending t here) h = ground (arith, h)
  step-overtaken {d} (halting t here) h = h

  Reach-IsKept : {d : DockerRepo F} → Reach d → IsKept d ⊎ (d.overtaken ≡ true)
  Reach-IsKept start = inl connect-IsKept
  Reach-IsKept (next before step) = elim (Reach-IsKept before) [
    | inl k ↦ step-IsKept step k
    | inr over ↦ inr (step-overtaken step over)
  ]

  -- However refreshes, updates and ends of streams interleave, with aborted tasks running on to
  -- their next yield: no two tasks follow one container, leaving aside those that are aborted, and
  -- for each its handle is stored under its container's id, or is held by a refresh that has not
  -- stored it yet; or else an aborted task has come to its end so late that it took away the entry of
  -- a later task of its container.
  pub Reach-IsWatched :
      (d : DockerRepo F)
      → Reach d
      → (Distinct (map (λ t. t.id) d.tasks)
          × All (IsWatched d.active_streams (handles_of d.phase)) d.tasks)
        ⊎ (d.overtaken ≡ true)
  Reach-IsWatched d reached = elim (Reach-IsKept reached) [
    | inl k ↦ inl (k.one_each, k.watched)
    | inr over ↦ inr over
  ]
