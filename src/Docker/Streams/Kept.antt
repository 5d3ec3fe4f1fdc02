-- ===== src/Docker/Streams/Kept.antt =====
-- src/docker_repo/mod.rs: what holds of the tasks and the handles at every moment, and the end of a
-- task.
use mathlib.Core.Option.{none-ne-some, some-injective}
use homeserver_rust.Prelude.{
  ℕ, ◌≡◌, ◌⊎◌, inl, inr, sym, ap, ◌∙◌, true, false, not, List, [], none, String, map, arith,
  Bool-cases, All, Any, ◌=s=◌, ◌==◌,
}
use homeserver_rust.Prelude.Entries.{
  contains_text, keys, lookup, =s=-eq, remove_entry, lookup-remove_same, lookup-remove_other,
}
use homeserver_rust.Docker.Streams.Handles.{
  lookup-present, lookup-absent, All-weaken_tasks, IsListed, Distinct-filter_tasks,
  All-filter_tasks, All-at,
}
use homeserver_rust.Docker.Streams.{
  Task, Phase, idle, spawned, swapped, DockerRepo, task_end, late_end, connect,
}
use homeserver_rust.Docker.Streams.Steps.{Distinct}

abbrev pub handles_of : Phase → List (String × ℕ)
handles_of idle = []
handles_of (spawned handles gone) = handles
handles_of (swapped gone) = []

abbrev pub gone_of : Phase → List String
gone_of idle = []
gone_of (spawned handles gone) = gone
gone_of (swapped gone) = []

-- Of each task the next steps of the refresh know the handle.
abbrev pub IsWatched : List (String × ℕ) → List (String × ℕ) → Task → Type 0
IsWatched streams handles t = IsListed streams t ⊎ IsListed handles t

module _ {F : Type 0} where
  pub record IsKept (d : DockerRepo F) : Type 0 where
    pub one_each : Distinct (map (λ t. t.id) d.tasks)
    pub watched : All (IsWatched d.active_streams (handles_of d.phase)) d.tasks
    pub distinct : Distinct (keys (handles_of d.phase))
    pub unlisted :
        (j : String)
        → contains_text (keys (handles_of d.phase)) j ≡ true
        → lookup d.active_streams j ≡ none
    pub staying :
        (j : String)
        → contains_text (keys (handles_of d.phase)) j ≡ true
        → contains_text (gone_of d.phase) j ≡ false

  pub connect-IsKept : IsKept connect
  connect-IsKept = record {
    one_each = tt;
    watched = tt;
    distinct = tt;
    unlisted = λ j h. ground (arith, h);
    staying = λ j h. ground (arith, h);
  }

  -- Two tasks of one container would be one task.
  pub same_handle :
      (t u : Task) (d : DockerRepo F)
      → IsKept d
      → t.id ≡ u.id
      → IsWatched d.active_streams (handles_of d.phase) t
      → IsWatched d.active_streams (handles_of d.phase) u
      → t.handle ≡ u.handle
  same_handle t u d k same (inl a) (inl b) =
      some-injective _ _ (sym a ∙ ap (λ x. lookup d.active_streams x) same ∙ b)
  same_handle t u d k same (inr a) (inr b) =
      some-injective _ _ (sym a ∙ ap (λ x. lookup (handles_of d.phase) x) same ∙ b)
  same_handle t u d k same (inl a) (inr b) = absurd (
      none-ne-some _ (
        sym (k.unlisted u.id (lookup-present u.id u.handle _ b))
        ∙ ap (λ x. lookup d.active_streams x) (sym same)
        ∙ a))
  same_handle t u d k same (inr a) (inl b) = absurd (
      none-ne-some _ (
        sym (k.unlisted t.id (lookup-present t.id t.handle _ a))
        ∙ ap (λ x. lookup d.active_streams x) same
        ∙ b))

  -- The task that ends takes away the entry of no other.
  pub task_end-IsKept :
      (t : Task) (d : DockerRepo F) → Any (λ u. u ≡ t) d.tasks → IsKept d → IsKept (task_end t d)
  unfolding task_end
  task_end-IsKept t d here k = record {
    one_each = Distinct-filter_tasks (λ u. not (t.handle == u.handle)) d.tasks k.one_each;
    watched = All-filter_tasks (λ u. not (t.handle == u.handle)) _ _ others d.tasks k.watched;
    distinct = k.distinct;
    unlisted = gone;
    staying = k.staying;
  }
    where
      others :
          (u : Task)
          → not (t.handle == u.handle) ≡ true
          → IsWatched d.active_streams (handles_of d.phase) u
          → IsWatched (remove_entry t.id d.active_streams) (handles_of d.phase) u
      others u apart w = elim (Bool-cases (t.id =s= u.id)) [
        | inl same ↦ absurd (
            ground (
              arith,
              apart,
              same_handle t u d k (=s=-eq t.id u.id same) (All-at _ t d.tasks here k.watched) w,
            ))
        | inr other ↦ elim w [
          | inl a ↦ inl (lookup-remove_other t.id u.id d.active_streams other ∙ a)
          | inr b ↦ inr b
        ]
      ]

      gone :
          (j : String)
          → contains_text (keys (handles_of d.phase)) j ≡ true
          → lookup (remove_entry t.id d.active_streams) j ≡ none
      gone j h = elim (Bool-cases (t.id =s= j)) [
        | inl same ↦
            ap (λ x. lookup (remove_entry t.id d.active_streams) x) (sym (=s=-eq t.id j same))
            ∙ lookup-remove_same t.id d.active_streams
        | inr other ↦ lookup-remove_other t.id j d.active_streams other ∙ k.unlisted j h
      ]

  -- The late end of an aborted task takes an entry away only if one stands there.
  pub late_end-IsKept :
      (t : Task) (d : DockerRepo F)
      → IsKept d
      → IsKept (late_end t d) ⊎ ((late_end t d).overtaken ≡ true)
  unfolding late_end
  late_end-IsKept t d k = elim (Bool-cases (contains_text (keys d.active_streams) t.id)) [
    | inl there ↦ inr (ground (arith, there))
    | inr absent ↦ inl (record {
      one_each = k.one_each;
      watched = All-weaken_tasks _ _ (others absent) d.tasks k.watched;
      distinct = k.distinct;
      unlisted = λ j h. without absent j ∙ k.unlisted j h;
      staying = k.staying;
    })
  ]
    where
      without :
          contains_text (keys d.active_streams) t.id ≡ false
          → (j : String) → lookup (remove_entry t.id d.active_streams) j ≡ lookup d.active_streams j
      without absent j = elim (Bool-cases (t.id =s= j)) [
        | inl same ↦
            ap (λ x. lookup (remove_entry t.id d.active_streams) x) (sym (=s=-eq t.id j same))
            ∙ lookup-remove_same t.id d.active_streams
            ∙ sym (lookup-absent t.id d.active_streams absent)
            ∙ ap (λ x. lookup d.active_streams x) (=s=-eq t.id j same)
        | inr other ↦ lookup-remove_other t.id j d.active_streams other
      ]

      others :
          contains_text (keys d.active_streams) t.id ≡ false
          → (u : Task) → IsWatched d.active_streams (handles_of d.phase) u
          → IsWatched (remove_entry t.id d.active_streams) (handles_of d.phase) u
      others absent u (inl a) = inl (without absent u.id ∙ a)
      others absent u (inr b) = inr b
