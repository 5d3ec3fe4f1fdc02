-- ===== src/Docker/Streams/Follows.antt =====
-- src/docker_repo/mod.rs: the streams follow the list of running containers.
use homeserver_rust.Prelude.{
  eq_iff, ℕ, ◌≡◌, refl, sym, ap, ◌∙◌, Bool, true, not, ◌||◌, ◌&&◌, List, [], ◌∷◌, none, String,
  filter, arith, Bool-cases, inl, inr, ◌=s=◌, if◌then◌else◌,
}
use homeserver_rust.Prelude.Entries.{
  contains_text, keys, lookup, insert_entry, remove_entry, =s=-eq, lookup-remove_same,
  lookup-remove_other,
}
use homeserver_rust.Models.{ContainerStats}
use homeserver_rust.Docker.Streams.{
  ContainerSummary, DockerRepo, running_ids, to_add, to_remove, start_monitoring, new_handles,
  insert_handles, remove_handles, refresh_start, refresh_swap, refresh_forget, remove_stats,
  refresh,
}
use homeserver_rust.Docker.Streams.Handles.{keys-start_monitoring, keys-to_add}

contains-same :
    (xs : List String) (k j : String) → (k =s= j) ≡ true → contains_text xs k ≡ contains_text xs j
contains-same xs k j same = ap (λ x. contains_text xs x) (=s=-eq k j same)

contains-insert_entry :
    (k j : String) (a : ℕ) (m : List (String × ℕ))
    → contains_text (keys (insert_entry k a m)) j ≡ ((k =s= j) || contains_text (keys m) j)
unfolding insert_entry
contains-insert_entry k j a [] = refl
contains-insert_entry k j a ((l, b) ∷ rest) = elim (Bool-cases (l =s= k)) [
  | inl same ↦ rw (same, =s=-eq l k same) (ground arith)
  | inr other ↦ rw (other, contains-insert_entry k j a rest) (ground arith)
]

contains-remove_entry :
    (k j : String) (m : List (String × ℕ))
    → contains_text (keys (remove_entry k m)) j ≡ (not (k =s= j) && contains_text (keys m) j)
unfolding remove_entry
contains-remove_entry k j [] = ground arith
contains-remove_entry k j ((l, b) ∷ rest) = elim (Bool-cases (l =s= k)) [
  | inl same ↦ rw (same, contains-remove_entry k j rest, =s=-eq l k same) (ground arith)
  | inr other ↦
      rw (other, contains-remove_entry k j rest)
        (ground (arith, eq_iff l j, eq_iff k j, eq_iff l k, other))
]

contains-insert_handles :
    (j : String) (handles m : List (String × ℕ))
    → contains_text (keys (insert_handles handles m)) j
      ≡ (contains_text (keys handles) j || contains_text (keys m) j)
unfolding insert_handles
contains-insert_handles j [] m = refl
contains-insert_handles j ((k, a) ∷ rest) m =
    contains-insert_handles j rest (insert_entry k a m)
    ∙ rw (contains-insert_entry k j a m) (ground arith)

contains-remove_handles :
    (j : String) (gone : List String) (m : List (String × ℕ))
    → contains_text (keys (remove_handles gone m).0) j
      ≡ (not (contains_text gone j) && contains_text (keys m) j)
unfolding remove_handles
contains-remove_handles j [] m = refl
contains-remove_handles j (k ∷ rest) m =
    contains-remove_handles j rest (remove_entry k m)
    ∙ rw (contains-remove_entry k j m) (ground arith)

contains-filter_eq :
    (p : String → Bool) (xs : List String) (j : String)
    → contains_text (filter p xs) j ≡ (contains_text xs j && p j)
contains-filter_eq p [] j = refl
contains-filter_eq p (x ∷ xs) j = elim (Bool-cases (x =s= j)) [
  | inl same ↦ elim (Bool-cases (p x)) [
    | inl keep ↦ rw (keep, same, sym (ap p (=s=-eq x j same))) (ground (arith, keep))
    | inr drop ↦
        rw (drop, same, sym (ap p (=s=-eq x j same)), contains-filter_eq p xs j)
          (ground (arith, drop, ap p (=s=-eq x j same)))
  ]
  | inr other ↦ elim (Bool-cases (p x)) [
    | inl keep ↦ rw (keep, other) (contains-filter_eq p xs j)
    | inr drop ↦ rw (drop, other) (contains-filter_eq p xs j)
  ]
]

module _ {F : Type 0} where
  lookup-remove_stats :
      (j : String) (gone : List String) (live : List (String × ContainerStats F))
      → lookup (remove_stats gone live) j ≡ (if contains_text gone j then none else lookup live j)
  unfolding remove_stats
  lookup-remove_stats j [] live = refl
  lookup-remove_stats j (k ∷ rest) live = elim (Bool-cases (k =s= j)) [
    | inl same ↦
        lookup-remove_stats j rest (remove_entry k live)
        ∙ rw
            (
              same,
              ap (λ x. lookup (remove_entry k live) x) (sym (=s=-eq k j same)),
              lookup-remove_same k live,
            )
            (ground arith)
    | inr other ↦
        lookup-remove_stats j rest (remove_entry k live)
        ∙ rw (other, lookup-remove_other k j live other) refl
  ]

  -- A refresh whose list succeeds, when no task comes in between: afterwards a stream is stored for
  -- a container exactly if it is among those listed; and the statistics of a container are
  -- forgotten exactly if a stream was stored for it before and it is not listed, and are otherwise
  -- as before. So those of a container whose stream has ended by itself stay when it stops.
  pub refresh-follows :
      (cs : List ContainerSummary) (d : DockerRepo F) (j : String)
      → (contains_text (keys (refresh cs d).active_streams) j ≡ contains_text (running_ids cs) j)
        × (lookup (refresh cs d).live_stats j ≡ (
            if contains_text (keys d.active_streams) j && not (contains_text (running_ids cs) j)
            then none
            else lookup d.live_stats j))
  unfolding refresh refresh_start refresh_swap refresh_forget to_remove
  refresh-follows cs d j = (
    contains-remove_handles j gone (insert_handles handles d.active_streams)
        ∙ rw
            (
              contains-insert_handles j handles d.active_streams,
              keys-start_monitoring d.next_handle (to_add cs (keys d.active_streams)),
              keys-to_add cs (keys d.active_streams),
              contains-filter_eq (λ id. not (contains_text (running_ids cs) id))
                  (keys d.active_streams) j,
              contains-filter_eq (λ id. not (contains_text (keys d.active_streams) id))
                  (running_ids cs) j,
            )
            (ground arith),
    lookup-remove_stats j gone d.live_stats
        ∙ rw
            (contains-filter_eq (λ id. not (contains_text (running_ids cs) id))
              (keys d.active_streams) j)
            refl,
  )
    where
      gone : List String
      gone = to_remove cs (keys d.active_streams)

      handles : List (String × ℕ)
      handles = new_handles (start_monitoring d.next_handle (to_add cs (keys d.active_streams)))
