-- ===== src/Docker/Streams/Handles.antt =====
-- The loops of src/docker_repo/mod.rs that store handles and that remove them.
use homeserver_rust.Prelude.{
  ℕ, suc, ◌≡◌, inl, inr, refl, sym, ap, ◌∙◌, subst, Bool, true, false, not, ◌||◌, List, [], ◌∷◌,
  ◌++◌, Option, none, some, String, map, filter, arith, Bool-cases, All, Any, ◌=s=◌,
}
use homeserver_rust.Prelude.Entries.{
  contains_text, keys, lookup, =s=-eq, =s=-refl, insert_entry, remove_entry, lookup-insert_same,
  lookup-insert_other, lookup-remove_other,
}
use homeserver_rust.Docker.Streams.{
  ContainerSummary, Task, running_ids, to_add, start_monitoring, new_handles, insert_handles,
  push_some, remove_handles, contains_ℕ,
}
use homeserver_rust.Docker.Streams.Steps.{Distinct}

-- Absent texts have no entry.
pub lookup-absent :
    (j : String) (m : List (String × ℕ)) → contains_text (keys m) j ≡ false → lookup m j ≡ none
unfolding lookup
lookup-absent j [] h = refl
lookup-absent j ((k, a) ∷ rest) h = ground (arith, lookup-absent j rest)

pub lookup-present :
    (j : String) (h : ℕ) (m : List (String × ℕ))
    → lookup m j ≡ some h
    → contains_text (keys m) j ≡ true
unfolding lookup
lookup-present j h [] e = ground (arith, e)
lookup-present j h ((k, a) ∷ rest) e = ground (arith, lookup-present j h rest, e)

-- What the insertions do: other entries stay, and new entries are there.
pub insert_handles-other :
    (j : String) (handles streams : List (String × ℕ))
    → contains_text (keys handles) j ≡ false
    → lookup (insert_handles handles streams) j ≡ lookup streams j
unfolding insert_handles
insert_handles-other j [] streams h = refl
insert_handles-other j ((k, a) ∷ rest) streams h =
    insert_handles-other j rest (insert_entry k a streams) (ground (arith, h))
    ∙ lookup-insert_other k j a streams (ground (arith, h))

pub insert_handles-found :
    (j : String) (h : ℕ) (handles streams : List (String × ℕ))
    → Distinct (keys handles)
    → lookup handles j ≡ some h
    → lookup (insert_handles handles streams) j ≡ some h
unfolding insert_handles lookup
insert_handles-found j h [] streams d e = ground (arith, e)
insert_handles-found j h ((k, a) ∷ rest) streams d e = elim (Bool-cases (k =s= j)) [
  | inl same ↦
      insert_handles-other j rest (insert_entry k a streams)
        (subst (λ x. contains_text (keys rest) x ≡ false) (=s=-eq k j same) d.0)
      ∙ ap (λ x. lookup (insert_entry k a streams) x) (sym (=s=-eq k j same))
      ∙ lookup-insert_same k a streams
      ∙ ground (arith, e, same)
  | inr other ↦
      insert_handles-found j h rest (insert_entry k a streams) d.1 (ground (arith, e, other))
]

-- What the removals do: other entries stay, and the handles of those removed are given.
pub remove_handles-other :
    (j : String) (gone : List String) (streams : List (String × ℕ))
    → contains_text gone j ≡ false
    → lookup (remove_handles gone streams).0 j ≡ lookup streams j
unfolding remove_handles
remove_handles-other j [] streams h = refl
remove_handles-other j (k ∷ rest) streams h =
    remove_handles-other j rest (remove_entry k streams) (ground (arith, h))
    ∙ lookup-remove_other k j streams (ground (arith, h))

push_some-kept :
    (o : Option ℕ) (h : ℕ) (hs : List ℕ)
    → contains_ℕ hs h ≡ true
    → contains_ℕ (push_some o hs) h ≡ true
push_some-kept none h hs e = e
push_some-kept (some k) h hs e = ground (arith, e)

pub remove_handles-aborts :
    (j : String) (h : ℕ) (gone : List String) (streams : List (String × ℕ))
    → contains_text gone j ≡ true
    → lookup streams j ≡ some h
    → contains_ℕ (remove_handles gone streams).1 h ≡ true
unfolding remove_handles
remove_handles-aborts j h [] streams c e = ground (arith, c)
remove_handles-aborts j h (k ∷ rest) streams c e = elim (Bool-cases (k =s= j)) [
  | inl same ↦ rw (ap (λ x. lookup streams x) (=s=-eq k j same) ∙ e) (ground arith)
  | inr other ↦ push_some-kept (lookup streams k) h _ (
      remove_handles-aborts j h rest (remove_entry k streams) (ground (arith, c, other))
        (lookup-remove_other k j streams other ∙ e))
]

-- A new task's handle stands under its id.
pub All-weaken_tasks :
    (P Q : Task → Type 0) → ((t : Task) → P t → Q t) → (ts : List Task) → All P ts → All Q ts
All-weaken_tasks P Q h [] all = tt
All-weaken_tasks P Q h (t ∷ ts) all = (h t all.0, All-weaken_tasks P Q h ts all.1)

abbrev pub IsListed : List (String × ℕ) → Task → Type 0
IsListed handles t = lookup handles t.id ≡ some t.handle

pub new_handles-IsListed :
    (started : List Task)
    → Distinct (keys (new_handles started))
    → All (IsListed (new_handles started)) started
unfolding lookup
new_handles-IsListed [] d = tt
new_handles-IsListed (t ∷ rest) d =
    (ground (arith, =s=-refl t.id), All-weaken_tasks _ _ later rest (new_handles-IsListed rest d.1))
  where
    later : (u : Task) → IsListed (new_handles rest) u → IsListed (new_handles (t ∷ rest)) u
    later u e = elim (Bool-cases (t.id =s= u.id)) [
      | inl same ↦ absurd (
          ground (
            arith,
            subst (λ x. contains_text (keys (new_handles rest)) x ≡ false) (=s=-eq t.id u.id same)
                d.0,
            lookup-present u.id u.handle (new_handles rest) e,
          ))
      | inr other ↦ rw other e
    ]

pub keys-start_monitoring :
    (h : ℕ) (wanted : List (String × String))
    → keys (new_handles (start_monitoring h wanted)) ≡ keys wanted
unfolding start_monitoring
keys-start_monitoring h [] = refl
keys-start_monitoring h ((id, name) ∷ rest) = ap (◌∷◌ id) (keys-start_monitoring (suc h) rest)

pub contains-filter :
    (p : String → Bool) (xs : List String) (j : String)
    → contains_text (filter p xs) j ≡ true
    → (contains_text xs j ≡ true) × (p j ≡ true)
contains-filter p [] j h = ground (arith, h)
contains-filter p (x ∷ xs) j h = elim (Bool-cases (p x)) [
  | inl keep ↦ elim (Bool-cases (x =s= j)) [
    | inl same ↦ (ground (arith, same), ap p (sym (=s=-eq x j same)) ∙ keep)
    | inr other ↦ ground (arith, keep, other, h, contains-filter p xs j)
  ]
  | inr drop ↦ ground (arith, drop, h, contains-filter p xs j)
]

pub Distinct-filter : (p : String → Bool) (xs : List String) → Distinct xs → Distinct (filter p xs)
Distinct-filter p [] d = tt
Distinct-filter p (x ∷ xs) d = elim (Bool-cases (p x)) [
  | inl keep ↦ rw keep (absent, Distinct-filter p xs d.1)
  | inr drop ↦ rw drop (Distinct-filter p xs d.1)
]
  where
    absent : contains_text (filter p xs) x ≡ false
    absent = ground (arith, contains-filter p xs x, d.0)

keys-pair :
    (name : String → String) (ids : List String) → keys (map (λ id. (id, name id)) ids) ≡ ids
keys-pair name [] = refl
keys-pair name (id ∷ rest) = ap (◌∷◌ id) (keys-pair name rest)

contains-filter_tasks :
    (p : Task → Bool) (ts : List Task) (j : String)
    → contains_text (map (λ t. t.id) (filter p ts)) j ≡ true
    → contains_text (map (λ t. t.id) ts) j ≡ true
contains-filter_tasks p [] j h = h
contains-filter_tasks p (t ∷ ts) j h = elim (Bool-cases (p t)) [
  | inl keep ↦ ground (arith, keep, h, contains-filter_tasks p ts j)
  | inr drop ↦ ground (arith, drop, h, contains-filter_tasks p ts j)
]

pub Distinct-filter_tasks :
    (p : Task → Bool) (ts : List Task)
    → Distinct (map (λ t. t.id) ts)
    → Distinct (map (λ t. t.id) (filter p ts))
Distinct-filter_tasks p [] d = tt
Distinct-filter_tasks p (t ∷ ts) d = elim (Bool-cases (p t)) [
  | inl keep ↦ rw keep (absent, Distinct-filter_tasks p ts d.1)
  | inr drop ↦ rw drop (Distinct-filter_tasks p ts d.1)
]
  where
    absent : contains_text (map (λ u. u.id) (filter p ts)) t.id ≡ false
    absent = ground (arith, contains-filter_tasks p ts t.id, d.0)

pub All-filter_tasks :
    (p : Task → Bool) (P Q : Task → Type 0)
    → ((t : Task) → p t ≡ true → P t → Q t)
    → (ts : List Task) → All P ts
    → All Q (filter p ts)
All-filter_tasks p P Q h [] all = tt
All-filter_tasks p P Q h (t ∷ ts) all = elim (Bool-cases (p t)) [
  | inl keep ↦ rw keep (h t keep all.0, All-filter_tasks p P Q h ts all.1)
  | inr drop ↦ rw drop (All-filter_tasks p P Q h ts all.1)
]

pub All-at : (P : Task → Type 0) (t : Task) (ts : List Task) → Any (λ u. u ≡ t) ts → All P ts → P t
All-at P t [] here all = absurd here
All-at P t (u ∷ ts) (inl same) all = subst P same all.0
All-at P t (u ∷ ts) (inr later) all = All-at P t ts later all.1

contains-append :
    (xs ys : List String) (j : String)
    → contains_text (xs ++ ys) j ≡ (contains_text xs j || contains_text ys j)
contains-append [] ys j = refl
contains-append (x ∷ xs) ys j = ground (arith, contains-append xs ys j)

pub Distinct-append :
    (xs ys : List String)
    → Distinct xs
    → Distinct ys
    → ((j : String) → contains_text xs j ≡ true → contains_text ys j ≡ false)
    → Distinct (xs ++ ys)
Distinct-append [] ys dx dy apart = dy
Distinct-append (x ∷ xs) ys dx dy apart = (
  contains-append xs ys x ∙ ground (arith, dx.0, apart x (ground (arith, =s=-refl x))),
  Distinct-append xs ys dx.1 dy (λ j h. apart j (ground (arith, h))),
)

-- The tasks whose handles are stored have their ids among the keys.
pub listed-contains :
    (streams : List (String × ℕ)) (ts : List Task) (j : String)
    → All (IsListed streams) ts
    → contains_text (map (λ t. t.id) ts) j ≡ true
    → contains_text (keys streams) j ≡ true
listed-contains streams [] j all h = ground (arith, h)
listed-contains streams (t ∷ ts) j all h = elim (Bool-cases (t.id =s= j)) [
  | inl same ↦
      subst (λ x. contains_text (keys streams) x ≡ true) (=s=-eq t.id j same)
        (lookup-present t.id t.handle streams all.0)
  | inr other ↦ listed-contains streams ts j all.1 (ground (arith, other, h))
]

pub ids-new_handles : (ts : List Task) → keys (new_handles ts) ≡ map (λ t. t.id) ts
ids-new_handles [] = refl
ids-new_handles (t ∷ ts) = ap (◌∷◌ t.id) (ids-new_handles ts)

pub keys-to_add :
    (cs : List ContainerSummary) (current : List String)
    → keys (to_add cs current) ≡ filter (λ id. not (contains_text current id)) (running_ids cs)
unfolding to_add
keys-to_add cs current = keys-pair _ _
