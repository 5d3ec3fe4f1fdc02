-- ===== src/History/Merge/Latest.antt =====
-- What the downsampling of src/history_repo/history_merge.rs keeps.
use homeserver_rust.Prelude.{
  ℕ, ◌<◌, ◌==◌, ap, ◌≡◌, refl, ◌∙◌, Bool, false, List, [], ◌∷◌, map, Option, none, some, All, arith,
  Bool-cases, inl, inr, if◌then◌else◌,
}
use homeserver_rust.Prelude.Int.{ℤ, ltb_ℤ, leb_ℤ, ◌<ℤ◌, ◌≤ℤ◌}
use homeserver_rust.Models.{FullSystemSnapshot}
use homeserver_rust.History.Merge.{bucket_insert, bucket_of, fill_buckets, downsample_snapshots}

abbrev pub same_ℤ : ℤ → ℤ → Bool
same_ℤ a b = if leb_ℤ a b then leb_ℤ b a else false

module _ {F : Type 0} where
  -- The snapshot that a bucket holds.
  abbrev pub find : ℤ → List (ℤ × FullSystemSnapshot F) → Option (FullSystemSnapshot F)
  find k [] = none
  find k ((j, s) ∷ rest) = if same_ℤ k j then some s else find k rest

  -- The last snapshot of the list that falls into a bucket, or the given one.
  abbrev pub latest :
      ℕ
      → ℤ
      → Option (FullSystemSnapshot F)
      → List (FullSystemSnapshot F)
      → Option (FullSystemSnapshot F)
  latest resolution_ms k found [] = found
  latest resolution_ms k found (s ∷ rest) =
      latest resolution_ms k (if same_ℤ k (bucket_of resolution_ms s) then some s else found) rest

  -- Each bucket stands before all later ones.
  abbrev pub Increasing : List (ℤ × FullSystemSnapshot F) → Type 0
  Increasing [] = Unit
  Increasing ((k, s) ∷ rest) = All (λ e. k <ℤ e.0) rest × Increasing rest

  find-bucket_insert :
      (k j : ℤ) (s : FullSystemSnapshot F) (entries : List (ℤ × FullSystemSnapshot F))
      → find k (bucket_insert j s entries) ≡ (if same_ℤ k j then some s else find k entries)
  unfolding bucket_insert
  find-bucket_insert k j s [] = refl
  find-bucket_insert k j s ((i, t) ∷ rest) = ground (arith, find-bucket_insert k j s rest)

  All-bucket_insert :
      (k j : ℤ) (s : FullSystemSnapshot F) (entries : List (ℤ × FullSystemSnapshot F))
      → k <ℤ j
      → All (λ e. k <ℤ e.0) entries
      → All (λ e. k <ℤ e.0) (bucket_insert j s entries)
  unfolding bucket_insert
  All-bucket_insert k j s [] h all = (h, tt)
  All-bucket_insert k j s ((i, t) ∷ rest) h all =
      ground (arith, All-bucket_insert k j s rest h all.1)

  All-weaken :
      (k j : ℤ) (entries : List (ℤ × FullSystemSnapshot F))
      → k ≤ℤ j
      → All (λ e. j <ℤ e.0) entries
      → All (λ e. k <ℤ e.0) entries
  All-weaken k j [] h all = tt
  All-weaken k j (e ∷ rest) h all = (omega (arith, h, all.0), All-weaken k j rest h all.1)

  bucket_insert-Increasing :
      (j : ℤ) (s : FullSystemSnapshot F) (entries : List (ℤ × FullSystemSnapshot F))
      → Increasing entries
      → Increasing (bucket_insert j s entries)
  unfolding bucket_insert
  bucket_insert-Increasing j s [] h = (tt, tt)
  bucket_insert-Increasing j s ((i, t) ∷ rest) h = elim (Bool-cases (ltb_ℤ j i)) [
    | inl before ↦ rw before ((ground arith, All-weaken j i rest (ground arith) h.0), h)
    | inr not_before ↦ rw not_before (elim (Bool-cases (ltb_ℤ i j)) [
      | inl after ↦
          rw after
            (All-bucket_insert i j s rest (ground arith) h.0, bucket_insert-Increasing j s rest h.1)
      | inr equal ↦ rw equal (All-weaken j i rest (ground arith) h.0, h.1)
    ])
  ]

  find-fill_buckets :
      (resolution_ms : ℕ) (k : ℤ) (snapshots : List (FullSystemSnapshot F))
      (entries : List (ℤ × FullSystemSnapshot F))
      → find k (fill_buckets resolution_ms snapshots entries)
        ≡ latest resolution_ms k (find k entries) snapshots
  unfolding fill_buckets
  find-fill_buckets resolution_ms k [] entries = refl
  find-fill_buckets resolution_ms k (s ∷ rest) entries =
      find-fill_buckets resolution_ms k rest (bucket_insert (bucket_of resolution_ms s) s entries)
      ∙ ap (λ found. latest resolution_ms k found rest)
          (find-bucket_insert k (bucket_of resolution_ms s) s entries)

  fill_buckets-Increasing :
      (resolution_ms : ℕ) (snapshots : List (FullSystemSnapshot F))
      (entries : List (ℤ × FullSystemSnapshot F))
      → Increasing entries
      → Increasing (fill_buckets resolution_ms snapshots entries)
  unfolding fill_buckets
  fill_buckets-Increasing resolution_ms [] entries h = h
  fill_buckets-Increasing resolution_ms (s ∷ rest) entries h =
      fill_buckets-Increasing resolution_ms rest
        (bucket_insert (bucket_of resolution_ms s) s entries)
        (bucket_insert-Increasing (bucket_of resolution_ms s) s entries h)

  -- A list of snapshots, one for each bucket in the order of the buckets: the last that falls into it.
  pub record IsThinned (resolution_ms : ℕ) (snapshots thinned : List (FullSystemSnapshot F))
      : Type 0 where
    pub entries : List (ℤ × FullSystemSnapshot F)
    pub values : thinned ≡ map (λ e. e.1) entries
    pub increasing : Increasing entries
    pub holds : (k : ℤ) → find k entries ≡ latest resolution_ms k none snapshots

  -- Downsampling at a resolution above zero keeps the last snapshot of each bucket and no other, in
  -- the order of the buckets.
  pub downsample_snapshots-IsThinned :
      (snapshots : List (FullSystemSnapshot F)) (resolution_ms : ℕ)
      → 0 < resolution_ms
      → IsThinned resolution_ms snapshots (downsample_snapshots snapshots resolution_ms)
  unfolding downsample_snapshots
  downsample_snapshots-IsThinned [] resolution_ms above = record {
    entries = [];
    values = refl;
    increasing = tt;
    holds = λ k. refl;
  }
  downsample_snapshots-IsThinned (s ∷ rest) resolution_ms above = record {
    entries = fill_buckets resolution_ms (s ∷ rest) [];
    values = rw (not_zero resolution_ms above) refl;
    increasing = fill_buckets-Increasing resolution_ms (s ∷ rest) [] tt;
    holds = λ k. find-fill_buckets resolution_ms k (s ∷ rest) [];
  }
    where
      not_zero : (n : ℕ) → 0 < n → (n == 0) ≡ false
      not_zero n h = ground arith
