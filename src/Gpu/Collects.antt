-- ===== src/Gpu/Collects.antt =====
-- The cards that src/gpu_repo/sysfs.rs reports.
use mathlib.Core.List.Perm
use mathlib.Core.List.{Perm}
use homeserver_rust.Prelude.{
  ℕ, ◌≤◌, ◌≡◌, refl, sym, ◌∙◌, ◌⊎◌, inl, inr, true, false, List, [], ◌∷◌, Option, none, some,
  String, All, arith, Bool-cases,
}
use homeserver_rust.Float.{Float}
use homeserver_rust.Models.{GpuStats}
use homeserver_rust.Text.{trim, append, eq_ignore_ascii_case}
use homeserver_rust.Prelude.Options.{◌>>=◌}
use homeserver_rust.Gpu.{
  gpu_of, parse_vendor_id, is_card_node, card_of, push_card, cards, gpu_le, insert_gpu, sort_gpus,
  collect_linux,
}

module _ {F : Type 0} where
  -- AMD before Intel, and the lower index before the higher.
  abbrev pub Precedes : GpuStats F → GpuStats F → Type 0
  Precedes a b =
      ((a.vendor ≡ "amd") × (b.vendor ≡ "intel")) ⊎ ((a.vendor ≡ b.vendor) × (a.index ≤ b.index))

  abbrev pub InOrder : List (GpuStats F) → Type 0
  InOrder [] = Unit
  InOrder (g ∷ []) = Unit × Unit
  InOrder (g ∷ h ∷ rest) = Precedes g h × InOrder (h ∷ rest)

module _ {F : Type 0} ⦃f : Float F⦄ (parse_f64 : String → Option F) (print : ℕ → String)
    (files : String → Option String) (first_entry : String → Option String) where
  insert_gpu-Perm :
      (gpu : GpuStats F) (gpus : List (GpuStats F))
      → Perm (insert_gpu parse_f64 print files first_entry gpu gpus) (gpu ∷ gpus)
  unfolding insert_gpu
  insert_gpu-Perm gpu [] = Perm.rfl
  insert_gpu-Perm gpu (g ∷ rest) =
      elim (Bool-cases (gpu_le parse_f64 print files first_entry gpu g)) [
        | inl before ↦ rw before Perm.rfl
        | inr behind ↦
            rw behind (Perm.trans (Perm.cons g (insert_gpu-Perm gpu rest)) (Perm.swap gpu g rest))
      ]

  sort_gpus-Perm :
      (gpus : List (GpuStats F)) → Perm (sort_gpus parse_f64 print files first_entry gpus) gpus
  unfolding sort_gpus
  sort_gpus-Perm [] = Perm.rfl
  sort_gpus-Perm (gpu ∷ rest) =
      Perm.trans (insert_gpu-Perm gpu (sort_gpus parse_f64 print files first_entry rest))
        (Perm.cons gpu (sort_gpus-Perm rest))

  abbrev pub IsKnown : GpuStats F → Type 0
  IsKnown gpu = (gpu.vendor ≡ "amd") ⊎ (gpu.vendor ≡ "intel")

  insert_gpu-All :
      (gpu : GpuStats F) (gpus : List (GpuStats F))
      → IsKnown gpu
      → All IsKnown gpus
      → All IsKnown (insert_gpu parse_f64 print files first_entry gpu gpus)
  unfolding insert_gpu
  insert_gpu-All gpu [] known all = (known, tt)
  insert_gpu-All gpu (g ∷ rest) known all =
      elim (Bool-cases (gpu_le parse_f64 print files first_entry gpu g)) [
        | inl before ↦ rw before (known, all)
        | inr behind ↦ rw behind (all.0, insert_gpu-All gpu rest known all.1)
      ]

  sort_gpus-All :
      (gpus : List (GpuStats F))
      → All IsKnown gpus
      → All IsKnown (sort_gpus parse_f64 print files first_entry gpus)
  unfolding sort_gpus
  sort_gpus-All [] all = tt
  sort_gpus-All (gpu ∷ rest) all = insert_gpu-All gpu _ all.0 (sort_gpus-All rest all.1)

  -- Any two cards of these vendors can be compared.
  gpu_le-total :
      (a b : GpuStats F)
      → IsKnown a
      → IsKnown b
      → gpu_le parse_f64 print files first_entry a b ≡ false
      → gpu_le parse_f64 print files first_entry b a ≡ true
  gpu_le-total a b (inl x) (inl y) h = rw (x, y) (ground (arith, rw (x, y) at h))
  gpu_le-total a b (inl x) (inr y) h = absurd (ground (arith, rw (x, y) at h))
  gpu_le-total a b (inr x) (inl y) h = rw (x, y) refl
  gpu_le-total a b (inr x) (inr y) h = rw (x, y) (ground (arith, rw (x, y) at h))

  gpu_le-Precedes :
      (a b : GpuStats F)
      → IsKnown a
      → IsKnown b
      → gpu_le parse_f64 print files first_entry a b ≡ true
      → Precedes a b
  gpu_le-Precedes a b (inl x) (inl y) h = inr (x ∙ sym y, ground (arith, rw (x, y) at h))
  gpu_le-Precedes a b (inl x) (inr y) h = inl (x, y)
  gpu_le-Precedes a b (inr x) (inl y) h = absurd (ground (arith, rw (x, y) at h))
  gpu_le-Precedes a b (inr x) (inr y) h = inr (x ∙ sym y, ground (arith, rw (x, y) at h))

  abbrev Leads : GpuStats F → List (GpuStats F) → Type 0
  Leads g [] = Unit
  Leads g (h ∷ rest) = gpu_le parse_f64 print files first_entry g h ≡ true

  -- Each card is at most the next, by vendor and then by index.
  abbrev IsSorted : List (GpuStats F) → Type 0
  IsSorted [] = Unit
  IsSorted (g ∷ rest) = Leads g rest × IsSorted rest

  insert_gpu-Leads :
      (g gpu : GpuStats F) (rest : List (GpuStats F))
      → gpu_le parse_f64 print files first_entry g gpu ≡ true
      → Leads g rest
      → Leads g (insert_gpu parse_f64 print files first_entry gpu rest)
  unfolding insert_gpu
  insert_gpu-Leads g gpu [] first leads = first
  insert_gpu-Leads g gpu (h ∷ rest) first leads =
      elim (Bool-cases (gpu_le parse_f64 print files first_entry gpu h)) [
        | inl before ↦ rw before first
        | inr behind ↦ rw behind leads
      ]

  insert_gpu-IsSorted :
      (gpu : GpuStats F) (gpus : List (GpuStats F))
      → IsKnown gpu
      → All IsKnown gpus
      → IsSorted gpus
      → IsSorted (insert_gpu parse_f64 print files first_entry gpu gpus)
  unfolding insert_gpu
  insert_gpu-IsSorted gpu [] known all sorted = (tt, tt)
  insert_gpu-IsSorted gpu (g ∷ rest) known all sorted =
      elim (Bool-cases (gpu_le parse_f64 print files first_entry gpu g)) [
        | inl before ↦ rw before (before, sorted)
        | inr behind ↦ rw behind (
          insert_gpu-Leads g gpu rest (gpu_le-total gpu g known all.0 behind) sorted.0,
          insert_gpu-IsSorted gpu rest known all.1 sorted.1,
        )
      ]

  sort_gpus-IsSorted :
      (gpus : List (GpuStats F))
      → All IsKnown gpus
      → IsSorted (sort_gpus parse_f64 print files first_entry gpus)
  unfolding sort_gpus
  sort_gpus-IsSorted [] all = tt
  sort_gpus-IsSorted (gpu ∷ rest) all =
      insert_gpu-IsSorted gpu _ all.0 (sort_gpus-All rest all.1) (sort_gpus-IsSorted rest all.1)

  abbrev AllKnown : Option (GpuStats F) → Type 0
  AllKnown none = Unit
  AllKnown (some gpu) = IsKnown gpu

  abbrev KnownVendor : Option String → Type 0
  KnownVendor none = Unit
  KnownVendor (some vendor) = (vendor ≡ "amd") ⊎ (vendor ≡ "intel")

  parse_vendor_id-KnownVendor : (content : String) → KnownVendor (parse_vendor_id content)
  unfolding parse_vendor_id
  parse_vendor_id-KnownVendor content =
      elim (Bool-cases (eq_ignore_ascii_case (trim content) "0x1002")) [
        | inl amd ↦ rw amd (inl refl)
        | inr other ↦ elim (Bool-cases (eq_ignore_ascii_case (trim content) "0x8086")) [
          | inl intel ↦ rw (other, intel) (inr refl)
          | inr unknown ↦ rw (other, unknown) tt
        ]
      ]

  card_of-AllKnown : (name : String) → AllKnown (card_of parse_f64 print files first_entry name)
  unfolding card_of gpu_of
  card_of-AllKnown name = elim (Bool-cases (is_card_node name)) [
    | inr other ↦ rw other tt
    | inl card ↦ rw card (read (files (append dev "/vendor")))
  ]
    where
      dev : String
      dev = append "/sys/class/drm/" (append name "/device")

      known :
          (vendor : Option String)
          → KnownVendor vendor
          → AllKnown (vendor >>= λ v. some (gpu_of parse_f64 print files first_entry name dev v))
      known none k = tt
      known (some v) k = k

      read :
          (content : Option String)
          → AllKnown (
              content >>= parse_vendor_id >>= λ v.
              some (gpu_of parse_f64 print files first_entry name dev v))
      read none = tt
      read (some c) = known (parse_vendor_id c) (parse_vendor_id-KnownVendor c)

  cards-All : (names : List String) → All IsKnown (cards parse_f64 print files first_entry names)
  unfolding cards
  cards-All [] = tt
  cards-All (name ∷ rest) =
      pushed (card_of parse_f64 print files first_entry name) (card_of-AllKnown name)
        (cards-All rest)
    where
      pushed :
          (card : Option (GpuStats F))
          → AllKnown card
          → All IsKnown (cards parse_f64 print files first_entry rest)
          → All IsKnown (
              push_card parse_f64 print files first_entry card
                (cards parse_f64 print files first_entry rest))
      pushed none known all = all
      pushed (some gpu) known all = (known, all)

  sorted-InOrder : (gpus : List (GpuStats F)) → All IsKnown gpus → IsSorted gpus → InOrder gpus
  sorted-InOrder [] all sorted = tt
  sorted-InOrder (g ∷ []) all sorted = (tt, tt)
  sorted-InOrder (g ∷ h ∷ rest) all sorted =
      (gpu_le-Precedes g h all.0 all.1.0 sorted.0, sorted-InOrder (h ∷ rest) all.1 sorted.1)

  -- What is collected is what the card nodes give, each once; every card is AMD's or Intel's; AMD's
  -- cards stand before Intel's, and among those of a vendor the index never falls.
  pub collect_linux-IsSorted :
      (names : List String)
      → Perm
          (collect_linux parse_f64 print files first_entry (some names))
          (cards parse_f64 print files first_entry names)
        × InOrder (collect_linux parse_f64 print files first_entry (some names))
        × All IsKnown (collect_linux parse_f64 print files first_entry (some names))
  unfolding collect_linux
  collect_linux-IsSorted names = (
    sort_gpus-Perm (cards parse_f64 print files first_entry names),
    sorted-InOrder _
        (sort_gpus-All (cards parse_f64 print files first_entry names) (cards-All names))
        (sort_gpus-IsSorted (cards parse_f64 print files first_entry names) (cards-All names)),
    sort_gpus-All (cards parse_f64 print files first_entry names) (cards-All names),
  )
