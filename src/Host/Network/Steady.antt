-- ===== src/Host/Network/Steady.antt =====
-- The rates of src/sysinfo_repo/collectors.rs are those of the change between two refreshes.
use homeserver_rust.Prelude.{
  ℕ, ◌-◌, ◌≤◌, ◌<◌, ◌⊎◌, leb, leb→le, ◌≡◌, refl, sym, ap, ◌∙◌, true, false, List, [], ◌∷◌, Option,
  none, some, String, map, arith, subst, Bool-cases, inl, inr, Any, Option-cases, ◌=s=◌, eq_iff,
}
use homeserver_rust.Prelude.Entries.{contains_text, =s=-refl}
use homeserver_rust.Float.{Float}
use homeserver_rust.Models.{NetworkStats, InterfaceStat}
use homeserver_rust.Host.Network.{
  NetworkReading, interface_of, find_interface, rate_of, with_rates, rated, get_network_stats,
}

-- sysinfo lists each interface once.
abbrev pub DistinctNames : List NetworkReading → Type 0
DistinctNames [] = Unit
DistinctNames (r ∷ rs) = (contains_text (map (λ s. s.name) rs) r.name ≡ false) × DistinctNames rs

-- Another reading has another name.
other_name :
    (name : String) (r : NetworkReading) (rs : List NetworkReading)
    → Any (λ s. s ≡ r) rs
    → contains_text (map (λ s. s.name) rs) name ≡ false
    → (name =s= r.name) ≡ false
other_name name r [] here h = absurd here
other_name name r (s ∷ rs) (inl same) h =
    subst (λ x. (name =s= x.name) ≡ false) same
      (ground (arith, h, eq_iff s.name name, eq_iff name s.name))
other_name name r (s ∷ rs) (inr later) h = other_name name r rs later (ground (arith, h))

module _ {F : Type 0} ⦃f : Float F⦄ where
  -- The reading has grown and the rate is its growth by the time, or it has fallen and there is none.
  abbrev pub IsRate : ℕ → ℕ → F → F → Type 0
  IsRate now before dt_secs rate =
      ((before ≤ now) × (rate ≡ f.div (f.of_ℕ (now - before)) dt_secs))
      ⊎ ((now < before) × (rate ≡ f.of_ℕ 0))

  rate_of-IsRate :
      (now before : ℕ) (dt_secs rate : F)
      → rate ≡ rate_of now before dt_secs (f.of_ℕ 0)
      → IsRate now before dt_secs rate
  rate_of-IsRate now before dt_secs rate h = elim (Bool-cases (leb before now)) [
    | inl grown ↦ inl (leb→le before now grown, h ∙ rw grown refl)
    | inr fallen ↦ inr (ground (arith, fallen), h ∙ rw fallen refl)
  ]

module _ {F : Type 0} ⦃f : Float F⦄ (files : String → Option String) where
  -- A change to the rates only.
  abbrev Plain : (InterfaceStat F → InterfaceStat F) → Type 0
  Plain g =
      (i : InterfaceStat F)
      → ((g i).name ≡ i.name)
        × ((g i).bytes_recv ≡ i.bytes_recv)
        × ((g i).bytes_sent ≡ i.bytes_sent)

  with_rates-Plain : (prev : List (InterfaceStat F)) (dt : F) → Plain (with_rates prev dt)
  unfolding with_rates
  with_rates-Plain prev dt i = elim (Option-cases (find_interface prev i.name)) [
    | inl absent ↦ rw (absent, with_rates) (refl, refl, refl)
    | inr (p, found) ↦ rw (found, with_rates) (refl, refl, refl)
  ]

  find-head :
      (i : InterfaceStat F) (rest : List (InterfaceStat F)) (name : String)
      → (i.name =s= name) ≡ true
      → find_interface (i ∷ rest) name ≡ some i
  find-head i rest name h = rw h refl

  find-tail :
      (i : InterfaceStat F) (rest : List (InterfaceStat F)) (name : String)
      → (i.name =s= name) ≡ false
      → find_interface (i ∷ rest) name ≡ find_interface rest name
  find-tail i rest name h = rw h refl

  with_rates-found :
      (prev : List (InterfaceStat F)) (i p : InterfaceStat F) (dt_secs : F)
      → find_interface prev i.name ≡ some p
      → ((with_rates prev dt_secs i).received_bytes_per_sec
          ≡ rate_of i.bytes_recv p.bytes_recv dt_secs i.received_bytes_per_sec)
        × ((with_rates prev dt_secs i).transmitted_bytes_per_sec
            ≡ rate_of i.bytes_sent p.bytes_sent dt_secs i.transmitted_bytes_per_sec)
  unfolding with_rates
  with_rates-found prev i p dt_secs h = rw (h, with_rates) (refl, refl)

  -- An interface is found under its name.
  find-map :
      (g : InterfaceStat F → InterfaceStat F)
      → Plain g
      → (r : NetworkReading) (rs : List NetworkReading) → Any (λ s. s ≡ r) rs
      → DistinctNames rs
      → find_interface (map g (map (interface_of files) rs)) r.name
        ≡ some (g (interface_of files r))
  unfolding interface_of
  find-map g plain r [] here apart = absurd here
  find-map g plain r (s ∷ rs) (inl same) apart =
      find-head (g (interface_of files s)) _ r.name (
        ap (λ x. x =s= r.name) ((plain (interface_of files s)).0 ∙ ap (λ x. x.name) same)
        ∙ =s=-refl r.name)
      ∙ ap (λ x. some (g (interface_of files x))) same
  find-map g plain r (s ∷ rs) (inr later) apart =
      find-tail (g (interface_of files s)) _ r.name (
        ap (λ x. x =s= r.name) ((plain (interface_of files s)).0)
        ∙ other_name s.name r rs later apart.0)
      ∙ find-map g plain r rs later apart.1

  -- With the counters of its reading, whatever was known before.
  abbrev HasCounters : NetworkReading → List (InterfaceStat F) → Type 0
  HasCounters r interfaces =
      (p : InterfaceStat F) × (find_interface interfaces r.name ≡ some p)
      × (p.bytes_recv ≡ r.received)
      × (p.bytes_sent ≡ r.transmitted)

  map-id : (is : List (InterfaceStat F)) → map (λ i. i) is ≡ is
  map-id [] = refl
  map-id (i ∷ is) = ap (◌∷◌ i) (map-id is)

  mapped-HasCounters :
      (g : InterfaceStat F → InterfaceStat F)
      → Plain g
      → (r : NetworkReading) (rs : List NetworkReading) → Any (λ s. s ≡ r) rs
      → DistinctNames rs
      → HasCounters r (map g (map (interface_of files) rs))
  unfolding interface_of
  mapped-HasCounters g plain r rs here apart = (
    g (interface_of files r),
    find-map g plain r rs here apart,
    (plain (interface_of files r)).1,
    (plain (interface_of files r)).2,
  )

  module _ (as_secs : ℕ → F) where
    rated-HasCounters :
        (now : ℕ) (last : Option (NetworkStats F × ℕ)) (r : NetworkReading)
        (rs : List NetworkReading)
        → Any (λ s. s ≡ r) rs
        → DistinctNames rs
        → HasCounters r (rated as_secs now last (map (interface_of files) rs))
    unfolding rated
    rated-HasCounters now none r rs here apart =
        subst (HasCounters r) (map-id _)
          (mapped-HasCounters (λ i. i) (λ i. (refl, refl, refl)) r rs here apart)
    rated-HasCounters now (some (prev, ts)) r rs here apart =
        elim (Bool-cases (f.lt (f.of_ℕ 0) (as_secs (now - ts)))) [
          | inl passed ↦ rw passed (
              mapped-HasCounters (with_rates prev.interfaces (as_secs (now - ts)))
                (with_rates-Plain prev.interfaces (as_secs (now - ts))) r rs here apart)
          | inr still ↦ rw still (
              subst (HasCounters r) (map-id _)
                (mapped-HasCounters (λ i. i) (λ i. (refl, refl, refl)) r rs here apart))
        ]

    abbrev pub interfaces_of : Option (NetworkStats F) → List (InterfaceStat F)
    interfaces_of none = []
    interfaces_of (some stats) = stats.interfaces

    -- The second call, at a later time, after whatever came before the first.
    abbrev pub HasRates : NetworkReading → NetworkReading → F → List (InterfaceStat F) → Type 0
    HasRates before r dt_secs interfaces =
        (i : InterfaceStat F) × (find_interface interfaces r.name ≡ some i)
        × IsRate r.received before.received dt_secs i.received_bytes_per_sec
        × IsRate r.transmitted before.transmitted dt_secs i.transmitted_bytes_per_sec

    with_rates-HasRates :
        (prev : List (InterfaceStat F)) (before r : NetworkReading) (rs : List NetworkReading)
        (dt_secs : F)
        → before.name ≡ r.name
        → HasCounters before prev
        → Any (λ s. s ≡ r) rs
        → DistinctNames rs
        → HasRates before r dt_secs (map (with_rates prev dt_secs) (map (interface_of files) rs))
    unfolding with_rates interface_of
    with_rates-HasRates prev before r rs dt_secs same (p, found, recv, sent) here apart = (
      with_rates prev dt_secs (interface_of files r),
      find-map (with_rates prev dt_secs) (with_rates-Plain prev dt_secs) r rs here apart,
      rate_of-IsRate _ _ _ _ (
          (kept (ap (λ x. find_interface prev x) (sym same) ∙ found)).0
          ∙ ap (λ b. rate_of r.received b dt_secs (f.of_ℕ 0)) recv),
      rate_of-IsRate _ _ _ _ (
          (kept (ap (λ x. find_interface prev x) (sym same) ∙ found)).1
          ∙ ap (λ b. rate_of r.transmitted b dt_secs (f.of_ℕ 0)) sent),
    )
      where
        kept :
            find_interface prev r.name ≡ some p
            → ((with_rates prev dt_secs (interface_of files r)).received_bytes_per_sec
                ≡ rate_of r.received p.bytes_recv dt_secs (f.of_ℕ 0))
              × ((with_rates prev dt_secs (interface_of files r)).transmitted_bytes_per_sec
                  ≡ rate_of r.transmitted p.bytes_sent dt_secs (f.of_ℕ 0))
        kept h = with_rates-found prev (interface_of files r) p dt_secs h

    -- Two calls one after the other, after whatever came before them, when neither lock is
    -- poisoned, time has passed and sysinfo lists each interface once: an interface of both lists
    -- is reported with, for each direction, the difference of its two readings divided by the time
    -- between the calls, or zero when the second reading is the smaller.
    pub get_network_stats-HasRates :
        (last : Option (NetworkStats F × ℕ)) (now later : ℕ) (rs ss : List NetworkReading)
        (before r : NetworkReading)
        → Any (λ s. s ≡ before) rs
        → Any (λ s. s ≡ r) ss
        → DistinctNames rs
        → DistinctNames ss
        → before.name ≡ r.name
        → f.lt (f.of_ℕ 0) (as_secs (later - now)) ≡ true
        → HasRates before r (as_secs (later - now)) (
            interfaces_of
              (get_network_stats as_secs files true true later ss
                (get_network_stats as_secs files true true now rs last).1).0)
    unfolding get_network_stats rated
    get_network_stats-HasRates last now later rs ss before r here there once once' same passed =
        rw passed (
          with_rates-HasRates _ before r ss (as_secs (later - now)) same
            (rated-HasCounters now last before rs here once) there once')
