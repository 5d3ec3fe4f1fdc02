-- ===== src/Host/Collectors/Gating.antt =====
-- The refreshes of the processor's usage in src/sysinfo_repo/mod.rs keep the interval that sysinfo
-- asks for.
use homeserver_rust.Prelude.{
  ℕ, ◌+◌, ◌-◌, ◌≤◌, ◌<◌, ◌≡◌, refl, ◌∙◌, ◌⊎◌, inl, inr, List, [], ◌∷◌, Option, none, some, String,
  leb, arith, Bool-cases,
}
use homeserver_rust.Float.{Float}
use homeserver_rust.Host.Collectors.{CpuReading, gated_usage, get_cpu_stats}

module _ {F : Type 0} ⦃f : Float F⦄ (minimum_interval : ℕ) (print : ℕ → String) where
  -- What is kept after some calls, the first one first; each comes with the files of its time.
  unfoldable pub cpu_after :
      Option (ℕ × F) → List ((String → Option String) × CpuReading F) → Option (ℕ × F)
  unfolding get_cpu_stats
  cpu_after last [] = last
  cpu_after last ((files, r) ∷ rest) =
      cpu_after (get_cpu_stats minimum_interval print files last r).1 rest

  -- The same refresh, or one at least an interval later.
  abbrev pub IsApart : ℕ → F → Option (ℕ × F) → Type 0
  IsApart t u none = ⊥
  IsApart t u (some (t', u')) = ((t' ≡ t) × (u' ≡ u)) ⊎ (t + minimum_interval ≤ t')

  get_cpu_stats-IsApart :
      0 < minimum_interval
      → (t : ℕ) (u : F) (files : String → Option String) (r : CpuReading F)
      → IsApart t u (get_cpu_stats minimum_interval print files (some (t, u)) r).1
  unfolding get_cpu_stats gated_usage
  get_cpu_stats-IsApart pos t u files r = elim (Bool-cases r.sys_lock) [
    | inr poisoned ↦ rw poisoned (inl (refl, refl))
    | inl taken ↦ elim (Bool-cases r.last_lock) [
      | inr poisoned ↦ rw (taken, poisoned) (inl (refl, refl))
      | inl kept ↦ elim (Bool-cases (leb minimum_interval (r.now - t))) [
        | inl due ↦ rw (taken, kept, due) (inr (ground (arith, pos, due)))
        | inr early ↦ rw (taken, kept, early) (inl (refl, refl))
      ]
    ]
  ]

  IsApart-trans :
      (t : ℕ) (u : F) (t' : ℕ) (u' : F) (later : Option (ℕ × F))
      → IsApart t u (some (t', u'))
      → IsApart t' u' later
      → IsApart t u later
  IsApart-trans t u t' u' none a b = b
  IsApart-trans t u t' u' (some (t2, u2)) (inl (e, v)) (inl (e', v')) = inl (e' ∙ e, v' ∙ v)
  IsApart-trans t u t' u' (some (t2, u2)) (inl (e, v)) (inr far) = inr (omega (arith, e, far))
  IsApart-trans t u t' u' (some (t2, u2)) (inr far) (inl (e', v')) = inr (omega (arith, e', far))
  IsApart-trans t u t' u' (some (t2, u2)) (inr far) (inr far') = inr (omega (arith, far, far'))

  -- If the interval is not empty: from a refresh that is kept, however many calls follow, at
  -- whatever times and with whatever locks poisoned, what is kept is that refresh with its usage,
  -- or one that was made at least the interval later.
  pub cpu_after-IsApart :
      0 < minimum_interval
      → (t : ℕ) (u : F) (readings : List ((String → Option String) × CpuReading F))
      → IsApart t u (cpu_after (some (t, u)) readings)
  unfolding cpu_after
  cpu_after-IsApart pos t u [] = inl (refl, refl)
  cpu_after-IsApart pos t u ((files, r) ∷ rest) =
      go (get_cpu_stats minimum_interval print files (some (t, u)) r).1
        (get_cpu_stats-IsApart pos t u files r) (λ t' u'. cpu_after-IsApart pos t' u' rest)
    where
      go :
          (kept : Option (ℕ × F))
          → IsApart t u kept
          → ((t' : ℕ) (u' : F) → IsApart t' u' (cpu_after (some (t', u')) rest))
          → IsApart t u (cpu_after kept rest)
      go none a later = absurd a
      go (some (t', u')) a later =
          IsApart-trans t u t' u' (cpu_after (some (t', u')) rest) a (later t' u')
