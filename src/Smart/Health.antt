-- ===== src/Smart/Health.antt =====
-- The wear level that src/smart_repo/parse.rs reads.
use homeserver_rust.Prelude.{ℕ, ◌≤◌, String, [], ◌∷◌, Option, none, some, arith}
use homeserver_rust.Prelude.Options.{Holds, Holds-bind}
use homeserver_rust.Models.{SmartHealth}
use homeserver_rust.Smart.{Smartctl, run_smartctl, read_device}
use homeserver_rust.Smart.Parse.{
  Json, attribute_table, worn, nvme_wear_or, ata_wear, wear_level, health_of, parse_smartctl_json,
}

-- A percentage, where there is one.
abbrev pub IsPercent : Option ℕ → Type 0
IsPercent = Holds (λ n. n ≤ 100)

worn-IsPercent : (o : Option ℕ) → IsPercent (worn o)
unfolding worn
worn-IsPercent none = tt
worn-IsPercent (some n) = omega arith

nvme-IsPercent : (used rest : Option ℕ) → IsPercent rest → IsPercent (nvme_wear_or used rest)
unfolding nvme_wear_or
nvme-IsPercent none rest h = h
nvme-IsPercent (some used) rest h = omega arith

-- A reading has a wear level that is a percentage, where it has one.
abbrev pub IsSound : SmartHealth → Type 0
IsSound health = IsPercent health.wear_level_percent

module _ {V : Type 0} (json : Json V) where
  pub wear_level-IsPercent : (v : V) → IsPercent (wear_level json v)
  unfolding wear_level ata_wear
  wear_level-IsPercent v =
      nvme-IsPercent _ _ (Holds-bind _ (attribute_table json v) _ (λ table. worn-IsPercent _))

  pub parse-IsSound : (text device : String) → Holds IsSound (parse_smartctl_json json text device)
  unfolding parse_smartctl_json health_of
  parse-IsSound text device =
      Holds-bind IsSound (json.from_str text) _ (λ v. wear_level-IsPercent v)

  pub read_device-IsSound :
      (smartctl : Smartctl) (device : String) → Holds IsSound (read_device json smartctl device)
  unfolding read_device
  read_device-IsSound smartctl device =
      Holds-bind IsSound (run_smartctl smartctl ("-a" ∷ "-j" ∷ device ∷ [])) _
        (λ text. parse-IsSound text device)
