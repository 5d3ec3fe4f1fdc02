-- ===== src/Smart/Refreshed.antt =====
-- What the cache of src/smart_repo holds after refreshes.
use homeserver_rust.Prelude.{
  ◌≡◌, refl, sym, ap, subst, ◌∙◌, Bool, true, false, String, List, [], ◌∷◌, Option, none, some, map,
  filter, All, Option-cases, inl, inr,
}
use homeserver_rust.Prelude.Options.{Holds-bind, Holds-some}
use homeserver_rust.Models.{SmartHealth}
use homeserver_rust.Smart.Parse.{Json, health_of, parse_scan_devices, parse_smartctl_json}
use homeserver_rust.Smart.Health.{IsSound, read_device-IsSound}
use homeserver_rust.Smart.{Smartctl, scan, run_smartctl, read_device, read_devices}

abbrev pub is_some : {A : Type 0} → Option A → Bool
is_some none = false
is_some (some a) = true

abbrev latest_or :
    Smartctl → Option (Smartctl × String) → Option String → Option (Smartctl × String)
latest_or smartctl before none = before
latest_or smartctl before (some out) = some (smartctl, out)

-- The answers of `smartctl` in the refresh that was the last to end of those whose scan printed
-- something, and what it printed.
abbrev pub latest : List Smartctl → Option (Smartctl × String)
latest [] = none
latest (smartctl ∷ past) = latest_or smartctl (latest past) (scan smartctl)

module _ {V : Type 0} (json : Json V) where
  -- The readings of these devices, in their order, less the devices that gave none.
  pub record AreReadings (smartctl : Smartctl) (devices : List String) (readings : List SmartHealth)
      : Type 0 where
    pub listed :
        map (λ h. h.device) readings ≡ filter (λ d. is_some (read_device json smartctl d)) devices
    pub read : All (λ h. read_device json smartctl h.device ≡ some h) readings

  -- The readings belong to that scan.
  abbrev pub Shows : Option (Smartctl × String) → List SmartHealth → Type 0
  Shows none readings = readings ≡ []
  Shows (some (smartctl, out)) readings =
      AreReadings smartctl (parse_scan_devices json out) readings

  read_device-device :
      (smartctl : Smartctl) (device : String) (health : SmartHealth)
      → read_device json smartctl device ≡ some health
      → health.device ≡ device
  unfolding read_device parse_smartctl_json health_of
  read_device-device smartctl device health h = Holds-some Own _ health h (
      Holds-bind Own (run_smartctl smartctl ("-a" ∷ "-j" ∷ device ∷ [])) _
        (λ text. Holds-bind Own (json.from_str text) _ (λ v. refl)))
    where
      Own : SmartHealth → Type 0
      Own r = r.device ≡ device

  pub read_devices-AreReadings :
      (smartctl : Smartctl) (devices : List String)
      → AreReadings smartctl devices (read_devices json smartctl devices)
  unfolding read_devices
  read_devices-AreReadings smartctl [] = record { listed = refl; read = tt }
  read_devices-AreReadings smartctl (device ∷ devices) =
      let rest = read_devices-AreReadings smartctl devices in
      elim (Option-cases (read_device json smartctl device)) [
        | inl silent ↦ record { listed = rw silent rest.listed; read = rw silent rest.read }
        | inr (health, h) ↦
            let own = read_device-device smartctl device health h in
            record {
              listed = rw h (
                  ap (λ d. d ∷ map (λ h'. h'.device) (read_devices json smartctl devices)) own
                  ∙ ap (λ ds. device ∷ ds) rest.listed);
              read =
                  rw h
                    (subst (λ d. read_device json smartctl d ≡ some health) (sym own) h, rest.read);
            }
      ]

  pub readings-AllSound :
      (smartctl : Smartctl) (readings : List SmartHealth)
      → All (λ h. read_device json smartctl h.device ≡ some h) readings
      → All IsSound readings
  readings-AllSound smartctl [] all = tt
  readings-AllSound smartctl (h ∷ readings) all = (
    Holds-some IsSound _ h all.0 (read_device-IsSound json smartctl h.device),
    readings-AllSound smartctl readings all.1,
  )
