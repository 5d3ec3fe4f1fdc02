-- ===== src/Smart.antt =====
-- src/smart_repo: the readings of `smartctl`, kept in a cache that the worker reads.
pub mod Parse
pub mod Health
pub mod Refreshed
use homeserver_rust.Prelude.{String, List, [], ◌∷◌, Option, none, some, ◌=s=◌, if◌then◌else◌}
use homeserver_rust.Prelude.Options.{◌>>=◌}
use homeserver_rust.Text.{trim}
use homeserver_rust.Models.{SmartHealth}
use homeserver_rust.Smart.Parse.{Json, cons_some, parse_scan_devices, parse_smartctl_json}

-- The commands that the program runs: the standard output of `smartctl` with these arguments, or
-- `none` where it cannot be started. The exit status is not looked at.
abbrev pub Smartctl : Type 0
Smartctl = List String → Option String

unfoldable pub run_smartctl : Smartctl → List String → Option String
unfolding trim
run_smartctl smartctl args = do
  stdout ← smartctl args
  if trim stdout =s= "" then none else some stdout

-- `run_smartctl(&["--scan", "-j"])`
abbrev pub scan : Smartctl → Option String
scan smartctl = run_smartctl smartctl ("--scan" ∷ "-j" ∷ [])

-- The cache. No code panics while it holds the lock, so the lock is always given.
pub record SmartRepo : Type 0 where
  pub cache : List SmartHealth

unfoldable pub new : SmartRepo
new = record { cache = [] }

unfoldable pub current : SmartRepo → List SmartHealth
current repo = repo.cache

module _ {V : Type 0} (json : Json V) where
  -- The `if let Some(json) = … && let Some(health) = …`.
  unfoldable pub read_device : Smartctl → String → Option SmartHealth
  unfolding run_smartctl parse_smartctl_json
  read_device smartctl device = do
    text ← run_smartctl smartctl ("-a" ∷ "-j" ∷ device ∷ [])
    parse_smartctl_json json text device

  -- `for device in devices`
  unfoldable pub read_devices : Smartctl → List String → List SmartHealth
  read_devices smartctl [] = []
  read_devices smartctl (device ∷ devices) =
      cons_some (read_device smartctl device) (read_devices smartctl devices)

  -- What follows the scan: nothing where it failed.
  unfoldable pub refresh_from : Smartctl → SmartRepo → Option String → SmartRepo
  unfolding read_devices parse_scan_devices
  refresh_from smartctl repo none = repo
  refresh_from smartctl repo (some out) = record {
    cache = read_devices smartctl (parse_scan_devices json out);
  }

  unfoldable pub refresh : Smartctl → SmartRepo → SmartRepo
  unfolding refresh_from
  refresh smartctl repo = refresh_from smartctl repo (scan smartctl)

  -- The repository after the refreshes with these answers of `smartctl`, in the order in which they
  -- ended, the last to end first. The worker spawns them, so they may overlap; as each sets the cache
  -- only at its end, the one that ends last is the one that is seen, even if it began first.
  abbrev pub refreshed : List Smartctl → SmartRepo
  refreshed [] = new
  refreshed (smartctl ∷ past) = refresh smartctl (refreshed past)
