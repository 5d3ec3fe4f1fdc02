-- ===== src/Host/Network.antt =====
-- `get_network_stats` of src/sysinfo_repo/collectors.rs. An `Instant` is a number of nanoseconds, and
-- `as_secs` is `Duration::as_secs_f64`.
pub mod Steady
use homeserver_rust.Prelude.{
  ◌==◌, ◌&&◌, ℕ, suc, ◌+◌, ◌-◌, ◌*◌, ◌%◌, ◌^◌, Bool, true, false, List, [], ◌∷◌, Option, none, some,
  String, map, filter, length, unwrap_or, min, ltb, leb, ◌=s=◌, if◌then◌else◌,
}
use homeserver_rust.Prelude.Entries.{lookup}
use homeserver_rust.Prelude.Options.{◌>>=◌}
use homeserver_rust.Float.{Float}
use homeserver_rust.Models.{NetworkStats, InterfaceStat}
use homeserver_rust.Host.Linux.{get_interface_speed, read_interface_operstate}

-- `received` and `transmitted` are what came and went since the last refresh, as sysinfo says.
pub record NetworkReading : Type 0 where
  pub name : String
  pub mac_address : String
  pub ipv4 : List String
  pub ipv6 : List String
  pub transmitted : ℕ
  pub received : ℕ
  pub packets_transmitted : ℕ
  pub packets_received : ℕ

module _ {F : Type 0} ⦃f : Float F⦄ where
  -- An interface before its rates are known.
  unfoldable pub interface_of : (String → Option String) → NetworkReading → InterfaceStat F
  unfolding get_interface_speed read_interface_operstate
  interface_of files r = record {
    name = r.name;
    display_name = r.name;
    mac_address = r.mac_address;
    ipv4 = r.ipv4;
    ipv6 = r.ipv6;
    bytes_sent = r.transmitted;
    bytes_recv = r.received;
    packets_sent = r.packets_transmitted;
    packets_recv = r.packets_received;
    speed = get_interface_speed files r.name;
    received_bytes_per_sec = f.of_ℕ 0;
    transmitted_bytes_per_sec = f.of_ℕ 0;
    is_up = read_interface_operstate files r.name;
  }

  abbrev pub find_interface : List (InterfaceStat F) → String → Option (InterfaceStat F)
  find_interface [] name = none
  find_interface (i ∷ rest) name =
      let found = find_interface rest name in if i.name =s= name then some i else found

  -- The rate of a counter that has not decreased, or else the value before.
  abbrev pub rate_of : ℕ → ℕ → F → F → F
  rate_of now before dt_secs initial =
      if leb before now then f.div (f.of_ℕ (now - before)) dt_secs else initial

  unfoldable pub with_rates : List (InterfaceStat F) → F → InterfaceStat F → InterfaceStat F
  with_rates prev dt_secs i = elim (find_interface prev i.name) [
    | none ↦ i
    | some p ↦ record i {
      received_bytes_per_sec = rate_of i.bytes_recv p.bytes_recv dt_secs i.received_bytes_per_sec;
      transmitted_bytes_per_sec =
          rate_of i.bytes_sent p.bytes_sent dt_secs i.transmitted_bytes_per_sec;
    }
  ]

  -- Nothing is known of the rates at first, or when no time has passed.
  unfoldable pub rated :
      (ℕ → F) → ℕ → Option (NetworkStats F × ℕ) → List (InterfaceStat F) → List (InterfaceStat F)
  unfolding with_rates
  rated as_secs now none fresh = fresh
  rated as_secs now (some (prev, prev_ts)) fresh =
      let dt_secs = as_secs (now - prev_ts) in
      if f.lt (f.of_ℕ 0) dt_secs then map (with_rates prev.interfaces dt_secs) fresh else fresh

  -- The interfaces with their rates, and what is kept. `list_lock` and `last_lock` are the two
  -- locks; `now` is read between them.
  unfoldable pub get_network_stats :
      (ℕ → F)
      → (String → Option String)
      → Bool
      → Bool
      → ℕ
      → List NetworkReading
      → Option (NetworkStats F × ℕ)
      → Option (NetworkStats F) × Option (NetworkStats F × ℕ)
  unfolding interface_of rated
  get_network_stats as_secs files list_lock last_lock now readings last =
      let fresh = map (interface_of files) readings in
      let interfaces = rated as_secs now last fresh in
      if list_lock && last_lock
      then (
        some (record { interfaces = interfaces }),
        some (record { interfaces = interfaces }, now),
      )
      else (none, last)
