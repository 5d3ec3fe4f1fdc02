-- ===== src/Tests/Machine.antt =====
-- Texts of /proc and /sys, names of disks, and readings of the machine.
use homeserver_rust.Prelude.{
  ℕ, ◌-◌, ◌/◌, ◌≡◌, refl, true, [], ◌∷◌, All, Option, none, some, String, inl, arith,
}
use homeserver_rust.Prelude.Int.{negsuc}
use homeserver_rust.Text.{
  split_whitespace, words, is_whitespace, trim, trim_start, trim_end, append,
}
use homeserver_rust.Text.Search.{
  lines, starts_with, strip_prefix, split_once, rsplit_once, split_at_digit, trim_quotes,
  trim_quotes_start, trim_quotes_end,
}
use homeserver_rust.Text.Decimal.{parse_unsigned, digits, digits_from, parse_i64}
use homeserver_rust.Prelude.Entries.{insert_entry}
use homeserver_rust.Host.Disk.{
  parse_diskstats, insert_rows, diskstats_row, diskstats_fields, u64_field, base_of_trimmed,
  first_base, lettered_base, nvme_base, mmc_base, disk_sysfs_base_device_name,
}
use homeserver_rust.Host.Disk.Names.{nvme, disk_name, partition_name, base-partition_name}
use homeserver_rust.Host.Disk.Physical.{IsPhysical, parse_diskstats-IsPhysical}
use homeserver_rust.Host.Linux.{parse_loadavg_total_tasks, os_name_in, value_in}
use homeserver_rust.Host.Collectors.{CpuReading}
use homeserver_rust.Host.Collectors.Gating.{cpu_after, IsApart, cpu_after-IsApart}
use homeserver_rust.Host.Network.{NetworkReading, get_network_stats}
use homeserver_rust.Host.Network.Steady.{HasRates, interfaces_of, get_network_stats-HasRates}
use homeserver_rust.Tests.Setup.{nat_float}

program : Unit {0}
unfolding lines starts_with strip_prefix split_once rsplit_once split_at_digit trim_quotes
    trim_quotes_start trim_quotes_end split_whitespace words is_whitespace trim trim_start trim_end
    append parse_unsigned digits digits_from parse_i64 insert_entry parse_diskstats insert_rows
    diskstats_row diskstats_fields u64_field base_of_trimmed first_base lettered_base nvme_base
    mmc_base disk_sysfs_base_device_name parse_loadavg_total_tasks os_name_in value_in
program = tt

-- The tests of the repository.
row_read :
    parse_diskstats
      "   8       0 sda 100 0 2000 0 50 0 1000 0 0 300 0\n   7 0 loop0 1 1 1 1 1 1 1 1 1 1 1"
    ≡ (
      "sda",
      record {
        reads_completed = 100;
        sectors_read = 2_000;
        writes_completed = 50;
        sectors_written = 1_000;
        io_time_ms = 300;
      },
    )
      ∷ []
unfolding program
row_read = refl

virtio_kept : disk_sysfs_base_device_name " vdb12 " ≡ "vdb"
unfolding program
virtio_kept = refl

tasks_read : parse_loadavg_total_tasks "0.52 0.58 0.59 1/234 5678" ≡ some 234
unfolding program
tasks_read = refl

below_zero : parse_i64 "-3" ≡ some (negsuc 2)
unfolding program
below_zero = refl

pretty_name : os_name_in ("ID=debian" ∷ "NAME=\"Debian\"" ∷ []) ≡ some "Debian"
unfolding program
pretty_name = refl

base-partition_name_example :
    disk_sysfs_base_device_name (partition_name (nvme "0" "1") "2") ≡ disk_name (nvme "0" "1")
base-partition_name_example = base-partition_name (nvme "0" "1") "2" (refl, refl) refl

abbrev files : String → Option String
files path = none

abbrev cpu_reading : ℕ → ℕ → CpuReading ℕ
cpu_reading now usage = record {
  sys_lock = true;
  last_lock = true;
  now = now;
  usage = usage;
  physical = some 4;
  cpus = ("cpu0", 3) ∷ [];
}

cpu_after-IsApart_example :
    IsApart 200
      (λ n. "0")
      1_000
      7
      (cpu_after 200
        (λ n. "0")
        (some (1_000, 7))
        ((files, cpu_reading 1_100 9) ∷ (files, cpu_reading 1_300 8) ∷ []))
cpu_after-IsApart_example =
    cpu_after-IsApart 200 (λ n. "0") (omega arith) 1_000 7
      ((files, cpu_reading 1_100 9) ∷ (files, cpu_reading 1_300 8) ∷ [])

abbrev ethernet : ℕ → NetworkReading
ethernet received = record {
  name = "eth0";
  mac_address = "";
  ipv4 = [];
  ipv6 = [];
  transmitted = 0;
  received = received;
  packets_transmitted = 0;
  packets_received = 0;
}

abbrev as_seconds : ℕ → ℕ
as_seconds nanos = nanos / 1_000_000_000

get_network_stats-HasRates_example :
    HasRates files as_seconds
      (ethernet 400)
      (ethernet 1_000)
      (as_seconds (5_000_000_000 - 2_000_000_000))
      (interfaces_of files as_seconds
        (get_network_stats as_seconds files true true 5_000_000_000
          (ethernet 1_000 ∷ [])
          (get_network_stats as_seconds files true true 2_000_000_000
            (ethernet 400 ∷ [])
            none).1).0)
unfolding nat_float
get_network_stats-HasRates_example =
    get_network_stats-HasRates files as_seconds none 2_000_000_000 5_000_000_000 (ethernet 400 ∷ [])
      (ethernet 1_000 ∷ []) (ethernet 400) (ethernet 1_000) (inl refl) (inl refl) (refl, tt)
      (refl, tt) refl refl

parse_diskstats-IsPhysical_example : All IsPhysical (parse_diskstats "8 0 sda 1 0 2 0 3 0 4 0 0 5")
parse_diskstats-IsPhysical_example = parse_diskstats-IsPhysical "8 0 sda 1 0 2 0 3 0 4 0 0 5"
