-- ===== src/Host/Disk.antt =====
-- src/sysinfo_repo/linux/disk.rs: the counters of /proc/diskstats, and the disk that a partition
-- belongs to.
pub mod Splits
pub mod Names
pub mod Physical
use Prim.Native.String
use homeserver_rust.Prelude.{
  ℕ, Bool, true, false, not, ◌&&◌, ◌||◌, List, [], ◌∷◌, Option, none, some, String, unwrap_or,
  ◌=s=◌, if◌then◌else◌,
}
use homeserver_rust.Prelude.Entries.{insert_entry}
use homeserver_rust.Text.{split_whitespace, trim, append}
use homeserver_rust.Text.Search.{
  is_empty_text, all_digits, strip_prefix, starts_with, split_once, rsplit_once, split_at_digit,
  lines,
}
use homeserver_rust.Text.Decimal.{parse_u64, parse_unsigned}

pub record DiskIoRaw : Type 0 where
  pub reads_completed : ℕ
  pub sectors_read : ℕ
  pub writes_completed : ℕ
  pub sectors_written : ℕ
  pub io_time_ms : ℕ

abbrev pub is_virtual : String → Bool
is_virtual name = starts_with "loop" name || starts_with "ram" name || starts_with "zram" name

-- `u64_field`, of a field that is there
unfoldable pub u64_field : String → ℕ
unfolding parse_unsigned
u64_field word = unwrap_or (parse_u64 word) 0

-- A row with fewer words gives nothing, and neither does a virtual device.
unfoldable pub diskstats_fields : List String → Option (String × DiskIoRaw)
unfolding u64_field starts_with
diskstats_fields
      (major ∷ minor ∷ name ∷ reads ∷ reads_merged ∷ read_sectors ∷ reading_ms ∷ writes
        ∷ writes_merged ∷ written_sectors ∷ writing_ms ∷ in_progress ∷ io_ms ∷ more) =
    if is_virtual name
    then none
    else some (
      name,
      record {
        reads_completed = u64_field reads;
        sectors_read = u64_field read_sectors;
        writes_completed = u64_field writes;
        sectors_written = u64_field written_sectors;
        io_time_ms = u64_field io_ms;
      },
    )
diskstats_fields _ = none

unfoldable pub diskstats_row : String → Option (String × DiskIoRaw)
unfolding diskstats_fields split_whitespace
diskstats_row line = diskstats_fields (split_whitespace line)

abbrev pub insert_some :
    Option (String × DiskIoRaw) → List (String × DiskIoRaw) → List (String × DiskIoRaw)
insert_some none m = m
insert_some (some (name, raw)) m = insert_entry name raw m

unfoldable pub insert_rows : List String → List (String × DiskIoRaw) → List (String × DiskIoRaw)
unfolding diskstats_row
insert_rows [] m = m
insert_rows (line ∷ rest) m = insert_rows rest (insert_some (diskstats_row line) m)

unfoldable pub parse_diskstats : String → List (String × DiskIoRaw)
unfolding insert_rows lines
parse_diskstats content = insert_rows (lines content) []

-- A number of digits, at least one.
abbrev pub is_number : String → Bool
is_number s = not (is_empty_text s) && all_digits s

unfoldable pub nvme_base : String → String
unfolding rsplit_once
nvme_base name = elim (rsplit_once 0x70 name) [
  | some (left, tail) ↦ if is_number tail then left else name
  | none ↦ name
]

unfoldable pub mmc_base : String → String → String
unfolding split_once append
mmc_base name rest = elim (split_once 0x70 rest) [
  | some (left, right) ↦ if is_number left && is_number right then append "mmcblk" left else name
  | none ↦ name
]

-- One turn of the loop over the prefixes.
unfoldable pub lettered_base : String → String → Option String
unfolding strip_prefix split_at_digit append
lettered_base prefix name = elim (strip_prefix prefix name) [
  | none ↦ none
  | some rest ↦ elim (split_at_digit rest) [
    | none ↦ none
    | some (letters, digits) ↦
        if is_empty_text letters || is_empty_text digits
        then none
        else if all_digits digits
        then some (append prefix letters)
        else none
  ]
]

unfoldable pub first_base : List String → String → String
unfolding lettered_base
first_base [] name = name
first_base (p ∷ prefixes) name = unwrap_or (lettered_base p name) (first_base prefixes name)

-- The name without spaces around it.
unfoldable pub base_of_trimmed : String → String
unfolding nvme_base mmc_base first_base strip_prefix starts_with
base_of_trimmed name =
    if is_empty_text name
    then name
    else if starts_with "nvme" name
    then nvme_base name
    else elim (strip_prefix "mmcblk" name) [
      | some rest ↦ mmc_base name rest
      | none ↦ first_base ("sd" ∷ "vd" ∷ "xvd" ∷ []) name
    ]

unfoldable pub disk_sysfs_base_device_name : String → String
unfolding base_of_trimmed trim
disk_sysfs_base_device_name name = base_of_trimmed (trim name)

-- A text without spaces around it, if it is not empty.
unfoldable pub non_empty : Option String → Option String
unfolding trim
non_empty none = none
non_empty (some s) = let t = trim s in if is_empty_text t then none else some t

module _ (files : String → Option String) where
  unfoldable pub read_diskstats_linux : List (String × DiskIoRaw)
  unfolding parse_diskstats
  read_diskstats_linux = parse_diskstats (unwrap_or (files "/proc/diskstats") "")

  unfoldable pub read_sysfs_model : String → Option String
  unfolding non_empty append
  read_sysfs_model node = non_empty (files (append "/sys/block/" (append node "/device/model")))

  abbrev pub or_base_model : String → Option String → String
  or_base_model n (some model) = model
  or_base_model n none =
      let base = disk_sysfs_base_device_name n in
      let found = unwrap_or (read_sysfs_model base) "" in if base =s= n then "" else found

  unfoldable pub read_disk_model_linux : String → String
  unfolding read_sysfs_model disk_sysfs_base_device_name
  read_disk_model_linux dev_name = let n = trim dev_name in or_base_model n (read_sysfs_model n)
