-- ===== src/Host/Disk/Physical.antt =====
-- What `parse_diskstats` of src/sysinfo_repo/linux/disk.rs can give.
use homeserver_rust.Prelude.{
  ◌-◌, ◌^◌, ◌<◌, ◌≡◌, false, List, [], ◌∷◌, Option, none, some, String, All, arith, Bool-cases, inl,
  inr, ◌=s=◌, Option-cases,
}
use homeserver_rust.Prelude.Entries.{insert_entry}
use homeserver_rust.Text.{split_whitespace}
use homeserver_rust.Text.Search.{lines, starts_with}
use homeserver_rust.Text.Decimal.{parse_u64, parse_unsigned-le}
use homeserver_rust.Host.Disk.{
  DiskIoRaw, is_virtual, u64_field, diskstats_fields, diskstats_row, insert_some, insert_rows,
  parse_diskstats,
}

-- Not a loop device or a disk in memory, and counters that fit in 64 bits.
abbrev pub IsPhysical : String × DiskIoRaw → Type 0
IsPhysical (name, raw) =
    (starts_with "loop" name ≡ false)
    × (starts_with "ram" name ≡ false)
    × (starts_with "zram" name ≡ false)
    × (raw.reads_completed < 2 ^ 64)
    × (raw.sectors_read < 2 ^ 64)
    × (raw.writes_completed < 2 ^ 64)
    × (raw.sectors_written < 2 ^ 64)
    × (raw.io_time_ms < 2 ^ 64)

not_virtual :
    (name : String)
    → is_virtual name ≡ false
    → (starts_with "loop" name ≡ false)
      × (starts_with "ram" name ≡ false)
      × (starts_with "zram" name ≡ false)
not_virtual name h = (ground arith, ground arith, ground arith)

u64_field-lt : (word : String) → u64_field word < 2 ^ 64
unfolding u64_field
u64_field-lt word = elim (Option-cases (parse_u64 word)) [
  | inl bad ↦ rw bad (omega arith)
  | inr (n, good) ↦ rw good (omega (arith, parse_unsigned-le (2 ^ 64 - 1) word n good))
]

abbrev AllPhysical : Option (String × DiskIoRaw) → Type 0
AllPhysical none = Unit
AllPhysical (some e) = IsPhysical e

diskstats_fields-AllPhysical : (words : List String) → AllPhysical (diskstats_fields words)
unfolding diskstats_fields
diskstats_fields-AllPhysical
      (major ∷ minor ∷ name ∷ reads ∷ rm ∷ rs ∷ rt ∷ writes ∷ wm ∷ ws ∷ wt ∷ now ∷ io ∷ more) =
    elim (Bool-cases (is_virtual name)) [
      | inl virtual ↦ rw virtual tt
      | inr physical ↦ rw physical (
        (not_virtual name physical).0,
        (not_virtual name physical).1,
        (not_virtual name physical).2,
        u64_field-lt reads,
        u64_field-lt rs,
        u64_field-lt writes,
        u64_field-lt ws,
        u64_field-lt io,
      )
    ]
diskstats_fields-AllPhysical _ = tt

insert_entry-All :
    (P : String × DiskIoRaw → Type 0) (k : String) (a : DiskIoRaw) (m : List (String × DiskIoRaw))
    → P (k, a)
    → All P m
    → All P (insert_entry k a m)
unfolding insert_entry
insert_entry-All P k a [] h all = (h, tt)
insert_entry-All P k a ((l, b) ∷ rest) h all = elim (Bool-cases (l =s= k)) [
  | inl same ↦ rw same (h, all.1)
  | inr other ↦ rw other (all.0, insert_entry-All P k a rest h all.1)
]

insert_some-All :
    (row : Option (String × DiskIoRaw)) (m : List (String × DiskIoRaw))
    → AllPhysical row
    → All IsPhysical m
    → All IsPhysical (insert_some row m)
insert_some-All none m h all = all
insert_some-All (some (name, raw)) m h all = insert_entry-All IsPhysical name raw m h all

insert_rows-All :
    (rows : List String) (m : List (String × DiskIoRaw))
    → All IsPhysical m
    → All IsPhysical (insert_rows rows m)
unfolding insert_rows diskstats_row
insert_rows-All [] m all = all
insert_rows-All (line ∷ rest) m all = insert_rows-All rest (insert_some (diskstats_row line) m) (
    insert_some-All (diskstats_row line) m (diskstats_fields-AllPhysical (split_whitespace line))
      all)

-- Whatever the text, each device that is read is no loop device and no disk in memory, and its
-- counters fit in 64 bits.
pub parse_diskstats-IsPhysical : (content : String) → All IsPhysical (parse_diskstats content)
unfolding parse_diskstats
parse_diskstats-IsPhysical content = insert_rows-All (lines content) [] tt
