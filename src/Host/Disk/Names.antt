-- ===== src/Host/Disk/Names.antt =====
-- The names that Linux gives to disks and partitions, and what src/sysinfo_repo/linux/disk.rs makes of
-- them.
use homeserver_rust.Prelude.{◌≡◌, refl, sym, ap, ◌∙◌, true, not, ◌&&◌, some, String, arith}
use homeserver_rust.Text.{append}
use homeserver_rust.Text.Search.{
  is_empty_text, all_digits, strip_prefix, starts_with, split_once, rsplit_once,
}
use homeserver_rust.Host.Disk.Splits.{
  all_lower, IsNumber, plain, plain-append, plain-digits, plain-lower, trim-plain,
  split_once-number, split_once-append, rsplit_once-number, rsplit_once-append, rsplit_once-none,
  split_at_digit-lower, split_at_digit-append, append-append,
}
use homeserver_rust.Host.Disk.{
  nvme_base, mmc_base, lettered_base, first_base, base_of_trimmed, disk_sysfs_base_device_name,
}

-- SCSI, virtio and Xen disks have letters, the others have numbers.
pub data Disk : Type 0 where
  sd vd xvd : String → Disk
  nvme : String → String → Disk
  mmcblk : String → Disk

abbrev pub disk_name : Disk → String
disk_name (sd letters) = append "sd" letters
disk_name (vd letters) = append "vd" letters
disk_name (xvd letters) = append "xvd" letters
disk_name (nvme controller namespace) = append "nvme" (append controller (append "n" namespace))
disk_name (mmcblk number) = append "mmcblk" number

abbrev pub partition_name : Disk → String → String
partition_name (sd letters) k = append "sd" (append letters k)
partition_name (vd letters) k = append "vd" (append letters k)
partition_name (xvd letters) k = append "xvd" (append letters k)
partition_name (nvme controller namespace) k =
    append "nvme" (append controller (append "n" (append namespace (append "p" k))))
partition_name (mmcblk number) k = append "mmcblk" (append number (append "p" k))

abbrev IsLetters : String → Type 0
IsLetters s = not (is_empty_text s) && all_lower s ≡ true

abbrev pub IsDisk : Disk → Type 0
IsDisk (sd letters) = IsLetters letters
IsDisk (vd letters) = IsLetters letters
IsDisk (xvd letters) = IsLetters letters
IsDisk (nvme controller namespace) = IsNumber controller × IsNumber namespace
IsDisk (mmcblk number) = IsNumber number

nvme-split :
    (c n k : String)
    → all_digits k ≡ true
    → rsplit_once 0x70 (append c (append "n" (append n (append "p" k))))
      ≡ some (append c (append "n" n), k)
unfolding append
nvme-split c n k h =
    ap (rsplit_once 0x70) (sym (append-append c (append "n" n) (append "p" k)))
    ∙ rsplit_once-append (append c (append "n" n)) "p" k (rsplit_once-number k h)

nvme_base-split :
    (s left tail : String)
    → rsplit_once 0x70 s ≡ some (left, tail)
    → IsNumber tail
    → nvme_base (append "nvme" s) ≡ append "nvme" left
unfolding nvme_base rsplit_once append
nvme_base-split s left tail h hk = rw (h, hk) refl

mmc_base-split :
    (name s left right : String)
    → split_once 0x70 s ≡ some (left, right)
    → IsNumber left
    → IsNumber right
    → mmc_base name s ≡ append "mmcblk" left
unfolding mmc_base
mmc_base-split name s left right h hl hr = rw (h, mmc_base) (ground (arith, hl, hr))

base-plain : (s : String) → plain s ≡ true → disk_sysfs_base_device_name s ≡ base_of_trimmed s
unfolding disk_sysfs_base_device_name
base-plain s h = ap base_of_trimmed (trim-plain s h)

letters-plain : (s : String) → IsLetters s → plain s ≡ true
letters-plain s h = plain-lower s (ground (arith, h))

number-plain : (s : String) → IsNumber s → plain s ≡ true
number-plain s h = plain-digits s (ground (arith, h))

partition-plain :
    (d : Disk) (k : String) → IsDisk d → IsNumber k → plain (partition_name d k) ≡ true
unfolding append
partition-plain (sd l) k hd hk = plain-append l k (letters-plain l hd) (number-plain k hk)
partition-plain (vd l) k hd hk = plain-append l k (letters-plain l hd) (number-plain k hk)
partition-plain (xvd l) k hd hk = plain-append l k (letters-plain l hd) (number-plain k hk)
partition-plain (nvme c n) k hd hk =
    plain-append c _ (number-plain c hd.0)
      (plain-append n _ (number-plain n hd.1) (number-plain k hk))
partition-plain (mmcblk n) k hd hk = plain-append n _ (number-plain n hd) (number-plain k hk)

-- A partition of a disk is traced to the disk, for the names that Linux gives: small letters behind
-- `sd`, `vd` or `xvd`, or numbers behind `nvme` and `n`, or a number behind `mmcblk`; and then the
-- partition's number, with a `p` before it for the last two.
pub base-partition_name :
    (d : Disk) (k : String)
    → IsDisk d
    → IsNumber k
    → disk_sysfs_base_device_name (partition_name d k) ≡ disk_name d
unfolding base_of_trimmed append starts_with strip_prefix first_base nvme_base mmc_base
    lettered_base rsplit_once
base-partition_name (sd l) k hd hk =
    base-plain (partition_name (sd l) k) (partition-plain (sd l) k hd hk)
    ∙ rw
        (
          split_at_digit-append l k (ground (arith, hd)) hk,
          base_of_trimmed,
          first_base,
          lettered_base,
        )
        (ground (arith, hd, hk))
base-partition_name (vd l) k hd hk =
    base-plain (partition_name (vd l) k) (partition-plain (vd l) k hd hk)
    ∙ rw
        (
          split_at_digit-append l k (ground (arith, hd)) hk,
          base_of_trimmed,
          first_base,
          lettered_base,
        )
        (ground (arith, hd, hk))
base-partition_name (xvd l) k hd hk =
    base-plain (partition_name (xvd l) k) (partition-plain (xvd l) k hd hk)
    ∙ rw
        (
          split_at_digit-append l k (ground (arith, hd)) hk,
          base_of_trimmed,
          first_base,
          lettered_base,
        )
        (ground (arith, hd, hk))
base-partition_name (nvme c n) k hd hk =
    base-plain (partition_name (nvme c n) k) (partition-plain (nvme c n) k hd hk)
    ∙ nvme_base-split (append c (append "n" (append n (append "p" k)))) _ k
        (nvme-split c n k (ground (arith, hk))) hk
base-partition_name (mmcblk n) k hd hk =
    base-plain (partition_name (mmcblk n) k) (partition-plain (mmcblk n) k hd hk)
    ∙ mmc_base-split (partition_name (mmcblk n) k) (append n (append "p" k)) n k
        (split_once-append n "p" k (split_once-number n (ground (arith, hd)))) hd hk

name-plain : (d : Disk) → IsDisk d → plain (disk_name d) ≡ true
unfolding append
name-plain (sd l) hd = letters-plain l hd
name-plain (vd l) hd = letters-plain l hd
name-plain (xvd l) hd = letters-plain l hd
name-plain (nvme c n) hd = plain-append c _ (number-plain c hd.0) (number-plain n hd.1)
name-plain (mmcblk n) hd = number-plain n hd

-- A whole disk is traced to itself, if its name has small letters behind `sd`, `vd` or `xvd`, numbers
-- behind `nvme` and `n`, or a number behind `mmcblk`.
pub base-disk_name : (d : Disk) → IsDisk d → disk_sysfs_base_device_name (disk_name d) ≡ disk_name d
unfolding base_of_trimmed append starts_with strip_prefix first_base nvme_base mmc_base
    lettered_base rsplit_once
base-disk_name (sd l) hd =
    base-plain (disk_name (sd l)) (name-plain (sd l) hd)
    ∙ rw (split_at_digit-lower l (ground (arith, hd)), base_of_trimmed, first_base, lettered_base)
        refl
base-disk_name (vd l) hd =
    base-plain (disk_name (vd l)) (name-plain (vd l) hd)
    ∙ rw (split_at_digit-lower l (ground (arith, hd)), base_of_trimmed, first_base, lettered_base)
        refl
base-disk_name (xvd l) hd =
    base-plain (disk_name (xvd l)) (name-plain (xvd l) hd)
    ∙ rw (split_at_digit-lower l (ground (arith, hd)), base_of_trimmed, first_base, lettered_base)
        refl
base-disk_name (nvme c n) hd =
    base-plain (disk_name (nvme c n)) (name-plain (nvme c n) hd)
    ∙ rw
        (
          rsplit_once-none c (append "n" n) (ground (arith, hd))
              (rw (rsplit_once-number n (ground (arith, hd)), rsplit_once) refl),
          nvme_base,
          rsplit_once,
        )
        refl
base-disk_name (mmcblk n) hd =
    base-plain (disk_name (mmcblk n)) (name-plain (mmcblk n) hd)
    ∙ rw (split_once-number n (ground (arith, hd)), mmc_base) refl
