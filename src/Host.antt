-- ===== src/Host.antt =====
-- src/sysinfo_repo: what is read of the machine. `F` stands for `f64`, and the files under /proc and
-- /sys are a parameter: a path gives a text, or nothing when it cannot be read.
pub mod Disk
pub mod Linux
pub mod Collectors
pub mod Storage
pub mod Network
