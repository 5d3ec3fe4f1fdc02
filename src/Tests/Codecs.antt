-- ===== src/Tests/Codecs.antt =====
-- Serializers for the tests. They refuse lists and texts that are not empty.
use homeserver_rust.Prelude.{ℕ, ◌≡◌, refl, String, List, [], ◌∷◌, Option, none, some, arith}
use homeserver_rust.Models.{
  CpuStats, RamStats, SystemInfo, SystemStatsDynamic, StorageStats, NetworkStats,
}
use homeserver_rust.History.Blob.{Bytes}
use homeserver_rust.History.Db.{Codec, IsExact}

-- `some` of the second list if the first is empty.
abbrev if_empty : {A : Type 0} → List A → Option Bytes → Option Bytes
if_empty [] bytes = bytes
if_empty (x ∷ xs) bytes = none

abbrev if_blank : String → Option Bytes → Option Bytes
if_blank String.[] bytes = bytes
if_blank (String.◌∷◌ c s) bytes = none

abbrev pub empty_list : {A : Type 0} → Codec (List A)
empty_list = record { serialize = λ xs. if_empty xs (some []); deserialize = λ _. some [] }

pub empty_list-IsExact : {A : Type 0} → IsExact (empty_list {A = A})
empty_list-IsExact [] bs h = refl
empty_list-IsExact (x ∷ xs) bs h = cc

abbrev pub storage_codec : Codec (StorageStats ℕ)
storage_codec = record {
  serialize = λ s. if_empty s.partitions (if_empty s.disks (some []));
  deserialize = λ _. some (record { partitions = []; disks = [] });
}

abbrev pub network_codec : Codec (NetworkStats ℕ)
network_codec = record {
  serialize = λ n. if_empty n.interfaces (some []);
  deserialize = λ _. some (record { interfaces = [] });
}

abbrev pub info_codec : Codec SystemInfo
info_codec = record {
  serialize = λ i. if_blank i.os_family (
      if_blank i.os_manufacturer (
        if_blank i.os_version (
          if_blank i.system_manufacturer
            (if_blank i.system_model (if_blank i.processor_name (some []))))));
  deserialize = λ _. some (record {
    os_family = "";
    os_manufacturer = "";
    os_version = "";
    system_manufacturer = "";
    system_model = "";
    processor_name = "";
  });
}

abbrev read_cpu : Bytes → Option (CpuStats ℕ)
read_cpu (p ∷ l ∷ u ∷ t ∷ []) = some (record {
  model = "";
  physical_cores = p;
  logical_cores = l;
  usage_percent = u;
  temperature = t;
  core_usages = [];
})
read_cpu bytes = none

abbrev pub cpu_codec : Codec (CpuStats ℕ)
cpu_codec = record {
  serialize = λ c. if_blank c.model (
      if_empty c.core_usages
        (some (c.physical_cores ∷ c.logical_cores ∷ c.usage_percent ∷ c.temperature ∷ [])));
  deserialize = read_cpu;
}

abbrev read_ram : Bytes → Option (RamStats ℕ)
read_ram (a ∷ b ∷ c ∷ d ∷ e ∷ g ∷ h ∷ []) = some (record {
  total = a;
  used = b;
  available = c;
  usage_percent = d;
  swap_total = e;
  swap_used = g;
  swap_free = h;
})
read_ram bytes = none

abbrev pub ram_codec : Codec (RamStats ℕ)
ram_codec = record {
  serialize = λ r. some (
      r.total ∷ r.used ∷ r.available ∷ r.usage_percent ∷ r.swap_total ∷ r.swap_used ∷ r.swap_free
      ∷ []);
  deserialize = read_ram;
}

abbrev read_system : Bytes → Option (SystemStatsDynamic ℕ)
read_system (a ∷ b ∷ c ∷ d ∷ e ∷ g ∷ []) = some (record {
  uptime_secs = a;
  process_count = b;
  thread_count = c;
  load_avg_1 = d;
  load_avg_5 = e;
  load_avg_15 = g;
})
read_system bytes = none

abbrev pub system_codec : Codec (SystemStatsDynamic ℕ)
system_codec = record {
  serialize = λ s. some (
      s.uptime_secs ∷ s.process_count ∷ s.thread_count ∷ s.load_avg_1 ∷ s.load_avg_5 ∷ s.load_avg_15
      ∷ []);
  deserialize = read_system;
}

pub storage_codec-IsExact : IsExact storage_codec
storage_codec-IsExact x bs h = ground arith

pub network_codec-IsExact : IsExact network_codec
network_codec-IsExact x bs h = ground arith

if_blank-some :
    (s : String) (o : Option Bytes) (bs : Bytes)
    → if_blank s o ≡ some bs
    → (s ≡ String.[]) × (o ≡ some bs)
if_blank-some String.[] o bs h = (refl, h)
if_blank-some (String.◌∷◌ c s) o bs h = cc

pub info_codec-IsExact : IsExact info_codec
info_codec-IsExact x bs h =
    let (a, h1) = if_blank-some x.os_family _ bs h in
    let (b, h2) = if_blank-some x.os_manufacturer _ bs h1 in
    let (c, h3) = if_blank-some x.os_version _ bs h2 in
    let (d, h4) = if_blank-some x.system_manufacturer _ bs h3 in
    let (e, h5) = if_blank-some x.system_model _ bs h4 in
    let (g, h6) = if_blank-some x.processor_name (some []) bs h5 in rw (a, b, c, d, e, g) refl

pub cpu_codec-IsExact : IsExact cpu_codec
cpu_codec-IsExact x bs h =
    let (blank, rest) =
      if_blank-some x.model
        (if_empty x.core_usages
          (some (x.physical_cores ∷ x.logical_cores ∷ x.usage_percent ∷ x.temperature ∷ [])))
        bs h in
    ground (arith, blank, rest)

pub ram_codec-IsExact : IsExact ram_codec
ram_codec-IsExact x bs h = ground arith

pub system_codec-IsExact : IsExact system_codec
system_codec-IsExact x bs h = ground arith
