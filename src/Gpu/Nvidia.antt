-- ===== src/Gpu/Nvidia.antt =====
-- src/gpu_repo/nvidia.rs: the cards that NVML knows. What the crate nvml_wrapper answers is a record,
-- `none` for each query that fails.
use homeserver_rust.Prelude.{ℕ, zero, suc, List, [], ◌∷◌, Option, none, some, String, unwrap_or}
use homeserver_rust.Float.{Float}
use homeserver_rust.Models.{GpuStats}

-- A device: its name, its use in percent, its memory used and in all, its temperature, its power in
-- milliwatts and the speed of its fan.
pub record Device : Type 0 where
  pub name : Option String
  pub utilization_rates : Option ℕ
  pub memory_info : Option (ℕ × ℕ)
  pub temperature : Option ℕ
  pub power_usage : Option ℕ
  pub fan_speed : Option ℕ

pub record Nvml : Type 0 where
  pub device_count : Option ℕ
  pub device_by_index : ℕ → Option Device

-- `Option::map`
abbrev map_some : {A B : Type 0} → (A → B) → Option A → Option B
map_some f none = none
map_some f (some a) = some (f a)

module _ {F : Type 0} ⦃f : Float F⦄ where
  unfoldable pub gpu_of_device : ℕ → Device → GpuStats F
  gpu_of_device i dev = record {
    index = i;
    vendor = "nvidia";
    name = unwrap_or dev.name "NVIDIA GPU";
    utilization_percent = unwrap_or (map_some f.of_ℕ dev.utilization_rates) (f.of_ℕ 0);
    memory_used_bytes = unwrap_or (map_some (λ m. m.0) dev.memory_info) 0;
    memory_total_bytes = unwrap_or (map_some (λ m. m.1) dev.memory_info) 0;
    temperature_c = unwrap_or (map_some f.of_ℕ dev.temperature) (f.of_ℕ 0);
    power_watts = map_some (λ mw. f.div (f.of_ℕ mw) (f.of_ℕ 1000)) dev.power_usage;
    fan_percent = map_some f.of_ℕ dev.fan_speed;
  }

  -- A round of the loop; a device that cannot be opened is passed over (`continue`).
  abbrev push_device : ℕ → Option Device → List (GpuStats F) → List (GpuStats F)
  push_device i none gpus = gpus
  push_device i (some dev) gpus = gpu_of_device i dev ∷ gpus

  -- The devices from index `i` on, of which `n` are left.
  unfoldable pub devices_from : (ℕ → Option Device) → ℕ → ℕ → List (GpuStats F)
  unfolding gpu_of_device
  devices_from device_by_index i zero = []
  devices_from device_by_index i (suc n) =
      push_device i (device_by_index i) (devices_from device_by_index (suc i) n)

  unfoldable pub collect : Nvml → List (GpuStats F)
  unfolding devices_from
  collect nvml = elim nvml.device_count [
    | none ↦ []
    | some count ↦ devices_from nvml.device_by_index 0 count
  ]

  -- `if let Some(handle) = &self.nvml`
  abbrev pub nvml_cards : Option Nvml → List (GpuStats F)
  nvml_cards none = []
  nvml_cards (some nvml) = collect nvml
