-- ===== src/Tests/Setup.antt =====
-- Concrete numbers, serializers and orders for the tests, and a first snapshot.
use mathlib.Core.List.Perm
use mathlib.Core.List.{Perm}
use homeserver_rust.Prelude.{
  ℕ, ◌+◌, ◌*◌, ◌/◌, min, max, ltb, leb, List, [], ◌∷◌, none, All, arith, Bool-cases, inl, inr,
  if◌then◌else◌,
}
use homeserver_rust.Prelude.Int.{ℤ, pos_part, ◌≤ℤ◌, leb_ℤ}
use homeserver_rust.Float.{Float}
use homeserver_rust.Models.{
  SystemInfo, FullSystemSnapshot, cpu_with_usage, ram_with_used, system_default,
}
use homeserver_rust.History.Db.{Env, Ascending, IsOrdering, IsExactEnv}
use homeserver_rust.Tests.Codecs.{
  empty_list, storage_codec, network_codec, system_codec, cpu_codec, ram_codec, info_codec,
  empty_list-IsExact, storage_codec-IsExact, network_codec-IsExact, system_codec-IsExact,
  cpu_codec-IsExact, ram_codec-IsExact, info_codec-IsExact,
}

-- Whole numbers in the place of `f64`.
instance unfoldable pub nat_float : Float ℕ
nat_float = record {
  of_ℕ = λ n. n;
  of_ℤ = pos_part;
  add = ◌+◌;
  mul = ◌*◌;
  div = ◌/◌;
  min = min;
  max = max;
  lt = ltb;
  le = leb;
  infinity = 1_000_000;
  neg_infinity = 0;
  sum_start = 0;
}

module _ {R : Type 0} (key : R → ℤ) where
  insert : R → List R → List R
  insert r [] = r ∷ []
  insert r (s ∷ rest) = if leb_ℤ (key r) (key s) then r ∷ s ∷ rest else s ∷ insert r rest

  unfoldable pub sort : List R → List R
  unfolding insert
  sort [] = []
  sort (r ∷ rest) = insert r (sort rest)

  insert-Perm : (r : R) (rows : List R) → Perm (insert r rows) (r ∷ rows)
  unfolding insert
  insert-Perm r [] = Perm.rfl
  insert-Perm r (s ∷ rest) = elim (Bool-cases (leb_ℤ (key r) (key s))) [
    | inl first ↦ rw first Perm.rfl
    | inr later ↦ rw later (Perm.trans (Perm.cons s (insert-Perm r rest)) (Perm.swap r s rest))
  ]

  pub sort-Perm : (rows : List R) → Perm (sort rows) rows
  unfolding sort
  sort-Perm [] = Perm.rfl
  sort-Perm (r ∷ rest) = Perm.trans (insert-Perm r (sort rest)) (Perm.cons r (sort-Perm rest))

  All-insert :
      (k : ℤ) (r : R) (rows : List R)
      → k ≤ℤ key r
      → All (λ s. k ≤ℤ key s) rows
      → All (λ s. k ≤ℤ key s) (insert r rows)
  unfolding insert
  All-insert k r [] h all = (h, tt)
  All-insert k r (s ∷ rest) h all = ground (arith, All-insert k r rest h all.1)

  All-weaken :
      (j k : ℤ) (rows : List R) → j ≤ℤ k → All (λ s. k ≤ℤ key s) rows → All (λ s. j ≤ℤ key s) rows
  All-weaken j k [] h all = tt
  All-weaken j k (s ∷ rest) h all = (omega (arith, h, all.0), All-weaken j k rest h all.1)

  insert-Ascending : (r : R) (rows : List R) → Ascending key rows → Ascending key (insert r rows)
  unfolding insert
  insert-Ascending r [] h = (tt, tt)
  insert-Ascending r (s ∷ rest) h = elim (Bool-cases (leb_ℤ (key r) (key s))) [
    | inl first ↦ rw first ((ground arith, All-weaken (key r) (key s) rest (ground arith) h.0), h)
    | inr later ↦
        rw later (All-insert (key s) r rest (ground arith) h.0, insert-Ascending r rest h.1)
  ]

  pub sort-Ascending : (rows : List R) → Ascending key (sort rows)
  unfolding sort
  sort-Ascending [] = tt
  sort-Ascending (r ∷ rest) = insert-Ascending r (sort rest) (sort-Ascending rest)

abbrev pub host : SystemInfo
host = record {
  os_family = "";
  os_manufacturer = "";
  os_version = "";
  system_manufacturer = "";
  system_model = "";
  processor_name = "";
}

instance unfoldable pub test_env : Env ℕ
test_env = record {
  containers = empty_list;
  storage = storage_codec;
  network = network_codec;
  system = system_codec;
  system_full = record { serialize = λ _. none; deserialize = λ _. none };
  cpu = cpu_codec;
  ram = ram_codec;
  gpus = empty_list;
  smart = empty_list;
  info = info_codec;
  order_raw = sort (λ r. r.created_at);
  order_agg = sort (λ r. r.created_at);
  hash_order = λ entries. entries;
}

pub test_env-IsOrdering : IsOrdering test_env
unfolding test_env
test_env-IsOrdering = record {
  raw_perm = sort-Perm _;
  agg_perm = sort-Perm _;
  raw_sorted = sort-Ascending _;
  agg_sorted = sort-Ascending _;
}

pub test_env-IsExactEnv : IsExactEnv test_env
unfolding test_env
test_env-IsExactEnv = record {
  containers = empty_list-IsExact;
  storage = storage_codec-IsExact;
  network = network_codec-IsExact;
  system = system_codec-IsExact;
  cpu = cpu_codec-IsExact;
  ram = ram_codec-IsExact;
  gpus = empty_list-IsExact;
  smart = empty_list-IsExact;
  info = info_codec-IsExact;
}

abbrev pub sample : ℕ → ℕ → FullSystemSnapshot ℕ
sample timestamp usage = record {
  timestamp = timestamp;
  cpu = cpu_with_usage usage;
  ram = ram_with_used 8;
  containers = [];
  storage = record { partitions = []; disks = [] };
  network = record { interfaces = [] };
  system = system_default;
  gpus = [];
  smart = [];
}
