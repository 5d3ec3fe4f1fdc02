-- ===== src/History/Codec/Reads.antt =====
-- A row that is written and read again holds the snapshot that was written
-- (src/history_repo/raw.rs and agg_store.rs).
use homeserver_rust.Prelude.{ℕ, ◌<◌, ◌^◌, ◌≡◌, refl, List, ◌∷◌, some, Option-cases, inl, inr}
use homeserver_rust.Prelude.Int.{to_u64-to_i64}
use homeserver_rust.Float.{Float}
use homeserver_rust.Models.{
  ContainerStats, StorageStats, NetworkStats, SystemStatsDynamic, CpuStats, RamStats, GpuStats,
  SmartHealth, FullSystemSnapshot, AggregatedSnapshot,
}
use homeserver_rust.History.Blob.{
  Bytes, blob_version_1, blob_version_system_dynamic, with_version_prefix, blob_payload,
  blob_version,
}
use homeserver_rust.History.Db.{
  Blobs, Codec, Env, IsExact, IsExactEnv, Db, World, Exec, or_raise, pure, ◌>>=◌,
}
use homeserver_rust.History.Db.Post.{Post, Post-pure}
use homeserver_rust.History.Codec.{
  encode, encode_blobs, decode_or, decode_optional, deserialize_container_data,
  deserialize_storage_data, deserialize_network_data, deserialize_gpu_data, deserialize_smart_data,
  deserialize_cpu_data, deserialize_ram_data, deserialize_system_data, parse_snapshot_row,
  parse_aggregated_row,
}
use homeserver_rust.History.Raw.{raw_row_of}
use homeserver_rust.History.AggStore.{agg_row_of}

-- The blob is the version and a payload that gives the value back.
pub record Gives {A : Type 0} (c : Codec A) (version : ℕ) (a : A) (bytes : Bytes) : Type 0 where
  pub payload : Bytes
  pub shape : bytes ≡ version ∷ payload
  pub reads : c.deserialize payload ≡ some a

module _ {A : Type 0} (c : Codec A) (a : A) where
  Gives-decode_or :
      (bytes : Bytes) (d : A) → Gives c blob_version_1 a bytes → decode_or c bytes d ≡ a
  unfolding decode_or blob_payload
  Gives-decode_or bytes d g = rw (g.shape, g.reads) refl

  Gives-decode_optional :
      (bytes : Bytes) (d : A)
      → Gives c blob_version_1 a bytes
      → decode_optional c (some bytes) d ≡ a
  unfolding decode_optional decode_or blob_payload
  Gives-decode_optional bytes d g = rw (g.shape, g.reads) refl

module _ {F A B : Type 0} (E : Db F → Type 0) (Q : B → Db F → Type 0) (version : ℕ) (c : Codec A)
    (exact : IsExact c) (a : A) (k : Bytes → Exec F B) where
  -- After serializing, the rest runs in the same world on a blob that gives the value back.
  Post-encode :
      (w : World F)
      → E w.db
      → ((bytes : Bytes) → Gives c version a bytes → Post E Q (k bytes w))
      → Post E Q ((encode version c a >>= k) w)
  unfolding encode or_raise pure ◌>>=◌ with_version_prefix
  Post-encode w e q = elim (Option-cases (c.serialize a)) [
    | inl failed ↦ rw failed e
    | inr (payload, done) ↦ rw done (
        q (version ∷ payload)
          (record { payload = payload; shape = refl; reads = exact a payload done }))
  ]

module _ {F : Type 0} ⦃f : Float F⦄ ⦃env : Env F⦄ where
  -- Each of the eight blobs gives its part of the snapshot back.
  pub record Holds (containers : List (ContainerStats F)) (storage : StorageStats F)
      (network : NetworkStats F) (system : SystemStatsDynamic F) (cpu : CpuStats F)
      (ram : RamStats F) (gpus : List (GpuStats F)) (smart : List SmartHealth) (blobs : Blobs)
      : Type 0 where
    pub containers_read : deserialize_container_data blobs.container_data ≡ containers
    pub storage_read : deserialize_storage_data blobs.storage_data ≡ storage
    pub network_read : deserialize_network_data blobs.network_data ≡ network
    pub system_blob : Gives env.system blob_version_system_dynamic system blobs.system_data
    pub cpu_read : (usage : F) → deserialize_cpu_data blobs.cpu_data usage ≡ cpu
    pub ram_read : (used : ℕ) → deserialize_ram_data blobs.ram_data used ≡ ram
    pub gpus_read : deserialize_gpu_data blobs.gpu_data ≡ gpus
    pub smart_read : deserialize_smart_data env blobs.smart_data ≡ smart

  module _ (exact : IsExactEnv env) where
    pub Post-encode_blobs :
        (E : Db F → Type 0) (Q : Blobs → Db F → Type 0) (a : List (ContainerStats F))
        (b : StorageStats F) (c : NetworkStats F) (d : SystemStatsDynamic F) (e : CpuStats F)
        (g : RamStats F) (h : List (GpuStats F)) (i : List SmartHealth) (w : World F)
        → E w.db
        → ((blobs : Blobs) → Holds a b c d e g h i blobs → Q blobs w.db)
        → Post E Q (encode_blobs a b c d e g h i w)
    unfolding encode_blobs deserialize_container_data deserialize_storage_data
        deserialize_network_data deserialize_gpu_data deserialize_smart_data deserialize_cpu_data
        deserialize_ram_data
    Post-encode_blobs E Q a b c d e g h i w here q =
        Post-encode E Q _ _ exact.containers a _ w here λ _ ga.
          Post-encode E Q _ _ exact.storage b _ w here λ _ gb.
            Post-encode E Q _ _ exact.network c _ w here λ _ gc.
              Post-encode E Q _ _ exact.system d _ w here λ _ gd.
                Post-encode E Q _ _ exact.cpu e _ w here λ _ ge.
                  Post-encode E Q _ _ exact.ram g _ w here λ _ gg.
                    Post-encode E Q _ _ exact.gpus h _ w here λ _ gh.
                      Post-encode E Q _ _ exact.smart i _ w here λ _ gi. Post-pure E Q _ w (
                        q _ (record {
                          containers_read = Gives-decode_or _ _ _ _ ga;
                          storage_read = Gives-decode_or _ _ _ _ gb;
                          network_read = Gives-decode_or _ _ _ _ gc;
                          system_blob = gd;
                          cpu_read = λ _. Gives-decode_optional _ _ _ _ ge;
                          ram_read = λ _. Gives-decode_optional _ _ _ _ gg;
                          gpus_read = Gives-decode_optional _ _ _ _ gh;
                          smart_read = Gives-decode_optional _ _ _ _ gi;
                        }))

  module _ (system : SystemStatsDynamic F) (bytes : Bytes)
      (g : Gives env.system blob_version_system_dynamic system bytes) where
    Gives-system : deserialize_system_data bytes ≡ system
    unfolding deserialize_system_data blob_payload blob_version
    Gives-system = rw (g.shape, g.reads) refl

  -- A raw row gives its snapshot back.
  pub parse-raw_row_of :
      (s : FullSystemSnapshot F) (blobs : Blobs)
      → s.timestamp < 2 ^ 64
      → Holds s.containers s.storage s.network s.system s.cpu s.ram s.gpus s.smart blobs
      → parse_snapshot_row (raw_row_of s blobs) ≡ s
  unfolding parse_snapshot_row
  parse-raw_row_of s blobs small h =
      rw
        (
          to_u64-to_i64 s.timestamp small,
          h.containers_read,
          h.storage_read,
          h.network_read,
          Gives-system s.system blobs.system_data h.system_blob,
          h.cpu_read,
          h.ram_read,
          h.gpus_read,
          h.smart_read,
        )
        refl

  -- An aggregated row gives its aggregate back.
  pub parse-agg_row_of :
      (a : AggregatedSnapshot F) (blobs : Blobs)
      → Holds a.containers a.storage a.network a.system a.cpu a.ram a.gpus a.smart blobs
      → parse_aggregated_row (agg_row_of a blobs) ≡ a
  unfolding parse_aggregated_row blob_payload
  parse-agg_row_of a blobs h =
      rw
        (
          h.containers_read, h.storage_read, h.network_read, h.system_blob.shape,
          h.system_blob.reads, h.cpu_read, h.ram_read, h.gpus_read, h.smart_read,
        )
        refl
