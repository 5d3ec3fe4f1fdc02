-- ===== src/History/Codec/Encodes.antt =====
-- Serializing the parts of a row (src/history_repo/raw.rs, agg_store.rs) leaves the database as it is.
use homeserver_rust.Prelude.{ℕ, List}
use homeserver_rust.Models.{
  ContainerStats, StorageStats, NetworkStats, SystemStatsDynamic, CpuStats, RamStats, GpuStats,
  SmartHealth,
}
use homeserver_rust.History.Db.{Codec, Env, serialization, pure, or_raise}
use homeserver_rust.History.Blob.{with_version_prefix}
use homeserver_rust.History.Db.Still.{Still, Still-pure, Still-or_raise, Still-bind}
use homeserver_rust.Float.{Float}
use homeserver_rust.History.Codec.{encode, encode_blobs}

module _ {F A : Type 0} where
  pub Still-encode : (version : ℕ) (c : Codec A) (a : A) → Still {F = F} (encode version c a)
  Still-encode version c a =
      unfold encode in
      Still-bind (λ payload. pure (with_version_prefix version payload)) (λ p. Still-pure _)
        (or_raise serialization (c.serialize a)) (Still-or_raise _ _)

module _ {F : Type 0} ⦃f : Float F⦄ ⦃env : Env F⦄ where
  pub Still-encode_blobs :
      (a : List (ContainerStats F)) (b : StorageStats F) (c : NetworkStats F)
      (d : SystemStatsDynamic F) (e : CpuStats F) (g : RamStats F) (h : List (GpuStats F))
      (i : List SmartHealth)
      → Still (encode_blobs a b c d e g h i)
  unfolding encode_blobs
  Still-encode_blobs a b c d e g h i =
      Still-bind _
        (λ _.
          Still-bind _
            (λ _.
              Still-bind _
                (λ _.
                  Still-bind _
                    (λ _.
                      Still-bind _
                        (λ _.
                          Still-bind _
                            (λ _.
                              Still-bind _
                                (λ _. Still-bind _ (λ _. Still-pure _) _ (Still-encode _ _ i)) _
                                (Still-encode _ _ h))
                            _ (Still-encode _ _ g))
                        _ (Still-encode _ _ e))
                    _ (Still-encode _ _ d))
                _ (Still-encode _ _ c))
            _ (Still-encode _ _ b))
        _ (Still-encode _ _ a)
