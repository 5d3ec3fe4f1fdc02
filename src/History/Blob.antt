-- ===== src/History/Blob.antt =====
-- src/history_repo/blob.rs: the version byte in front of a stored payload. Bytes are numbers.
use homeserver_rust.Prelude.{ℕ, ◌≡◌, List, [], ◌∷◌, arith, ◌==◌, if◌then◌else◌}

abbrev pub Bytes : Type 0
Bytes = List ℕ

abbrev pub blob_version_1 : ℕ
blob_version_1 = 1

abbrev pub blob_version_system_dynamic : ℕ
blob_version_system_dynamic = 2

unfoldable pub with_version_prefix : ℕ → Bytes → Bytes
with_version_prefix version payload = version ∷ payload

unfoldable pub blob_payload : Bytes → ℕ → Bytes
blob_payload [] expected_version = []
blob_payload (b ∷ bytes) expected_version = if b == expected_version then bytes else b ∷ bytes

unfoldable pub blob_version : Bytes → ℕ
blob_version [] = 0
blob_version (b ∷ bytes) = b

pub blob_payload-with_version_prefix :
    (version : ℕ) (payload : Bytes)
    → blob_payload (with_version_prefix version payload) version ≡ payload
unfolding blob_payload with_version_prefix
blob_payload-with_version_prefix version payload = ground arith
