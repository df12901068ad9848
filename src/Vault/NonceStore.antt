-- ===== src/Vault/NonceStore.antt =====
-- The `NonceStore` of vault-service/src/attestation_verifier.rs.
pub mod Laws
pub mod Refinement
use secure_net.Base.{ℕ, ◌-◌, ◌*◌, Bool, false, none, some, ltb, if◌then◌else◌, [], nat_eq, list_eq}
use secure_net.Base.HashMap.{HashMap, get, insert, remove, retain}
use secure_net.External.Hex.{Bytes}
use secure_net.Shared.Models.{nanos_per_sec}

-- Nanoseconds of the monotonic clock; `elapsed` is 0 for an instant in the future.
abbrev pub Instant : Type 0
Instant = ℕ

abbrev pub nonce_lifetime : ℕ
nonce_lifetime = 30 * nanos_per_sec

abbrev pub is_fresh : Instant → Instant → Bool
is_fresh now issued_at = ltb (now - issued_at) nonce_lifetime

abbrev pub NonceStore : Type 0
NonceStore = HashMap Bytes Instant

abbrev pub new : NonceStore
new = []

-- `seen k` is the clock when `retain` visits the entry of `k`, `now` the clock at the insertion.
unfoldable pub register : NonceStore → Bytes → (Bytes → Instant) → Instant → NonceStore
register map nonce seen now =
    insert nonce now (retain (λ k issued_at. is_fresh (seen k) issued_at) map)

unfoldable pub consume : NonceStore → Bytes → Instant → Bool × NonceStore
consume map nonce now = elim (get nonce map) [
  | some issued_at ↦ (is_fresh now issued_at, remove nonce map)
  | none ↦ (false, map)
]
