-- ===== src/Vault.antt =====
-- The crate `vault-service`: it issues nonces, verifies attestations and signs certificates.
pub mod NonceStore
pub mod Verifier
pub mod Issuer
pub mod Log
pub mod State
pub mod Routes
pub mod Concurrent
pub mod Startup
mod Tests
mod ConcurrentTests
mod StartupTests
