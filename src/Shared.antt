-- ===== src/Shared.antt =====
-- The crate `shared`: what the services have in common.
pub mod Errors
pub mod Models
pub mod Attestation
pub mod Exchange
pub mod Identity
pub mod VaultClient
pub mod Tls
pub mod Rotation
pub mod Boot
mod Tests
mod RenewalTests
mod ChaosTests
mod TelemetryTests
pub mod Chaos
pub mod Telemetry
pub mod Startup
