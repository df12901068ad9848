-- ===== src/Vault/Routes/Trace.antt =====
-- What holds over every sequence of requests.
mod Steps
pub mod Serials
pub mod Nonces
pub mod Persistence
pub mod Survival
