-- ===== src/External.antt =====
-- What the program calls and does not contain: each library is a record of operations, with the
-- documented behaviour that the code relies on as laws.
pub mod Hex
pub mod Json
pub mod Rcgen
pub mod Jsonwebtoken
pub mod Http
pub mod Host
pub mod Otel
pub mod Reqwest
pub mod Rustls
pub mod UuidText
