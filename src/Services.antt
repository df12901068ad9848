-- ===== src/Services.antt =====
-- The backend services, and an order resolved by both of them.
pub mod Users
pub mod Orders
pub mod Resolution
pub mod Accept
pub mod Startup
mod Tests
mod AcceptTests
