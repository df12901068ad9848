-- ===== src/Gateway.antt =====
-- The crate `api-gateway`: credentials, tokens and the proxies behind them.
pub mod Jwt
pub mod Middleware
pub mod Proxy
pub mod Startup
mod Tests
