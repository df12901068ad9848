-- ===== src/Lib.antt =====
-- SecureNet: services that obtain short-lived certificates from a vault by attesting their machine,
-- renew them before they expire, and talk over mutual TLS behind a gateway that checks tokens.
--
-- The parts. vault-service hands out nonces, verifies attestations and issues certificates. The
-- crate shared is the other side: a service unseals (nonce, quote, POST /vault/unseal), builds its
-- TLS configuration and starts a task that renews the certificate. api-gateway logs users in and
-- proxies their requests to user-service and order-service; order-service asks user-service for the
-- user of an order.
--
-- Which file models what. A file without Laws, Tests or a name of its own below holds definitions;
-- the children named for what they prove hold theorems.
--   Base, Base/*: Booleans, lists, `Result`, `HashMap`, texts, hexadecimal numbers.
--   External/*: the crates hex, sha2, serde_json, rcgen, jsonwebtoken, bcrypt, rsa, http, reqwest,
--     rustls, uuid, opentelemetry and tracing_subscriber, and the machine that a process starts on
--     (External/Host), as records of operations with the laws that the code relies on. They are
--     parameters of all that uses them. Samples/* has instances of them.
--   Shared/Errors, Shared/Models: shared/src/errors.rs (`AppError`, `into_response`) and models.rs.
--   Shared/Attestation: shared/src/attestation.rs (`check_secure_boot`, `machine_id`, `generate_quote`).
--   Shared/Identity: shared/src/identity.rs. `unseal` returns the result, the values that the shared
--     identity had after each write, and the world after the two requests. Shared/Exchange is what
--     it shares with Shared/VaultClient: shared/src/vault_client.rs (`fetch_nonce`, `renew`).
--   Shared/Tls, Shared/Rotation, Shared/Boot: shared/src/tls.rs, rotation.rs (`retry_renew`, one
--     turn `round` and `rotation_loop`), boot.rs (`run`, `run_gateway`). Shared/Rotation/Sleep is the
--     line `(ttl as f64 * 0.9) as u64` in the arithmetic of doubles.
--   Shared/Telemetry: shared/src/telemetry.rs (`init_telemetry`, the header carriers,
--     `inject_context`, `extract_context`) and `trace_middleware` of api-gateway/src/middleware.rs.
--   Shared/Startup: what the `main` functions share. Vault/Startup, Gateway/Startup and
--     Services/Startup: the `main` functions of the four services, up to the point where they serve.
--   Shared/Chaos: shared/src/chaos.rs (`ChaosConfig`, `ChaosLayer`, `ChaosMiddleware`).
--   Vault/NonceStore, Vault/Verifier: vault-service/src/attestation_verifier.rs (`NonceStore`,
--     `Allowlist`, `verify`).
--   Vault/Issuer, Vault/Log, Vault/State: vault-service/src/issuer.rs, log.rs and state.rs.
--   Vault/Routes: vault-service/src/routes.rs and the route table of main.rs. `handle` answers one
--     request, `serve` a sequence of them. Vault/Routes/Trace is about such sequences.
--   Vault/Concurrent: the handlers `unseal` and `renew` of routes.rs as tasks with a stop before each
--     access to what the handlers share. `advance` takes one task to its next stop; `Step` and `Reach`
--     let any task go on at any time, requests come in and the other handlers run in between.
--   Gateway/Jwt, Gateway/Middleware, Gateway/Proxy: api-gateway/src/jwt.rs, middleware.rs, main.rs.
--     `handle` takes and gives back the world that requests to other services change.
--   Services/Users, Services/Orders: user-service/src/main.rs and order-service/src/main.rs;
--     Services/Resolution puts the one behind the other.
--   Services/Accept: `serve_mtls`, which api-gateway, user-service and order-service have in common.
--     `step` takes an event of the loop (a stream, the lock of the configuration) or one of the two
--     writes of the rotation task, `run` a list of them, and `Merge` says which lists are orders of
--     the two tasks. `connection_task` is the body of the spawned task.
--   Integration: the clients of shared against the handlers of the vault, over a network that loses
--     nothing (`loopback`), which stands for no code of the repository. Integration/Chain puts
--     order-service and user-service behind the gateway in the same way, Integration/System takes the
--     three as they start, Integration/Crowd lets the vault answer others between a client's two
--     requests, and Integration/Renewing lets the rotation task renew from that vault for ever.
--
-- State. A handler takes the state and returns it with its reply. The vault's process is the record
-- `Vault`: the shared `AppState`, the static serial counter of issuer.rs and the content of the log
-- file. The handlers lock what they touch for one access each, and a nonce is looked up and removed
-- under one lock. Sequences of requests are whole handlers in some order; Vault/Concurrent has the
-- orders in which the accesses interleave. What a request reads from its surroundings (clocks, random
-- bytes, failures of the file system) is an argument.
--
-- Numbers. Instants and dates are nanoseconds as natural numbers. `elapsed` and `ttl_secs` stop at 0
-- as the subtraction here does. The serial counter wraps at 2^64. A UUID is its 128-bit value.
--
-- Loops. All recursion is on the structure of a list, a text or a run, but for three cases. `attempts` of
-- Shared/Rotation counts the attempts that are left, as the range of the `for` does. `rotation_loop`
-- never returns, and its model gives the state after any number of turns. `spacing` of
-- Shared/Rotation/Sleep doubles at most 75 times, enough for the 128 bits of the product.
--
-- Not modelled: logging, what tokio, rustls, axum and hyper do between an accepted stream and the
-- call of a handler, `Allowlist::from_toml`, which is a call of the toml crate, `shutdown_telemetry`,
-- which flushes spans, and the shell and build files.
pub mod Base
pub mod External
pub mod Shared
pub mod Vault
pub mod Gateway
pub mod Integration
pub mod Services
mod Samples
