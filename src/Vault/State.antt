-- ===== src/Vault/State.antt =====
-- vault-service/src/state.rs: the state that the handlers share, with the static serial counter of
-- issuer.rs and the content of the log file.
use secure_net.Base.{ℕ, String, Bool, List, [], text_eq}
use secure_net.Base.HashMap.{HashMap, contains_key, insert, keys}
use secure_net.External.Hex.{Hex, Bytes, Digest}
use secure_net.External.Json.{Json}
use secure_net.External.Rcgen.{Rcgen}
use secure_net.Vault.NonceStore
use secure_net.Vault.NonceStore.{NonceStore, Instant}
use secure_net.Vault.Verifier.{Allowlist}
use secure_net.Vault.Issuer.{Issuer, IssueEnv, next_u64}
use secure_net.Vault.Log.{IssuanceLog, LogEnv, EntryToString}

-- The libraries that the vault is built on.
pub record Deps : Type 1 where
  pub hex : Hex
  pub sha256 : Digest
  pub json : Json
  pub rcgen : Rcgen
  pub entry_to_string : EntryToString

-- What one request reads from its surroundings. `seen` and `instant` are the monotonic clock, as in
-- `NonceStore`; `random` is what `fill_bytes` gives.
pub record Env : Type 0 where
  pub random : Bytes
  pub seen : Bytes → Instant
  pub instant : Instant
  pub issue_env : IssueEnv
  pub log_env : LogEnv

module _ (d : Deps) where
  pub record AppState : Type 0 where
    pub issuer : Issuer d.rcgen
    pub log : IssuanceLog
    pub allowlist : Allowlist
    pub nonce_store : NonceStore
    pub revoked : HashMap String String
    pub issued : ℕ

  -- The process: the shared state, `SERIAL_COUNTER` and the log file.
  pub record Vault : Type 0 where
    pub app : AppState
    pub open app use *
    pub serial_counter : ℕ
    pub file : String

  unfoldable pub new : Issuer d.rcgen → IssuanceLog → Allowlist → AppState
  new issuer log allowlist = record {
    issuer = issuer;
    log = log;
    allowlist = allowlist;
    nonce_store = NonceStore.new;
    revoked = [];
    issued = 0;
  }

  unfoldable pub fresh_nonce : Env → AppState → Bytes × AppState
  fresh_nonce env s = (
    env.random,
    record s { nonce_store = NonceStore.register s.nonce_store env.random env.seen env.instant },
  )

  unfoldable pub revoke_cert : String → String → AppState → AppState
  revoke_cert serial reason s = record s { revoked = insert serial reason s.revoked }

  unfoldable pub revocation_list : AppState → List String
  revocation_list s = keys s.revoked

  unfoldable pub is_revoked : String → AppState → Bool
  unfolding contains_key
  is_revoked serial s = contains_key serial s.revoked

  unfoldable pub increment_issued : AppState → ℕ × AppState
  increment_issued s = (s.issued, record s { issued = next_u64 s.issued })

  unfoldable pub issued_count : AppState → ℕ
  issued_count s = s.issued
