-- ===== src/Vault/Log.antt =====
-- vault-service/src/log.rs: the issuance log.
pub mod Laws
use secure_net.Base.{String, ◌<>◌, true, false, Option, none, some}
use secure_net.Base.Result.{Result, ok, err}
use secure_net.Shared.Models.{IssuanceLogEntry, DateTime}

-- What the file system answers during one append: the parent of a path, `create_dir_all`, the open
-- in append mode, and `write_all`, whose failure leaves a part of the line written.
pub record Fs : Type 0 where
  pub parent : String → Option String
  pub create_dir_all : String → Result (Unit {0}) String
  pub open_append : String → Result (Unit {0}) String
  pub write_all : String → Result (Unit {0}) String

-- The readings of `Utc::now()`, and the file system.
pub record LogEnv : Type 0 where
  pub timestamp : DateTime
  pub unused_expiry : DateTime
  pub fs : Fs

pub record IssuanceLog : Type 0 where
  pub path : String

-- `serde_json::to_string` of an entry.
abbrev pub EntryToString : Type 0
EntryToString = IssuanceLogEntry → Result String String

module _ (to_string : EntryToString) where
  -- A failed write leaves what was written before the failure.
  abbrev written : Result (Unit {0}) String → String → String
  written (ok _) line = line
  written (err partial) line = partial

  write_line : Fs → String → String → String → String
  write_line fs path line file = elim (fs.open_append path) [
    | ok _ ↦ file <> written (fs.write_all line) line
    | err _ ↦ file
  ]

  ensure_dir : Fs → Option String → Result (Unit {0}) String
  ensure_dir fs none = ok tt
  ensure_dir fs (some parent) = fs.create_dir_all parent

  -- `file` is the content of the file at the log's path.
  unfoldable pub append : IssuanceLog → Fs → IssuanceLogEntry → String → String
  unfolding write_line ensure_dir
  append log fs entry file = elim (to_string entry) [
    | err _ ↦ file
    | ok s ↦ elim (ensure_dir fs (fs.parent log.path)) [
      | err _ ↦ file
      | ok _ ↦ write_line fs log.path (s <> "\n") file
    ]
  ]

  unfoldable pub record_grant :
      IssuanceLog
      → LogEnv
      → (service_name machine_id cert_serial : String) → DateTime
      → String
      → String
  record_grant log env service_name machine_id cert_serial expires_at = append log env.fs (record {
    timestamp = env.timestamp;
    service_name = service_name;
    machine_id = machine_id;
    cert_serial = cert_serial;
    expires_at = expires_at;
    granted = true;
    reason = none;
  })

  unfoldable pub record_rejection :
      IssuanceLog → LogEnv → (service_name machine_id reason : String) → String → String
  record_rejection log env service_name machine_id reason = append log env.fs (record {
    timestamp = env.timestamp;
    service_name = service_name;
    machine_id = machine_id;
    cert_serial = "";
    expires_at = env.unused_expiry;
    granted = false;
    reason = some reason;
  })
