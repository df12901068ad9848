-- ===== src/Vault/Routes/Trace/Steps.antt =====
-- What one request does to each part of the state.
use text.Mathlib.TextLemmas.{append-nil}
use secure_net.Base.{
  ℕ, ◌≡◌, ◌⊎◌, inl, inr, refl, sym, String, ◌<>◌, true, Option, none, some, arith, format_016x,
  text_eq, Option-cases,
}
use secure_net.Base.Result.{ok, Result-cases}
use secure_net.Base.HashMap.{get-insert}
use secure_net.Shared.Models.{UnsealRequest}
use secure_net.Vault.Issuer.{next_u64}
use secure_net.Vault.Issuer.Laws.{issue_with-serial}
use secure_net.Vault.Log.Laws.{record_grant_grows, record_rejection_grows}
use secure_net.Vault.State.{Deps, Env, Vault, is_revoked, revoke_cert}
use secure_net.Vault.Routes.{
  Reply, certificate, Request, get_nonce, post_unseal, post_renew, post_revoke, get_crl, get_health,
  str_field, or_default, handle, unseal, renew, revoke,
}
use secure_net.Vault.Routes.Issuance.{verdict, minted}

module _ (d : Deps) where
  -- The serial number of a granted certificate.
  abbrev pub granted : Reply d → Option String
  granted (certificate (ok response)) = some response.bundle.serial
  granted _ = none

  -- A request leaves the counter and is granted nothing, or moves the counter and is granted at
  -- most a certificate with the counter's old value.
  abbrev pub SerialStep : ℕ → ℕ → Option String → Type 0
  SerialStep before after serial =
      ((after ≡ before) × (serial ≡ none))
      ⊎ ((after ≡ next_u64 before) × ((serial ≡ none) ⊎ (serial ≡ some (format_016x before))))

  unseal_serial :
      (env : Env) (req : UnsealRequest) (s : Vault d)
      → SerialStep s.serial_counter
          (unseal d env req s).1.serial_counter
          (granted (certificate (unseal d env req s).0))
  unfolding unseal
  unseal_serial env req s = elim (Result-cases (minted d env req s)) [
    | inr (e, failed) ↦ ground arith
    | inl (bundle, made) ↦
        let known =
          issue_with-serial d.rcgen s.app.issuer s.serial_counter env.issue_env req.service_name
            bundle made in
        ground arith
  ]

  renew_serial :
      (env : Env) (req : UnsealRequest) (s : Vault d)
      → SerialStep s.serial_counter
          (renew d env req s).1.serial_counter
          (granted (certificate (renew d env req s).0))
  unfolding renew
  renew_serial env req s = elim (Result-cases (minted d env req s)) [
    | inr (e, failed) ↦ ground arith
    | inl (bundle, made) ↦
        let known =
          issue_with-serial d.rcgen s.app.issuer s.serial_counter env.issue_env req.service_name
            bundle made in
        ground arith
  ]

  pub handle_serial :
      (env : Env) (req : Request d) (s : Vault d)
      → SerialStep s.serial_counter
          (handle d env req s).1.serial_counter
          (granted (handle d env req s).0)
  unfolding handle
  handle_serial env get_nonce s = inl (refl, refl)
  handle_serial env (post_unseal req) s = unseal_serial env req s
  handle_serial env (post_renew req) s = renew_serial env req s
  handle_serial env (post_revoke v) s = inl (ground arith, refl)
  handle_serial env get_crl s = inl (refl, refl)
  handle_serial env get_health s = inl (refl, refl)

  -- No request changes the count of issued certificates.
  pub handle_issued :
      (env : Env) (req : Request d) (s : Vault d) → (handle d env req s).1.issued ≡ s.issued
  unfolding handle
  handle_issued env get_nonce s = refl
  handle_issued env (post_unseal req) s = ground arith
  handle_issued env (post_renew req) s = ground arith
  handle_issued env (post_revoke v) s = ground arith
  handle_issued env get_crl s = refl
  handle_issued env get_health s = refl

  -- The log file after the request begins with the file before.
  unseal_file :
      (env : Env) (req : UnsealRequest) (s : Vault d)
      → (rest : String) × ((unseal d env req s).1.file ≡ s.file <> rest)
  unfolding unseal
  unseal_file env req s = elim (Result-cases (verdict d env req s)) [
    | inr (reason, refused) ↦
        let (rest, grown) =
          record_rejection_grows d.entry_to_string s.app.log env.log_env req.service_name
            req.machine_id reason s.file in
        (rest, ground arith)
    | inl (u, accepted) ↦ elim (Result-cases (minted d env req s)) [
      | inr (e, failed) ↦ ("", ground (arith, append-nil s.file))
      | inl (bundle, made) ↦
          let (rest, grown) =
            record_grant_grows d.entry_to_string s.app.log env.log_env req.service_name
              req.machine_id bundle.serial bundle.expires_at s.file in
          (rest, ground arith)
    ]
  ]

  renew_file :
      (env : Env) (req : UnsealRequest) (s : Vault d)
      → (rest : String) × ((renew d env req s).1.file ≡ s.file <> rest)
  unfolding renew
  renew_file env req s = elim (Result-cases (verdict d env req s)) [
    | inr (reason, refused) ↦ ("", ground (arith, append-nil s.file))
    | inl (u, accepted) ↦ elim (Result-cases (minted d env req s)) [
      | inr (e, failed) ↦ ("", ground (arith, append-nil s.file))
      | inl (bundle, made) ↦
          let (rest, grown) =
            record_grant_grows d.entry_to_string s.app.log env.log_env req.service_name
              req.machine_id bundle.serial bundle.expires_at s.file in
          (rest, ground arith)
    ]
  ]

  pub handle_file :
      (env : Env) (req : Request d) (s : Vault d)
      → (rest : String) × ((handle d env req s).1.file ≡ s.file <> rest)
  unfolding handle
  handle_file env get_nonce s = ("", sym (append-nil s.file))
  handle_file env (post_unseal req) s = unseal_file env req s
  handle_file env (post_renew req) s = renew_file env req s
  handle_file env (post_revoke v) s = ("", ground (arith, append-nil s.file))
  handle_file env get_crl s = ("", sym (append-nil s.file))
  handle_file env get_health s = ("", sym (append-nil s.file))

  revoke_cases :
      (v : d.json.Value) (s : Vault d)
      → ((revoke d v s).1 ≡ s)
        ⊎ ((k : String) × (reason : String) × ((revoke d v s).1
              ≡ record s { app = revoke_cert d k reason s.app }))
  unfolding revoke
  revoke_cases v s = elim (Option-cases (str_field d v "serial")) [
    | inl missing ↦ inl (ground arith)
    | inr (k, found) ↦
        inr (k, or_default d "no reason given" (str_field d v "reason"), ground arith)
  ]

  revoke_revoked :
      (v : d.json.Value) (s : Vault d) (serial : String)
      → is_revoked d serial s.app ≡ true
      → is_revoked d serial (revoke d v s).1.app ≡ true
  unfolding is_revoked revoke_cert
  revoke_revoked v s serial h = elim (revoke_cases v s) [
    | inl same ↦ rw same h
    | inr (k, reason, added) ↦ rw added (ground (arith, get-insert k serial reason s.revoked))
  ]

  -- A revoked serial number stays revoked.
  pub handle_revoked :
      (env : Env) (req : Request d) (s : Vault d) (serial : String)
      → is_revoked d serial s.app ≡ true
      → is_revoked d serial (handle d env req s).1.app ≡ true
  unfolding handle is_revoked
  handle_revoked env get_nonce s serial h = h
  handle_revoked env (post_unseal req) s serial h = ground arith
  handle_revoked env (post_renew req) s serial h = ground arith
  handle_revoked env (post_revoke v) s serial h = unfold handle in revoke_revoked v s serial h
  handle_revoked env get_crl s serial h = h
  handle_revoked env get_health s serial h = h
