-- ===== src/Vault/Routes/Issuance.antt =====
-- When the vault issues a certificate, what it answers otherwise, and what it logs.
use secure_net.Base.{◌≡◌, ◌↔◌, String, ◌<>◌, true, none, arith}
use secure_net.Base.Result.{Result, ok, err}
use secure_net.Shared.Errors.{AppError, internal, vault_rejected}
use secure_net.Shared.Models.{CertBundle, UnsealRequest, UnsealResponse}
use secure_net.Vault.Verifier.{Reason, verify}
use secure_net.Vault.Verifier.Laws.{IsAttested, verify_iff}
use secure_net.Vault.Issuer
use secure_net.Vault.Issuer.{issue_with}
use secure_net.Vault.Log.{record_grant}
use secure_net.Vault.Log.Laws.{IsWorking, append_line}
use secure_net.Vault.State.{Deps, Env, Vault}
use secure_net.Vault.Routes.{unseal, renew}

module _ (d : Deps) (env : Env) (req : UnsealRequest) (s : Vault d) where
  -- The decision of the attestation check and of the issuer on this request.
  abbrev pub verdict : Result (Unit {0}) Reason
  verdict = (verify d.hex d.sha256 req s.app.allowlist s.app.nonce_store env.instant).0

  abbrev pub minted : Result CertBundle String
  minted = issue_with d.rcgen s.app.issuer s.serial_counter env.issue_env req.service_name

  -- The answer, in terms of the two decisions.
  abbrev pub answer :
      Result (Unit {0}) Reason → Result CertBundle String → Result UnsealResponse AppError
  answer (err e) m = err (vault_rejected e)
  answer (ok _) (err e) = err (internal e)
  answer (ok _) (ok bundle) = ok (record { bundle = bundle })

  pub unseal-eq-answer : (unseal d env req s).0 ≡ answer verdict minted
  unfolding unseal
  unseal-eq-answer = ground arith

  pub renew-eq-answer : (renew d env req s).0 ≡ answer verdict minted
  unfolding renew
  renew-eq-answer = ground arith

  -- `renew` gives the reply that `unseal` gives, and leaves the same state but for the log file.
  pub renew-eq-unseal :
      ((renew d env req s).0 ≡ (unseal d env req s).0)
      × ((f : String)
          → record (renew d env req s).1 { file = f } ≡ record (unseal d env req s).1 { file = f })
  unfolding unseal renew
  renew-eq-unseal = (ground arith, λ f. ground arith)

  answer_iff :
      (v : Result (Unit {0}) Reason) (m : Result CertBundle String) (bundle : CertBundle)
      → (answer v m ≡ ok (record { bundle = bundle })) ↔ ((v ≡ ok tt) × (m ≡ ok bundle))
  answer_iff (err e) m bundle = (λ h. cc, λ h. cc (h.0))
  answer_iff (ok _) (err e) bundle = (λ h. cc, λ h. cc (h.1))
  answer_iff (ok _) (ok b) bundle = (λ h. ground arith, λ h. ground arith)

  -- A certificate is granted exactly if the request is attested and the issuer makes the bundle.
  pub unseal_iff :
      (bundle : CertBundle)
      → ((unseal d env req s).0 ≡ ok (record { bundle = bundle })) ↔ (
          IsAttested d.hex d.sha256 req s.app.allowlist s.app.nonce_store env.instant
          × (minted ≡ ok bundle))
  unseal_iff bundle =
      let (to, from) = answer_iff verdict minted bundle in
      let (sound, complete) =
        verify_iff d.hex d.sha256 req s.app.allowlist s.app.nonce_store env.instant in
      (
        λ h. let (accepted, made) = to (rw (← unseal-eq-answer) h) in (sound accepted, made),
        λ h. rw unseal-eq-answer (from (complete h.0, h.1)),
      )

  -- A granted certificate, by either handler, has moved the serial counter and, on a working file
  -- system, left one line with its serial number and expiry.
  pub grant_logged :
      (bundle : CertBundle) (line : String)
      → verdict ≡ ok tt
      → minted ≡ ok bundle
      → IsWorking s.app.log env.log_env.fs
      → d.entry_to_string (record {
        timestamp = env.log_env.timestamp;
        service_name = req.service_name;
        machine_id = req.machine_id;
        cert_serial = bundle.serial;
        expires_at = bundle.expires_at;
        granted = true;
        reason = none;
      })
        ≡ ok line
      → ((unseal d env req s).1.serial_counter ≡ Issuer.next_u64 s.serial_counter)
        × ((unseal d env req s).1.file ≡ s.file <> (line <> "\n"))
        × ((renew d env req s).1.serial_counter ≡ Issuer.next_u64 s.serial_counter)
        × ((renew d env req s).1.file ≡ s.file <> (line <> "\n"))
  unfolding unseal renew record_grant
  grant_logged bundle line accepted made works printed = (
    ground arith,
    ground
        (arith, append_line d.entry_to_string s.app.log env.log_env.fs _ s.file line works printed),
    ground arith,
    ground
        (arith, append_line d.entry_to_string s.app.log env.log_env.fs _ s.file line works printed),
  )
