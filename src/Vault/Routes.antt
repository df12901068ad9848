-- ===== src/Vault/Routes.antt =====
-- vault-service/src/routes.rs: the handlers, and the server that answers requests one after another.
pub mod Issuance
pub mod Trace
use secure_net.Base.{
  ℕ, String, Bool, true, false, Option, none, some, List, [], ◌∷◌, map, text_eq, if◌then◌else◌,
}
use secure_net.Base.Result.{Result, ok, err, ok_or, ◌>>=◌}
use secure_net.Shared.Errors.{AppError, internal, vault_rejected}
use secure_net.Shared.Models.{CertBundle, UnsealRequest, UnsealResponse}
use secure_net.Vault.Verifier.{Reason, verify}
use secure_net.Vault.Issuer
use secure_net.Vault.Log.{record_grant, record_rejection}
use secure_net.Vault.State.{
  Deps, Env, AppState, Vault, fresh_nonce, revoke_cert, revocation_list, issued_count,
}

module _ (d : Deps) where
  abbrev pub Value : Type 0
  Value = d.json.Value

  abbrev pub Response : Type 0
  Response = Result UnsealResponse AppError

  -- GET /vault/nonce
  unfoldable pub nonce : Env → Vault d → Value × Vault d
  unfolding fresh_nonce
  nonce env s =
      let (bytes, app) = fresh_nonce d env s.app in
      (d.json.object (("nonce", d.json.string (d.hex.encode bytes)) ∷ []), record s { app = app })

  abbrev pub log_rejection : Env → UnsealRequest → Reason → Vault d → Vault d
  log_rejection env req reason s = record s {
    file =
        record_rejection d.entry_to_string s.app.log env.log_env req.service_name req.machine_id
          reason s.file;
  }

  abbrev pub log_grant : Env → UnsealRequest → CertBundle → Vault d → Vault d
  log_grant env req bundle s = record s {
    file =
        record_grant d.entry_to_string s.app.log env.log_env req.service_name req.machine_id
          bundle.serial bundle.expires_at s.file;
  }

  -- The attestation check, which may spend a nonce.
  unfoldable pub attest : Env → UnsealRequest → Vault d → Result (Unit {0}) Reason × Vault d
  attest env req s =
      let (verdict, store) =
        verify d.hex d.sha256 req s.app.allowlist s.app.nonce_store env.instant in
      (verdict, record s { app = record s.app { nonce_store = store } })

  -- The issuer's call, which moves the counter.
  unfoldable pub issue : Env → UnsealRequest → Vault d → Result CertBundle String × Vault d
  unfolding Issuer.issue
  issue env req s =
      let (issued, counter) =
        Issuer.issue d.rcgen s.app.issuer s.serial_counter env.issue_env req.service_name in
      (issued, record s { serial_counter = counter })

  unfoldable pub grant :
      Env → UnsealRequest → Result CertBundle String → Vault d → Response × Vault d
  grant env req (err e) s = (err (internal e), s)
  grant env req (ok bundle) s = (ok (record { bundle = bundle }), log_grant env req bundle s)

  unfoldable pub unseal_verified :
      Env → UnsealRequest → Result (Unit {0}) Reason → Vault d → Response × Vault d
  unfolding grant issue
  unseal_verified env req (err e) s = (err (vault_rejected e), log_rejection env req e s)
  unseal_verified env req (ok _) s = let (issued, s') = issue env req s in grant env req issued s'

  -- POST /vault/unseal
  unfoldable pub unseal : Env → UnsealRequest → Vault d → Response × Vault d
  unfolding unseal_verified attest
  unseal env req s = let (verdict, s') = attest env req s in unseal_verified env req verdict s'

  -- A rejected renewal is not logged.
  unfoldable pub renew_verified :
      Env → UnsealRequest → Result (Unit {0}) Reason → Vault d → Response × Vault d
  unfolding grant issue
  renew_verified env req (err e) s = (err (vault_rejected e), s)
  renew_verified env req (ok _) s = let (issued, s') = issue env req s in grant env req issued s'

  -- POST /vault/renew
  unfoldable pub renew : Env → UnsealRequest → Vault d → Response × Vault d
  unfolding renew_verified attest
  renew env req s = let (verdict, s') = attest env req s in renew_verified env req verdict s'

  -- `body.get(key).and_then(|v| v.as_str())`
  abbrev str_field : Value → String → Option String
  str_field body key = elim (d.json.field body key) [ none ↦ none | some v ↦ d.json.as_str v ]

  abbrev or_default : String → Option String → String
  or_default s none = s
  or_default s (some t) = t

  abbrev revoke_serial : Value → Vault d → Result String AppError → Result Value AppError × Vault d
  revoke_serial body s (err e) = (err e, s)
  revoke_serial body s (ok serial) =
      let reason = or_default "no reason given" (str_field body "reason") in
      (
        ok (
            d.json.object
              (("revoked", d.json.string serial) ∷ ("reason", d.json.string reason) ∷ [])),
        record s { app = revoke_cert d serial reason s.app },
      )

  -- POST /vault/revoke
  unfoldable pub revoke : Value → Vault d → Result Value AppError × Vault d
  unfolding revoke_cert
  revoke body s =
      revoke_serial body s (ok_or (internal "missing serial field") (str_field body "serial"))

  -- GET /vault/crl
  unfoldable pub crl : Vault d → Value
  unfolding revocation_list
  crl s =
      d.json.object
        (("revoked_serials", d.json.array (map d.json.string (revocation_list d s.app))) ∷ [])

  -- GET /vault/health
  unfoldable pub health : Vault d → Value
  unfolding issued_count
  health s = d.json.object (
      ("status", d.json.string "ok")
      ∷ ("service", d.json.string "vault-service")
      ∷ ("issued", d.json.number (issued_count d s.app))
      ∷ [])

  pub data Request : Type 0 where
    get_nonce : Request
    post_unseal : UnsealRequest → Request
    post_renew : UnsealRequest → Request
    post_revoke : Value → Request
    get_crl : Request
    get_health : Request

  pub data Reply : Type 0 where
    body : Value → Reply
    certificate : Response → Reply
    revocation : Result Value AppError → Reply

  -- The route table of main.rs.
  unfoldable pub handle : Env → Request → Vault d → Reply × Vault d
  unfolding nonce unseal renew revoke crl health
  handle env get_nonce s = let (v, s') = nonce env s in (body v, s')
  handle env (post_unseal req) s = let (r, s') = unseal env req s in (certificate r, s')
  handle env (post_renew req) s = let (r, s') = renew env req s in (certificate r, s')
  handle env (post_revoke v) s = let (r, s') = revoke v s in (revocation r, s')
  handle env get_crl s = (body (crl s), s)
  handle env get_health s = (body (health s), s)

  -- The replies to a sequence of requests, and the state that they leave.
  unfoldable pub serve : List (Env × Request) → Vault d → List Reply × Vault d
  serve [] s = ([], s)
  serve ((env, req) ∷ rest) s =
      let (reply, s') = handle env req s in
      let (replies, final) = serve rest s' in (reply ∷ replies, final)
