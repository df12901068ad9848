-- ===== src/Integration/Crowd.antt =====
-- A service boots while the vault answers others.
pub mod Renewal
use secure_net.Base.{
  ◌-◌, ◌<◌, ◌≡◌, ◌≢◌, String, ◌<>◌, true, some, List, [], refl, ap, inr, arith, text_eq, nat_eq,
  list_eq, list_beq_iff, eq_iff, subst, sym,
}
use secure_net.Base.Result.{Result, ok}
use secure_net.Base.HashMap.{IsMap, get}
use secure_net.External.Hex.{IsBytes}
use secure_net.Shared.Errors.{ErrorBody}
use secure_net.Shared.Models.{CertBundle, UnsealRequest}
use secure_net.Shared.Attestation.{machine_id}
use secure_net.Shared.Exchange.{attested_request, or_unknown, Transport}
use secure_net.Shared.Exchange.Laws.{request_for_ok}
use secure_net.Shared.Identity.Laws
use secure_net.Shared.Identity.{ServiceIdentity, serving, exchange, unseal}
use secure_net.Vault.NonceStore.{nonce_lifetime, register}
use secure_net.Vault.NonceStore.Laws.{get-register, register-IsMap}
use secure_net.Vault.Verifier.{contains}
use secure_net.Vault.Verifier.Laws.{IsAttested}
use secure_net.Vault.State.{Deps, Env, Vault}
use secure_net.Vault.Routes
use secure_net.Vault.Routes.{nonce, Request, serve}
use secure_net.Vault.Routes.Issuance.{minted, unseal_iff}
use secure_net.Vault.Routes.Trace.Survival.{AllSpare, serve_keeps, serve_allowlist}
use secure_net.Integration.{loopback, over_http}
use secure_net.Integration.Laws.{offered, request, nonce_of-loopback}

-- The loopback, where the vault answers other requests between the client's two.
unfoldable pub busy :
    (d : Deps)
    → (ErrorBody → String)
    → String
    → List (Env × Request d)
    → Env
    → Env
    → Transport d.json.Value (Vault d)
busy d show base others env env' = record {
  get = λ url v.
      let (reply, v') = (loopback d show base env env').get url v in (reply, (serve d others v').1);
  post = (loopback d show base env env').post;
}

module _ (d : Deps) (show : ErrorBody → String) (base : String) (env env' : Env)
    (others : List (Env × Request d)) (s : Vault d) where
  -- The vault when the client's second request comes.
  abbrev pub crowded : Vault d
  crowded = (serve d others (offered d show base env env' s)).1

  abbrev req : Result String String → String → UnsealRequest
  req machine_file service_name = request d show base env env' s machine_file service_name

  exchange-busy :
      (machine_file : Result String String) (service_name : String)
      → IsBytes env.random
      → exchange d.hex d.sha256 d.json
          (busy d show base others env env')
          machine_file
          base
          service_name
          s
        ≡ (
          ok (over_http d show (Routes.unseal d env' (req machine_file service_name) crowded).0),
          (Routes.unseal d env' (req machine_file service_name) crowded).1,
        )
  unfolding exchange busy loopback nonce
  exchange-busy machine_file service_name bytes = ground (
    arith,
    nonce_of-loopback d show base env env' s "nonce field missing in vault response",
    request_for_ok d.hex d.sha256 "bad nonce hex: " service_name
        (or_unknown (machine_id machine_file)) (d.hex.encode env.random) env.random
        (d.hex.decode-encode env.random bytes),
    eq_iff (base <> "/vault/unseal") (base <> "/vault/unseal"),
    eq_iff (base <> "/vault/nonce") (base <> "/vault/nonce"),
  )

  pub crowded-IsAttested :
      (machine_file : Result String String) (service_name : String)
      → IsMap s.app.nonce_store
      → IsBytes env.random
      → env.random ≢ []
      → env'.instant - env.instant < nonce_lifetime
      → contains s.app.allowlist (or_unknown (machine_id machine_file)) ≡ true
      → AllSpare d env.random env.instant others
      → IsAttested d.hex d.sha256
          (req machine_file service_name)
          crowded.app.allowlist
          crowded.app.nonce_store
          env'.instant
  unfolding nonce attested_request
  crowded-IsAttested machine_file service_name map bytes nonempty in_time allowed spare =
      let decoded = d.hex.decode-encode env.random bytes in
      let stored : get env.random (register s.app.nonce_store env.random env.seen env.instant)
          ≡ some env.instant =
        ground (
          arith,
          get-register s.app.nonce_store env.random env.random env.seen env.instant map,
          list_beq_iff env.random env.random,
        ) in
      let there = offered d show base env env' s in
      let map' = register-IsMap s.app.nonce_store env.random env.seen env.instant map in
      record {
        allowed =
            subst (λ a. contains a (or_unknown (machine_id machine_file)) ≡ true)
              (sym (serve_allowlist d others there)) allowed;
        nonempty = λ empty. nonempty (cc (empty, decoded, d.hex.decode_empty));
        nonce_bytes = env.random;
        decoded = decoded;
        issued_at = env.instant;
        stored = serve_keeps d env.random env.instant others there map' spare stored;
        fresh = in_time;
        quoted = inr refl;
      }

  -- A service on a machine that the vault lists gets its certificate whatever requests of others the
  -- vault answers between the service's two, if no nonce stands twice in the vault's store, the new
  -- nonce is a non-empty string of bytes, the second request comes within 30 s, the others neither use
  -- this nonce nor are handed the same one nor find it expired when they prune, and the issuer does not
  -- fail: the two requests of `unseal` end with the service serving the bundle that the issuer makes.
  pub unseal_succeeds_among :
      (machine_file : Result String String) (id : ServiceIdentity) (bundle : CertBundle)
      → IsMap s.app.nonce_store
      → IsBytes env.random
      → env.random ≢ []
      → env'.instant - env.instant < nonce_lifetime
      → contains s.app.allowlist (or_unknown (machine_id machine_file)) ≡ true
      → AllSpare d env.random env.instant others
      → minted d env' (request d show base env env' s machine_file id.service_name) crowded
        ≡ ok bundle
      → ((unseal d.hex d.sha256 d.json
            (busy d show base others env env')
            machine_file
            base
            id
            s).0.result
          ≡ ok bundle)
        × ((unseal d.hex d.sha256 d.json
              (busy d show base others env env')
              machine_file
              base
              id
              s).0.identity
            ≡ record { state = serving; bundle = some bundle; service_name = id.service_name })
  unfolding over_http
  unseal_succeeds_among machine_file id bundle map bytes nonempty in_time allowed spare made =
      let attested =
        crowded-IsAttested machine_file id.service_name map bytes nonempty in_time allowed spare in
      let granted =
        (unseal_iff d env' (req machine_file id.service_name) crowded bundle).1 (attested, made) in
      let answered = ap (λ r. r.0) (exchange-busy machine_file id.service_name bytes) in
      let net = busy d show base others env env' in
      let iff = Laws.unseal_ok_iff d.hex d.sha256 d.json net machine_file base id s bundle in
      let done = iff.1 (_, answered, rw granted refl, rw granted refl) in
      (done, Laws.unseal_adopts d.hex d.sha256 d.json net machine_file base id s bundle done)

module _ (d : Deps) (show : ErrorBody → String) (base : String) (env env' : Env) (s : Vault d) where
  -- The same with no other requests.
  pub unseal_succeeds :
      (machine_file : Result String String) (id : ServiceIdentity) (bundle : CertBundle)
      → IsMap s.app.nonce_store
      → IsBytes env.random
      → env.random ≢ []
      → env'.instant - env.instant < nonce_lifetime
      → contains s.app.allowlist (or_unknown (machine_id machine_file)) ≡ true
      → minted d env'
          (request d show base env env' s machine_file id.service_name)
          (offered d show base env env' s)
        ≡ ok bundle
      → ((unseal d.hex d.sha256 d.json
            (loopback d show base env env')
            machine_file
            base
            id
            s).0.result
          ≡ ok bundle)
        × ((unseal d.hex d.sha256 d.json
              (loopback d show base env env')
              machine_file
              base
              id
              s).0.identity
            ≡ record { state = serving; bundle = some bundle; service_name = id.service_name })
  unfolding busy serve
  unseal_succeeds machine_file id bundle map bytes nonempty in_time allowed made =
      unseal_succeeds_among d show base env env' [] s machine_file id bundle map bytes nonempty
        in_time allowed tt made
