-- ===== src/Integration/Crowd/Renewal.antt =====
-- A service renews its certificate while the vault answers others.
use secure_net.Base.{
  strip_prefix, strip_prefix-append, ◌-◌, ◌<◌, ◌≡◌, ◌≢◌, String, ◌<>◌, true, some, List, [], refl,
  ap, ◌∙◌, arith, text_eq, nat_eq, list_eq, eq_iff,
}
use secure_net.Base.Result.{Result, ok}
use secure_net.Base.HashMap.{IsMap}
use secure_net.External.Hex.{IsBytes}
use secure_net.Shared.Errors.{ErrorBody}
use secure_net.Shared.Models.{CertBundle}
use secure_net.Shared.Attestation.{machine_id}
use secure_net.Shared.Exchange.{or_unknown}
use secure_net.Shared.Exchange.Laws.{request_for_ok}
use secure_net.Shared.VaultClient
use secure_net.Shared.VaultClient.{HttpVaultClient}
use secure_net.Shared.VaultClient.Laws.{renew_iff, renew_adopts}
use secure_net.Vault.NonceStore.{nonce_lifetime}
use secure_net.Vault.Verifier.{contains}
use secure_net.Vault.State.{Deps, Env, Vault}
use secure_net.Vault.Routes
use secure_net.Vault.Routes.{nonce, Request, serve}
use secure_net.Vault.Routes.Issuance.{renew-eq-unseal, minted, unseal_iff}
use secure_net.Vault.Routes.Trace.Survival.{AllSpare}
use secure_net.Integration.{loopback, over_http}
use secure_net.Integration.Laws.{offered, request, nonce_of-loopback}
use secure_net.Integration.Crowd.{busy, crowded, crowded-IsAttested}

unseal_is_not_renew : (base : String) → (base <> "/vault/renew") ≢ (base <> "/vault/unseal")
unseal_is_not_renew base same =
    let first = strip_prefix-append base "/vault/unseal" in
    let second = strip_prefix-append base "/vault/renew" in
    cc (ap (strip_prefix base) same, first, second)

module _ (d : Deps) (show : ErrorBody → String) (base : String) (env env' : Env)
    (others : List (Env × Request d)) (s : Vault d) where
  -- The answer to the two requests of `renew`.
  pub renewal-busy :
      (machine_file : Result String String) (service_name : String) (client : HttpVaultClient)
      → client.vault_url ≡ base
      → IsBytes env.random
      → VaultClient.exchange d.hex d.sha256 d.json
          (busy d show base others env env')
          machine_file
          service_name
          client
          s
        ≡ (
          ok (
              over_http d show
                (Routes.renew d env'
                  (request d show base env env' s machine_file service_name)
                  (crowded d show base env env' others s)).0),
          (Routes.renew d env'
              (request d show base env env' s machine_file service_name)
              (crowded d show base env env' others s)).1,
        )
  unfolding VaultClient.exchange busy loopback nonce
  renewal-busy machine_file service_name client here bytes = rw here (
      ground (
        arith,
        nonce_of-loopback d show base env env' s "nonce field missing",
        request_for_ok d.hex d.sha256 "" service_name (or_unknown (machine_id machine_file))
            (d.hex.encode env.random) env.random (d.hex.decode-encode env.random bytes),
        eq_iff (base <> "/vault/nonce") (base <> "/vault/nonce"),
        eq_iff (base <> "/vault/unseal") (base <> "/vault/renew"),
        eq_iff (base <> "/vault/renew") (base <> "/vault/unseal"),
        eq_iff (base <> "/vault/renew") (base <> "/vault/renew"),
        unseal_is_not_renew base,
      ))

  -- A service on a machine that the vault lists renews its certificate, with a client of that vault's
  -- URL, whatever requests of others the vault answers between the client's two, if no nonce stands
  -- twice in the vault's store, the new nonce is a non-empty string of bytes, the second request comes
  -- within 30 s, the others neither use this nonce nor are handed the same one nor find it expired
  -- when they prune, and the issuer does not fail: the two requests of `renew` give the bundle that the
  -- issuer makes, and the client holds it then.
  pub renew_succeeds_among :
      (machine_file : Result String String) (service_name : String) (client : HttpVaultClient)
      (bundle : CertBundle)
      → client.vault_url ≡ base
      → IsMap s.app.nonce_store
      → IsBytes env.random
      → env.random ≢ []
      → env'.instant - env.instant < nonce_lifetime
      → contains s.app.allowlist (or_unknown (machine_id machine_file)) ≡ true
      → AllSpare d env.random env.instant others
      → minted d env'
          (request d show base env env' s machine_file service_name)
          (crowded d show base env env' others s)
        ≡ ok bundle
      → ((VaultClient.renew d.hex d.sha256 d.json
            (busy d show base others env env')
            machine_file
            service_name
            client
            s).0
          ≡ ok bundle)
        × ((VaultClient.renew d.hex d.sha256 d.json
              (busy d show base others env env')
              machine_file
              service_name
              client
              s).1
            ≡ record client { bundle = some bundle })
  unfolding over_http
  renew_succeeds_among machine_file service_name client bundle here map bytes nonempty in_time
        allowed spare made =
      let req = request d show base env env' s machine_file service_name in
      let there = crowded d show base env env' others s in
      let attested =
        crowded-IsAttested d show base env env' others s machine_file service_name map bytes
          nonempty in_time allowed spare in
      let granted = (unseal_iff d env' req there bundle).1 (attested, made) in
      let renewed = (renew-eq-unseal d env' req there).0 ∙ granted in
      let answered = ap (λ r. r.0) (renewal-busy machine_file service_name client here bytes) in
      let net = busy d show base others env env' in
      let iff = renew_iff d.hex d.sha256 d.json net machine_file service_name client s bundle in
      let done = iff.1 (_, answered, rw renewed refl, rw renewed refl) in
      (done, renew_adopts d.hex d.sha256 d.json net machine_file service_name client s bundle done)

module _ (d : Deps) (show : ErrorBody → String) (base : String) (env env' : Env) (s : Vault d) where
  -- The same with no other requests.
  pub renew_succeeds :
      (machine_file : Result String String) (service_name : String) (client : HttpVaultClient)
      (bundle : CertBundle)
      → client.vault_url ≡ base
      → IsMap s.app.nonce_store
      → IsBytes env.random
      → env.random ≢ []
      → env'.instant - env.instant < nonce_lifetime
      → contains s.app.allowlist (or_unknown (machine_id machine_file)) ≡ true
      → minted d env'
          (request d show base env env' s machine_file service_name)
          (offered d show base env env' s)
        ≡ ok bundle
      → ((VaultClient.renew d.hex d.sha256 d.json
            (loopback d show base env env')
            machine_file
            service_name
            client
            s).0
          ≡ ok bundle)
        × ((VaultClient.renew d.hex d.sha256 d.json
              (loopback d show base env env')
              machine_file
              service_name
              client
              s).1
            ≡ record client { bundle = some bundle })
  unfolding busy serve
  renew_succeeds machine_file service_name client bundle here map bytes nonempty in_time allowed
        made =
      renew_succeeds_among d show base env env' [] s machine_file service_name client bundle here
        map bytes nonempty in_time allowed tt made
