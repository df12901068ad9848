-- ===== src/Integration/CrowdTests.antt =====
-- A service that boots while another one asks for a nonce and is refused.
use secure_net.Base.{
  ◌≡◌, refl, some, List, [], ◌∷◌, arith, text_eq, nat_eq, list_eq, trim, format_016x,
}
use secure_net.Base.Result.{ok}
use secure_net.Base.HashMap.{get, insert, remove, retain}
use secure_net.Shared.Models.{UnsealRequest}
use secure_net.Shared.Attestation.{machine_id}
use secure_net.Shared.Exchange.{attested_request}
use secure_net.Shared.Identity.{serving, unseal}
use secure_net.Samples.SampleHex.{sample_hex, sample_digest, encode, decode}
use secure_net.Samples.SampleJson.{sample_json, field}
use secure_net.Vault.NonceStore.{register, consume}
use secure_net.Vault.Verifier.{contains, verify}
use secure_net.Vault.Issuer
use secure_net.Vault.State.{Env}
use secure_net.Vault.Routes.{Request, get_nonce, post_unseal, get_health, nonce, serve, handle}
use secure_net.Vault.Routes.Issuance.{minted}
use secure_net.Vault.Routes.Trace.Survival.{AllSpare}
use secure_net.Integration.Laws.{request}
use secure_net.Integration.Crowd.{busy, crowded, unseal_succeeds_among}
use secure_net.Integration.Crowd.Renewal.{renew_succeeds_among}
use secure_net.Shared.VaultClient
use secure_net.Shared.VaultClient.{HttpVaultClient}
use secure_net.Integration.Tests.{libraries, vault, at, show, fresh, bundle, listed}

program : Unit {0}
unfolding get insert remove retain register consume contains verify nonce serve handle machine_id
    trim attested_request Issuer.issue_with format_016x encode decode field
program = tt

abbrev stranger : UnsealRequest
stranger = record {
  service_name = "x";
  machine_id = "m9";
  tpm_quote = "";
  nonce = "0305";
  ak_pub = "";
}

abbrev others : List (Env × Request libraries)
others =
    (record (at 1) { random = 3 ∷ 5 ∷ [] }, get_nonce)
    ∷ (at 2, post_unseal stranger)
    ∷ (at 2, get_health)
    ∷ []

spare : AllSpare libraries (1 ∷ 2 ∷ []) (at 1).instant others
unfolding program
spare = ((refl, refl), (refl, (tt, tt)))

made :
    minted libraries
      (at 2)
      (request libraries show "v" (at 1) (at 2) vault (ok "m1\n") "user-service")
      (crowded libraries show "v" (at 1) (at 2) others vault)
    ≡ ok bundle
unfolding program
made = refl

unseal_succeeds_among_example :
    ((unseal sample_hex sample_digest sample_json
        (busy libraries show "v" others (at 1) (at 2))
        (ok "m1\n")
        "v"
        fresh
        vault).0.result
      ≡ ok bundle)
    × ((unseal sample_hex sample_digest sample_json
          (busy libraries show "v" others (at 1) (at 2))
          (ok "m1\n")
          "v"
          fresh
          vault).0.identity
        ≡ record { state = serving; bundle = some bundle; service_name = "user-service" })
unseal_succeeds_among_example =
    unseal_succeeds_among libraries show "v" (at 1) (at 2) others vault (ok "m1\n") fresh bundle tt
      (omega arith, (omega arith, tt)) (λ h. cc) (omega arith) listed spare made

abbrev client : HttpVaultClient
client = VaultClient.new "v" "user-service" bundle

renew_succeeds_among_example :
    ((VaultClient.renew sample_hex sample_digest sample_json
        (busy libraries show "v" others (at 1) (at 2))
        (ok "m1\n")
        "user-service"
        client
        vault).0
      ≡ ok bundle)
    × ((VaultClient.renew sample_hex sample_digest sample_json
          (busy libraries show "v" others (at 1) (at 2))
          (ok "m1\n")
          "user-service"
          client
          vault).1
        ≡ record client { bundle = some bundle })
renew_succeeds_among_example =
    renew_succeeds_among libraries show "v" (at 1) (at 2) others vault (ok "m1\n") "user-service"
      client bundle refl tt (omega arith, (omega arith, tt)) (λ h. cc) (omega arith) listed spare
      made
