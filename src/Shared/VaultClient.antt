-- ===== src/Shared/VaultClient.antt =====
-- shared/src/vault_client.rs: the client that renews the certificate.
pub mod Laws
use secure_net.Base.{String, ◌<>◌, Bool, Option, some, not, if◌then◌else◌}
use secure_net.Base.Result.{Result, ok, err}
use secure_net.External.Hex.{Hex, Digest}
use secure_net.External.Json.{Json}
use secure_net.External.Reqwest.{HttpResponse, is_success}
use secure_net.Shared.Errors.{AppError, vault_unreachable, vault_rejected}
use secure_net.Shared.Models.{CertBundle, UnsealResponse}
use secure_net.Shared.Attestation.{machine_id}
use secure_net.Shared.Exchange.{Transport, nonce_of, request_for, send, or_empty, or_unknown}

pub record HttpVaultClient : Type 0 where
  pub vault_url : String
  pub service_name : String
  pub bundle : Option CertBundle

abbrev pub new : String → String → CertBundle → HttpVaultClient
new vault_url service_name initial_bundle = record {
  vault_url = vault_url;
  service_name = service_name;
  bundle = some initial_bundle;
}

-- From the vault's answer on.
unfoldable pub adopt :
    HttpVaultClient
    → Result (HttpResponse UnsealResponse) AppError
    → Result CertBundle AppError × HttpVaultClient
adopt client (err e) = (err e, client)
adopt client (ok resp) =
    if not (is_success resp.status)
    then (err (vault_rejected (or_empty resp.text)), client)
    else elim resp.json [
      | err e ↦ (err (vault_unreachable e), client)
      | ok unseal_resp ↦ (ok unseal_resp.bundle, record client { bundle = some unseal_resp.bundle })
    ]

module _ (hex : Hex) (sha256 : Digest) (json : Json) where
  module _ {W : Type 0} (net : Transport json.Value W) where
    unfoldable pub fetch_nonce : HttpVaultClient → W → Result String AppError × W
    unfolding nonce_of
    fetch_nonce client w =
        let (answer, w') = net.get (client.vault_url <> "/vault/nonce") w in
        (nonce_of json "nonce field missing" answer, w')

    -- The two requests. `machine_file` is what reading /etc/machine-id gives.
    unfoldable pub exchange :
        Result String String
        → String
        → HttpVaultClient
        → W
        → Result (HttpResponse UnsealResponse) AppError × W
    unfolding fetch_nonce machine_id request_for send
    exchange machine_file service_name client w =
        let (nonce, w') = fetch_nonce client w in
        let machine = or_unknown (machine_id machine_file) in
        send net (client.vault_url <> "/vault/renew")
          (request_for hex sha256 "" service_name machine nonce) w'

    unfoldable pub renew :
        Result String String
        → String
        → HttpVaultClient
        → W
        → Result CertBundle AppError × HttpVaultClient × W
    unfolding exchange adopt
    renew machine_file service_name client w =
        let (answer, w') = exchange machine_file service_name client w in
        let (result, client') = adopt client answer in (result, client', w')
