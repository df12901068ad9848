-- ===== src/Shared/Identity.antt =====
-- shared/src/identity.rs: the state machine of a service that obtains its first certificate.
pub mod Laws
use secure_net.Base.{
  String, ◌<>◌, Bool, true, false, Option, none, some, List, [], ◌∷◌, not, if◌then◌else◌,
}
use secure_net.Base.Result.{Result, ok, err}
use secure_net.External.Hex.{Hex, Digest}
use secure_net.External.Json.{Json}
use secure_net.External.Reqwest.{HttpResponse, is_success}
use secure_net.Shared.Errors.{AppError, vault_unreachable, vault_rejected}
use secure_net.Shared.Models.{CertBundle, UnsealResponse}
use secure_net.Shared.Attestation.{machine_id}
use secure_net.Shared.Exchange.{Transport, nonce_of, request_for, send, or_empty, or_unknown}

pub data ServiceState : Type 0 where
  locked unsealing serving : ServiceState

pub record ServiceIdentity : Type 0 where
  pub state : ServiceState
  pub bundle : Option CertBundle
  pub service_name : String

abbrev pub new : String → ServiceIdentity
new service_name = record { state = locked; bundle = none; service_name = service_name }

abbrev pub is_serving : ServiceIdentity → Bool
is_serving id = elim id.state [ locked ↦ false | unsealing ↦ false | serving ↦ true ]

-- What an attempt gives: the result, the values that the identity had after each write, which other
-- tasks can read meanwhile, and the last of them.
pub record Attempt : Type 0 where
  pub result : Result CertBundle AppError
  pub seen : List ServiceIdentity
  pub identity : ServiceIdentity

-- From the vault's answer on. The bundle is written before the state.
unfoldable pub conclude : ServiceIdentity → Result (HttpResponse UnsealResponse) AppError → Attempt
conclude id (err e) = record { result = err e; seen = []; identity = id }
conclude id (ok response) =
    if not (is_success response.status)
    then record {
      result = err (vault_rejected (or_empty response.text));
      seen = record id { state = locked } ∷ [];
      identity = record id { state = locked };
    }
    else elim response.json [
      | err e ↦ record { result = err (vault_unreachable e); seen = []; identity = id }
      | ok resp ↦
          let with_bundle = record id { bundle = some resp.bundle } in
          let served = record with_bundle { state = serving } in
          record { result = ok resp.bundle; seen = with_bundle ∷ served ∷ []; identity = served }
    ]

module _ (hex : Hex) (sha256 : Digest) (json : Json) where
  module _ {W : Type 0} (net : Transport json.Value W) where
    unfoldable pub fetch_nonce : String → W → Result String AppError × W
    unfolding nonce_of
    fetch_nonce vault_url w =
        let (answer, w') = net.get (vault_url <> "/vault/nonce") w in
        (nonce_of json "nonce field missing in vault response" answer, w')

    -- The two requests, one after the other. `machine_file` is what reading /etc/machine-id gives.
    unfoldable pub exchange :
        Result String String
        → String
        → String
        → W
        → Result (HttpResponse UnsealResponse) AppError × W
    unfolding fetch_nonce machine_id request_for send
    exchange machine_file vault_url service_name w =
        let machine = or_unknown (machine_id machine_file) in
        let (nonce, w') = fetch_nonce vault_url w in
        send net (vault_url <> "/vault/unseal")
          (request_for hex sha256 "bad nonce hex: " service_name machine nonce) w'

    unfoldable pub unseal : Result String String → String → ServiceIdentity → W → Attempt × W
    unfolding exchange conclude
    unseal machine_file vault_url id w =
        let id' = record id { state = unsealing } in
        let (answer, w') = exchange machine_file vault_url id.service_name w in
        let attempt = conclude id' answer in (record attempt { seen = id' ∷ attempt.seen }, w')
