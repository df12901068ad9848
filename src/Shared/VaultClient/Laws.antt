-- ===== src/Shared/VaultClient/Laws.antt =====
-- When a renewal succeeds, and what the client then holds.
use secure_net.Base.{String, ◌<>◌, ◌≡◌, ◌↔◌, ◌⊎◌, inl, inr, refl, true, some, arith, Bool-cases}
use secure_net.Base.Result.{Result, ok, err, Result-cases}
use secure_net.External.Hex.{Hex, Digest}
use secure_net.External.Json.{Json}
use secure_net.External.Reqwest.{HttpResponse, is_success}
use secure_net.Shared.Errors.{AppError, vault_rejected}
use secure_net.Shared.Models.{CertBundle, UnsealResponse}
use secure_net.Shared.Attestation.{machine_id}
use secure_net.Shared.Exchange.{Transport, or_empty, or_unknown, nonce_of, request_for}
use secure_net.Shared.Exchange.Laws.{
  IsUnreachable, FailsUnreachable, nonce_of-FailsUnreachable, request_for-FailsUnreachable,
  send-FailsUnreachable,
}
use secure_net.Shared.VaultClient.{HttpVaultClient, adopt, exchange, renew}

module _ (client : HttpVaultClient) where
  adopt_iff :
      (r : Result (HttpResponse UnsealResponse) AppError) (bundle : CertBundle)
      → (((adopt client r).0 ≡ ok bundle) ↔ (
          (answer : HttpResponse UnsealResponse) × (r ≡ ok answer)
          × (is_success answer.status ≡ true)
          × (answer.json ≡ ok (record { bundle = bundle }))))
        × ((adopt client r).0 ≡ ok bundle
            → (adopt client r).1 ≡ record client { bundle = some bundle })
  unfolding adopt
  adopt_iff (err e) bundle = ((λ h. cc, λ h. cc (h.1)), λ h. cc)
  adopt_iff (ok answer) bundle = elim (Result-cases answer.json) [
    | inr (e, bad) ↦ (
      (λ h. absurd (ground arith), λ (answer', same, _, good). absurd (ground arith)),
      λ h. absurd (ground arith),
    )
    | inl (resp, parsed) ↦ (
      (
        λ h. (answer, refl, ground arith, ground arith),
        λ (answer', same, success, good). ground arith,
      ),
      λ h. ground arith,
    )
  ]

  adopt_error :
      (r : Result (HttpResponse UnsealResponse) AppError) (e : AppError)
      → FailsUnreachable r
      → (adopt client r).0 ≡ err e
      → ((adopt client r).1 ≡ client)
        × (((body : String) × (e ≡ vault_rejected body)) ⊎ IsUnreachable e)
  unfolding adopt
  adopt_error (err e') e known h =
      let (text, same) = known e' refl in (refl, inr (text, ground arith))
  adopt_error (ok answer) e known h = elim (Bool-cases (is_success answer.status)) [
    | inr refused ↦ (ground arith, inl (or_empty answer.text, ground arith))
    | inl success ↦ elim (Result-cases answer.json) [
      | inr (text, bad) ↦ (ground arith, inr (text, ground arith))
      | inl (resp, parsed) ↦ absurd (ground arith)
    ]
  ]

module _ (hex : Hex) (sha256 : Digest) (json : Json) where
  module _ {W : Type 0} (net : Transport json.Value W) where
    module _ (machine_file : Result String String) (service_name : String)
        (client : HttpVaultClient) (w : W) where
      -- A renewal succeeds exactly if the vault answers the second request with a success status and
      -- a bundle, and gives that bundle.
      pub renew_iff :
          (bundle : CertBundle)
          → ((renew hex sha256 json net machine_file service_name client w).0 ≡ ok bundle) ↔ (
              (answer : HttpResponse UnsealResponse) × ((exchange hex sha256 json net machine_file
                  service_name client w).0
                ≡ ok answer)
              × (is_success answer.status ≡ true)
              × (answer.json ≡ ok (record { bundle = bundle })))
      unfolding renew
      renew_iff bundle =
          (adopt_iff client (exchange hex sha256 json net machine_file service_name client w).0
            bundle).0

      -- After a successful renewal the client holds the new bundle.
      pub renew_adopts :
          (bundle : CertBundle)
          → (renew hex sha256 json net machine_file service_name client w).0 ≡ ok bundle
          → (renew hex sha256 json net machine_file service_name client w).1
            ≡ record client { bundle = some bundle }
      unfolding renew
      renew_adopts bundle =
          (adopt_iff client (exchange hex sha256 json net machine_file service_name client w).0
            bundle).1

      exchange-FailsUnreachable :
          FailsUnreachable (exchange hex sha256 json net machine_file service_name client w).0
      unfolding exchange
      exchange-FailsUnreachable =
          let (answer, w') = net.get (client.vault_url <> "/vault/nonce") w in
          let missing : String = "nonce field missing" in
          let machine = or_unknown (machine_id machine_file) in
          let nonce = nonce_of json missing answer in
          let nonce_fails = nonce_of-FailsUnreachable json missing answer in
          let request = request_for hex sha256 "" service_name machine nonce in
          let request_fails =
            request_for-FailsUnreachable hex sha256 "" service_name machine nonce nonce_fails in
          send-FailsUnreachable net (client.vault_url <> "/vault/renew") request w' request_fails

      -- A failed renewal leaves the client with the bundle that it had, and says that the vault
      -- refused or could not be reached.
      pub renew_error :
          (e : AppError)
          → (renew hex sha256 json net machine_file service_name client w).0 ≡ err e
          → ((renew hex sha256 json net machine_file service_name client w).1 ≡ client)
            × (((body : String) × (e ≡ vault_rejected body)) ⊎ IsUnreachable e)
      unfolding renew
      renew_error e h =
          adopt_error client (exchange hex sha256 json net machine_file service_name client w).0 e
            exchange-FailsUnreachable h
