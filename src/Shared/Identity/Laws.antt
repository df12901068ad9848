-- ===== src/Shared/Identity/Laws.antt =====
-- When a service comes to serve, and what other tasks can see on the way.
use secure_net.Base.{
  String, ◌<>◌, ◌≡◌, ◌↔◌, ◌⊎◌, inl, inr, refl, true, some, All, arith, Bool-cases,
}
use secure_net.Base.Result.{Result, ok, err, Result-cases}
use secure_net.External.Hex.{Hex, Digest}
use secure_net.External.Json.{Json}
use secure_net.External.Reqwest.{HttpResponse, is_success}
use secure_net.Shared.Errors.{AppError, vault_unreachable, vault_rejected}
use secure_net.Shared.Models.{CertBundle, UnsealResponse}
use secure_net.Shared.Exchange.{Transport, or_empty, or_unknown, nonce_of, request_for}
use secure_net.Shared.Exchange.Laws.{
  FailsUnreachable, nonce_of-FailsUnreachable, request_for-FailsUnreachable, send-FailsUnreachable,
}
use secure_net.Shared.Attestation.{machine_id}
use secure_net.Shared.Identity.{
  ServiceIdentity, serving, locked, unsealing, conclude, exchange, unseal,
}

-- A serving identity has a certificate.
abbrev pub IsSound : ServiceIdentity → Type 0
IsSound id = id.state ≡ serving → (b : CertBundle) × (id.bundle ≡ some b)

module _ (id : ServiceIdentity) where
  conclude_iff :
      (r : Result (HttpResponse UnsealResponse) AppError) (bundle : CertBundle)
      → (((conclude id r).result ≡ ok bundle) ↔ (
          (answer : HttpResponse UnsealResponse) × (r ≡ ok answer)
          × (is_success answer.status ≡ true)
          × (answer.json ≡ ok (record { bundle = bundle }))))
        × ((conclude id r).result ≡ ok bundle
            → (conclude id r).identity
              ≡ record { state = serving; bundle = some bundle; service_name = id.service_name })
  unfolding conclude
  conclude_iff (err e) bundle = ((λ h. cc, λ h. cc (h.1)), λ h. cc)
  conclude_iff (ok answer) bundle = elim (Result-cases answer.json) [
    | inr (e, bad) ↦ (
      (λ h. absurd (ground arith), λ (answer', same, _, good). absurd (ground arith)),
      λ h. absurd (ground arith),
    )
    | inl (resp, parsed) ↦ (
      (
        λ h. (answer, refl, ground arith, ground arith),
        λ (answer', same, success, good). ground arith,
      ),
      λ h. ground arith,
    )
  ]

  conclude_error :
      (r : Result (HttpResponse UnsealResponse) AppError) (e : AppError)
      → FailsUnreachable r
      → (conclude id r).result ≡ err e
      → ((conclude id r).identity.bundle ≡ id.bundle)
        × (((body : String) × (e ≡ vault_rejected body) × ((conclude id r).identity.state ≡ locked))
            ⊎ ((text : String) × (e ≡ vault_unreachable text)
                × ((conclude id r).identity.state ≡ id.state)))
  unfolding conclude
  conclude_error (err e') e known h =
      let (text, same) = known e' refl in (refl, inr (text, ground arith, refl))
  conclude_error (ok answer) e known h = elim (Bool-cases (is_success answer.status)) [
    | inr refused ↦ (ground arith, inl (or_empty answer.text, ground arith, ground arith))
    | inl success ↦ elim (Result-cases answer.json) [
      | inr (text, bad) ↦ (ground arith, inr (text, ground arith, ground arith))
      | inl (resp, parsed) ↦ absurd (ground arith)
    ]
  ]

  conclude-IsSound :
      (r : Result (HttpResponse UnsealResponse) AppError)
      → IsSound id
      → All IsSound (conclude id r).seen
  unfolding conclude
  conclude-IsSound (err e) h = tt
  conclude-IsSound (ok answer) h = elim (Bool-cases (is_success answer.status)) [
    | inr refused ↦ rw refused ((λ s. cc), tt)
    | inl success ↦ elim (Result-cases answer.json) [
      | inr (e, bad) ↦ rw (success, bad) tt
      | inl (resp, parsed) ↦
          rw (success, parsed) ((λ s. (resp.bundle, refl)), ((λ s. (resp.bundle, refl)), tt))
    ]
  ]

module _ (hex : Hex) (sha256 : Digest) (json : Json) where
  module _ {W : Type 0} (net : Transport json.Value W) where
    module _ (machine_file : Result String String) (vault_url : String) (id : ServiceIdentity)
        (w : W) where
      -- An attempt succeeds exactly if the vault answers the second request with a success status
      -- and a bundle, and gives that bundle.
      pub unseal_ok_iff :
          (bundle : CertBundle)
          → ((unseal hex sha256 json net machine_file vault_url id w).0.result ≡ ok bundle) ↔ (
              (answer : HttpResponse UnsealResponse) × ((exchange hex sha256 json net machine_file
                  vault_url id.service_name w).0
                ≡ ok answer)
              × (is_success answer.status ≡ true)
              × (answer.json ≡ ok (record { bundle = bundle })))
      unfolding unseal
      unseal_ok_iff bundle =
          (conclude_iff (record id { state = unsealing })
            (exchange hex sha256 json net machine_file vault_url id.service_name w).0 bundle).0

      -- After a successful attempt the service serves with the bundle that it got, under its name.
      pub unseal_adopts :
          (bundle : CertBundle)
          → (unseal hex sha256 json net machine_file vault_url id w).0.result ≡ ok bundle
          → (unseal hex sha256 json net machine_file vault_url id w).0.identity
            ≡ record { state = serving; bundle = some bundle; service_name = id.service_name }
      unfolding unseal
      unseal_adopts bundle =
          (conclude_iff (record id { state = unsealing })
            (exchange hex sha256 json net machine_file vault_url id.service_name w).0 bundle).1

      exchange-FailsUnreachable :
          FailsUnreachable (exchange hex sha256 json net machine_file vault_url id.service_name w).0
      unfolding exchange
      exchange-FailsUnreachable =
          let (answer, w') = net.get (vault_url <> "/vault/nonce") w in
          let missing : String = "nonce field missing in vault response" in
          let machine = or_unknown (machine_id machine_file) in
          let nonce = nonce_of json missing answer in
          let nonce_fails = nonce_of-FailsUnreachable json missing answer in
          let prefix : String = "bad nonce hex: " in
          let request = request_for hex sha256 prefix id.service_name machine nonce in
          let request_fails =
            request_for-FailsUnreachable hex sha256 prefix id.service_name machine nonce
              nonce_fails in
          send-FailsUnreachable net (vault_url <> "/vault/unseal") request w' request_fails

      -- A failed attempt leaves the bundle alone; it leaves the service locked if the vault refused,
      -- and in the state Unsealing if no usable answer came.
      pub unseal_error :
          (e : AppError)
          → (unseal hex sha256 json net machine_file vault_url id w).0.result ≡ err e
          → ((unseal hex sha256 json net machine_file vault_url id w).0.identity.bundle ≡ id.bundle)
            × (((body : String) × (e ≡ vault_rejected body)
                  × ((unseal hex sha256 json net machine_file vault_url id w).0.identity.state
                      ≡ locked))
                ⊎ ((text : String) × (e ≡ vault_unreachable text)
                    × ((unseal hex sha256 json net machine_file vault_url id w).0.identity.state
                        ≡ unsealing)))
      unfolding unseal
      unseal_error e h =
          conclude_error (record id { state = unsealing })
            (exchange hex sha256 json net machine_file vault_url id.service_name w).0 e
            exchange-FailsUnreachable h

      -- No task ever sees the service serving without a certificate.
      pub unseal-IsSound :
          All IsSound (unseal hex sha256 json net machine_file vault_url id w).0.seen
      unfolding unseal
      unseal-IsSound = (
        λ s. cc,
        conclude-IsSound (record id { state = unsealing })
            (exchange hex sha256 json net machine_file vault_url id.service_name w).0 (λ s. cc),
      )
