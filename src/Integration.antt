-- ===== src/Integration.antt =====
-- The clients of shared/src against the handlers of vault-service/src, over a network that loses
-- nothing.
pub mod Chain
pub mod Crowd
pub mod System
pub mod Renewing
pub mod Laws
mod Tests
mod ChainTests
mod CrowdTests
mod SystemTests
mod RenewingTests
use secure_net.Base.{ℕ, String, ◌<>◌, Bool, ◌==◌, text_eq, if◌then◌else◌}
use secure_net.Base.Result.{Result, ok, err}
use secure_net.External.Reqwest.{HttpResponse}
use secure_net.Shared.Errors.{AppError, ErrorBody, into_response}
use secure_net.Shared.Models.{UnsealRequest, UnsealResponse}
use secure_net.Shared.Exchange.{Transport}
use secure_net.Vault.State.{Deps, Env, Vault}
use secure_net.Vault.Routes.{Response, nonce, unseal, renew}

module _ (d : Deps) where
  -- What axum makes of a handler's result, and what the client reads of that. `show` prints the body
  -- of an error.
  unfoldable pub over_http : (ErrorBody → String) → Response d → HttpResponse UnsealResponse
  unfolding into_response
  over_http show (ok resp) = record { status = 200; text = err "not read"; json = ok resp }
  over_http show (err e) = record {
    status = (into_response e).0;
    text = ok (show (into_response e).1);
    json = err "missing field `bundle`";
  }

  abbrev nonce_reply : d.json.Value × Vault d → Result (HttpResponse d.json.Value) String × Vault d
  nonce_reply (body, v) = (ok (record { status = 200; text = err "not read"; json = ok body }), v)

  certificate_reply :
      (ErrorBody → String)
      → Response d × Vault d
      → Result (HttpResponse UnsealResponse) String × Vault d
  unfolding over_http
  certificate_reply show (resp, v) = (ok (over_http show resp), v)

  -- The vault's routes that the clients use, with what the vault's two requests read from their
  -- surroundings.
  unfoldable pub loopback :
      (ErrorBody → String) → String → Env → Env → Transport d.json.Value (Vault d)
  unfolding certificate_reply
  loopback show base env env' = record {
    get = λ url v.
        if url == (base <> "/vault/nonce")
        then nonce_reply (nonce d env v)
        else (err "no such route", v);
    post = λ url req v.
        if url == (base <> "/vault/unseal")
        then certificate_reply show (unseal d env' req v)
        else if url == (base <> "/vault/renew")
        then certificate_reply show (renew d env' req v)
        else (err "no such route", v);
  }
