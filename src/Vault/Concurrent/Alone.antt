-- ===== src/Vault/Concurrent/Alone.antt =====
-- A handler that is not interrupted is the handler of Routes, and one that is ends all the same.
use secure_net.Base.Result.{Result}
use secure_net.Shared.Models.{UnsealRequest}
use secure_net.Vault.Verifier.{Reason}
use secure_net.Vault.State.{Deps, Env, Vault}
use secure_net.Vault.Routes.{Response, unseal, renew, unseal_verified, renew_verified}
use secure_net.Vault.Concurrent.{
  Endpoint, unseal_endpoint, renew_endpoint, Phase, received, advance,
}

module _ (d : Deps) where
  -- The next turn of a handler, from where the last one left it.
  abbrev turn : Env → UnsealRequest → Endpoint → Phase d × Vault d → Phase d × Vault d
  turn env req e (p, s) = advance d env req e p s

  abbrev pub three_turns : Env → UnsealRequest → Endpoint → Vault d → Phase d × Vault d
  three_turns env req e s = turn env req e (turn env req e (turn env req e (received, s)))

  abbrev pub handler : Endpoint → Env → UnsealRequest → Vault d → Response d × Vault d
  handler unseal_endpoint env req s = unseal d env req s
  handler renew_endpoint env req s = renew d env req s

  -- What the handlers do with the verdict of the attestation.
  abbrev on_verdict :
      Endpoint → Env → UnsealRequest → Result (Unit {0}) Reason → Vault d → Response d × Vault d
  on_verdict unseal_endpoint env req verdict s = unseal_verified d env req verdict s
  on_verdict renew_endpoint env req verdict s = renew_verified d env req verdict s
