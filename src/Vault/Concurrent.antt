-- ===== src/Vault/Concurrent.antt =====
-- The handlers of vault-service/src/routes.rs as tasks that run at the same time: a task stops between
-- any two accesses to what the handlers share, and the others go on.
pub mod Spending
pub mod Numbering
pub mod Lines
pub mod Logging
pub mod Alone
use secure_net.Base.{ℕ, suc, ◌≡◌, List, [], ◌∷◌, ◌++◌}
use secure_net.Base.Result.{Result, ok, err}
use secure_net.External.Hex.{Bytes}
use secure_net.Shared.Errors.{internal, vault_rejected}
use secure_net.Shared.Models.{CertBundle, UnsealRequest}
use secure_net.Vault.Verifier.{Reason}
use secure_net.Vault.State.{Deps, Env, Vault}
use secure_net.Vault.Routes.{Response, log_grant, log_rejection, attest, issue, nonce, revoke}

-- Which of the two handlers, which differ in the log of a rejection.
pub data Endpoint : Type 0 where
  unseal_endpoint renew_endpoint : Endpoint

module _ (d : Deps) where
  -- Where a handler stands: before `verify`, before `issue`, before the line in the log of a grant
  -- or a rejection, and at its end.
  pub data Phase : Type 0 where
    received : Phase
    verified : Phase
    issued : CertBundle → Phase
    rejected : Reason → Phase
    answered : Response d → Phase

  pub record Task : Type 0 where
    pub endpoint : Endpoint
    pub req : UnsealRequest
    pub phase : Phase

  unfoldable pub after_verify : Endpoint → Result (Unit {0}) Reason → Phase
  after_verify _ (ok _) = verified
  after_verify unseal_endpoint (err e) = rejected e
  after_verify renew_endpoint (err e) = answered (err (vault_rejected e))

  unfoldable pub after_issue : Result CertBundle Reason → Phase
  after_issue (err e) = answered (err (internal e))
  after_issue (ok bundle) = issued bundle

  -- A handler goes on to its next stop.
  unfoldable pub advance : Env → UnsealRequest → Endpoint → Phase → Vault d → Phase × Vault d
  unfolding attest issue after_verify after_issue
  advance env req endpoint received s =
      let (verdict, s') = attest d env req s in (after_verify endpoint verdict, s')
  advance env req endpoint verified s = let (made, s') = issue d env req s in (after_issue made, s')
  advance env req endpoint (issued bundle) s =
      (answered (ok (record { bundle = bundle })), log_grant d env req bundle s)
  advance env req endpoint (rejected e) s =
      (answered (err (vault_rejected e)), log_rejection d env req e s)
  advance env req endpoint (answered r) s = (answered r, s)

  -- The process and the tasks, with the nonces that were handed out so far as a history.
  pub record World : Type 0 where
    pub vault : Vault d
    pub tasks : List Task
    pub offered : List Bytes

  abbrev pub moved : Env → List Task → Task → List Task → World → World
  moved env before t after w =
      let (phase, vault) = advance env t.req t.endpoint t.phase w.vault in
      record w { vault = vault; tasks = before ++ (record t { phase = phase } ∷ after) }

  -- `P` says what the surroundings of an access may be.
  module _ (P : Env → Type 0) where
    -- What can happen next: a request for a certificate comes in, one of the tasks goes on, or a
    -- handler with one access to the shared state runs.
    pub data Step : World → World → Type 0 where
      arrive :
          (w : World) (endpoint : Endpoint) (req : UnsealRequest)
          → Step w (record w {
            tasks = record { endpoint = endpoint; req = req; phase = received } ∷ w.tasks;
          })
      go_on :
          (w : World) (env : Env) (before : List Task) (t : Task) (after : List Task)
          → w.tasks ≡ before ++ (t ∷ after)
          → P env
          → Step w (moved env before t after w)
      offer :
          (w : World) (env : Env)
          → Step w (record w { vault = (nonce d env w.vault).1; offered = env.random ∷ w.offered })
      withdraw :
          (w : World) (v : d.json.Value) → Step w (record w { vault = (revoke d v w.vault).1 })

    -- The worlds that a number of steps lead to.
    pub data Reach (w : World) : ℕ → World → Type 0 where
      here : Reach w 0 w
      next : {n : ℕ} {u v : World} → Reach w n u → Step u v → Reach w (suc n) v
