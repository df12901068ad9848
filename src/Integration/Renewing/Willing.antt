-- ===== src/Integration/Renewing/Willing.antt =====
-- What of a vault its requests leave as it is.
use secure_net.Base.{
  ◌≡◌, String, true, List, [], ◌∷◌, refl, ◌∙◌, subst, sym, arith, nat_eq, list_eq,
}
use secure_net.Base.HashMap.{IsMap}
use secure_net.Vault.Issuer.{Issuer}
use secure_net.Vault.Verifier.{contains}
use secure_net.Vault.State.{Deps, Env, Vault}
use secure_net.Vault.Routes.{
  Request, get_nonce, post_unseal, post_renew, post_revoke, get_crl, get_health, handle, serve,
  unseal, renew, revoke,
}
use secure_net.Vault.Routes.Trace.Nonces.{handle-IsMap}
use secure_net.Vault.Routes.Trace.Survival.{handle_allowlist}

module _ (d : Deps) where
  handle_issuer :
      (env : Env) (req : Request d) (s : Vault d) → (handle d env req s).1.app.issuer ≡ s.app.issuer
  unfolding handle unseal renew revoke
  handle_issuer env get_nonce s = refl
  handle_issuer env (post_unseal req) s = ground arith
  handle_issuer env (post_renew req) s = ground arith
  handle_issuer env (post_revoke v) s = ground arith
  handle_issuer env get_crl s = refl
  handle_issuer env get_health s = refl

  module _ (issuer : Issuer d.rcgen) (machine : String) where
    pub record IsWilling (s : Vault d) : Type 0 where
      pub same : s.app.issuer ≡ issuer
      pub listed : contains s.app.allowlist machine ≡ true
      pub map : IsMap s.app.nonce_store

    pub handle-IsWilling :
        (env : Env) (req : Request d) (s : Vault d) → IsWilling s → IsWilling (handle d env req s).1
    handle-IsWilling env req s h = record {
      same = handle_issuer env req s ∙ h.same;
      listed = subst (λ a. contains a machine ≡ true) (sym (handle_allowlist d env req s)) h.listed;
      map = handle-IsMap d env req s h.map;
    }

    pub serve-IsWilling :
        (rs : List (Env × Request d)) (s : Vault d) → IsWilling s → IsWilling (serve d rs s).1
    unfolding serve
    serve-IsWilling [] s h = h
    serve-IsWilling ((env, req) ∷ rest) s h =
        serve-IsWilling rest (handle d env req s).1 (handle-IsWilling env req s h)
