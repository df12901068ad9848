-- ===== src/Vault/Routes/Trace/Survival.antt =====
-- A nonce that nobody else uses stays good while other requests are answered.
use secure_net.Base.{
  ◌≡◌, refl, ◌∙◌, inl, inr, false, true, some, List, [], ◌∷◌, arith, nat_eq, list_eq, list_beq,
}
use secure_net.Base.HashMap.{get, IsMap}
use secure_net.External.Hex.{Bytes}
use secure_net.Shared.Models.{UnsealRequest}
use secure_net.Vault.NonceStore.{Instant, is_fresh}
use secure_net.Vault.NonceStore.Laws.{get-consume, get-register}
use secure_net.Vault.Verifier.{verify}
use secure_net.Vault.Verifier.Laws.{verify_store}
use secure_net.Vault.State.{Deps, Env, Vault}
use secure_net.Vault.Routes.{
  Request, get_nonce, post_unseal, post_renew, post_revoke, get_crl, get_health, handle, serve,
  unseal, renew, revoke,
}
use secure_net.Vault.Routes.Trace.Nonces.{decodes_to, handle-IsMap}

module _ (d : Deps) (b : Bytes) (issued_at : Instant) where
  -- The request neither uses the nonce nor hands out the same one, and is no reason to drop it.
  abbrev pub Spares : Env → Request d → Type 0
  Spares env get_nonce = (list_beq env.random b ≡ false) × (is_fresh (env.seen b) issued_at ≡ true)
  Spares env (post_unseal req) = decodes_to d.hex b req.nonce ≡ false
  Spares env (post_renew req) = decodes_to d.hex b req.nonce ≡ false
  Spares env _ = Unit

  abbrev IsStored : Vault d → Type 0
  IsStored s = get b s.app.nonce_store ≡ some issued_at

  verify_keeps :
      (env : Env) (req : UnsealRequest) (s : Vault d)
      → decodes_to d.hex b req.nonce ≡ false
      → IsStored s
      → get b (verify d.hex d.sha256 req s.app.allowlist s.app.nonce_store env.instant).1
        ≡ some issued_at
  verify_keeps env req s other stored =
      elim (verify_store d.hex d.sha256 req s.app.allowlist s.app.nonce_store env.instant) [
        | inl same ↦ rw same stored
        | inr (c, decoded, spent) ↦
            rw spent (ground (arith, get-consume s.app.nonce_store c b env.instant))
      ]

  handle_keeps :
      (env : Env) (req : Request d) (s : Vault d)
      → IsMap s.app.nonce_store
      → Spares env req
      → IsStored s
      → IsStored (handle d env req s).1
  unfolding handle unseal renew revoke
  handle_keeps env get_nonce s map (other, fresh) stored =
      ground (arith, get-register s.app.nonce_store env.random b env.seen env.instant map)
  handle_keeps env (post_unseal req) s map other stored =
      ground (arith, verify_keeps env req s other stored)
  handle_keeps env (post_renew req) s map other stored =
      ground (arith, verify_keeps env req s other stored)
  handle_keeps env (post_revoke v) s map _ stored = ground arith
  handle_keeps env get_crl s map _ stored = stored
  handle_keeps env get_health s map _ stored = stored

  abbrev pub AllSpare : List (Env × Request d) → Type 0
  AllSpare [] = Unit
  AllSpare ((env, req) ∷ rest) = Spares env req × AllSpare rest

  -- If none of the requests uses it, hands out the same one or prunes it as expired, a stored nonce is
  -- stored as before when they have been answered.
  pub serve_keeps :
      (rs : List (Env × Request d)) (s : Vault d)
      → IsMap s.app.nonce_store
      → AllSpare rs
      → IsStored s
      → IsStored (serve d rs s).1
  unfolding serve
  serve_keeps [] s map _ stored = stored
  serve_keeps ((env, req) ∷ rest) s map (spares, h) stored =
      serve_keeps rest (handle d env req s).1 (handle-IsMap d env req s map) h
        (handle_keeps env req s map spares stored)

pub handle_allowlist :
    (d : Deps) (env : Env) (req : Request d) (s : Vault d)
    → (handle d env req s).1.app.allowlist ≡ s.app.allowlist
unfolding handle unseal renew revoke
handle_allowlist d env get_nonce s = refl
handle_allowlist d env (post_unseal req) s = ground arith
handle_allowlist d env (post_renew req) s = ground arith
handle_allowlist d env (post_revoke v) s = ground arith
handle_allowlist d env get_crl s = refl
handle_allowlist d env get_health s = refl

-- No request changes the allowlist.
pub serve_allowlist :
    (d : Deps) (rs : List (Env × Request d)) (s : Vault d)
    → (serve d rs s).1.app.allowlist ≡ s.app.allowlist
unfolding serve
serve_allowlist d [] s = refl
serve_allowlist d ((env, req) ∷ rest) s =
    serve_allowlist d rest (handle d env req s).1 ∙ handle_allowlist d env req s
