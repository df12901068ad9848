-- ===== src/Vault/Routes/Trace/Nonces.antt =====
-- Each nonce that the vault issues pays for one certificate at most.
use secure_net.Base.{
  ℕ, ◌+◌, ◌≤◌, ◌≡◌, sym, subst, inl, inr, String, Bool, false, none, some, List, [], ◌∷◌, arith,
  nat_eq, list_eq, list_beq, list_beq_iff, if◌then◌else◌,
}
use secure_net.Base.Result.{Result, ok, err, Result-cases}
use secure_net.Base.HashMap.{get, IsMap}
use secure_net.External.Hex.{Hex, Bytes, Digest}
use secure_net.Shared.Models.{UnsealRequest}
use secure_net.Vault.NonceStore.{NonceStore, Instant}
use secure_net.Vault.NonceStore.Laws.{
  consume_iff, get-consume, get-register, consume-IsMap, register-IsMap,
}
use secure_net.Vault.Verifier.{Allowlist, verify}
use secure_net.Vault.Verifier.Laws.{verified, verify_store}
use secure_net.Vault.State.{Deps, Env, Vault}
use secure_net.Vault.Routes.{
  Reply, certificate, Request, get_nonce, post_unseal, post_renew, post_revoke, get_crl, get_health,
  handle, unseal, renew, revoke,
}

-- 1 if the store holds the nonce.
abbrev pub has : Bytes → NonceStore → ℕ
has b store = elim (get b store) [ none ↦ 0 | some _ ↦ 1 ]

module _ (hex : Hex) where
  abbrev pub decodes_to : Bytes → String → Bool
  decodes_to b nonce = elim (hex.decode nonce) [ ok c ↦ list_beq c b | err _ ↦ false ]

  -- 1 for a success that the nonce `b` paid for.
  abbrev pub paid : {A E : Type 0} → Bytes → String → Result A E → ℕ
  paid b nonce (ok _) = if decodes_to b nonce then 1 else 0
  paid b nonce (err _) = 0

  -- A verification pays with what it takes from the store.
  pub verify_pays :
      (sha256 : Digest) (b : Bytes) (req : UnsealRequest) (allowlist : Allowlist)
      (store : NonceStore) (now : Instant)
      → paid b req.nonce (verify hex sha256 req allowlist store now).0
          + has b (verify hex sha256 req allowlist store now).1
        ≤ has b store
  verify_pays sha256 b req allowlist store now =
      elim (Result-cases (verify hex sha256 req allowlist store now).0) [
        | inr (e, refused) ↦ elim (verify_store hex sha256 req allowlist store now) [
          | inl same ↦ ground arith
          | inr (c, _, spent) ↦ ground (arith, get-consume store c b now)
        ]
        | inl (u, accepted) ↦
            let (c, decoded, valid, _, spent) =
              (verified hex sha256 req allowlist store now accepted).2 in
            let (i, stored, _) = (consume_iff store c now).0 valid in
            ground (arith, get-consume store c b now, list_beq_iff c b)
      ]

  -- `verify` keeps the keys of the store distinct.
  pub verify-IsMap :
      (sha256 : Digest) (req : UnsealRequest) (allowlist : Allowlist) (store : NonceStore)
      (now : Instant)
      → IsMap store
      → IsMap (verify hex sha256 req allowlist store now).1
  verify-IsMap sha256 req allowlist store now h =
      elim (verify_store hex sha256 req allowlist store now) [
        | inl same ↦ rw same h
        | inr (c, _, spent) ↦ rw spent (consume-IsMap store c now h)
      ]

module _ (d : Deps) where
  after_verify : UnsealRequest → Env → Vault d → NonceStore
  after_verify req env s =
      (verify d.hex d.sha256 req s.app.allowlist s.app.nonce_store env.instant).1

  nonce_store-unseal :
      (env : Env) (req : UnsealRequest) (s : Vault d)
      → (unseal d env req s).1.nonce_store ≡ after_verify req env s
  unfolding unseal after_verify
  nonce_store-unseal env req s = ground arith

  nonce_store-renew :
      (env : Env) (req : UnsealRequest) (s : Vault d)
      → (renew d env req s).1.nonce_store ≡ after_verify req env s
  unfolding renew after_verify
  nonce_store-renew env req s = ground arith

  nonce_store-revoke :
      (v : d.json.Value) (s : Vault d) → (revoke d v s).1.nonce_store ≡ s.nonce_store
  unfolding revoke
  nonce_store-revoke v s = ground arith

  after_verify-IsMap :
      (env : Env) (req : UnsealRequest) (s : Vault d)
      → IsMap s.nonce_store
      → IsMap (after_verify req env s)
  unfolding after_verify
  after_verify-IsMap env req s h =
      verify-IsMap d.hex d.sha256 req s.app.allowlist s.app.nonce_store env.instant h

  -- Every request keeps the keys of the nonce store distinct.
  pub handle-IsMap :
      (env : Env) (req : Request d) (s : Vault d)
      → IsMap s.nonce_store
      → IsMap (handle d env req s).1.nonce_store
  unfolding handle
  handle-IsMap env get_nonce s h = register-IsMap s.nonce_store env.random env.seen env.instant h
  handle-IsMap env (post_unseal req) s h =
      subst IsMap (sym (nonce_store-unseal env req s)) (after_verify-IsMap env req s h)
  handle-IsMap env (post_renew req) s h =
      subst IsMap (sym (nonce_store-renew env req s)) (after_verify-IsMap env req s h)
  handle-IsMap env (post_revoke v) s h = subst IsMap (sym (nonce_store-revoke v s)) h
  handle-IsMap env get_crl s h = h
  handle-IsMap env get_health s h = h

module _ (d : Deps) (b : Bytes) where
  -- 1 if the request is answered with a certificate, and its nonce is `b`.
  abbrev pub bought : Request d → Reply d → ℕ
  bought (post_unseal req) (certificate r) = paid d.hex b req.nonce r
  bought (post_renew req) (certificate r) = paid d.hex b req.nonce r
  bought _ _ = 0

  -- 1 if the request has the vault issue the nonce `b`.
  abbrev pub issued : Env → Request d → ℕ
  issued env get_nonce = if list_beq env.random b then 1 else 0
  issued env _ = 0

  -- The certificates that `b` pays for, and the times that it is issued.
  abbrev pub purchases : List (Env × Request d) → Vault d → ℕ
  purchases [] s = 0
  purchases ((env, req) ∷ rest) s =
      bought req (handle d env req s).0 + purchases rest (handle d env req s).1

  abbrev pub issues : List (Env × Request d) → ℕ
  issues [] = 0
  issues ((env, req) ∷ rest) = issued env req + issues rest

  handle_pays :
      (env : Env) (req : Request d) (s : Vault d)
      → IsMap s.nonce_store
      → bought req (handle d env req s).0 + has b (handle d env req s).1.nonce_store
        ≤ has b s.nonce_store + issued env req
  unfolding handle
  handle_pays env get_nonce s h =
      ground (arith, get-register s.nonce_store env.random b env.seen env.instant h)
  handle_pays env (post_unseal req) s h =
      ground (arith, verify_pays d.hex d.sha256 b req s.app.allowlist s.app.nonce_store env.instant)
  handle_pays env (post_renew req) s h =
      ground (arith, verify_pays d.hex d.sha256 b req s.app.allowlist s.app.nonce_store env.instant)
  handle_pays env (post_revoke v) s h = ground arith
  handle_pays env get_crl s h = omega arith
  handle_pays env get_health s h = omega arith

  -- However requests are mixed and repeated, the certificates that a nonce pays for are at most as
  -- many as the times that the vault issued it, and one more if the store held it at the start,
  -- where no nonce stood twice in the store then.
  pub purchases-le-issues :
      (rs : List (Env × Request d)) (s : Vault d)
      → IsMap s.nonce_store
      → purchases rs s ≤ has b s.nonce_store + issues rs
  purchases-le-issues [] s h = omega arith
  purchases-le-issues ((env, req) ∷ rest) s h = omega (
    arith,
    handle_pays env req s h,
    purchases-le-issues rest (handle d env req s).1 (handle-IsMap d env req s h),
  )
