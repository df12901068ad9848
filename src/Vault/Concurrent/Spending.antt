-- ===== src/Vault/Concurrent/Spending.antt =====
-- However the handlers interleave, a nonce pays for one certificate at most.
use secure_net.Base.{
  ℕ, ◌+◌, ◌≤◌, ◌≡◌, ap, List, [], ◌∷◌, ◌++◌, arith, nat_eq, list_eq, list_beq, if◌then◌else◌,
}
use secure_net.Base.Result.{ok}
use secure_net.Base.HashMap.{IsMap}
use secure_net.External.Hex.{Bytes}
use secure_net.Shared.Models.{UnsealRequest}
use secure_net.Vault.NonceStore.Laws.{register-IsMap, get-register}
use secure_net.Vault.State.{Deps, Env, Vault}
use secure_net.Vault.Routes.{nonce, revoke}
use secure_net.Vault.Routes.Trace.Nonces.{has, decodes_to, verify_pays, verify-IsMap}
use secure_net.Vault.Concurrent.{
  Endpoint, unseal_endpoint, renew_endpoint, Phase, received, verified, issued, rejected, answered,
  Task, advance, World, Step, arrive, go_on, offer, withdraw, Reach, here, next,
}

-- How often a nonce stands in a list.
abbrev pub count : Bytes → List Bytes → ℕ
count b [] = 0
count b (c ∷ cs) = (if list_beq c b then 1 else 0) + count b cs

module _ (d : Deps) (b : Bytes) where
  -- 1 for a task that was verified, with the nonce `b`, and has not failed since.
  abbrev pub pays : UnsealRequest → Phase d → ℕ
  pays req verified = if decodes_to d.hex b req.nonce then 1 else 0
  pays req (issued _) = if decodes_to d.hex b req.nonce then 1 else 0
  pays req (answered (ok _)) = if decodes_to d.hex b req.nonce then 1 else 0
  pays req _ = 0

  -- 1 for a task that was answered with a certificate for the nonce `b`.
  abbrev pub certified : UnsealRequest → Phase d → ℕ
  certified req (answered (ok _)) = if decodes_to d.hex b req.nonce then 1 else 0
  certified req _ = 0

  abbrev pub certificates : List (Task d) → ℕ
  certificates [] = 0
  certificates (t ∷ ts) = certified t.req t.phase + certificates ts

  abbrev payers : List (Task d) → ℕ
  payers [] = 0
  payers (t ∷ ts) = pays t.req t.phase + payers ts

  payers-append : (xs ys : List (Task d)) → payers (xs ++ ys) ≡ payers xs + payers ys
  payers-append [] ys = omega arith
  payers-append (x ∷ xs) ys = omega (arith, payers-append xs ys)

  certified-le-pays : (req : UnsealRequest) (p : Phase d) → certified req p ≤ pays req p
  certified-le-pays req (answered (ok _)) = omega arith
  certified-le-pays req _ = omega arith

  certificates-le-payers : (ts : List (Task d)) → certificates ts ≤ payers ts
  certificates-le-payers [] = omega arith
  certificates-le-payers (t ∷ ts) =
      omega (arith, certified-le-pays t.req t.phase, certificates-le-payers ts)

  pays-advance :
      (env : Env) (req : UnsealRequest) (e : Endpoint) (p : Phase d) (s : Vault d)
      → pays req (advance d env req e p s).0 + has b (advance d env req e p s).1.app.nonce_store
        ≤ pays req p + has b s.app.nonce_store
  unfolding advance
  pays-advance env req unseal_endpoint received s =
      ground (arith, verify_pays d.hex d.sha256 b req s.app.allowlist s.app.nonce_store env.instant)
  pays-advance env req renew_endpoint received s =
      ground (arith, verify_pays d.hex d.sha256 b req s.app.allowlist s.app.nonce_store env.instant)
  pays-advance env req e verified s = ground arith
  pays-advance env req e (issued bundle) s = ground arith
  pays-advance env req e (rejected reason) s = ground arith
  pays-advance env req e (answered r) s = omega arith

  advance-IsMap :
      (env : Env) (req : UnsealRequest) (e : Endpoint) (p : Phase d) (s : Vault d)
      → IsMap s.app.nonce_store
      → IsMap (advance d env req e p s).1.app.nonce_store
  unfolding advance
  advance-IsMap env req e received s h =
      verify-IsMap d.hex d.sha256 req s.app.allowlist s.app.nonce_store env.instant h
  advance-IsMap env req e verified s h = h
  advance-IsMap env req e (issued bundle) s h = h
  advance-IsMap env req e (rejected reason) s h = h
  advance-IsMap env req e (answered r) s h = h

  -- With `k` for what the store held at the start.
  record IsSolvent (k : ℕ) (w : World d) : Type 0 where
    map : IsMap w.vault.app.nonce_store
    solvent : payers w.tasks + has b w.vault.app.nonce_store ≤ k + count b w.offered

  Step-IsSolvent :
      {P : Env → Type 0} (k : ℕ) {v w : World d} → Step d P v w → IsSolvent k v → IsSolvent k w
  unfolding nonce revoke
  Step-IsSolvent k (arrive v e req) h = record { map = h.map; solvent = omega (arith, h.solvent) }
  Step-IsSolvent k (go_on v env before t after at allowed) h =
      let (p, s) = advance d env t.req t.endpoint t.phase v.vault in
      let paid = pays-advance env t.req t.endpoint t.phase v.vault in
      let split = ap payers at in
      let split' = payers-append before (t ∷ after) in
      let joined = payers-append before (record t { phase = p } ∷ after) in
      record {
        map = advance-IsMap env t.req t.endpoint t.phase v.vault h.map;
        solvent = omega (arith, paid, split, split', joined, h.solvent);
      }
  Step-IsSolvent k (offer v env) h = record {
    map = register-IsMap v.vault.app.nonce_store env.random env.seen env.instant h.map;
    solvent = ground (
      arith,
      get-register v.vault.app.nonce_store env.random b env.seen env.instant h.map,
      h.solvent,
    );
  }
  Step-IsSolvent k (withdraw v body) h = record {
    map = ground (arith, h.map);
    solvent = ground (arith, h.solvent);
  }

  Reach-IsSolvent :
      {P : Env → Type 0} (k : ℕ) {v : World d} {n : ℕ} {w : World d}
      → IsSolvent k v
      → Reach d P v n w
      → IsSolvent k w
  Reach-IsSolvent k h here = h
  Reach-IsSolvent k h (next r st) = Step-IsSolvent k st (Reach-IsSolvent k h r)

  -- However the accesses of the handlers interleave, the certificates that a nonce pays for are at
  -- most as many as the times that it was handed out, and one more if the store held it at the
  -- start, where no nonce stood twice in the store and no request was under way.
  pub certificates-le-offers :
      {P : Env → Type 0} {n : ℕ} {s : Vault d} {w : World d}
      → IsMap s.app.nonce_store
      → Reach d P (record { vault = s; tasks = []; offered = [] }) n w
      → certificates w.tasks ≤ has b s.app.nonce_store + count b w.offered
  certificates-le-offers {P} {n} {s} {w} map r =
      let start : IsSolvent (has b s.app.nonce_store)
          (record { vault = s; tasks = []; offered = [] }) =
        record { map = map; solvent = omega arith } in
      let h = Reach-IsSolvent (has b s.app.nonce_store) start r in
      omega (arith, certificates-le-payers w.tasks, h.solvent)
