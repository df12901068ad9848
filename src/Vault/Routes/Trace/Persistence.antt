-- ===== src/Vault/Routes/Trace/Persistence.antt =====
-- What no sequence of requests changes or takes back.
use text.Mathlib.TextLemmas.{append-nil, append_assoc}
use secure_net.Base.{
  ℕ, ◌≡◌, refl, sym, ap, ◌∙◌, String, ◌<>◌, true, some, List, [], ◌∷◌, arith, text_eq, eq_refl,
}
use secure_net.Base.HashMap.{HashMap, get-insert}
use secure_net.Shared.Models.{UnsealRequest}
use secure_net.Vault.Issuer.{Issuer}
use secure_net.Vault.Log.{IssuanceLog}
use secure_net.Vault.Verifier.{Allowlist}
use secure_net.Vault.State.{Deps, Env, Vault, new, is_revoked, revoke_cert}
use secure_net.Vault.Routes.{
  Request, handle, serve, health, revoke, unseal, renew, str_field, or_default,
}
use secure_net.Vault.Routes.Issuance.{unseal-eq-answer, renew-eq-answer}
use secure_net.Vault.Routes.Trace.Steps.{handle_issued, handle_file, handle_revoked}

module _ (d : Deps) where
  -- The issuance log is append-only: after any requests, and whatever fails in the file system, the
  -- file begins with what it held before.
  pub serve_file :
      (rs : List (Env × Request d)) (s : Vault d)
      → (rest : String) × ((serve d rs s).1.file ≡ s.file <> rest)
  unfolding serve
  serve_file [] s = ("", sym (append-nil s.file))
  serve_file ((env, req) ∷ rs) s =
      let (now, e) = handle_file d env req s in
      let (later, f) = serve_file rs (handle d env req s).1 in
      (now <> later, f ∙ ap (λ t. t <> later) e ∙ append_assoc s.file now later)

  serve_issued : (rs : List (Env × Request d)) (s : Vault d) → (serve d rs s).1.issued ≡ s.issued
  unfolding serve
  serve_issued [] s = refl
  serve_issued ((env, req) ∷ rs) s =
      serve_issued rs (handle d env req s).1 ∙ handle_issued d env req s

  -- After any requests to a started vault the health probe reports 0 issued certificates, also if
  -- certificates were granted.
  pub health-serve :
      (issuer : Issuer d.rcgen) (log : IssuanceLog) (allowlist : Allowlist) (counter : ℕ)
      (file : String) (rs : List (Env × Request d))
      → let start : Vault d = record {
        app = new d issuer log allowlist;
        serial_counter = counter;
        file = file;
      } in
        health d (serve d rs start).1
        ≡ d.json.object (
            ("status", d.json.string "ok")
            ∷ ("service", d.json.string "vault-service")
            ∷ ("issued", d.json.number 0)
            ∷ [])
  unfolding health new
  health-serve issuer log allowlist counter file rs =
      ap
        (λ n. d.json.object (
          ("status", d.json.string "ok")
          ∷ ("service", d.json.string "vault-service")
          ∷ ("issued", d.json.number n)
          ∷ []))
        (serve_issued rs
          (record { app = new d issuer log allowlist; serial_counter = counter; file = file }))

  serve_revoked :
      (rs : List (Env × Request d)) (s : Vault d) (serial : String)
      → is_revoked d serial s.app ≡ true
      → is_revoked d serial (serve d rs s).1.app ≡ true
  unfolding serve
  serve_revoked [] s serial h = h
  serve_revoked ((env, req) ∷ rs) s serial h =
      serve_revoked rs (handle d env req s).1 serial (handle_revoked d env req s serial h)

  revoke_listed :
      (v w : d.json.Value) (serial : String) (s : Vault d)
      → d.json.field v "serial" ≡ some w
      → d.json.as_str w ≡ some serial
      → is_revoked d serial (revoke d v s).1.app ≡ true
  unfolding revoke is_revoked revoke_cert
  revoke_listed v w serial s present is_text = ground (
    arith,
    eq_refl serial,
    get-insert serial serial (or_default d "no reason given" (str_field d v "reason")) s.revoked,
  )

  -- A serial number that a `revoke` request named is on the revocation list after it, and stays
  -- there through every later request.
  pub revoke-serve :
      (v w : d.json.Value) (serial : String) (s : Vault d) (rs : List (Env × Request d))
      → d.json.field v "serial" ≡ some w
      → d.json.as_str w ≡ some serial
      → is_revoked d serial (serve d rs (revoke d v s).1).1.app ≡ true
  revoke-serve v w serial s rs present is_text =
      serve_revoked rs (revoke d v s).1 serial (revoke_listed v w serial s present is_text)

  -- The revocation list has no say in issuance: with any other list, `unseal` and `renew` give the
  -- same reply.
  pub revocation_ignored :
      (env : Env) (req : UnsealRequest) (s : Vault d) (list : HashMap String String)
      → let t : Vault d = record s { app = record s.app { revoked = list } } in
        ((unseal d env req t).0 ≡ (unseal d env req s).0)
        × ((renew d env req t).0 ≡ (renew d env req s).0)
  revocation_ignored env req s list =
      let t : Vault d = record s { app = record s.app { revoked = list } } in
      (
        unseal-eq-answer d env req t ∙ sym (unseal-eq-answer d env req s),
        renew-eq-answer d env req t ∙ sym (renew-eq-answer d env req s),
      )
