-- ===== src/Shared/Exchange/Laws.antt =====
-- What the two clients of the vault make of errors and of a good nonce.
use secure_net.Base.{String, ◌<>◌, ◌≡◌, refl, arith, Option-cases, inl, inr}
use secure_net.Base.Result.{Result, ok, err, Result-cases}
use secure_net.External.Hex.{Hex, Bytes, Digest}
use secure_net.External.Json.{Json}
use secure_net.External.Reqwest.{HttpResponse}
use secure_net.Shared.Errors.{AppError, vault_unreachable}
use secure_net.Shared.Models.{UnsealRequest}
use secure_net.Shared.Exchange.{Transport, text_at, nonce_of, request_for, send, attested_request}

abbrev pub IsUnreachable : AppError → Type 0
IsUnreachable e = (text : String) × (e ≡ vault_unreachable text)

-- Any failure is one.
abbrev pub FailsUnreachable : {A : Type 0} → Result A AppError → Type 0
FailsUnreachable r = (e : AppError) → r ≡ err e → IsUnreachable e

pub nonce_of-FailsUnreachable :
    (json : Json) (missing : String) (answer : Result (HttpResponse json.Value) String)
    → FailsUnreachable (nonce_of json missing answer)
unfolding nonce_of
nonce_of-FailsUnreachable json missing (err t) e h = (t, ground arith)
nonce_of-FailsUnreachable json missing (ok resp) e h = elim (Result-cases resp.json) [
  | inr (t, bad) ↦ (t, ground arith)
  | inl (body, good) ↦ elim (Option-cases (text_at json body "nonce")) [
    | inl none ↦ (missing, ground arith)
    | inr (s, found) ↦ absurd (ground arith)
  ]
]

pub request_for-FailsUnreachable :
    (hex : Hex) (sha256 : Digest) (prefix service_name machine : String)
    (nonce : Result String AppError)
    → FailsUnreachable nonce
    → FailsUnreachable (request_for hex sha256 prefix service_name machine nonce)
unfolding request_for
request_for-FailsUnreachable hex sha256 prefix service_name machine (err e') known e h =
    let (t, same) = known e' refl in (t, ground arith)
request_for-FailsUnreachable hex sha256 prefix service_name machine (ok nonce_hex) known e h =
    elim (Result-cases (hex.decode nonce_hex)) [
      | inr (t, bad) ↦ (prefix <> t, ground arith)
      | inl (b, good) ↦ absurd (ground arith)
    ]

pub send-FailsUnreachable :
    {V W : Type 0} (net : Transport V W) (url : String) (r : Result UnsealRequest AppError) (w : W)
    → FailsUnreachable r
    → FailsUnreachable (send net url r w).0
unfolding send
send-FailsUnreachable net url (err e') w known e h =
    let (t, same) = known e' refl in (t, ground arith)
send-FailsUnreachable net url (ok req) w known e h = elim (Result-cases (net.post url req w).0) [
  | inr (t, failed) ↦ (t, ground arith)
  | inl (resp, answered) ↦ absurd (ground arith)
]

-- A nonce that decodes gives a request.
pub request_for_ok :
    (hex : Hex) (sha256 : Digest) (prefix service_name machine nonce_hex : String)
    (nonce_bytes : Bytes)
    → hex.decode nonce_hex ≡ ok nonce_bytes
    → request_for hex sha256 prefix service_name machine (ok nonce_hex)
      ≡ ok (attested_request hex sha256 service_name machine nonce_hex nonce_bytes)
unfolding request_for
request_for_ok hex sha256 prefix service_name machine nonce_hex nonce_bytes good = ground arith
