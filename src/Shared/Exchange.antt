-- ===== src/Shared/Exchange.antt =====
-- What shared/src/identity.rs and shared/src/vault_client.rs have in common: the answers of the vault
-- that a client reads, and the request that it sends.
pub mod Laws
use secure_net.Base.{String, Option, none, some, ◌<>◌}
use secure_net.Base.Result.{Result, ok, err, map_err, ok_or, ◌>>=◌}
use secure_net.External.Hex.{Hex, Bytes, Digest}
use secure_net.External.Json.{Json}
use secure_net.External.Reqwest.{HttpResponse}
use secure_net.Shared.Errors.{AppError, vault_unreachable}
use secure_net.Shared.Models.{UnsealRequest, UnsealResponse}
use secure_net.Shared.Attestation.{generate_quote}

-- A client of the vault. `W` is the world that a request changes: the vault and all else.
pub record Transport (V W : Type 0) : Type 0 where
  pub get : String → W → Result (HttpResponse V) String × W
  pub post : String → UnsealRequest → W → Result (HttpResponse UnsealResponse) String × W

-- `.unwrap_or_default()` on a text
abbrev pub or_empty : {E : Type 0} → Result String E → String
or_empty (ok s) = s
or_empty (err _) = ""

abbrev pub or_unknown : {E : Type 0} → Result String E → String
or_unknown (ok s) = s
or_unknown (err _) = "unknown"

module _ (json : Json) where
  -- `body[key].as_str()`
  unfoldable pub text_at : json.Value → String → Option String
  text_at body key = elim (json.field body key) [ none ↦ none | some v ↦ json.as_str v ]

  -- `fetch_nonce` after the request; the first argument is the message for an absent field.
  unfoldable pub nonce_of :
      String → Result (HttpResponse json.Value) String → Result String AppError
  unfolding text_at
  nonce_of missing answer = do
    resp ← map_err vault_unreachable answer
    body ← map_err vault_unreachable resp.json
    ok_or (vault_unreachable missing) (text_at body "nonce")

module _ (hex : Hex) (sha256 : Digest) where
  -- The quote and the key in hexadecimal, both empty if there is no quote.
  abbrev pub quote_hex : Result (Bytes × Bytes) AppError → String × String
  quote_hex (ok (quote, ak)) = (hex.encode quote, hex.encode ak)
  quote_hex (err _) = ("", "")

  unfoldable pub attested_request : String → String → String → Bytes → UnsealRequest
  unfolding generate_quote
  attested_request service_name machine nonce_hex nonce_bytes =
      let (tpm_quote, ak_pub) = quote_hex (generate_quote sha256 nonce_bytes) in
      record {
        service_name = service_name;
        machine_id = machine;
        tpm_quote = tpm_quote;
        nonce = nonce_hex;
        ak_pub = ak_pub;
      }

  -- From the nonce's text to the request; `prefix` stands before the text of a decoding error.
  unfoldable pub request_for :
      String → String → String → Result String AppError → Result UnsealRequest AppError
  unfolding attested_request
  request_for prefix service_name machine nonce = do
    nonce_hex ← nonce
    nonce_bytes ← map_err (λ e. vault_unreachable (prefix <> e)) (hex.decode nonce_hex)
    ok (attested_request service_name machine nonce_hex nonce_bytes)

-- The POST, if there is a request to send.
unfoldable pub send :
    {V W : Type 0}
    → Transport V W
    → String
    → Result UnsealRequest AppError
    → W
    → Result (HttpResponse UnsealResponse) AppError × W
send net url (err e) w = (err e, w)
send net url (ok req) w =
    let (answer, w') = net.post url req w in (map_err vault_unreachable answer, w')
