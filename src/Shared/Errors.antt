-- ===== src/Shared/Errors.antt =====
-- shared/src/errors.rs: the error type of every service and its HTTP response.
pub mod Laws
use secure_net.Base.{ℕ, String, ◌<>◌}

pub data AppError : Type 0 where
  auth_missing_token : AppError
  auth_invalid_token : String → AppError
  auth_bad_credentials : AppError
  tls_config : String → AppError
  cert_parse : String → AppError
  vault_unreachable : String → AppError
  vault_rejected : String → AppError
  service_sealed : AppError
  tpm_error : String → AppError
  not_found : String → AppError
  upstream : String → AppError
  internal : String → AppError

unfoldable pub status_code : AppError → ℕ
status_code auth_missing_token = 401
status_code (auth_invalid_token _) = 401
status_code auth_bad_credentials = 401
status_code (not_found _) = 404
status_code service_sealed = 503
status_code (vault_unreachable _) = 503
status_code (vault_rejected _) = 403
status_code _ = 500

unfoldable pub code : AppError → String
code auth_missing_token = "AUTH_MISSING_TOKEN"
code (auth_invalid_token _) = "AUTH_INVALID_TOKEN"
code auth_bad_credentials = "AUTH_BAD_CREDENTIALS"
code (tls_config _) = "TLS_CONFIG_ERROR"
code (cert_parse _) = "CERT_PARSE_ERROR"
code (vault_unreachable _) = "VAULT_UNREACHABLE"
code (vault_rejected _) = "VAULT_REJECTED"
code service_sealed = "SERVICE_SEALED"
code (tpm_error _) = "TPM_ERROR"
code (not_found _) = "NOT_FOUND"
code (upstream _) = "UPSTREAM_ERROR"
code (internal _) = "INTERNAL_ERROR"

-- The `#[error("…")]` attributes.
unfoldable pub to_string : AppError → String
to_string auth_missing_token = "missing or malformed Authorization header"
to_string (auth_invalid_token e) = "JWT validation failed: " <> e
to_string auth_bad_credentials = "invalid credentials"
to_string (tls_config e) = "TLS configuration error: " <> e
to_string (cert_parse e) = "certificate parse error: " <> e
to_string (vault_unreachable e) = "vault unreachable: " <> e
to_string (vault_rejected e) = "vault rejected unseal request: " <> e
to_string service_sealed = "service is still sealed — vault unseal has not completed"
to_string (tpm_error e) = "TPM operation failed: " <> e
to_string (not_found what) = what <> " not found"
to_string (upstream e) = "upstream service error: " <> e
to_string (internal e) = "internal error: " <> e

-- The JSON body, `{ "error": …, "message": … }`.
pub record ErrorBody : Type 0 where
  pub error : String
  pub message : String

unfoldable pub into_response : AppError → ℕ × ErrorBody
unfolding status_code code to_string
into_response e = (status_code e, record { error = code e; message = to_string e })

-- The conversions from the errors of the libraries, by their texts: `anyhow`, `reqwest` and
-- `jsonwebtoken`.
abbrev pub from_anyhow : String → AppError
from_anyhow e = internal e

abbrev pub from_reqwest : String → AppError
from_reqwest e = upstream e

abbrev pub from_jsonwebtoken : String → AppError
from_jsonwebtoken e = auth_invalid_token e
