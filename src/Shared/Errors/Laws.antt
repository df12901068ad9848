-- ===== src/Shared/Errors/Laws.antt =====
-- The machine-readable code of an error response fixes its HTTP status.
use secure_net.Base.{ℕ, String, ◌≡◌, refl, ◌==◌, text_eq, if◌then◌else◌}
use secure_net.Shared.Errors.{AppError, into_response}

-- The status that an API client may expect of an error code.
abbrev pub status_of_code : String → ℕ
status_of_code c =
    if c == "AUTH_MISSING_TOKEN"
    then 401
    else if c == "AUTH_INVALID_TOKEN"
    then 401
    else if c == "AUTH_BAD_CREDENTIALS"
    then 401
    else if c == "NOT_FOUND"
    then 404
    else if c == "SERVICE_SEALED"
    then 503
    else if c == "VAULT_UNREACHABLE"
    then 503
    else if c == "VAULT_REJECTED"
    then 403
    else 500

-- For every error, the code in the body of its response determines the status of the response.
pub into_response-status :
    (e : AppError) → (into_response e).0 ≡ status_of_code (into_response e).1.error
unfolding into_response
into_response-status (AppError.auth_missing_token) = refl
into_response-status _ = refl
