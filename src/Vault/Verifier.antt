-- ===== src/Vault/Verifier.antt =====
-- vault-service/src/attestation_verifier.rs: the allowlist and `verify`.
pub mod Laws
use secure_net.Base.{String, ◌<>◌, Bool, true, false, List, any, ◌==◌, text_eq, not, if◌then◌else◌}
use secure_net.Base.Result.{Result, ok, err, map_err, ◌>>=◌}
use secure_net.External.Hex.{Hex, Bytes, Digest}
use secure_net.Shared.Models.{UnsealRequest}
use secure_net.Vault.NonceStore.{NonceStore, Instant, consume}

pub record Allowlist : Type 0 where
  pub machine_ids : List String

unfoldable pub contains : Allowlist → String → Bool
contains a machine_id =
    if any (λ id. id == "dev") a.machine_ids
    then true
    else any (λ id. id == machine_id) a.machine_ids

-- The text of an `anyhow` error.
abbrev pub Reason : Type 0
Reason = String

module _ (hex : Hex) (sha256 : Digest) where
  -- Step 3, on the decoded nonce.
  unfoldable pub verify_quote : UnsealRequest → Bytes → Result (Unit {0}) Reason
  verify_quote req nonce_bytes =
      if req.tpm_quote == ""
      then ok tt
      else let expected_hex = hex.encode (sha256 nonce_bytes) in
        if req.tpm_quote == expected_hex then ok tt else err "TPM quote verification failed"

  -- Step 2 from the lookup on: the nonce is gone before the quote is read.
  unfoldable pub verify_nonce :
      UnsealRequest
      → NonceStore
      → Instant
      → Result Bytes Reason
      → Result (Unit {0}) Reason × NonceStore
  unfolding verify_quote
  verify_nonce req store now (err e) = (err e, store)
  verify_nonce req store now (ok nonce_bytes) =
      let (valid, store') = consume store nonce_bytes now in
      if not valid
      then (err "nonce is invalid, expired, or already used", store')
      else (verify_quote req nonce_bytes, store')

  unfoldable pub verify :
      UnsealRequest → Allowlist → NonceStore → Instant → Result (Unit {0}) Reason × NonceStore
  unfolding verify_nonce
  verify req allowlist store now =
      if not (contains allowlist req.machine_id)
      then (err ("machine_id '" <> req.machine_id <> "' not in allowlist"), store)
      else if req.nonce == ""
      then (err "nonce is required", store)
      else verify_nonce req store now
          (map_err (λ _. "nonce is not valid hex") (hex.decode req.nonce))
