-- ===== src/Shared/Attestation.antt =====
-- shared/src/attestation.rs: what a service can say of the host that it runs on.
pub mod Laws
use secure_net.Base.{
  ℕ, zero, suc, String, ◌<>◌, Bool, false, Option, none, some, List, [], ◌∷◌, leb, nat_beq, length,
  codes, trim, ◌&&◌, if◌then◌else◌,
}
use secure_net.Base.Result.{Result, ok, err}
use secure_net.External.Hex.{Bytes, Digest}
use secure_net.Shared.Errors.{AppError, internal}

pub data SecureBootState : Type 0 where
  enabled disabled unavailable : SecureBootState

unfoldable pub display : SecureBootState → String
display enabled = "enabled"
display disabled = "disabled"
display unavailable = "unavailable"

abbrev pub byte_at : Bytes → ℕ → Option ℕ
byte_at [] i = none
byte_at (b ∷ bs) zero = some b
byte_at (b ∷ bs) (suc i) = byte_at bs i

-- `data[4] == 1`, below the test of the length.
abbrev is_one : Option ℕ → Bool
is_one none = false
is_one (some b) = nat_beq b 1

-- The argument is what reading the EFI variable gives.
unfoldable pub check_secure_boot : Result Bytes String → SecureBootState
check_secure_boot (err e) = unavailable
check_secure_boot (ok bytes) =
    if leb 5 (length bytes)
    then if is_one (byte_at bytes 4) then enabled else disabled
    else unavailable

-- The argument is what reading /etc/machine-id gives.
unfoldable pub machine_id : Result String String → Result String AppError
machine_id (ok s) = ok (trim s)
machine_id (err e) = err (internal ("cannot read /etc/machine-id: " <> e))

-- The quote and the public key of the attestation key, by the development stub.
unfoldable pub generate_quote : Digest → Bytes → Result (Bytes × Bytes) AppError
generate_quote sha256 nonce = ok (sha256 nonce, codes "DEV_MODE_NO_TPM")
