-- ===== src/Shared/Attestation/Laws.antt =====
-- When Secure Boot is reported.
use secure_net.Base.{◌≤◌, ◌≡◌, ◌↔◌, String, some, arith, length}
use secure_net.Base.Result.{Result, ok, err}
use secure_net.External.Hex.{Bytes}
use secure_net.Shared.Attestation.{enabled, byte_at, check_secure_boot}

-- Secure Boot is reported as enabled exactly if the variable was read, is five bytes long at least
-- and has 1 as its fifth byte.
pub check_secure_boot_iff :
    (file : Result Bytes String)
    → (check_secure_boot file ≡ enabled)
      ↔ ((bytes : Bytes) × (file ≡ ok bytes) × (5 ≤ length bytes) × (byte_at bytes 4 ≡ some 1))
unfolding check_secure_boot
check_secure_boot_iff (err e) = (λ h. cc, λ h. cc (h.1))
check_secure_boot_iff (ok bytes) =
    (λ h. (bytes, ground arith, ground arith, ground arith), λ (b, same, long, one). ground arith)
