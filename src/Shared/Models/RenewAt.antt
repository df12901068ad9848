-- ===== src/Shared/Models/RenewAt.antt =====
-- `CertBundle::renew_at` of shared/src/models.rs.
use secure_net.Base.{ℕ, ◌+◌, ◌-◌, ◌*◌, ◌/◌, ◌≤◌, ◌<◌, leb, if◌then◌else◌, arith}
use secure_net.Shared.Models.{CertBundle, DateTime, nanos_per_sec}
use secure_net.Shared.Rotation.Sleep.{sleep_secs}
use secure_net.Shared.Rotation.Sleep.Laws.{sleep_secs_bounds}

abbrev whole_secs : ℕ → ℕ
whole_secs nanos = nanos / nanos_per_sec

-- The two readings of the clock. `num_seconds`, the product and the cast all cut towards zero, so a
-- lifetime that is over gives the offset of its opposite with the sign changed.
unfoldable pub renew_at : CertBundle → DateTime → DateTime → DateTime
renew_at b now now' =
    if leb now b.expires_at
    then now' + sleep_secs (whole_secs (b.expires_at - now)) * nanos_per_sec
    else now' - sleep_secs (whole_secs (now - b.expires_at)) * nanos_per_sec

-- For a certificate that has not expired and lives for less than 2^49 s, the instant leaves a tenth of
-- the remaining lifetime at least, if the clock stands still between its readings.
pub renew_at_lem :
    (b : CertBundle) (now : DateTime)
    → now ≤ b.expires_at
    → b.expires_at < now + 562949953421312 * nanos_per_sec
    → (now ≤ renew_at b now now) × (10 * (renew_at b now now - now) ≤ 9 * (b.expires_at - now))
unfolding renew_at
renew_at_lem b now le small =
    let (above, below) = sleep_secs_bounds (whole_secs (b.expires_at - now)) (omega arith) in
    (ground arith, ground (arith, above))
