-- ===== src/Shared/Startup/Laws.antt =====
-- What a service that has started went through.
use secure_net.Base.{◌≡◌, refl, inl, inr, arith}
use secure_net.Base.Result.{Result, ok, err, Result-cases}
use secure_net.Shared.Boot.{BootError}
use secure_net.Shared.Startup.{Anyhow, started}

-- A service that has started has its telemetry and has booted.
pub started_lem :
    {B S W : Type 0} (traced : Result (Unit {0}) Anyhow) (booting : W → Result B BootError × W)
    (finish : B → Result S Anyhow) (w : W) (s : S)
    → (started traced booting finish w).0 ≡ ok s
    → (traced ≡ ok tt) × ((b : B) × ((booting w).0 ≡ ok b) × (finish b ≡ ok s))
unfolding started
started_lem (err e) booting finish w s h = absurd (ground arith)
started_lem (ok u) booting finish w s h = elim (Result-cases (booting w).0) [
  | inr (e, bad) ↦ absurd (ground arith)
  | inl (b, booted) ↦ (refl, (b, booted, ground arith))
]
