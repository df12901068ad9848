-- ===== src/Integration/Renewing/Booted.antt =====
-- The renewals of a service that has booted.
use secure_net.Base.{ℕ, String}
use secure_net.Base.Result.{Result}
use secure_net.External.Rustls.{Rustls}
use secure_net.Shared.Errors.{ErrorBody}
use secure_net.Shared.Models.{DateTime}
use secure_net.Shared.Exchange.{Transport}
use secure_net.Shared.Boot.{BootResult, run}
use secure_net.Vault.Issuer.{Issuer}
use secure_net.Vault.State.{Deps, Vault}
use secure_net.Integration.Renewing.{Site, World}

module _ (d : Deps) (show : ErrorBody → String) (base : String) (world : World d)
    (machine_file : Result String String) (print : ℕ → String) (tls : Rustls)
    (issuer : Issuer d.rcgen) (service_name : String) where
  -- The service and the vault when the task starts.
  abbrev pub begun : BootResult d.hex d.sha256 d.json tls → Vault d → DateTime → Site d
  begun b vault now = record { client = b.vault; vault = vault; time = now }

  module _ {W : Type 0} (net : Transport d.json.Value W) (clock : W → DateTime) where
    abbrev pub boot_end : W → DateTime
    boot_end w = clock (run d.hex d.sha256 d.json tls net clock machine_file service_name base w).1
