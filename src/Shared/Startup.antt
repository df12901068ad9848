-- ===== src/Shared/Startup.antt =====
-- What the `main` functions of the four services have in common.
pub mod Laws
use secure_net.Base.{String, ◌<>◌, Option, none, some, List, [], ◌∷◌}
use secure_net.Base.Result.{Result, ok, err, map_err, ◌>>=◌}
use secure_net.External.Host.{Host}
use secure_net.External.Otel.{Otel}
use secure_net.Shared.Errors.{to_string}
use secure_net.Shared.Boot.{BootError}
use secure_net.Shared.Telemetry.{failed, panicked, installed, init_telemetry}

-- An `anyhow` error that ends a process: its messages, the outermost first.
abbrev pub Anyhow : Type 0
Anyhow = List String

abbrev pub from_error : {A : Type 0} → Result A String → Result A Anyhow
from_error r = map_err (λ e. e ∷ []) r

abbrev pub context : {A : Type 0} → String → Result A String → Result A Anyhow
context message r = map_err (λ e. message ∷ e ∷ []) r

abbrev pub from_boot_error : {A : Type 0} → Result A BootError → Result A Anyhow
from_boot_error r = map_err (λ e. e.context ∷ to_string e.cause ∷ []) r

-- `std::env::var(name).unwrap_or_else(|_| default)`
abbrev or_else : String → Option String → String
or_else fallback none = fallback
or_else fallback (some value) = value

unfoldable pub var_or : Host → String → String → String
var_or host name fallback = or_else fallback (host.env_var name)

-- The first call of a process cannot panic for an earlier one.
unfoldable pub telemetry : (otel : Otel) → Host → String → Result (Unit {0}) Anyhow
telemetry otel host service_name =
    elim (init_telemetry otel none service_name (host.env_var "JAEGER_ENDPOINT")) [
      | failed e ↦ err (e ∷ [])
      | panicked ↦ err ("panicked" ∷ [])
      | installed s ↦ ok tt
    ]

-- `PORT`, and the address of all interfaces.
unfoldable pub listen_addr : Host → String → Result String Anyhow
unfolding var_or
listen_addr host port = from_error (host.parse_addr ("0.0.0.0:" <> var_or host "PORT" port))

-- Telemetry, then the boot, then what is made of its result; `?` after the first two. What the Secure
-- Boot check between them finds is logged and not used.
unfoldable pub started :
    {B S W : Type 0}
    → Result (Unit {0}) Anyhow
    → (W → Result B BootError × W)
    → (B → Result S Anyhow)
    → W
    → Result S Anyhow × W
started (err e) boot finish w = (err e, w)
started (ok _) boot finish w = let (booted, w') = boot w in (from_boot_error booted >>= finish, w')
