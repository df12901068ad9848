-- ===== src/External/Otel.antt =====
-- The crates `opentelemetry`, `opentelemetry_otlp` and `tracing_subscriber`.
use secure_net.Base.{String, Option, List}
use secure_net.Base.Result.{Result}

pub record Otel : Type 1 where
  pub Tracer : Type 0
  pub EnvFilter : Type 0
  -- The endpoint, and the value of the resource's `service.name`.
  pub install_batch : String → String → Result Tracer String
  pub try_from_default_env : Result EnvFilter String
  pub new_filter : String → EnvFilter

-- `TraceContextPropagator`: the pairs that it sets on a carrier, in order, and what it makes of a
-- carrier that it can read by key.
pub record Propagator : Type 1 where
  pub Context : Type 0
  pub inject : Context → List (String × String)
  pub extract : (String → Option String) → List String → Context
