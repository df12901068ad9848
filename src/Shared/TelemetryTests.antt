-- ===== src/Shared/TelemetryTests.antt =====
-- A trace context over headers.
use secure_net.Base.{String, Option, none, some, List, [], ◌∷◌, text_eq}
use secure_net.Base.HashMap.{HashMap, keys}
use secure_net.External.Otel.{Propagator}

abbrev or_none : Option String → String
or_none none = "none"
or_none (some s) = s

-- A trace, and the state that goes with it.
abbrev propagator : Propagator
propagator = record {
  Context = String × String;
  inject = λ (trace, state). ("traceparent", trace) ∷ ("tracestate", state) ∷ [];
  extract = λ read names. (or_none (read "traceparent"), or_none (read "tracestate"));
}

abbrev names : HashMap String String → List String
names = keys
