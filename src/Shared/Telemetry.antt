-- ===== src/Shared/Telemetry.antt =====
-- shared/src/telemetry.rs: the subscriber of a process, and the trace context in the headers of a
-- request.
pub mod Laws
use secure_net.Base.{String, Bool, true, Option, none, some, List, [], ◌∷◌}
use secure_net.Base.Result.{Result, ok, err, to_option}
use secure_net.External.Http.{Http}
use secure_net.External.Otel.{Otel, Propagator}

module _ (otel : Otel) where
  pub record FmtLayer : Type 0 where
    pub json : Bool
    pub current_span : Bool
    pub span_list : Bool

  pub record Subscriber : Type 0 where
    pub filter : otel.EnvFilter
    pub fmt : FmtLayer
    pub otel_layer : Option otel.Tracer

  -- What the call comes to: an error, a panic, or the subscriber of the process.
  pub data Init : Type 0 where
    failed : String → Init
    panicked : Init
    installed : Subscriber → Init

  unfoldable pub otel_layer : String → Option String → Result (Option otel.Tracer) String
  otel_layer service_name none = ok none
  otel_layer service_name (some endpoint) = elim (otel.install_batch endpoint service_name) [
    | ok tracer ↦ ok (some tracer)
    | err e ↦ err e
  ]

  abbrev filter : Result otel.EnvFilter String → otel.EnvFilter
  filter (ok f) = f
  filter (err _) = otel.new_filter "info"

  -- `init()` panics if the process has a subscriber.
  init : Option Subscriber → Subscriber → Init
  init (some _) s = panicked
  init none s = installed s

  -- The first argument is the subscriber that the process has.
  unfoldable pub init_telemetry : Option Subscriber → String → Option String → Init
  unfolding init otel_layer
  init_telemetry current service_name jaeger_endpoint =
      elim (otel_layer service_name jaeger_endpoint) [
        | err e ↦ failed e
        | ok layer ↦ init current (record {
          filter = filter otel.try_from_default_env;
          fmt = record { json = true; current_span = true; span_list = true };
          otel_layer = layer;
        })
      ]

-- `header_name` is `HeaderName::from_bytes`.
module _ (http : Http) (header_name : String → Result String String) (p : Propagator) where
  insert_value : http.HeaderMap → String → Result http.HeaderValue String → http.HeaderMap
  insert_value headers name (ok value) = http.insert headers name value
  insert_value headers name (err _) = headers

  -- `HeaderMapCarrier::set`: a pair that is no header is dropped.
  unfoldable pub set : http.HeaderMap → String → String → http.HeaderMap
  unfolding insert_value
  set headers key value = elim (header_name key) [
    | ok name ↦ insert_value headers name (http.parse value)
    | err _ ↦ headers
  ]

  abbrev pub set_all : List (String × String) → http.HeaderMap → http.HeaderMap
  set_all [] headers = headers
  set_all ((key, value) ∷ rest) headers = set_all rest (set headers key value)

  -- The context is that of the current span.
  unfoldable pub inject_context : p.Context → http.HeaderMap → http.HeaderMap
  unfolding set
  inject_context cx headers = set_all (p.inject cx) headers

  -- `AxumHeaderCarrier::get`
  unfoldable pub get : http.HeaderMap → String → Option String
  get headers key = elim (http.get headers key) [
    | none ↦ none
    | some value ↦ to_option (http.to_str value)
  ]

  -- `keys` gives the names of a header map.
  module _ (keys : http.HeaderMap → List String) where
    unfoldable pub extract_context : http.HeaderMap → p.Context
    unfolding get
    extract_context headers = p.extract (get headers) (keys headers)

    -- `trace_middleware` of api-gateway/src/middleware.rs: the parent of the span, and the answer.
    unfoldable pub trace_middleware :
        {R : Type 0} → (http.HeaderMap → R) → http.HeaderMap → p.Context × R
    unfolding extract_context
    trace_middleware next headers = (extract_context headers, next headers)
