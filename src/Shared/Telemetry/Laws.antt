-- ===== src/Shared/Telemetry/Laws.antt =====
-- A trace context goes over in the headers of a request.
use secure_net.Base.{String, some, List, [], ◌∷◌, ◌≡◌, ◌≢◌, All, text_eq}
use secure_net.Base.Result.{Result, ok}
use secure_net.External.Http.{Http}
use secure_net.External.Otel.{Propagator}
use secure_net.Shared.Telemetry.{get}

module _ (http : Http) (header_name : String → Result String String) (p : Propagator) where
  -- A pair that is a header as it stands.
  abbrev pub IsHeader : String × String → Type 0
  IsHeader (key, value) =
      (header_name key ≡ ok key) × ((v : http.HeaderValue) × (http.parse value ≡ ok v))

  -- No two pairs have the same key.
  abbrev pub HasDistinctKeys : List (String × String) → Type 0
  HasDistinctKeys [] = Unit
  HasDistinctKeys ((key, _) ∷ rest) = All (λ other. other.0 ≢ key) rest × HasDistinctKeys rest

  Reads : http.HeaderMap → List (String × String) → Type 0
  Reads headers pairs = All (λ pair. get http header_name p headers pair.0 ≡ some pair.1) pairs
