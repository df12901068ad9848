-- ===== src/External/Http.antt =====
-- The header map of the `http` crate.
use secure_net.Base.{String, Option, some, ◌≡◌, ◌==◌, text_eq, if◌then◌else◌}
use secure_net.Base.Result.{Result, ok}

pub record Http : Type 1 where
  pub HeaderMap : Type 0
  pub HeaderValue : Type 0
  pub get : HeaderMap → String → Option HeaderValue
  -- Replaces every value of the name.
  pub insert : HeaderMap → String → HeaderValue → HeaderMap
  pub to_str : HeaderValue → Result String String
  -- `str::parse::<HeaderValue>`
  pub parse : String → Result HeaderValue String
  pub get-insert :
      (m : HeaderMap) (k j : String) (v : HeaderValue)
      → get (insert m k v) j ≡ (if k == j then some v else get m j)
  pub to_str-parse : (s : String) (v : HeaderValue) → parse s ≡ ok v → to_str v ≡ ok s
