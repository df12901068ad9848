-- ===== src/External/Reqwest.antt =====
-- The `reqwest` client: a request gives a response or the text of an error.
use secure_net.Base.{ℕ, String, Bool, ◌&&◌, leb, ltb}
use secure_net.Base.Result.{Result}

pub record HttpResponse (V : Type 0) : Type 0 where
  pub status : ℕ
  -- `.text()` and `.json()` of the body
  pub text : Result String String
  pub json : Result V String

abbrev pub is_success : ℕ → Bool
is_success status = leb 200 status && ltb status 300

-- A GET of a URL.
abbrev pub Get : Type 0 → Type 0
Get V = String → Result (HttpResponse V) String

-- The same with the world that the request changes.
abbrev pub Fetch : Type 0 → Type 0 → Type 0
Fetch V W = String → W → Result (HttpResponse V) String × W
