-- ===== src/Gateway/Tests.antt =====
-- A concrete gateway, and the theorems of this component at concrete requests.
use secure_net.Base.{
  suc, ◌≢◌, ℕ, ◌≡◌, refl, String, ◌<>◌, some, [], ◌∷◌, arith, text_eq, strip_prefix, join_comma,
}
use secure_net.Base.Result.{ok, err}
use secure_net.Base.HashMap.{HashMap, get, insert, remove}
use secure_net.External.Reqwest.{Fetch}
use secure_net.Shared.Errors.{status_code}
use secure_net.Shared.Models.{LoginRequest, TokenResponse}
use secure_net.Samples.SampleJson.{sample_json, Tree, str}
use secure_net.Samples.SampleHttp.{sample_http}
use secure_net.Samples.SampleJwt.{sample_jwt, sample_bcrypt, encode, decode}
use secure_net.Gateway.Jwt.{JwtKeys, UserStore, seeded, authenticate, sign, validate}
use secure_net.Gateway.Middleware.{header_text, admit, jwt_middleware}
use secure_net.Gateway.Middleware.Laws.{IsAdmitted}
use secure_net.Gateway.Proxy.{
  Deps, AppState, Target, users, orders, get_target, proxy_get, target_url, proxy, auth_token,
  handle,
}
use secure_net.Gateway.Proxy.Laws.{relayed, handle_asks, handle_same_for_all, handle-auth_token}

program : Unit {0}
unfolding admit seeded authenticate sign validate header_text jwt_middleware proxy_get target_url
    proxy auth_token handle encode decode strip_prefix join_comma get insert remove status_code
program = tt

abbrev libraries : Deps
libraries = record {
  json = sample_json;
  http = sample_http;
  jwt = sample_jwt;
  bcrypt = sample_bcrypt;
}

abbrev keys : JwtKeys sample_jwt
keys = record { encoding = tt; decoding = tt }

abbrev store : UserStore
store = ("admin", ("admin123", "user" ∷ "admin" ∷ [])) ∷ ("alice", ("hunter2", "user" ∷ [])) ∷ []

seeded-store : seeded sample_bcrypt 1 2 ≡ some store
unfolding program
seeded-store = refl

abbrev state : AppState libraries
state = record {
  jwt_keys = keys;
  user_store = store;
  user_svc_url = "http://users";
  order_svc_url = "http://orders";
  cert_serial = "0000000000000001";
}

-- The world counts the requests to other services.
abbrev upstream : Fetch Tree ℕ
upstream url n = (ok (record { status = 200; text = ok url; json = ok (str url) }), suc n)

abbrev failing : Fetch Tree ℕ
failing url n = (ok (record { status = 404; text = ok url; json = ok (str "NOT_FOUND") }), suc n)

abbrev login : LoginRequest
login = record { username = "alice"; password = "hunter2" }

abbrev wrong : LoginRequest
wrong = record { username = "alice"; password = "hunter3" }

-- The sample token of second 2.
abbrev headers : HashMap String String
headers = ("authorization", "Bearer II") ∷ ("accept", "json") ∷ ("x-user-roles", "admin") ∷ []

abbrev later_headers : HashMap String String
later_headers = ("authorization", "Bearer III") ∷ []

abbrev passed_on : HashMap String String
passed_on =
    ("x-user-roles", "user")
    ∷ ("x-user-id", "alice")
    ∷ ("authorization", "Bearer II")
    ∷ ("accept", "json")
    ∷ []

abbrev response : TokenResponse
response = record { access_token = "II"; token_type = "Bearer"; expires_in = 3600 }

signed : sign sample_jwt keys "alice" ("user" ∷ []) 2 ≡ ok "II"
unfolding program
signed = refl

passed : jwt_middleware sample_jwt sample_http keys 100 (λ h. h) headers ≡ ok passed_on
unfolding program
passed = refl

bearer : header_text sample_jwt sample_http headers "authorization" ≡ some ("Bearer " <> "II")
unfolding program
bearer = refl

not_found_reply : (proxy_get libraries failing "u" 0).0 ≡ err (404, str "NOT_FOUND")
unfolding program
not_found_reply = refl

asked : (handle libraries state 100 upstream headers (get_target users) 0).1 ≢ 0
unfolding program
asked h = cc

handle_asks_example :
    (target : Target libraries) × (headers' : HashMap String String) × (get_target users
      ≡ get_target target)
    × IsAdmitted sample_jwt sample_http keys 100 headers headers'
    × (handle libraries state 100 upstream headers (get_target users) 0
        ≡ relayed libraries upstream state target 0)
handle_asks_example = handle_asks libraries upstream state 100 headers (get_target users) 0 asked

admitted : admit sample_jwt sample_http keys 100 headers ≡ ok passed_on
unfolding program
admitted = refl

abbrev later_passed_on : HashMap String String
later_passed_on =
    ("x-user-roles", "user") ∷ ("x-user-id", "alice") ∷ ("authorization", "Bearer III") ∷ []

admitted_later : admit sample_jwt sample_http keys 200 later_headers ≡ ok later_passed_on
unfolding program
admitted_later = refl

handle_same_for_all_example :
    handle libraries state 100 upstream headers (get_target users) 0
    ≡ handle libraries state 200 upstream later_headers (get_target users) 0
handle_same_for_all_example =
    handle_same_for_all libraries upstream state 100 200 headers later_headers passed_on
      later_passed_on users 0 admitted admitted_later

known : authenticate sample_bcrypt store "alice" "hunter2" ≡ some ("user" ∷ [])
unfolding program
known = refl

given : auth_token libraries state 2 login ≡ ok response
unfolding program
given = refl

joined : sample_http.parse (join_comma ("user" ∷ [])) ≡ ok "user"
unfolding join_comma
joined = refl

handle-auth_token_example :
    handle libraries state 3600 upstream headers (get_target orders) 0
    ≡ relayed libraries upstream state orders 0
handle-auth_token_example =
    handle-auth_token libraries upstream state 2 3600 headers login response ("user" ∷ []) orders 0
      "alice" "user" tt known given (omega arith) bearer refl joined
