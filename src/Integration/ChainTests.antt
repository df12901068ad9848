-- ===== src/Integration/ChainTests.antt =====
-- An order that is asked for through the gateway.
use secure_net.Base.{
  ℕ, ◌≡◌, refl, String, false, [], ◌∷◌, nat_eq, text_eq, strip_prefix, join_comma,
}
use secure_net.Base.Result.{ok}
use secure_net.Base.HashMap.{HashMap, get, insert, remove}
use secure_net.Samples.SampleJson.{sample_json, Tree, str, obj, entry, end}
use secure_net.Samples.SampleHttp.{sample_http}
use secure_net.Samples.SampleJwt
use secure_net.Samples.SampleJwt.{sample_jwt, sample_bcrypt}
use secure_net.Samples.SampleUuid.{sample_uuid}
use secure_net.Shared.Models.{Order, OrderWithUser}
use secure_net.Services.Users
use secure_net.Services.Orders
use secure_net.Services.Resolution.{user_service}
use secure_net.Gateway.Jwt.{validate}
use secure_net.Gateway.Middleware.{header_text, admit}
use secure_net.Gateway.Proxy.{Deps, AppState, order, get_target, proxied, handle}
use secure_net.Integration.Chain.{order_service, resolved, parse_failure, order_through_gateway}

abbrev libraries : Deps
libraries = record {
  json = sample_json;
  http = sample_http;
  jwt = sample_jwt;
  bcrypt = sample_bcrypt;
}

abbrev state : AppState libraries
state = record {
  jwt_keys = record { encoding = tt; decoding = tt };
  user_store = [];
  user_svc_url = "https://users";
  order_svc_url = "https://orders";
  cert_serial = "0000000000000001";
}

abbrev headset : Order
headset = record { id = 5; user_id = 2; item = "Headset"; qty = 1 }

abbrev orders : Orders.AppState
orders = record { orders = (5, headset) ∷ []; user_svc_url = "https://users"; cert_serial = "01" }

abbrev users : Users.AppState
users = record {
  users = (2, record { id = 2; name = "Bob"; email = "bob@securenet.dev" }) ∷ [];
  cert_serial = "02";
  sealed = false;
}

abbrev print : OrderWithUser → Tree
print found = obj (entry "item" (str found.order.item) (entry "name" (str found.user.name) end))

abbrev headers : HashMap String String
headers = ("authorization", "Bearer II") ∷ []

abbrev passed_on : HashMap String String
passed_on = ("x-user-roles", "user") ∷ ("x-user-id", "alice") ∷ ("authorization", "Bearer II") ∷ []

admitted : admit sample_jwt sample_http state.jwt_keys 100 headers ≡ ok passed_on
unfolding admit header_text validate strip_prefix join_comma get insert remove SampleJwt.decode
admitted = refl

order_through_gateway_example :
    handle libraries {W = ℕ} state 100
      (order_service libraries sample_uuid "0.1.0" print "https://orders" orders
        (user_service sample_uuid "0.1.0" "https://users" users))
      headers
      (get_target (order (sample_uuid.show 6)))
      0
    ≡ (proxied (resolved libraries sample_uuid "0.1.0" print orders users 6), 0)
order_through_gateway_example =
    order_through_gateway libraries sample_uuid "0.1.0" print state orders users 100 headers
      passed_on 6 0 admitted

missing :
    resolved libraries sample_uuid "0.1.0" print orders users 6
    ≡ parse_failure libraries sample_uuid "0.1.0" print
unfolding get
missing = refl
