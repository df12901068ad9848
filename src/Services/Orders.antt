-- ===== src/Services/Orders.antt =====
-- order-service/src/main.rs: the orders and the handlers. The UUIDs are written as numbers.
use secure_net.Base.{
  ℕ, String, ◌<>◌, false, some, List, [], ◌∷◌, not, if◌then◌else◌, nat_eq, Option, none,
}
use secure_net.Base.Result.{Result, ok, err, ok_or, map_err, ◌>>=◌}
use secure_net.Base.HashMap.{HashMap, get, insert, values}
use secure_net.External.Reqwest.{HttpResponse, Get, is_success}
use secure_net.External.UuidText.{UuidText}
use secure_net.Shared.Models.{User, Order, OrderWithUser, Uuid, HealthResponse}

-- 660e8400-e29b-41d4-a716-446655440001 and …002, of users 550e8400-e29b-41d4-a716-446655440001 and …002
abbrev pub orders : List Order
orders =
    record {
      id = 135656625074279895241718977201747263489;
      user_id = 113059749145936325402354257176981405697;
      item = "Neuralink N1 Implant";
      qty = 1;
    }
    ∷ record {
      id = 135656625074279895241718977201747263490;
      user_id = 113059749145936325402354257176981405698;
      item = "Neural Interface Headset";
      qty = 2;
    }
    ∷ []

abbrev insert_orders : List Order → HashMap Uuid Order → HashMap Uuid Order
insert_orders [] m = m
insert_orders (o ∷ os) m = insert_orders os (insert o.id o m)

unfoldable pub seed_orders : HashMap Uuid Order
seed_orders = insert_orders orders []

-- The client of outbound calls is the `Get` of the handlers.
pub record AppState : Type 0 where
  pub orders : HashMap Uuid Order
  pub user_svc_url : String
  pub cert_serial : String

-- The response of the user service, or a bare status.
abbrev pub accept_user : HttpResponse User → Result User ℕ
accept_user response =
    if not (is_success response.status) then err 502 else map_err (λ _. 502) response.json

unfoldable pub user_url : UuidText → AppState → Order → String
user_url uuid state order = state.user_svc_url <> ("/users/" <> uuid.show order.user_id)

unfoldable pub get_order : UuidText → AppState → Get User → Uuid → Result OrderWithUser ℕ
unfolding user_url
get_order uuid state fetch id = do
  order ← ok_or 404 (get id state.orders)
  response ← map_err (λ _. 502) (fetch (user_url uuid state order))
  user ← accept_user response
  ok (record { order = order; user = user })

unfoldable pub list_orders : AppState → List Order
list_orders state = values state.orders

-- The version is the crate's.
unfoldable pub health : String → AppState → HealthResponse
health version state = record {
  status = "ok";
  service = "order-service";
  version = version;
  sealed = false;
  cert_serial = some state.cert_serial;
}

pub data Request : Type 0 where
  get_order_by_id : String → Request
  get_orders : Request
  get_health : Request

pub data Reply : Type 0 where
  -- `Path<Uuid>` refuses a text that is no UUID with 400.
  bad_path : Reply
  found_order : Result OrderWithUser ℕ → Reply
  order_list : List Order → Reply
  status : HealthResponse → Reply

abbrev pub by_uuid : UuidText → AppState → Get User → Option Uuid → Reply
by_uuid uuid state fetch none = bad_path
by_uuid uuid state fetch (some id) = found_order (get_order uuid state fetch id)

-- The router.
unfoldable pub handle : UuidText → String → AppState → Get User → Request → Reply
unfolding list_orders health
handle uuid version state fetch (get_order_by_id text) = by_uuid uuid state fetch (uuid.parse text)
handle uuid version state fetch get_orders = order_list (list_orders state)
handle uuid version state fetch get_health = status (health version state)
