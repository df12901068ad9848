-- ===== src/Integration/Chain.antt =====
-- A request that goes from the gateway through the order service to the user service.
use secure_net.Base.{
  ℕ, String, ◌<>◌, ◌≡◌, Option, none, some, [], ◌∷◌, inl, inr, ap, ◌∙◌, arith, strip_prefix,
  strip_prefix-append, Option-cases, nat_eq, text_eq,
}
use secure_net.Base.Result.{Result, ok, err}
use secure_net.Base.HashMap.{get}
use secure_net.External.Reqwest.{HttpResponse, Get, Fetch}
use secure_net.External.UuidText.{UuidText}
use secure_net.Shared.Models.{OrderWithUser, User, Uuid}
use secure_net.Services.Users
use secure_net.Services.Orders
use secure_net.Services.Orders.{get_order, get_order_by_id, found_order, bad_path}
use secure_net.Services.Resolution.{user_service, get_order-user_service}
use secure_net.Gateway.Middleware.{admit}
use secure_net.Gateway.Proxy.{
  Deps, AppState, Value, order, get_target, proxied, Proxied, handle, proxy_get, target_url, relay,
}
use secure_net.Gateway.Proxy.Laws.{admitted_lem, relayed}

module _ (d : Deps) (uuid : UuidText) (version : String) (print : OrderWithUser → Value d) where
  -- How the order service answers: `Json` is a 200 with the value, and a bare status has no body.
  abbrev pub order_reply : Orders.Reply → HttpResponse (Value d)
  order_reply (found_order (ok found)) = record {
    status = 200;
    text = err "not read";
    json = ok (print found);
  }
  order_reply (found_order (err status)) = record {
    status = status;
    text = ok "";
    json = err "EOF while parsing a value";
  }
  order_reply bad_path = record {
    status = 400;
    text = ok "Invalid URL";
    json = err "expected value";
  }
  order_reply _ = record { status = 200; text = err "not read"; json = err "not an order" }

  abbrev answer :
      Orders.AppState → Get User → Option String → Result (HttpResponse (Value d)) String
  answer state fetch none = err "no such route"
  answer state fetch (some text) =
      ok (order_reply (Orders.handle uuid version state fetch (get_order_by_id text)))

  abbrev route : String → String → Option String
  route base url = elim (strip_prefix base url) [
    | none ↦ none
    | some path ↦ strip_prefix "/orders/" path
  ]

  -- The route /orders/:id of the order service at a base URL.
  unfoldable pub order_service :
      {W : Type 0} → String → Orders.AppState → Get User → Fetch (Value d) W
  order_service base state fetch url w = (answer state fetch (route base url), w)

  -- The gateway's answer where the upstream's body is empty.
  abbrev pub parse_failure : Proxied d
  parse_failure = err (
    502,
    d.json.object (
        ("error", d.json.string "PARSE_ERROR")
        ∷ ("message", d.json.string "EOF while parsing a value")
        ∷ []),
  )

  abbrev pub resolved : Orders.AppState → Users.AppState → Uuid → Proxied d
  resolved orders users id = elim (get id orders.orders) [
    | none ↦ parse_failure
    | some o ↦ elim (get o.user_id users.users) [
      | none ↦ parse_failure
      | some u ↦ ok (print (record { order = o; user = u }))
    ]
  ]

  order_service_lem :
      {W : Type 0} (base : String) (state : Orders.AppState) (fetch : Get User) (id : Uuid) (w : W)
      → order_service base state fetch (base <> ("/orders/" <> uuid.show id)) w
        ≡ (ok (order_reply (found_order (get_order uuid state fetch id))), w)
  unfolding order_service Orders.handle
  order_service_lem base state fetch id w = ground (
    arith,
    strip_prefix-append base ("/orders/" <> uuid.show id),
    strip_prefix-append "/orders/" (uuid.show id),
    uuid.parse-show id,
  )

  abbrev found : Orders.AppState → Users.AppState → Uuid → Result OrderWithUser ℕ
  found orders users id = elim (get id orders.orders) [
    | none ↦ err 404
    | some o ↦ elim (get o.user_id users.users) [
      | none ↦ err 502
      | some u ↦ ok (record { order = o; user = u })
    ]
  ]

  relay_lem :
      (url : String) (orders : Orders.AppState) (users : Users.AppState) (id : Uuid)
      → relay d url (ok (order_reply (found_order (found orders users id))))
        ≡ resolved orders users id
  unfolding relay
  relay_lem url orders users id = elim (Option-cases (get id orders.orders)) [
    | inl absent ↦ ground arith
    | inr (o, stored) ↦ elim (Option-cases (get o.user_id users.users)) [
      | inl absent ↦ ground arith
      | inr (u, known) ↦ ground arith
    ]
  ]

  -- What the gateway's request for an order leads to.
  pub relayed_order :
      {W : Type 0} (s : AppState d) (orders : Orders.AppState) (users : Users.AppState) (id : Uuid)
      (w : W)
      → relayed d
          (order_service s.order_svc_url orders
            (user_service uuid version orders.user_svc_url users))
          s
          (order (uuid.show id))
          w
        ≡ (proxied (resolved orders users id), w)
  unfolding proxy_get target_url
  relayed_order s orders users id w =
      let url = s.order_svc_url <> ("/orders/" <> uuid.show id) in
      let asked =
        order_service_lem s.order_svc_url orders
          (user_service uuid version orders.user_svc_url users) id w in
      let got = get_order-user_service uuid version orders users id in
      ap (λ (answer, w'). (proxied (relay d url answer), w'))
        (asked ∙ ap (λ r. (ok (order_reply (found_order r)), w)) got)
      ∙ ap (λ r. (proxied r, w)) (relay_lem url orders users id)

  -- A client whose token the gateway admits gets, for the id of an order, the order with its user if
  -- the order service has the order and the user service the user; otherwise it gets 502 with
  -- PARSE_ERROR, for an order that does not exist too: the 404 of the order service has no body, and
  -- the gateway reads the body before the status.
  pub order_through_gateway :
      {W : Type 0} (s : AppState d) (orders : Orders.AppState) (users : Users.AppState) (now : ℕ)
      (headers headers' : d.http.HeaderMap) (id : Uuid) (w : W)
      → admit d.jwt d.http s.jwt_keys now headers ≡ ok headers'
      → (handle d s now
          (order_service s.order_svc_url orders
            (user_service uuid version orders.user_svc_url users))
          headers
          (get_target (order (uuid.show id)))
          w)
        ≡ (proxied (resolved orders users id), w)
  order_through_gateway s orders users now headers headers' id w admitted =
      admitted_lem d
        (order_service s.order_svc_url orders (user_service uuid version orders.user_svc_url users))
        s now headers headers' (order (uuid.show id)) w admitted
      ∙ relayed_order s orders users id w
