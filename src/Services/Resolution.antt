-- ===== src/Services/Resolution.antt =====
-- An order is answered with its user; the user service stands behind the order service.
use secure_net.Base.{
  ℕ, ◌≡◌, ◌↔◌, ◌⊎◌, inl, inr, sym, ap, ◌∙◌, String, ◌<>◌, true, Option, none, some, arith,
  strip_prefix, strip_prefix-append, Option-cases, nat_eq,
}
use secure_net.Base.Result.{Result, ok, err, Result-cases}
use secure_net.Base.HashMap.{get, insert, remove}
use secure_net.External.Reqwest.{HttpResponse, Get, is_success}
use secure_net.External.UuidText.{UuidText}
use secure_net.Shared.Models.{User, Order, Uuid}
use secure_net.Services.Users
use secure_net.Services.Users.{get_user, seed_users, get_user_by_id, found_user, bad_path}
use secure_net.Services.Orders
use secure_net.Services.Orders.{get_order, user_url, seed_orders}

-- The users that the seeded orders name.
pub seeded_users :
    (id : Uuid) (order : Order)
    → get id seed_orders ≡ some order
    → (user : User) × (get order.user_id seed_users ≡ some user) × (user.id ≡ order.user_id)
unfolding seed_orders seed_users get insert remove
seeded_users id order found =
    let named : (order.user_id ≡ 113059749145936325402354257176981405697)
        ⊎ (order.user_id ≡ 113059749145936325402354257176981405698) =
      ground arith in
    elim named [
      | inl alice ↦ (
        record {
          id = 113059749145936325402354257176981405697;
          name = "Alice Chen";
          email = "alice@securenet.dev";
        },
        ground arith,
        ground arith,
      )
      | inr bob ↦ (
        record {
          id = 113059749145936325402354257176981405698;
          name = "Bob Santos";
          email = "bob@securenet.dev";
        },
        ground arith,
        ground arith,
      )
    ]

module _ (uuid : UuidText) where
  -- An order is answered exactly if it is stored and the user service answers the request for its
  -- user with a success status and a user: it is that order with that user.
  pub get_order_iff :
      (state : Orders.AppState) (fetch : Get User) (id : Uuid) (order : Order) (user : User)
      → (get_order uuid state fetch id ≡ ok (record { order = order; user = user })) ↔ (
          (get id state.orders ≡ some order)
          × ((response : HttpResponse User) × (fetch (user_url uuid state order) ≡ ok response)
              × (is_success response.status ≡ true)
              × (response.json ≡ ok user)))
  unfolding get_order
  get_order_iff state fetch id order user = elim (Option-cases (get id state.orders)) [
    | inl absent ↦ (λ h. absurd (ground arith), λ h. absurd (ground arith))
    | inr (o, found) ↦ elim (Result-cases (fetch (user_url uuid state o))) [
      | inr (e, failed) ↦
          (λ h. absurd (ground arith), λ (found', (resp, answered, _, _)). absurd (ground arith))
      | inl (resp, answered) ↦ (
        λ h. (ground arith, (resp, ground arith, ground arith, ground arith)),
        λ (found', (resp', answered', success, parsed)). ground arith,
      )
    ]
  ]

  -- An error is 404 exactly if the order is not stored, and 502 otherwise.
  pub get_order_error :
      (state : Orders.AppState) (fetch : Get User) (id : Uuid) (status : ℕ)
      → get_order uuid state fetch id ≡ err status
      → ((status ≡ 404) × (get id state.orders ≡ none))
        ⊎ ((status ≡ 502) × ((order : Order) × (get id state.orders ≡ some order)))
  unfolding get_order
  get_order_error state fetch id status h = elim (Option-cases (get id state.orders)) [
    | inl absent ↦ inl (ground arith, absent)
    | inr (o, found) ↦ elim (Result-cases (fetch (user_url uuid state o))) [
      | inr (e, failed) ↦ inr (ground arith, (o, found))
      | inl (resp, answered) ↦ inr (ground arith, (o, found))
    ]
  ]

-- The version is that of the user service's crate.
module _ (uuid : UuidText) (version : String) where
  -- How the user service answers: `Json` is a 200 with the value, and a bare status has no body.
  abbrev reply : Users.Reply → HttpResponse User
  reply (found_user (ok user)) = record { status = 200; text = err "not read"; json = ok user }
  reply (found_user (err status)) = record { status = status; text = ok ""; json = err "empty" }
  reply bad_path = record { status = 400; text = ok ""; json = err "not a UUID" }
  reply _ = record { status = 200; text = err "not read"; json = err "not a user" }

  abbrev answer : Option String → Users.AppState → Result (HttpResponse User) String
  answer none users = err "no such route"
  answer (some text) users = ok (reply (Users.handle uuid version users (get_user_by_id text)))

  -- What follows the base and the route's own part.
  abbrev route : String → String → Option String
  route base url = elim (strip_prefix base url) [
    | none ↦ none
    | some path ↦ strip_prefix "/users/" path
  ]

  -- The route /users/:id of the user service at a base URL.
  unfoldable pub user_service : String → Users.AppState → Get User
  user_service base users url = answer (route base url) users

  -- With the user service behind it the order service answers an order with the user whose id the
  -- order names, 404 if there is no such order, and 502 if there is no such user.
  pub get_order-user_service :
      (state : Orders.AppState) (users : Users.AppState) (id : Uuid)
      → get_order uuid state (user_service state.user_svc_url users) id
        ≡ elim (get id state.orders) [
          | none ↦ err 404
          | some order ↦ elim (get order.user_id users.users) [
            | none ↦ err 502
            | some user ↦ ok (record { order = order; user = user })
          ]
        ]
  unfolding get_order user_service get_user Users.handle
  get_order-user_service state users id = elim (Option-cases (get id state.orders)) [
    | inl absent ↦ ground arith
    | inr (order, found) ↦ ground (
      arith,
      strip_prefix-append state.user_svc_url ("/users/" <> uuid.show order.user_id),
      strip_prefix-append "/users/" (uuid.show order.user_id),
      uuid.parse-show order.user_id,
      Option-cases (get order.user_id users.users),
    )
  ]

  -- Every order that the order service starts with is answered with a user that the user service
  -- starts with, the one whose id the order names.
  pub seed_orders_resolve :
      (state : Orders.AppState) (serial : String) (id : Uuid) (order : Order)
      → state.orders ≡ seed_orders
      → get id state.orders ≡ some order
      → (user : User) × (get_order uuid state
            (user_service state.user_svc_url (Users.initial serial))
            id
          ≡ ok (record { order = order; user = user }))
        × (user.id ≡ order.user_id)
  seed_orders_resolve state serial id order seeded found =
      let total = get_order-user_service state (Users.initial serial) id in
      let (user, stored, same) = seeded_users id order (ap (get id) (sym seeded) ∙ found) in
      (user, ground (arith, total, found, stored), same)
