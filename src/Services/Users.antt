-- ===== src/Services/Users.antt =====
-- user-service/src/main.rs: the users and the handlers. The UUIDs are written as numbers.
use secure_net.Base.{ℕ, String, Bool, false, Option, none, some, List, [], ◌∷◌, nat_eq}
use secure_net.Base.Result.{Result, ok_or}
use secure_net.Base.HashMap.{HashMap, get, insert, values}
use secure_net.External.UuidText.{UuidText}
use secure_net.Shared.Models.{User, Uuid, HealthResponse}

-- 550e8400-e29b-41d4-a716-446655440001, …002 and …003
abbrev pub users : List User
users =
    record {
      id = 113059749145936325402354257176981405697;
      name = "Alice Chen";
      email = "alice@securenet.dev";
    }
    ∷ record {
      id = 113059749145936325402354257176981405698;
      name = "Bob Santos";
      email = "bob@securenet.dev";
    }
    ∷ record {
      id = 113059749145936325402354257176981405699;
      name = "Carol White";
      email = "carol@securenet.dev";
    }
    ∷ []

abbrev insert_users : List User → HashMap Uuid User → HashMap Uuid User
insert_users [] m = m
insert_users (u ∷ us) m = insert_users us (insert u.id u m)

unfoldable pub seed_users : HashMap Uuid User
seed_users = insert_users users []

pub record AppState : Type 0 where
  pub users : HashMap Uuid User
  pub cert_serial : String
  pub sealed : Bool

-- The state that `main` makes of the first bundle's serial number.
abbrev pub initial : String → AppState
initial serial = record { users = seed_users; cert_serial = serial; sealed = false }

-- The error is a bare status.
unfoldable pub get_user : AppState → Uuid → Result User ℕ
get_user state id = ok_or 404 (get id state.users)

unfoldable pub list_users : AppState → List User
list_users state = values state.users

-- The version is the crate's.
unfoldable pub health : String → AppState → HealthResponse
health version state = record {
  status = "ok";
  service = "user-service";
  version = version;
  sealed = state.sealed;
  cert_serial = some state.cert_serial;
}

pub data Request : Type 0 where
  get_user_by_id : String → Request
  get_users : Request
  get_health : Request

pub data Reply : Type 0 where
  -- `Path<Uuid>` refuses a text that is no UUID with 400.
  bad_path : Reply
  found_user : Result User ℕ → Reply
  user_list : List User → Reply
  status : HealthResponse → Reply

abbrev pub by_uuid : AppState → Option Uuid → Reply
by_uuid state none = bad_path
by_uuid state (some id) = found_user (get_user state id)

-- The router.
unfoldable pub handle : UuidText → String → AppState → Request → Reply
unfolding list_users health
handle uuid version state (get_user_by_id text) = by_uuid state (uuid.parse text)
handle uuid version state get_users = user_list (list_users state)
handle uuid version state get_health = status (health version state)
