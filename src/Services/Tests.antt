-- ===== src/Services/Tests.antt =====
-- The backend services at concrete orders.
use secure_net.Base.{◌≡◌, refl, false, [], ◌∷◌, nat_eq, text_eq}
use secure_net.Base.Result.{err}
use secure_net.Base.HashMap.{get}
use secure_net.Samples.SampleUuid.{sample_uuid}
use secure_net.Shared.Models.{User, Order}
use secure_net.Services.Users
use secure_net.Services.Users.{seed_users, get_user}
use secure_net.Services.Orders
use secure_net.Services.Orders.{get_order, user_url, seed_orders, orders}
use secure_net.Services.Resolution.{user_service}

abbrev order : Order
order = record { id = 5; user_id = 2; item = "Headset"; qty = 1 }

abbrev user : User
user = record { id = 2; name = "Bob"; email = "bob@securenet.dev" }

abbrev state : Orders.AppState
state = record { orders = (5, order) ∷ []; user_svc_url = "https://users"; cert_serial = "01" }

abbrev users : Users.AppState
users = record { users = (2, user) ∷ []; cert_serial = "02"; sealed = false }

absent :
    get_order sample_uuid state (user_service sample_uuid "0.1.0" "https://users" users) 6 ≡ err 404
unfolding get_order get
absent = refl
