-- ===== src/Integration/SystemTests.antt =====
-- Three services that start in development, and a user who fetches an order through them.
use secure_net.Base.{ℕ, String, ◌*◌, true, false, nat_eq, text_eq, [], ◌∷◌, trim, join_comma}
use secure_net.Base.Result.{ok}
use secure_net.Base.HashMap.{HashMap, get, insert, remove}
use secure_net.External.Jsonwebtoken.{Rsa}
use secure_net.Samples.SampleHex.{encode, decode}
use secure_net.Samples.SampleJson.{sample_json, Tree, str, obj, entry, end, field}
use secure_net.Samples.SampleHttp.{sample_http}
use secure_net.Samples.SampleJwt
use secure_net.Samples.SampleJwt.{sample_jwt, sample_bcrypt}
use secure_net.Samples.SampleRustls.{sample_rustls}
use secure_net.Shared.Models.{
  CertBundle, DateTime, Order, OrderWithUser, TokenResponse, nanos_per_sec, ttl_secs,
}
use secure_net.Shared.Attestation.{machine_id}
use secure_net.Shared.Exchange.{Transport}
use secure_net.Shared.Identity.{unseal}
use secure_net.Shared.Tls.{
  server_config, gateway_server_config, client_config, build_root_store, parse_cert_chain,
  parse_private_key,
}
use secure_net.Shared.Rotation.{RotatingTlsConfig, Rotation, config_for, new, new_gateway}
use secure_net.Shared.Boot.{run, run_gateway, mtls_client}
use secure_net.Shared.Startup.{var_or, telemetry, listen_addr, started}
use secure_net.Shared.Telemetry.{init_telemetry}
use secure_net.Services.Users
use secure_net.Services.Orders.{seed_orders}
use secure_net.Services.Startup
use secure_net.Services.Startup.{OrderServer, user_server, order_server, start_user, start_order}
use secure_net.Gateway.Jwt.{seeded, load_or_generate, generate_ephemeral, authenticate, sign}
use secure_net.Gateway.Middleware.{header_text}
use secure_net.Gateway.Proxy.{Deps, order, auth_token}
use secure_net.Gateway.Startup.{StartDraws, GatewayServer, gateway_server, start_gateway}

program : Unit {0}
unfolding unseal new new_gateway run run_gateway config_for encode decode field machine_id trim
    server_config gateway_server_config client_config build_root_store parse_cert_chain
    parse_private_key mtls_client var_or telemetry listen_addr started init_telemetry seeded
    load_or_generate generate_ephemeral authenticate sign header_text auth_token gateway_server
    start_gateway user_server order_server start_user start_order get insert remove join_comma
    SampleJwt.encode SampleJwt.decode ttl_secs
program = tt

abbrev libraries : Deps
libraries = record {
  json = sample_json;
  http = sample_http;
  jwt = sample_jwt;
  bcrypt = sample_bcrypt;
}

abbrev bundle : CertBundle
bundle = record {
  cert_pem = "LEAF";
  key_pem = "KEY";
  ca_pem = "CA";
  expires_at = 300 * nanos_per_sec;
  serial = "0000000000000001";
}

abbrev granting : Transport Tree DateTime
granting = record {
  get = λ url now. (
    ok (record { status = 200; text = ok ""; json = ok (obj (entry "nonce" (str "0102") end)) }),
    now,
  );
  post = λ url req now.
      (ok (record { status = 200; text = ok ""; json = ok (record { bundle = bundle }) }), now);
}

abbrev rsa : Rsa
rsa = record {
  PrivateKey = ℕ;
  generate = ok;
  private_pem = λ key. ok (key ∷ []);
  public_pem = λ key. ok (key ∷ []);
}

abbrev draws : StartDraws
draws = record { keys = 5; alice_salt = 1; admin_salt = 2 }

abbrev gateway : GatewayServer libraries sample_rustls rsa
gateway = record {
  state = record {
    jwt_keys = record { encoding = tt; decoding = tt };
    user_store =
        ("admin", ("admin123", "user" ∷ "admin" ∷ [])) ∷ ("alice", ("hunter2", "user" ∷ [])) ∷ [];
    user_svc_url = "https://localhost:8001";
    order_svc_url = "https://localhost:8002";
    cert_serial = "0000000000000001";
  };
  mtls_client = ("CA" ∷ [], "LEAFCA" ∷ []);
  tls_config = record { inner = ([], "LEAF" ∷ []); serial = "0000000000000001"; is_gateway = true };
  rotation = record {
    config = record { inner = ([], "LEAF" ∷ []); serial = "0000000000000001"; is_gateway = true };
    ttl = 299;
  };
  addr = "0.0.0.0:8080";
}

abbrev config : RotatingTlsConfig sample_rustls
config = record {
  inner = ("CA" ∷ [], "LEAF" ∷ []);
  serial = "0000000000000001";
  is_gateway = false;
}

abbrev rotation : Rotation sample_rustls
rotation = record { config = config; ttl = 299 }

abbrev user_service_server : Startup.Server sample_rustls Users.AppState
user_service_server = record {
  state = Users.initial "0000000000000001";
  tls_config = config;
  rotation = rotation;
  addr = "0.0.0.0:8001";
}

abbrev order_service_server : OrderServer sample_rustls
order_service_server = record {
  server = record {
    state = record {
      orders = seed_orders;
      user_svc_url = "https://localhost:8001";
      cert_serial = "0000000000000001";
    };
    tls_config = config;
    rotation = rotation;
    addr = "0.0.0.0:8002";
  };
  mtls_client = ("CA" ∷ [], "LEAFCA" ∷ []);
}

abbrev headers : HashMap String String
headers = ("authorization", "Bearer II") ∷ []

abbrev response : TokenResponse
response = record { access_token = "II"; token_type = "Bearer"; expires_in = 3600 }

abbrev implant : Order
implant = record {
  id = 135656625074279895241718977201747263489;
  user_id = 113059749145936325402354257176981405697;
  item = "Neuralink N1 Implant";
  qty = 1;
}

abbrev print : OrderWithUser → Tree
print found = obj (entry "item" (str found.order.item) (entry "name" (str found.user.name) end))
