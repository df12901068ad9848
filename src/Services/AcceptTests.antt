-- ===== src/Services/AcceptTests.antt =====
-- A user service that starts, accepts a connection during a renewal, and loses its listener.
use mathlib.Core.List.{Memᴰ}
use secure_net.Base.{
  ℕ, suc, ◌*◌, ◌≡◌, ◌≢◌, refl, subst, sym, String, false, List, [], ◌∷◌, ◌++◌, map, All, arith,
  text_eq, any, any_sound, ◌==◌, if◌then◌else◌, Bool-cases, inl, inr, trim,
}
use secure_net.Base.Result.{Result, ok, err}
use secure_net.Samples.SampleHex.{sample_hex, sample_digest, encode, decode}
use secure_net.Samples.SampleJson.{sample_json, Tree, str, obj, entry, end, field}
use secure_net.Samples.SampleRustls.{sample_rustls}
use secure_net.Samples.SampleHost.{sample_host, sample_otel}
use secure_net.Shared.Models.{CertBundle, DateTime, nanos_per_sec, ttl_secs}
use secure_net.Shared.Attestation.{machine_id}
use secure_net.Shared.Exchange.{Transport}
use secure_net.Shared.Identity.{unseal}
use secure_net.Shared.Tls.{server_config, build_root_store, parse_cert_chain, parse_private_key}
use secure_net.Shared.Rotation.{RotatingTlsConfig, Rotation, config_for, new}
use secure_net.Shared.Boot.{BootResult, run}
use secure_net.Shared.Startup.{var_or, telemetry, listen_addr, started}
use secure_net.Shared.Telemetry.{init_telemetry}
use secure_net.Services.Users
use secure_net.Services.Accept.{
  Hyper, Connection, LoopEvent, incoming, read_config, Write, inner_written, serial_written, Event,
  loop_event, write, Server, accepting, stopped, Merge, merged, from_loop, from_rotation,
  serve_mtls, swap, swaps, connection_task, loop_step, write_step, step,
}
use secure_net.Services.Accept
use secure_net.Services.Accept.Trust.{granted}
use secure_net.Services.Accept.Swaps.{accept_error_stops, swap_seen}
use secure_net.Services.Accept.Rotating.{installs, serve_mtls-installs}
use secure_net.Services.Startup
use secure_net.Services.Startup.{boot, start_user, user_server}
use secure_net.Services.Startup.Laws.{user_service_verifies}

program : Unit {0}
unfolding unseal new config_for run encode decode field machine_id trim server_config
    parse_cert_chain parse_private_key build_root_store var_or telemetry listen_addr started
    init_telemetry start_user user_server serve_mtls swap swaps connection_task loop_step write_step
    step Accept.run ttl_secs
program = tt

abbrev bundle : CertBundle
bundle = record {
  cert_pem = "LEAF";
  key_pem = "KEY";
  ca_pem = "CA";
  expires_at = 300 * nanos_per_sec;
  serial = "0000000000000001";
}

abbrev renewed : CertBundle
renewed = record bundle { cert_pem = "LEAF2"; serial = "0000000000000002" }

abbrev config : RotatingTlsConfig sample_rustls
config = record {
  inner = ("CA" ∷ [], "LEAF" ∷ []);
  serial = "0000000000000001";
  is_gateway = false;
}

abbrev rotation : Rotation sample_rustls
rotation = record { config = config; ttl = 300 }

abbrev granting : Transport Tree DateTime
granting = record {
  get = λ url now. (
    ok (record { status = 200; text = ok ""; json = ok (obj (entry "nonce" (str "0102") end)) }),
    now,
  );
  post = λ url req now.
      (ok (record { status = 200; text = ok ""; json = ok (record { bundle = bundle }) }), now);
}

-- A stream is the name of the authority behind the client's certificate.
abbrev shake : List String × List String → String → Result (Unit {0}) String
shake (roots, chain) stream =
    if any (λ id. id == stream) roots then ok tt else err "bad certificate"

abbrev hyper : Hyper (List String × List String) String
hyper = record {
  TlsStream = Unit;
  Request = Unit;
  Response = ℕ;
  empty_response = λ status. status;
  accept = shake;
  serve_connection = λ service t w. (ok tt, (service tt w).1);
}

abbrev events : List (Event sample_rustls String)
events =
    loop_event (incoming (ok ("CA", "10.0.0.7:5000")))
    ∷ write (inner_written ("CA" ∷ [], "LEAF2" ∷ []))
    ∷ loop_event read_config
    ∷ write (serial_written "0000000000000002")
    ∷ []

abbrev connection : Connection sample_rustls String
connection = record {
  stream = "CA";
  peer_addr = "10.0.0.7:5000";
  config = ("CA" ∷ [], "LEAF2" ∷ []);
}

abbrev interleaved :
    Merge sample_rustls String
      (incoming (ok ("CA", "10.0.0.7:5000")) ∷ read_config ∷ [])
      (inner_written ("CA" ∷ [], "LEAF2" ∷ []) ∷ serial_written "0000000000000002" ∷ [])
      events
interleaved = from_loop (from_rotation (from_loop (from_rotation merged)))

interleaves :
    Merge sample_rustls String
      (incoming (ok ("CA", "10.0.0.7:5000")) ∷ read_config ∷ [])
      (swaps sample_rustls String false (ok renewed ∷ []))
      events
unfolding program
interleaves = interleaved

handshake :
    (verifier chain : List String) (key : String) (c : List String × List String) (stream : String)
    (t : Unit {0})
    → ◌≡◌ {A = Result (List String × List String) String} (ok (verifier, chain)) (ok c)
    → shake c stream ≡ ok t
    → Memᴰ stream verifier
handshake verifier chain key (roots, chain') stream t made shaken =
    let same : roots ≡ verifier = cc in
    elim (Bool-cases (any (λ id. id == stream) roots)) [
      | inl known ↦ subst (λ r. Memᴰ stream r) same (any_sound stream roots known)
      | inr unknown ↦ absurd (ground arith)
    ]

abbrev server : Startup.Server sample_rustls Users.AppState
server = record {
  state = Users.initial "0000000000000001";
  tls_config = config;
  rotation = record { config = config; ttl = 299 };
  addr = "0.0.0.0:8001";
}

starts :
    (start_user sample_rustls sample_hex sample_digest sample_json sample_otel granting
      (λ now. now)
      sample_host
      (ok "m1\n")
      1000000000).0
    ≡ ok server
unfolding program
starts = refl

-- The connection of the events, which is served with the renewed certificate.
spawned : (serve_mtls sample_rustls String (ok tt) config events).connections ≡ connection ∷ []
unfolding program
spawned = refl

at : Memᴰ connection (serve_mtls sample_rustls String (ok tt) config events).connections
at = subst (λ cs. Memᴰ connection cs) (sym spawned) (Memᴰ.head refl)

abbrev counting : Unit {0} → ℕ → Result ℕ String × ℕ
counting req n = (ok 200, suc n)

counts : connection_task sample_rustls String hyper counting connection 0 ≢ 0
unfolding program
counts h = cc

user_service_verifies_example :
    (b : BootResult sample_hex sample_digest sample_json sample_rustls) × ((boot sample_rustls
        sample_hex sample_digest sample_json sample_otel granting
        (λ now. now)
        sample_host
        (ok "m1\n")
        "user-service"
        1000000000).0
      ≡ ok b)
    × ((bundle : CertBundle) × Memᴰ bundle (b.bundle ∷ granted (ok renewed ∷ []))
        × (store : List String) × (verifier : List String) × (build_root_store sample_rustls
              bundle.ca_pem
            ≡ ok store)
        × (sample_rustls.client_cert_verifier store ≡ ok verifier)
        × Memᴰ "CA" verifier)
user_service_verifies_example =
    user_service_verifies sample_rustls sample_hex sample_digest sample_json sample_otel granting
      (λ now. now) hyper (λ verifier stream. Memᴰ stream verifier) counting sample_host (ok "m1\n")
      1000000000 server (ok tt) (ok renewed ∷ []) connection 0 handshake starts interleaves at
      counts

waits : (serve_mtls sample_rustls String (ok tt) config events).phase ≡ accepting
unfolding program
waits = refl

accept_error_stops_example :
    serve_mtls sample_rustls String
      (ok tt)
      config
      (events ++ (loop_event (incoming (err "too many open files")) ∷ events))
    ≡ record (serve_mtls sample_rustls String (ok tt) config events) {
      phase = stopped "too many open files";
    }
accept_error_stops_example =
    accept_error_stops sample_rustls String (ok tt) config events events "too many open files" waits

swap_seen_example :
    (added : List (Connection sample_rustls String)) × ((serve_mtls sample_rustls String
        (ok tt)
        config
        (events
          ++ (write (inner_written ("CA" ∷ [], "LEAF3" ∷ []))
              ∷ map loop_event (incoming (ok ("CA", "peer")) ∷ read_config ∷ [])))).connections
      ≡ added ++ (serve_mtls sample_rustls String (ok tt) config events).connections)
    × All (λ c. c.config ≡ ("CA" ∷ [], "LEAF3" ∷ [])) added
swap_seen_example =
    swap_seen sample_rustls String (ok tt) config events ("CA" ∷ [], "LEAF3" ∷ [])
      (incoming (ok ("CA", "peer")) ∷ read_config ∷ [])

running : (e : String) → (serve_mtls sample_rustls String (ok tt) config events).phase ≢ stopped e
unfolding program
running e h = cc

serve_mtls-installs_example :
    (serve_mtls sample_rustls String (ok tt) config events).tls_config
    ≡ (installs sample_rustls ((ok renewed, 270 * nanos_per_sec) ∷ []) rotation).config
serve_mtls-installs_example =
    serve_mtls-installs sample_rustls String (ok tt) rotation
      ((ok renewed, 270 * nanos_per_sec) ∷ []) interleaves running
