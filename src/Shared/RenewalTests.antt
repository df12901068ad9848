-- ===== src/Shared/RenewalTests.antt =====
-- The theorems on renewal and boot at concrete inputs, on a clock that only pauses move.
use secure_net.Base.{ℕ, ◌+◌, ◌*◌, ◌≤◌, ◌≡◌, ◌⊎◌, refl, String, false, some, arith, text_eq, [], ◌∷◌}
use secure_net.Base.Result.{Result, ok, err}
use secure_net.Samples.SampleHex.{sample_hex, sample_digest, encode, decode}
use secure_net.Samples.SampleJson.{sample_json, Tree, str, obj, entry, end, field}
use secure_net.Samples.SampleRustls.{sample_rustls}
use secure_net.Shared.Errors.{AppError, vault_unreachable}
use secure_net.Shared.Models.{CertBundle, nanos_per_sec, ttl_secs}
use secure_net.Shared.Attestation.{machine_id}
use secure_net.Base.{trim}
use secure_net.Shared.Exchange.{Transport}
use secure_net.Shared.Identity
use secure_net.Shared.Identity.{unseal}
use secure_net.Shared.Rotation.{
  Runtime, retry_renew, RotatingTlsConfig, config_for, new, new_gateway, Rotation, round,
  rotation_loop, give_up,
}
use secure_net.Shared.Rotation.Sleep.{sleep_secs, spacing}
use secure_net.Shared.Rotation.Sleep.Laws.{sleep_secs_bounds}
use secure_net.Shared.Rotation.Laws.{
  attempt_states, first_success, retry_renew-eq-first_success, IsConsistent, round_cases,
  late_retry,
}
use secure_net.Shared.Tls.{
  server_config, gateway_server_config, parse_cert_chain, parse_private_key, build_root_store,
}
use secure_net.Shared.Boot.{BootResult, booted, run, run_gateway}
use secure_net.Shared.Boot.Laws.{IsBooted, run-IsBooted}

program : Unit {0}
unfolding unseal retry_renew round rotation_loop new new_gateway config_for run run_gateway
    gateway_server_config encode decode field machine_id trim sleep_secs spacing server_config
    parse_cert_chain parse_private_key build_root_store
program = tt

abbrev bundle : CertBundle
bundle = record {
  cert_pem = "LEAF";
  key_pem = "KEY";
  ca_pem = "CA";
  expires_at = 300 * nanos_per_sec;
  serial = "0000000000000001";
}

abbrev pauses : Result CertBundle AppError → Runtime ℕ
pauses r = record {
  renew = λ service_name now. (r, now);
  sleep = λ n now. now + n * nanos_per_sec;
  now = λ now. now;
  show = λ n. "3";
}

abbrev down : Runtime ℕ
down = pauses (err (vault_unreachable "connection refused"))

abbrev up : Runtime ℕ
up = pauses (ok bundle)

abbrev config : RotatingTlsConfig sample_rustls
config = record {
  inner = ("CA" ∷ [], "LEAF" ∷ []);
  serial = "0000000000000001";
  is_gateway = false;
}

abbrev rotation : Rotation sample_rustls
rotation = record { config = config; ttl = 300 }

built : config_for sample_rustls false bundle ≡ ok config.inner
unfolding program
built = refl

abbrev config-IsConsistent : IsConsistent sample_rustls config
config-IsConsistent = record { bundle = bundle; built = built; serial = refl }

sleep_secs_bounds_example : (10 * sleep_secs 299 ≤ 9 * 299) × (9 * 299 ≤ 10 * sleep_secs 299 + 10)
sleep_secs_bounds_example = sleep_secs_bounds 299 (omega arith)

retry_renew-eq-first_success_example :
    retry_renew down "user-service" 3 7
    ≡ first_success down "user-service" 7 (attempt_states down "user-service" 7)
retry_renew-eq-first_success_example = retry_renew-eq-first_success down "user-service" 7

gives_up : retry_renew down "user-service" 3 7 ≡ (err (give_up down 3), 7 + 6 * nanos_per_sec)
unfolding program
gives_up = refl

round_cases_example :
    ((b : CertBundle) × ((retry_renew up "user-service" 3 (up.sleep (sleep_secs 300) 0)).0 ≡ ok b)
      × (config_for sample_rustls false b
          ≡ ok (round up sample_rustls "user-service" (rotation, 0)).0.config.inner)
      × ((round up sample_rustls "user-service" (rotation, 0)).0.config.serial ≡ b.serial)
      × ((round up sample_rustls "user-service" (rotation, 0)).0.ttl
          ≡ ttl_secs b (up.now (round up sample_rustls "user-service" (rotation, 0)).1)))
    ⊎ (((round up sample_rustls "user-service" (rotation, 0)).0 ≡ record rotation { ttl = 30 })
        × (((e : AppError) × ((retry_renew up "user-service" 3 (up.sleep (sleep_secs 300) 0)).0
                ≡ err e))
            ⊎ ((b : CertBundle) × (e : AppError) × ((retry_renew up "user-service" 3
                    (up.sleep (sleep_secs 300) 0)).0
                  ≡ ok b)
                × (config_for sample_rustls false b ≡ err e))))
round_cases_example = round_cases up sample_rustls "user-service" rotation 0

fails : (retry_renew down "user-service" 3 (down.sleep (sleep_secs 300) 0)).0 ≡ err (give_up down 3)
unfolding program
fails = refl

late_retry_example :
    (0 + 303 * nanos_per_sec
      ≤ down.now (
          down.sleep
            (sleep_secs (round down sample_rustls "user-service" (rotation, 0)).0.ttl)
            (round down sample_rustls "user-service" (rotation, 0)).1))
    × (ttl_secs bundle (
          down.now (
            down.sleep
              (sleep_secs (round down sample_rustls "user-service" (rotation, 0)).0.ttl)
              (round down sample_rustls "user-service" (rotation, 0)).1))
        ≡ 0)
late_retry_example =
    late_retry down sample_rustls "user-service" rotation 0 bundle (give_up down 3)
      (λ n t. omega arith) (λ t. omega arith) refl (omega arith) fails

-- A vault that grants the bundle.
abbrev granting : Transport Tree ℕ
granting = record {
  get = λ url now. (
    ok (record { status = 200; text = ok ""; json = ok (obj (entry "nonce" (str "0102") end)) }),
    now,
  );
  post = λ url req now.
      (ok (record { status = 200; text = ok ""; json = ok (record { bundle = bundle }) }), now);
}

abbrev machine_file : Result String String
machine_file = ok "m1\n"

abbrev boot_result : BootResult sample_hex sample_digest sample_json sample_rustls
boot_result =
    booted sample_hex sample_digest sample_json sample_rustls "user-service" "v" 5
      (record { state = Identity.serving; bundle = some bundle; service_name = "user-service" })
      bundle config

boots :
    (run sample_hex sample_digest sample_json sample_rustls granting
      (λ now. now)
      machine_file
      "user-service"
      "v"
      5).0
    ≡ ok boot_result
unfolding program
boots = refl

run-IsBooted_example :
    IsBooted sample_hex sample_digest sample_json sample_rustls "user-service" "v"
      (run sample_hex sample_digest sample_json sample_rustls granting
        (λ now. now)
        machine_file
        "user-service"
        "v"
        5).1
      false
      boot_result
run-IsBooted_example =
    run-IsBooted sample_hex sample_digest sample_json sample_rustls granting (λ now. now)
      machine_file "user-service" "v" 5 boot_result boots
